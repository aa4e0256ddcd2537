-- ===== src/Wire/States/RoundTrip.antt =====
-- On chain/BlockState.cpp: what was written is read back.
use gsenetwork.Prelude.{◌^◌, ◌<◌, [], ◌∷◌, true, some, ◌≡◌, refl, All, arith}
use gsenetwork.Chain.BlockState.{HeaderConfirmation, BlockState, block_state_eq, is_solidified}
use gsenetwork.Wire.Rlp.{Rlp, IsRlp, IsTime, ◌>>=◌, write_all, read_until-write_all, All-write_all}
use gsenetwork.Wire.Accounts.{write_snapshot}
use gsenetwork.Wire.Accounts.RoundTrip.{ProducerFits, snapshot_item, populate-write_snapshot}
use gsenetwork.Wire.States.{
  write_confirmation, confirmation_of_items, read_confirmation, write_state, state_of_items,
  read_state,
}

abbrev pub ConfirmationFits : HeaderConfirmation → Type 0
ConfirmationFits c =
    (c.chain_id < 2 ^ 64)
    × (c.number < 2 ^ 64)
    × (c.block_id < 2 ^ 256)
    × IsTime c.timestamp
    × (c.producer < 2 ^ 160)
    × (c.signature < 2 ^ 520)

abbrev pub StateFits : BlockState → Type 0
StateFits bs =
    (bs.block_number < 2 ^ 64)
    × (bs.block_id < 2 ^ 256)
    × IsTime bs.active_producers.timestamp
    × All ProducerFits bs.active_producers.producers
    × (bs.confirm_count < 256)
    × All ConfirmationFits bs.confirmations

module _ (r : Rlp) (laws : IsRlp r) where
  confirmation_items :
      (c : HeaderConfirmation)
      → All laws.IsItem (
          r.put_number c.chain_id
          ∷ r.put_number c.number
          ∷ r.put_hash 256 c.block_id
          ∷ r.put_int64 c.timestamp
          ∷ r.put_hash 160 c.producer
          ∷ r.put_hash 520 c.signature
          ∷ [])
  confirmation_items c = (
    laws.number_item _,
    (
      laws.number_item _,
      (laws.hash_item _ _, (laws.int64_item _, (laws.hash_item _ _, (laws.hash_item _ _, tt)))),
    ),
  )

  confirmation_item : (c : HeaderConfirmation) → laws.IsItem (write_confirmation r c)
  unfolding write_confirmation
  confirmation_item c = laws.list_item _ (confirmation_items c)

  -- A confirmation that is written and read again is as it was, with its signature. Its numbers are to be
  -- in range.
  pub read_confirmation-write_confirmation :
      (c : HeaderConfirmation)
      → ConfirmationFits c
      → read_confirmation r (write_confirmation r c) ≡ some c
  unfolding read_confirmation write_confirmation confirmation_of_items
  read_confirmation-write_confirmation c h = rw (
    laws.parse_list _ (confirmation_items c),
    read_confirmation,
    confirmation_of_items,
    laws.number 64 _ h.0,
    laws.number 64 _ h.1,
    laws.hash 256 _ h.2,
    laws.int64 _ h.3,
    laws.hash 160 _ h.4,
    laws.hash 520 _ h.5,
    ◌>>=◌,
  )

  pub read_state_lem :
      (bs fresh : BlockState)
      → StateFits bs
      → fresh.confirmations ≡ []
      → read_state r (write_state r bs) fresh ≡ record fresh {
        block_number = bs.block_number;
        block_id = bs.block_id;
        active_producers = bs.active_producers;
        confirm_count = bs.confirm_count;
        confirmations = bs.confirmations;
      }
  unfolding read_state write_state state_of_items
  read_state_lem bs fresh h empty = rw (
    laws.parse_list
        (r.put_number bs.block_number
          ∷ r.put_hash 256 bs.block_id
          ∷ write_snapshot r bs.active_producers
          ∷ r.put_number bs.confirm_count
          ∷ write_all (write_confirmation r) bs.confirmations)
        (
          laws.number_item _,
          (
            laws.hash_item _ _,
            (
              snapshot_item r laws bs.active_producers,
              (
                laws.number_item _,
                All-write_all (write_confirmation r) laws.IsItem confirmation_item bs.confirmations,
              ),
            ),
          ),
        ),
    read_state,
    state_of_items,
    laws.number 64 _ h.0,
    laws.hash 256 _ h.1,
    laws.number 8 _ h.4,
    populate-write_snapshot r laws bs.active_producers fresh.active_producers h.2 h.3,
    empty,
    read_until-write_all (write_confirmation r) (read_confirmation r) ConfirmationFits
        read_confirmation-write_confirmation bs.confirmations [] h.5,
  )

  -- A block state that is written, and read into a new one, has the number, the identifier, the producers
  -- and the confirmations that it had, with their count; so `operator==` holds between the two, and the one
  -- is solidified exactly if the other is. Numbers are to be in range. The block is the new state's.
  pub read_state-write_state :
      (bs fresh : BlockState)
      → StateFits bs
      → fresh.confirmations ≡ []
      → (block_state_eq (read_state r (write_state r bs) fresh) bs ≡ true)
        × ((read_state r (write_state r bs) fresh).confirmations ≡ bs.confirmations)
        × ((read_state r (write_state r bs) fresh).active_producers ≡ bs.active_producers)
        × (is_solidified (read_state r (write_state r bs) fresh) ≡ is_solidified bs)
        × ((read_state r (write_state r bs) fresh).block ≡ fresh.block)
  read_state-write_state bs fresh h empty =
      rw (read_state_lem bs fresh h empty) (ground arith, refl, refl, refl, refl)
