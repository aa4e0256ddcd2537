-- ===== src/Wire/States.antt =====
-- The streams of chain/BlockState.cpp.
pub mod RoundTrip
use gsenetwork.Prelude.{ℕ, List, [], ◌∷◌, Option, none, some}
use gsenetwork.Chain.BlockState.{HeaderConfirmation, BlockState}
use gsenetwork.Wire.Rlp.{Bytes, items, Rlp, ◌>>=◌, write_all, read_until}
use gsenetwork.Wire.Accounts.{write_snapshot, populate}

module _ (r : Rlp) where
  -- `HeaderConfirmation::streamRLP`
  unfoldable pub write_confirmation : HeaderConfirmation → Bytes
  write_confirmation c = r.put_list (
      r.put_number c.chain_id
      ∷ r.put_number c.number
      ∷ r.put_hash 256 c.block_id
      ∷ r.put_int64 c.timestamp
      ∷ r.put_hash 160 c.producer
      ∷ r.put_hash 520 c.signature
      ∷ [])

  -- `HeaderConfirmation(bytesConstRef)`, on the items.
  unfoldable pub confirmation_of_items : List Bytes → Option HeaderConfirmation
  confirmation_of_items (x0 ∷ x1 ∷ x2 ∷ x3 ∷ x4 ∷ x5 ∷ []) = do
    chain_id ← r.get_number 64 x0
    number ← r.get_number 64 x1
    block_id ← r.get_hash 256 x2
    timestamp ← r.get_int64 x3
    producer ← r.get_hash 160 x4
    signature ← r.get_hash 520 x5
    some (record {
      chain_id = chain_id;
      number = number;
      block_id = block_id;
      timestamp = timestamp;
      producer = producer;
      signature = signature;
    })
  confirmation_of_items _ = none

  unfoldable pub read_confirmation : Bytes → Option HeaderConfirmation
  read_confirmation b = elim (r.parse b) [ items xs ↦ confirmation_of_items xs | _ ↦ none ]

  -- `BlockState::streamRLP`: the block itself is not written.
  unfoldable pub write_state : BlockState → Bytes
  write_state bs = r.put_list (
      r.put_number bs.block_number
      ∷ r.put_hash 256 bs.block_id
      ∷ write_snapshot r bs.active_producers
      ∷ r.put_number bs.confirm_count
      ∷ write_all write_confirmation bs.confirmations)

  -- `BlockState(bytesConstRef)`, on the items: an exception ends the reading, and what was read stays.
  -- `fresh` is a new block state.
  unfoldable pub state_of_items : List Bytes → BlockState → BlockState
  state_of_items (x0 ∷ x1 ∷ x2 ∷ x3 ∷ xs) fresh = elim (r.get_number 64 x0) [
    | none ↦ fresh
    | some number ↦
        let s0 = record fresh { block_number = number } in
        elim (r.get_hash 256 x1) [
          | none ↦ s0
          | some id ↦
              let s1 = record s0 {
                block_id = id;
                active_producers = populate r x2 fresh.active_producers;
              } in
              elim (r.get_number 8 x3) [
                | none ↦ s1
                | some count ↦ record s1 {
                  confirm_count = count;
                  confirmations = read_until read_confirmation xs fresh.confirmations;
                }
              ]
        ]
  ]
  state_of_items _ fresh = fresh

  unfoldable pub read_state : Bytes → BlockState → BlockState
  read_state b fresh = elim (r.parse b) [ items xs ↦ state_of_items xs fresh | _ ↦ fresh ]
