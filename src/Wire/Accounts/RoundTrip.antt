-- ===== src/Wire/Accounts/RoundTrip.antt =====
-- On core/Account.cpp and core/Producer.cpp: what was written is read back.
use gsenetwork.Prelude.{
  ℕ, ◌^◌, ◌<◌, ◌≤◌, List, [], ◌∷◌, Bool, true, false, not, ◌==◌, none, some, ◌≡◌, refl, All, arith,
}
use gsenetwork.Prelude.Map.{Map, IsSorted}
use gsenetwork.Core.Account.{Account, AccountType, external, contract}
use gsenetwork.Core.Producer.{Producer}
use gsenetwork.Core.Snapshot.{ProducerSnapshot}
use gsenetwork.Wire.Rlp.{
  Bytes, Rlp, IsRlp, IsTime, ◌>>=◌, write_all, read_all-write_all, read_until-write_all,
  All-write_all,
}
use gsenetwork.Wire.Pairs.{Fit, write_pairs, All-write_pairs, read_pairs-write_pairs}
use gsenetwork.Wire.Accounts.{
  write_account, account_of_items, read_account, read_addresses, read_votes, write_producer,
  producer_of_items, read_producer, write_snapshot, populate_items, populate, number_of_type,
  type_of_number, number_of_bool,
}

-- The values that the streams keep. `toPositiveInt64` reads the balance and the votes of an account, and
-- `toInt<uint64_t>` those of a producer.
abbrev pub AccountFits : Account → Type 0
AccountFits a =
    (a.address < 2 ^ 160)
    × (a.balance < 2 ^ 63)
    × IsTime a.timestamp
    × All (λ c. c < 2 ^ 160) a.contract_addresses
    × (a.votes < 2 ^ 63)
    × Fit (2 ^ 63) a.candidates
    × IsSorted a.candidates

abbrev pub ProducerFits : Producer → Type 0
ProducerFits p =
    (p.address < 2 ^ 160)
    × IsTime p.timestamp
    × (p.votes < 2 ^ 64)
    × Fit (2 ^ 64) p.voters
    × IsSorted p.voters

type_back : (t : AccountType) → type_of_number (number_of_type t) ≡ t
type_back external = refl
type_back contract = refl

alive_back : (b : Bool) → not (number_of_bool b == 0) ≡ b
alive_back true = refl
alive_back false = refl

module _ (r : Rlp) (laws : IsRlp r) where
  pub number_small :
      (t : AccountType)
      → r.get_number 32 (r.put_number (number_of_type t)) ≡ some (number_of_type t)
  number_small external = laws.number 32 1 (omega arith)
  number_small contract = laws.number 32 2 (omega arith)

  alive_small :
      (b : Bool) → r.get_number 8 (r.put_number (number_of_bool b)) ≡ some (number_of_bool b)
  alive_small true = laws.number 8 1 (omega arith)
  alive_small false = laws.number 8 0 (omega arith)

  account_items :
      (a : Account)
      → All laws.IsItem (
          r.put_hash 160 a.address
          ∷ r.put_number (number_of_type a.account_type)
          ∷ r.put_bytes a.code
          ∷ r.put_number (number_of_bool a.alive)
          ∷ r.put_number a.balance
          ∷ r.put_int64 a.timestamp
          ∷ r.put_list (write_all (r.put_hash 160) a.contract_addresses)
          ∷ r.put_number a.votes
          ∷ r.put_list (write_pairs r a.candidates)
          ∷ [])
  account_items a = (
    laws.hash_item _ _,
    (
      laws.number_item _,
      (
        laws.bytes_item _,
        (
          laws.number_item _,
          (
            laws.number_item _,
            (
              laws.int64_item _,
              (
                laws.list_item _
                    (All-write_all (r.put_hash 160) laws.IsItem (laws.hash_item 160) _),
                (laws.number_item _, (laws.list_item _ (All-write_pairs r laws _), tt)),
              ),
            ),
          ),
        ),
      ),
    ),
  )

  producer_items :
      (p : Producer)
      → All laws.IsItem (
          r.put_hash 160 p.address
          ∷ r.put_int64 p.timestamp
          ∷ r.put_number p.votes
          ∷ r.put_list (write_pairs r p.voters)
          ∷ [])
  producer_items p = (
    laws.hash_item _ _,
    (laws.int64_item _, (laws.number_item _, (laws.list_item _ (All-write_pairs r laws _), tt))),
  )

  votes_back :
      (bound : ℕ) (get : Bytes → _) (back : (n : ℕ) → n < bound → get (r.put_number n) ≡ some n)
      (m : Map ℕ)
      → Fit bound m
      → IsSorted m
      → read_votes r get (r.parse (r.put_list (write_pairs r m))) ≡ some m
  unfolding read_votes
  votes_back bound get back m h s =
      rw (laws.parse_list _ (All-write_pairs r laws m))
        (read_pairs-write_pairs r laws bound get back m [] h s)

  addresses_back :
      (xs : List ℕ)
      → All (λ c. c < 2 ^ 160) xs
      → read_addresses r (r.parse (r.put_list (write_all (r.put_hash 160) xs))) ≡ some xs
  unfolding read_addresses
  addresses_back xs h =
      rw (laws.parse_list _ (All-write_all (r.put_hash 160) laws.IsItem (laws.hash_item 160) xs)) (
        read_all-write_all (r.put_hash 160) (r.get_hash 160) (λ c. c < 2 ^ 160) (laws.hash 160) xs
          h)

  pub producer_item : (p : Producer) → laws.IsItem (write_producer r p)
  unfolding write_producer
  producer_item p = laws.list_item _ (producer_items p)

  -- An account that is written and read again has the fields that it had, but its code is what the stream
  -- holds for the code: the code with the header of an RLP string, which the next reading prefixes again.
  -- Numbers are to be in range, and the balance and the votes below 2 ^ 63.
  pub read_account-write_account :
      (a : Account)
      → AccountFits a
      → read_account r (write_account r a) ≡ some (record a { code = r.put_bytes a.code })
  unfolding read_account write_account account_of_items
  read_account-write_account a h = rw (
    laws.parse_list _ (account_items a),
    read_account,
    laws.hash 160 _ h.0,
    number_small a.account_type,
    alive_small a.alive,
    laws.positive _ h.1,
    laws.int64 _ h.2,
    addresses_back _ h.3,
    laws.positive _ h.4,
    votes_back (2 ^ 63) r.get_positive laws.positive _ h.5 h.6,
    type_back,
    alive_back,
    ◌>>=◌,
  )

  -- An account whose balance is at least 2 ^ 63, and below 2 ^ 64, can be written but not read again: the
  -- constructor throws.
  pub read_account_too_rich :
      (a : Account)
      → a.address < 2 ^ 160
      → 2 ^ 63 ≤ a.balance
      → a.balance < 2 ^ 64
      → read_account r (write_account r a) ≡ none
  unfolding read_account write_account account_of_items
  read_account_too_rich a h low high = rw (
    laws.parse_list _ (account_items a),
    read_account,
    laws.hash 160 _ h,
    number_small a.account_type,
    alive_small a.alive,
    laws.negative _ low high,
  )

  -- A producer that is written and read again is as it was, with its votes and its voters. Numbers are to
  -- be in range, and the voters in key order.
  pub read_producer-write_producer :
      (p : Producer) → ProducerFits p → read_producer r (write_producer r p) ≡ some p
  unfolding read_producer write_producer producer_of_items
  read_producer-write_producer p h = rw (
    laws.parse_list _ (producer_items p),
    read_producer,
    ◌>>=◌,
    laws.hash 160 _ h.0,
    laws.int64 _ h.1,
    laws.number 64 _ h.2,
    votes_back (2 ^ 64) (r.get_number 64) (laws.number 64) _ h.3 h.4,
  )

  pub snapshot_item : (s : ProducerSnapshot) → laws.IsItem (write_snapshot r s)
  unfolding write_snapshot
  snapshot_item s = laws.list_item _ (
    laws.int64_item s.timestamp,
    All-write_all (write_producer r) laws.IsItem producer_item s.producers,
  )

  -- A snapshot that is written and read into any other is as it was. Numbers are to be in range.
  pub populate-write_snapshot :
      (s old : ProducerSnapshot)
      → IsTime s.timestamp
      → All ProducerFits s.producers
      → populate r (write_snapshot r s) old ≡ s
  unfolding populate write_snapshot populate_items
  populate-write_snapshot s old ht hs = rw (
    laws.parse_list (r.put_int64 s.timestamp ∷ write_all (write_producer r) s.producers) (
      laws.int64_item s.timestamp,
      All-write_all (write_producer r) laws.IsItem producer_item s.producers,
    ),
    populate,
    populate_items,
    laws.int64 _ ht,
    read_until-write_all (write_producer r) (read_producer r) ProducerFits
        read_producer-write_producer s.producers [] hs,
  )
