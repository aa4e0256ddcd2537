-- ===== src/Wire/Transactions/RoundTrip.antt =====
-- On core/Transaction.cpp and core/Ballot.cpp: what was written is read back.
use gsenetwork.Prelude.{ℕ, ◌^◌, ◌<◌, List, [], ◌∷◌, none, some, ◌≡◌, sym, ap, All}
use gsenetwork.Core.Transaction.{Transaction, Candidate}
use gsenetwork.Wire.Rlp.{
  Bytes, Rlp, IsRlp, IsTime, ◌>>=◌, write_all, read_all-write_all, All-write_all,
}
use gsenetwork.Wire.Transactions.{
  write_content, write_transaction, hash_transaction, transaction_of_items, read_transaction,
  write_candidate, candidate_of_items, read_candidate, write_ballot, ballot_of_items, read_ballot,
}

-- The values that the streams keep.
abbrev pub TransactionFits : Transaction → Type 0
TransactionFits t =
    (t.chain_id < 2 ^ 64)
    × (t.tx_type < 2 ^ 32)
    × (t.sender < 2 ^ 160)
    × (t.recipient < 2 ^ 160)
    × IsTime t.timestamp
    × (t.value < 2 ^ 64)
    × (t.signature < 2 ^ 520)

abbrev pub CandidateFits : Candidate → Type 0
CandidateFits c = (c.address < 2 ^ 160) × (c.value < 2 ^ 64)

module _ (r : Rlp) (laws : IsRlp r) where
  transaction_items :
      (t : Transaction)
      → All laws.IsItem (
          r.put_number t.chain_id
          ∷ r.put_number t.tx_type
          ∷ r.put_hash 160 t.sender
          ∷ r.put_hash 160 t.recipient
          ∷ r.put_int64 t.timestamp
          ∷ r.put_bytes t.content
          ∷ r.put_number t.value
          ∷ r.put_hash 520 t.signature
          ∷ [])
  transaction_items t = (
    laws.number_item _,
    (
      laws.number_item _,
      (
        laws.hash_item _ _,
        (
          laws.hash_item _ _,
          (laws.int64_item _, (laws.bytes_item _, (laws.number_item _, (laws.hash_item _ _, tt)))),
        ),
      ),
    ),
  )

  pub transaction_item : (t : Transaction) → laws.IsItem (write_transaction r t)
  unfolding write_transaction
  transaction_item t = laws.list_item _ (transaction_items t)

  -- A transaction that is written and read again is as it was, with its hash. Its numbers are to be in
  -- range, and its hash to be the SHA-3 of its content.
  pub read_transaction-write_transaction :
      (sha3 : Bytes → ℕ) (t : Transaction)
      → TransactionFits t
      → t.hash ≡ hash_transaction r sha3 t
      → read_transaction r sha3 (write_transaction r t) ≡ some t
  unfolding read_transaction write_transaction transaction_of_items hash_transaction write_content
  read_transaction-write_transaction sha3 t h e =
      rw
        (
          laws.parse_list _ (transaction_items t),
          read_transaction,
          transaction_of_items,
          laws.number 64 _ h.0,
          laws.number 32 _ h.1,
          laws.hash 160 _ h.2,
          laws.hash 160 _ h.3,
          laws.int64 _ h.4,
          laws.number 64 _ h.5,
          laws.hash 520 _ h.6,
          laws.bytes t.content,
          ◌>>=◌,
        )
        (ap (λ h. some (record t { hash = h })) (sym e))

  candidate_item : (c : Candidate) → laws.IsItem (write_candidate r c)
  unfolding write_candidate
  candidate_item c = laws.list_item _ (laws.hash_item _ _, (laws.number_item _, tt))

  candidate_back :
      (c : Candidate) → CandidateFits c → read_candidate r (write_candidate r c) ≡ some c
  unfolding read_candidate write_candidate candidate_of_items
  candidate_back c h = rw (
    laws.parse_list (r.put_hash 160 c.address ∷ r.put_number c.value ∷ [])
        (laws.hash_item _ _, (laws.number_item _, tt)),
    read_candidate,
    candidate_of_items,
    laws.hash 160 _ h.0,
    laws.number 64 _ h.1,
    ◌>>=◌,
  )

  -- A ballot that is written and read again names the same candidates with the same votes in the same
  -- order, and one with no candidate is refused. Numbers are to be in range.
  pub read_ballot-write_ballot :
      (cs : List Candidate)
      → All CandidateFits cs
      → read_ballot r (write_ballot r cs) ≡ elim cs [ [] ↦ none | c ∷ rest ↦ some (c ∷ rest) ]
  unfolding read_ballot write_ballot ballot_of_items
  read_ballot-write_ballot [] h = rw (laws.parse_list [] tt)
  read_ballot-write_ballot (c ∷ cs) h = rw (
    laws.parse_list (write_all (write_candidate r) (c ∷ cs))
        (All-write_all (write_candidate r) laws.IsItem candidate_item (c ∷ cs)),
    ballot_of_items,
    read_all-write_all (write_candidate r) (read_candidate r) CandidateFits candidate_back (c ∷ cs)
        h,
  )
