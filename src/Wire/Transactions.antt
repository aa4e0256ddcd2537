-- ===== src/Wire/Transactions.antt =====
-- The streams of core/Transaction.cpp and core/Ballot.cpp.
pub mod RoundTrip
use gsenetwork.Prelude.{ℕ, List, [], ◌∷◌, Option, none, some}
use gsenetwork.Core.Transaction.{Transaction, Candidate}
use gsenetwork.Wire.Rlp.{Bytes, Parsed, broken, text, items, Rlp, ◌>>=◌, write_all, read_all}

module _ (r : Rlp) where
  -- `Transaction::streamRLPContent`: what is hashed and signed.
  unfoldable pub write_content : Transaction → Bytes
  write_content t = r.put_list (
      r.put_number t.chain_id
      ∷ r.put_number t.tx_type
      ∷ r.put_hash 160 t.sender
      ∷ r.put_hash 160 t.recipient
      ∷ r.put_int64 t.timestamp
      ∷ r.put_bytes t.content
      ∷ r.put_number t.value
      ∷ [])

  -- `Transaction::streamRLP`
  unfoldable pub write_transaction : Transaction → Bytes
  write_transaction t = r.put_list (
      r.put_number t.chain_id
      ∷ r.put_number t.tx_type
      ∷ r.put_hash 160 t.sender
      ∷ r.put_hash 160 t.recipient
      ∷ r.put_int64 t.timestamp
      ∷ r.put_bytes t.content
      ∷ r.put_number t.value
      ∷ r.put_hash 520 t.signature
      ∷ [])

  -- `Transaction::getHash`, over the SHA-3 of bytes.
  unfoldable pub hash_transaction : (Bytes → ℕ) → Transaction → ℕ
  hash_transaction sha3 t = sha3 (write_content t)

  -- `Transaction(bytesConstRef)`, on the items. The hash is that of the fields that were read.
  unfoldable pub transaction_of_items : (Bytes → ℕ) → List Bytes → Option Transaction
  transaction_of_items sha3 (x0 ∷ x1 ∷ x2 ∷ x3 ∷ x4 ∷ x5 ∷ x6 ∷ x7 ∷ []) = do
    chain_id ← r.get_number 64 x0
    tx_type ← r.get_number 32 x1
    sender ← r.get_hash 160 x2
    recipient ← r.get_hash 160 x3
    timestamp ← r.get_int64 x4
    value ← r.get_number 64 x6
    signature ← r.get_hash 520 x7
    let t : Transaction = record {
      hash = 0;
      chain_id = chain_id;
      tx_type = tx_type;
      sender = sender;
      recipient = recipient;
      timestamp = timestamp;
      content = r.get_bytes x5;
      value = value;
      signature = signature;
    }
    some (record t { hash = hash_transaction sha3 t })
  transaction_of_items sha3 _ = none

  -- `Transaction(bytesConstRef)`
  unfoldable pub read_transaction : (Bytes → ℕ) → Bytes → Option Transaction
  read_transaction sha3 b = elim (r.parse b) [ items xs ↦ transaction_of_items sha3 xs | _ ↦ none ]

  -- `Candidate::streamRLP`
  unfoldable pub write_candidate : Candidate → Bytes
  write_candidate c = r.put_list (r.put_hash 160 c.address ∷ r.put_number c.value ∷ [])

  -- `Candidate(bytesConstRef)`, on the items.
  unfoldable pub candidate_of_items : List Bytes → Option Candidate
  candidate_of_items (x0 ∷ x1 ∷ []) = do
    address ← r.get_hash 160 x0
    value ← r.get_number 64 x1
    some (record { address = address; value = value })
  candidate_of_items _ = none

  -- `Candidate(bytesConstRef)`
  unfoldable pub read_candidate : Bytes → Option Candidate
  read_candidate b = elim (r.parse b) [ items xs ↦ candidate_of_items xs | _ ↦ none ]

  -- `Ballot::streamRLP`
  unfoldable pub write_ballot : List Candidate → Bytes
  write_ballot cs = r.put_list (write_all write_candidate cs)

  -- `Ballot(bytesConstRef)`: a list with no item is refused.
  unfoldable pub ballot_of_items : Parsed → Option (List Candidate)
  ballot_of_items (items (x ∷ xs)) = read_all read_candidate (x ∷ xs)
  ballot_of_items _ = none

  unfoldable pub read_ballot : Bytes → Option (List Candidate)
  read_ballot b = ballot_of_items (r.parse b)
