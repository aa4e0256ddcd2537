-- ===== src/Wire/Accounts.antt =====
-- The streams of core/Account.cpp and core/Producer.cpp, with those of the producer snapshots.
pub mod RoundTrip
use gsenetwork.Prelude.{
  ℕ, List, [], ◌∷◌, Bool, true, false, not, Option, none, some, ◌==◌, if◌then◌else◌,
}
use gsenetwork.Prelude.Int.{ℤ, pos}
use gsenetwork.Prelude.Map.{Map}
use gsenetwork.Core.Account.{Account, AccountType, external, contract}
use gsenetwork.Core.Producer.{Producer}
use gsenetwork.Core.Snapshot.{ProducerSnapshot}
use gsenetwork.Wire.Rlp.{
  Bytes, Parsed, broken, text, items, Rlp, ◌>>=◌, write_all, read_all, read_until,
}
use gsenetwork.Wire.Pairs.{write_pairs, read_pairs}

abbrev pub number_of_type : AccountType → ℕ
number_of_type external = 1
number_of_type contract = 2

-- `(AccountType)`. Numbers that are no enumerators count as that of a contract here.
abbrev pub type_of_number : ℕ → AccountType
type_of_number n = if n == 1 then external else contract

abbrev pub number_of_bool : Bool → ℕ
number_of_bool true = 1
number_of_bool false = 0

module _ (r : Rlp) where
  -- `Account::streamRLP`
  unfoldable pub write_account : Account → Bytes
  write_account a = r.put_list (
      r.put_hash 160 a.address
      ∷ r.put_number (number_of_type a.account_type)
      ∷ r.put_bytes a.code
      ∷ r.put_number (number_of_bool a.alive)
      ∷ r.put_number a.balance
      ∷ r.put_int64 a.timestamp
      ∷ r.put_list (write_all (r.put_hash 160) a.contract_addresses)
      ∷ r.put_number a.votes
      ∷ r.put_list (write_pairs r a.candidates)
      ∷ [])

  -- The loop over the contract addresses, which are no list or a list; `RLP` itself may throw.
  unfoldable pub read_addresses : Parsed → Option (List ℕ)
  read_addresses broken = none
  read_addresses text = some []
  read_addresses (items xs) = read_all (r.get_hash 160) xs

  -- The loop over the votes.
  unfoldable pub read_votes : (Bytes → Option ℕ) → Parsed → Option (Map ℕ)
  read_votes get broken = none
  read_votes get text = some []
  read_votes get (items xs) = read_pairs r get xs []

  -- `Account(bytesConstRef)`, on the items. The code is what `data()` gives, not `toBytes()`.
  unfoldable pub account_of_items : List Bytes → Option Account
  account_of_items (x0 ∷ x1 ∷ x2 ∷ x3 ∷ x4 ∷ x5 ∷ x6 ∷ x7 ∷ x8 ∷ []) = do
    address ← r.get_hash 160 x0
    account_type ← r.get_number 32 x1
    alive ← r.get_number 8 x3
    balance ← r.get_positive x4
    timestamp ← r.get_int64 x5
    contract_addresses ← read_addresses (r.parse x6)
    votes ← r.get_positive x7
    candidates ← read_votes r.get_positive (r.parse x8)
    some (record {
      address = address;
      account_type = type_of_number account_type;
      code = x2;
      alive = not (alive == 0);
      balance = balance;
      timestamp = timestamp;
      contract_addresses = contract_addresses;
      votes = votes;
      candidates = candidates;
    })
  account_of_items _ = none

  -- `Account(bytesConstRef)`
  unfoldable pub read_account : Bytes → Option Account
  read_account b = elim (r.parse b) [ items xs ↦ account_of_items xs | _ ↦ none ]

  -- `Producer::streamRLP`
  unfoldable pub write_producer : Producer → Bytes
  write_producer p = r.put_list (
      r.put_hash 160 p.address
      ∷ r.put_int64 p.timestamp
      ∷ r.put_number p.votes
      ∷ r.put_list (write_pairs r p.voters)
      ∷ [])

  -- `Producer(bytesConstRef)`, on the items.
  unfoldable pub producer_of_items : List Bytes → Option Producer
  producer_of_items (x0 ∷ x1 ∷ x2 ∷ x3 ∷ []) = do
    address ← r.get_hash 160 x0
    timestamp ← r.get_int64 x1
    votes ← r.get_number 64 x2
    voters ← read_votes (r.get_number 64) (r.parse x3)
    some (record { address = address; timestamp = timestamp; votes = votes; voters = voters })
  producer_of_items _ = none

  -- `Producer(bytesConstRef)`
  unfoldable pub read_producer : Bytes → Option Producer
  read_producer b = elim (r.parse b) [ items xs ↦ producer_of_items xs | _ ↦ none ]

  -- `ProducerSnapshot::streamRLP`
  unfoldable pub write_snapshot : ProducerSnapshot → Bytes
  write_snapshot s = r.put_list (r.put_int64 s.timestamp ∷ write_all write_producer s.producers)

  -- `ProducerSnapshot::populate`, on the items: an exception ends the loop and leaves what was read.
  unfoldable pub populate_items : List Bytes → ProducerSnapshot → ProducerSnapshot
  populate_items [] s = s
  populate_items (x ∷ xs) s = elim (r.get_int64 x) [
    | none ↦ s
    | some t ↦ record { timestamp = t; producers = read_until read_producer xs s.producers }
  ]

  -- `ProducerSnapshot::populate`
  unfoldable pub populate : Bytes → ProducerSnapshot → ProducerSnapshot
  populate b s =
      let cleared = record s { producers = [] } in
      elim (r.parse b) [ items xs ↦ populate_items xs cleared | _ ↦ cleared ]
