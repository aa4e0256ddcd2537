-- ===== src/Core/Transaction.antt =====
-- core/Transaction.cpp: the fields of a transaction, and the candidates of a ballot (core/Ballot.cpp).
use gsenetwork.Prelude.{ℕ, List, [], Bool, ◌==◌}
use gsenetwork.Prelude.Int.{ℤ, pos}

-- `hash` stands for `getHash()`, the SHA-3 of the other fields but the signature.
pub record Transaction : Type 0 where
  pub hash : ℕ
  pub chain_id : ℕ
  pub tx_type : ℕ
  pub sender : ℕ
  pub recipient : ℕ
  pub timestamp : ℤ
  pub content : List ℕ
  pub value : ℕ
  pub signature : ℕ

pub record Candidate : Type 0 where
  pub address : ℕ
  pub value : ℕ

-- The global `EmptyTransaction`. Hashes are numbers; that of the empty transaction is written 0.
abbrev pub empty_transaction : Transaction
empty_transaction = record {
  hash = 0;
  chain_id = 0;
  tx_type = 0;
  sender = 0;
  recipient = 0;
  timestamp = pos 0;
  content = [];
  value = 0;
  signature = 0;
}

-- `operator==`
unfoldable pub transaction_eq : Transaction → Transaction → Bool
transaction_eq s t = s.hash == t.hash
