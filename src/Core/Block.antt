-- ===== src/Core/Block.antt =====
-- core/Block.cpp: the fields that the chain reads. `hash` stands for the SHA-3 of the header.
use gsenetwork.Prelude.{ℕ, List, [], Bool, false, ◌==◌}
use gsenetwork.Prelude.Int.{ℤ, pos}
use gsenetwork.Core.Transaction.{Transaction}

pub record Block : Type 0 where
  pub hash : ℕ
  pub chain_id : ℕ
  pub producer : ℕ
  pub parent_hash : ℕ
  pub number : ℕ
  pub timestamp : ℤ
  pub transactions : List Transaction
  pub sync_block : Bool

-- `operator==`
abbrev pub block_eq : Block → Block → Bool
block_eq a b = a.hash == b.hash

-- The global `EmptyBlock`. Hashes are numbers; that of the empty block is written 0.
abbrev pub empty_block : Block
empty_block = record {
  hash = 0;
  chain_id = 0;
  producer = 0;
  parent_hash = 0;
  number = 0;
  timestamp = pos 0;
  transactions = [];
  sync_block = false;
}
