-- ===== src/Storage/Repository.antt =====
-- runtime/storage/Repository.cpp: the accounts and producers as a block sees them.
pub mod Ledger
pub mod Book
pub mod Balance
pub mod Money
pub mod Total
pub mod Supply
pub mod Roster
pub mod Votes
pub mod Clear
pub mod Mirror
pub mod Counters
pub mod Frame
pub mod Beneath
pub mod Record
pub mod Branch
pub mod Fixtures
mod Examples
use gsenetwork.Prelude.{
  ℕ, ◌+◌, ◌*◌, ◌-◌, List, [], ◌∷◌, ◌++◌, Bool, true, false, ◌||◌, Option, none, some, ltb, ◌==◌,
  u64, add64, sub64, mul64, if◌then◌else◌, not,
}
use gsenetwork.Prelude.Action.{
  Error, overflow, no_account, not_enough, no_producer, Result, ok, err, Action, ◌>>=◌, ◌>>◌, pure,
  gets, modify, raise_if,
}
use gsenetwork.Prelude.Int.{ℤ}
use gsenetwork.Prelude.Map.{Map, insert}
use gsenetwork.Core.Account.{
  Account, AccountType, contract, type_eq, empty_account, new_account, account_eq, assign,
  set_balance as with_balance,
}
use gsenetwork.Core.Account
use gsenetwork.Core.Producer.{Producer, empty_producer, producer_eq}
use gsenetwork.Core.Producer
use gsenetwork.Core.Transaction.{Transaction}
use gsenetwork.Core.Block.{Block}
use gsenetwork.Storage.Cache.{Entity, put, read, fetch, put_all, store_all}
use gsenetwork.Storage.Database.{
  Database, account_entity, producer_entity, transaction_entity, db_account, db_producer,
  db_transaction, db_put_block,
}

-- A repository's own cache, and those of its ancestors, the nearest first.
pub record Layers (V : Type 0) : Type 0 where
  pub cache : Map V
  pub parents : List (Map V)

abbrev pub to_list : {V : Type 0} → Layers V → List (Map V)
to_list l = l.cache ∷ l.parents

abbrev pub of_list : {V : Type 0} → List (Map V) → Layers V
of_list [] = record { cache = []; parents = [] }
of_list (m ∷ ms) = record { cache = m; parents = ms }

pub record Repository : Type 0 where
  pub accounts : Layers Account
  pub producers : Layers Producer
  pub transactions : Layers Transaction
  pub block : Block
  pub db : Database

-- `getAccount`: what it returns, and the caches after it.
unfoldable pub found_account : ℕ → Repository → Account
found_account a r = (read (db_account r.db) a (to_list r.accounts)).0

unfoldable pub after_account : ℕ → Repository → Repository
after_account a r = record r {
  accounts = of_list (read (db_account r.db) a (to_list r.accounts)).1;
}

unfoldable pub get_account : ℕ → Action Repository Account
get_account a r = (ok (found_account a r), after_account a r)

-- `getProducer`, likewise.
pub found_producer : ℕ → Repository → Producer
found_producer a r = (read (db_producer r.db) a (to_list r.producers)).0

pub after_producer : ℕ → Repository → Repository
after_producer a r = record r {
  producers = of_list (read (db_producer r.db) a (to_list r.producers)).1;
}

unfoldable pub get_producer : ℕ → Action Repository Producer
get_producer a r = (ok (found_producer a r), after_producer a r)

-- `put(Account const&)` and `put(Producer const&)`
unfoldable pub store_account : Account → Repository → Repository
store_account v r = record r {
  accounts = record { cache = put v r.accounts.cache; parents = r.accounts.parents };
}

unfoldable pub put_account : Account → Action Repository (Unit {0})
put_account v = modify (store_account v)

unfoldable pub store_producer : Producer → Repository → Repository
store_producer v r = record r {
  producers = record { cache = put v r.producers.cache; parents = r.producers.parents };
}

unfoldable pub put_producer : Producer → Action Repository (Unit {0})
put_producer v = modify (store_producer v)

-- `getTransaction` and `put(Transaction&)`
pub found_transaction : ℕ → Repository → Transaction
found_transaction h r = (read (db_transaction r.db) h (to_list r.transactions)).0

unfoldable pub after_transaction : ℕ → Repository → Repository
after_transaction h r = record r {
  transactions = of_list (read (db_transaction r.db) h (to_list r.transactions)).1;
}

unfoldable pub get_transaction : ℕ → Action Repository Transaction
get_transaction h r = (ok (found_transaction h r), after_transaction h r)

unfoldable pub store_transaction : Transaction → Repository → Repository
store_transaction t r = record r {
  transactions = record { cache = put t r.transactions.cache; parents = r.transactions.parents };
}

unfoldable pub put_transaction : Transaction → Action Repository (Unit {0})
put_transaction t = modify (store_transaction t)

abbrev pub is_empty : Account → Bool
is_empty a = account_eq a empty_account

abbrev pub no_such : Producer → Bool
no_such p = producer_eq p empty_producer

-- `m_block.getBlockHeader().getTimestamp()`
abbrev pub block_time : Action Repository ℤ
block_time = gets λ r. r.block.timestamp

-- An account that is not there yet is opened with nothing on it.
abbrev pub open_if_empty : ℕ → ℤ → Account → Account
open_if_empty a t v = if is_empty v then assign v (new_account a 0 t) else v

pub get_balance : ℕ → Action Repository ℕ
get_balance a = do v ← get_account a; pure (if is_empty v then 0 else v.balance)

pub add_balance : ℕ → ℕ → Action Repository (Unit {0})
add_balance a amount = do
  v ← get_account a
  t ← block_time
  let v' = open_if_empty a t v
  raise_if (ltb (add64 v'.balance amount) amount) overflow
  put_account (with_balance (add64 v'.balance amount) v')

pub sub_balance : ℕ → ℕ → Action Repository (Unit {0})
sub_balance a amount = do
  v ← get_account a
  raise_if (is_empty v || ltb v.balance amount) not_enough
  put_account (with_balance (sub64 v.balance amount) v)

pub set_balance : ℕ → ℕ → Action Repository (Unit {0})
set_balance a value = do
  v ← get_account a
  t ← block_time
  put_account (with_balance value (open_if_empty a t v))

unfoldable pub transfer : ℕ → ℕ → ℕ → Action Repository (Unit {0})
transfer from to value = do
  f ← get_account from
  t ← get_account to
  raise_if (is_empty f) no_account
  now ← block_time
  let t' = open_if_empty to now t
  raise_if (ltb f.balance value || ltb (add64 t'.balance value) value) not_enough
  put_account (with_balance (sub64 f.balance value) f)
  put_account (with_balance (add64 t'.balance value) t')

unfoldable pub burn : ℕ → ℕ → Action Repository (Unit {0})
burn target value = do
  v ← get_account target
  raise_if (is_empty v) no_account
  raise_if (ltb v.balance value) not_enough
  put_account (with_balance (sub64 v.balance value) v)

unfoldable pub bonus : ℕ → ℕ → Action Repository (Unit {0})
bonus target value = do
  v ← get_account target
  raise_if (is_empty v) no_account
  put_account (with_balance (add64 v.balance value) v)

-- The loop of `clearVote` over the account's candidates.
pub erase_votes : ℕ → Map ℕ → Action Repository (Unit {0})
erase_votes a [] = pure tt
erase_votes a ((c, _) ∷ cs) =
    let rest = erase_votes a cs in
    (do
      p ← get_producer c
      raise_if (no_such p) no_producer
      put_producer (Producer.erase_voter a p)
      rest)

pub clear_vote : ℕ → Action Repository (Unit {0})
clear_vote a = do
  v ← get_account a
  raise_if (is_empty v) no_account
  erase_votes a v.candidates
  put_account (Account.clear_vote v)

pub vote_increase : ℕ → ℕ → ℕ → Action Repository (Unit {0})
vote_increase voter candidate value = do
  v ← get_account voter
  raise_if (is_empty v) no_account
  p ← get_producer candidate
  raise_if (no_such p) no_producer
  raise_if (ltb (sub64 v.balance (mul64 v.votes 1_000_000)) (mul64 value 1_000_000)) not_enough
  put_account (Account.add_voter candidate value v)
  put_producer (Producer.add_voter voter value p)
