-- ===== src/Chain/Execute.antt =====
-- `doProcessBlock` of chain/BlockChain.cpp, on the repositories of the memory queue. The confirmation that
-- the node sends, the schedule and the records of producers, which it also updates, are left out here.
pub mod Once
pub mod Shown
pub mod Fixtures
mod Examples
use gsenetwork.Prelude.{ℕ, ◌/◌, ◌^◌, List, [], ◌∷◌, Bool, true, false, not, if◌then◌else◌, Option}
use gsenetwork.Prelude.Int.{ℤ, ◌-ℤ◌, quot}
use gsenetwork.Prelude.Action.{ok, err}
use gsenetwork.Core.Transaction.{Transaction, Candidate, empty_transaction, transaction_eq}
use gsenetwork.Core.Block.{Block}
use gsenetwork.Storage.Database.{Database, db_transaction}
use gsenetwork.Core.Account.{Account}
use gsenetwork.Core.Producer.{Producer}
use gsenetwork.Prelude.Map.{Map}
use gsenetwork.Storage.Repository.{
  Repository, to_list, of_list, found_transaction, after_transaction, bonus,
}
use gsenetwork.Storage.Repository.Branch.{child}
use gsenetwork.Slots.{genesis, to_unsigned}
use gsenetwork.Runtime.{run}

-- The back of the memory queue: its repository, or the database under the empty queue.
pub data Back : Type 0 where
  no_item : Database → Back
  item : Repository → Back

abbrev pub back_db : Back → Database
back_db (no_item db) = db
back_db (item r) = r.db

-- The chains of caches at the back of the queue; there is none under the empty queue.
abbrev pub back_accounts : Back → List (Map Account)
back_accounts (no_item db) = []
back_accounts (item r) = to_list r.accounts

abbrev pub back_producers : Back → List (Map Producer)
back_producers (no_item db) = []
back_producers (item r) = to_list r.producers

abbrev pub back_transactions : Back → List (Map Transaction)
back_transactions (no_item db) = []
back_transactions (item r) = to_list r.transactions

-- `isExistInRepo`
unfoldable pub is_exist_in_repo : Transaction → Back → Bool × Back
is_exist_in_repo t (no_item db) =
    (not (transaction_eq (db_transaction db t.hash) empty_transaction), no_item db)
is_exist_in_repo t (item r) = (
  not (transaction_eq (found_transaction t.hash r) empty_transaction),
  item (after_transaction t.hash r),
)

-- The loop over the block's transactions before it is executed.
unfoldable pub any_exists : List Transaction → Back → Bool × Back
any_exists [] m = (false, m)
any_exists (t ∷ ts) m =
    let (found, m') = is_exist_in_repo t m in
    let rest = any_exists ts m' in if found then (true, m') else rest

-- `addMemoryItem`
abbrev pub add_memory_item : Block → Back → Repository
add_memory_item b (no_item db) = record {
  accounts = record { cache = []; parents = [] };
  producers = record { cache = []; parents = [] };
  transactions = record { cache = []; parents = [] };
  block = b;
  db = db;
}
add_memory_item b (item r) = child b r

-- `cancelMemoryItem`: the back before the block, with the caches that reads left below it.
abbrev pub cancel_memory_item : Back → Repository → Back
cancel_memory_item (no_item _) s = no_item s.db
cancel_memory_item (item r) s = item (record r {
  accounts = of_list s.accounts.parents;
  producers = of_list s.producers.parents;
  transactions = of_list s.transactions.parents;
  db = s.db;
})

-- BLOCK_BONUS_BASE, halved each year of MILLISECONDS_PER_YEAR. After 64 years, and for times more than a
-- year before the genesis, the source shifts 64 bits by 64 or more, which C++ leaves undefined; the bonus
-- is 0 here.
unfoldable pub block_bonus : ℤ → ℕ
block_bonus t = 512_000_000 / 2 ^ to_unsigned (quot (t -ℤ genesis) 31_536_000_000)

-- `doProcessBlock`: whether the block was executed, and the back of the queue after it.
unfoldable pub do_process_block : (List ℕ → Option (List Candidate)) → Block → Back → Bool × Back
do_process_block ballot_of b m =
    let (found, m1) = any_exists b.transactions m in
    let (result, s) = run ballot_of b.transactions (add_memory_item b m1) in
    let (paid, s') = bonus b.producer (block_bonus b.timestamp) s in
    if found then (false, m1) else elim result [
      | err _ ↦ (false, cancel_memory_item m1 s)
      | ok _ ↦ elim paid [ err _ ↦ (false, cancel_memory_item m1 s') | ok _ ↦ (true, item s') ]
    ]
