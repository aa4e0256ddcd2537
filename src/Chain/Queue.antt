-- ===== src/Chain/Queue.antt =====
-- The memory queue of chain/BlockChain.cpp under `doProcessBlock`, and `cancelMemoryItem`, with which
-- `popBlockState` takes a block back.
pub mod Step
pub mod Undone
pub mod Supply
mod Examples
use gsenetwork.Prelude.{ℕ, zero, suc, List, [], ◌∷◌, Bool, Option, if◌then◌else◌}
use gsenetwork.Prelude.Map.{Map}
use gsenetwork.Core.Account.{Account}
use gsenetwork.Core.Producer.{Producer}
use gsenetwork.Core.Transaction.{Transaction, Candidate}
use gsenetwork.Core.Block.{Block}
use gsenetwork.Storage.Database.{Database}
use gsenetwork.Chain.Solidify.{MemoryItem}
use gsenetwork.Chain.Execute.{
  Back, no_item, item, back_db, back_accounts, back_producers, back_transactions, do_process_block,
}

-- The items, the back of the queue first.
pub record Queue : Type 0 where
  pub items : List MemoryItem
  pub db : Database

abbrev pub account_caches : List MemoryItem → List (Map Account)
account_caches [] = []
account_caches (i ∷ is) = i.accounts ∷ account_caches is

abbrev pub producer_caches : List MemoryItem → List (Map Producer)
producer_caches [] = []
producer_caches (i ∷ is) = i.producers ∷ producer_caches is

abbrev pub transaction_caches : List MemoryItem → List (Map Transaction)
transaction_caches [] = []
transaction_caches (i ∷ is) = i.transactions ∷ transaction_caches is

-- The repository at the back, whose parents are those of the items before it.
abbrev pub back_of : List MemoryItem → Database → Back
back_of [] db = no_item db
back_of (i ∷ is) db = item (record {
  accounts = record { cache = i.accounts; parents = account_caches is };
  producers = record { cache = i.producers; parents = producer_caches is };
  transactions = record { cache = i.transactions; parents = transaction_caches is };
  block = i.block;
  db = db;
})

-- The items hold their caches by reference: a use of the back leaves its caches in them.
abbrev pub refill :
    List MemoryItem
    → List (Map Account)
    → List (Map Producer)
    → List (Map Transaction)
    → List MemoryItem
refill (i ∷ is) (a ∷ rest) (p ∷ ps) (t ∷ ts) =
    record { block = i.block; accounts = a; producers = p; transactions = t } ∷ refill is rest ps ts
refill is _ _ _ = is

abbrev pub leave : List MemoryItem → Back → Queue
leave is m = record {
  items = refill is (back_accounts m) (back_producers m) (back_transactions m);
  db = back_db m;
}

-- The item that `addMemoryItem` pushes.
abbrev pub new_item : Block → MemoryItem
new_item b = record { block = b; accounts = []; producers = []; transactions = [] }

abbrev pub pop_back : List MemoryItem → List MemoryItem
pop_back [] = []
pop_back (_ ∷ is) = is

-- `cancelMemoryItem`
unfoldable pub cancel : Queue → Queue
cancel q = record q { items = pop_back q.items }

-- That many items.
unfoldable pub cancel_all : ℕ → Queue → Queue
cancel_all zero q = q
cancel_all (suc k) q = cancel (cancel_all k q)

module _ (ballot_of : List ℕ → Option (List Candidate)) where
  -- `doProcessBlock` on the queue: an executed block stands at its back.
  unfoldable pub process : Block → Queue → Bool × Queue
  process b q =
      let (executed, m) = do_process_block ballot_of b (back_of q.items q.db) in
      (executed, leave (if executed then new_item b ∷ q.items else q.items) m)

  -- Blocks one after the other, and how many of them were executed.
  unfoldable pub process_all : List Block → Queue → ℕ × Queue
  process_all [] q = (0, q)
  process_all (b ∷ bs) q =
      let (executed, q1) = process b q in
      let (count, q2) = process_all bs q1 in (if executed then suc count else count, q2)
