-- ===== src/Chain/Solidify.antt =====
-- `onSolidifiable` of chain/BlockChain.cpp: the blocks up to a solidified one go into the database.
pub mod Shown
mod Examples
use gsenetwork.Prelude.{
  ℕ, List, [], ◌∷◌, ◌++◌, Bool, true, false, Option, none, some, leb, if◌then◌else◌,
}
use gsenetwork.Prelude.Map.{Map}
use gsenetwork.Core.Account.{Account}
use gsenetwork.Core.Producer.{Producer}
use gsenetwork.Core.Transaction.{Transaction}
use gsenetwork.Core.Block.{Block}
use gsenetwork.Core.Snapshot.{ProducerSnapshot}
use gsenetwork.Wire.Rlp.{Rlp}
use gsenetwork.Storage.Database.{Database}
use gsenetwork.Storage.Repository.{Repository}
use gsenetwork.Storage.Repository.Branch.{commit}
use gsenetwork.Chain.BlockState.{BlockState}
use gsenetwork.Chain.Rollback.{RollbackState, find_number, remove, set_solidify_number}

-- `MemoryItem`: a processed block and the caches of its repository, whose parent is the item before.
pub record MemoryItem : Type 0 where
  pub block : Block
  pub accounts : Map Account
  pub producers : Map Producer
  pub transactions : Map Transaction

-- The fields of `BlockChain` that `onSolidifiable` uses, and the attributes that it writes.
pub record ChainStore : Type 0 where
  -- the front first, which is the oldest
  pub memory_queue : List MemoryItem
  pub db : Database
  pub rollback : RollbackState
  pub killed : Bool
  -- ATTRIBUTE_DB_DIRTY
  pub dirty : Bool
  -- ATTRIBUTE_CURRENT_BLOCK_HEIGHT
  pub height : ℕ
  -- ATTRIBUTE_SOLIDIFY_ACTIVE_PRODUCER_LIST, if a block was solidified
  pub active_list : Option ProducerSnapshot
  -- the block states put into the database
  pub block_states : List BlockState

-- The caches that a read passes, the nearest first.
abbrev pub account_layers : List MemoryItem → List (Map Account)
account_layers [] = []
account_layers (i ∷ is) = account_layers is ++ i.accounts ∷ []

abbrev pub producer_layers : List MemoryItem → List (Map Producer)
producer_layers [] = []
producer_layers (i ∷ is) = producer_layers is ++ i.producers ∷ []

abbrev pub transaction_layers : List MemoryItem → List (Map Transaction)
transaction_layers [] = []
transaction_layers (i ∷ is) = transaction_layers is ++ i.transactions ∷ []

-- The repository of the front item, which has no parent.
abbrev pub front_repository : MemoryItem → Database → Repository
front_repository i db = record {
  accounts = record { cache = i.accounts; parents = [] };
  producers = record { cache = i.producers; parents = [] };
  transactions = record { cache = i.transactions; parents = [] };
  block = i.block;
  db = db;
}

-- `rlp` is the library that the stores write and read with.
module _ (rlp : Rlp) where
  -- The front item has been committed, with the database marked dirty.
  abbrev pub stored : MemoryItem → List MemoryItem → ChainStore → ChainStore
  stored i is l = record l {
    memory_queue = is;
    dirty = true;
    db = (commit rlp (front_repository i l.db)).db;
  }

  -- Its block state is in the database too, with its height and active producers as attributes, and out
  -- of the rollback state.
  abbrev pub settled : MemoryItem → List MemoryItem → BlockState → ChainStore → ChainStore
  settled i is b l = record (stored i is l) {
    dirty = false;
    height = b.block_number;
    active_list = some b.active_producers;
    block_states = b ∷ l.block_states;
    rollback = set_solidify_number i.block.number (remove b.block_id l.rollback);
  }

  -- The loop: whether it threw, and the store after it. On the empty queue the source reads `front()`,
  -- which has no meaning there; the loop ends here.
  unfoldable pub solidify : ℕ → List MemoryItem → ChainStore → Bool × ChainStore
  solidify number [] l = (false, record l { memory_queue = [] })
  solidify number (i ∷ is) l =
      let rest = λ (b : BlockState). solidify number is (settled i is b l) in
      if leb i.block.number number
      then if l.killed
        then (false, record l { memory_queue = i ∷ is })
        else elim (find_number i.block.number l.rollback.index) [
          | none ↦ (true, stored i is l)
          | some b ↦ rest b
        ]
      else (false, record l { memory_queue = i ∷ is })

  -- `onSolidifiable`
  abbrev pub on_solidifiable : BlockState → ChainStore → Bool × ChainStore
  on_solidifiable b l = solidify b.block_number l.memory_queue l
