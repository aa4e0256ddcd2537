-- ===== src/Chain/Active.antt =====
-- `updateActiveProducers` of chain/BlockChain.cpp: who missed a turn since the block before.
pub mod Range
use gsenetwork.Prelude.{
  ℕ, zero, suc, ◌+◌, ◌-◌, ◌%◌, ◌^◌, List, [], ◌∷◌, Option, none, some, ltb, ◌==◌, if◌then◌else◌,
  length, get_elem?,
}
use gsenetwork.Core.Producer.{Producer}
use gsenetwork.Core.Snapshot.{ProducerSnapshot, add_producer, delete_producer}
use gsenetwork.Core.Block.{Block}
use gsenetwork.Slots.{position}

-- A loop over `count` indices from `i` on; `none` where it reads beyond the list.
unfoldable pub delete_from : ℕ → ℕ → List Producer → ProducerSnapshot → Option ProducerSnapshot
delete_from zero i ps s = some s
delete_from (suc count) i ps s = elim (get_elem? ps i) [
  | none ↦ none
  | some p ↦ delete_from count (i + 1) ps (delete_producer p s)
]

-- The loop over the list from the index `i` on that leaves out one index.
abbrev pub delete_others : ℕ → ℕ → List Producer → ProducerSnapshot → ProducerSnapshot
delete_others i kept [] s = s
delete_others i kept (p ∷ ps) s =
    delete_others (i + 1) kept ps (if i == kept then s else delete_producer p s)

-- The index behind another, in 32 bits.
abbrev pub next_index : ℕ → ℕ
next_index i = (i + 1) % 2 ^ 32

-- The three cases on the positions of the block before and of the block.
unfoldable pub delete_missed : ℕ → ℕ → List Producer → ProducerSnapshot → Option ProducerSnapshot
delete_missed before now ps s =
    let next = next_index before in
    if ltb before now
    then delete_from (now - next) next ps s
    else if before == now
    then some (delete_others 0 now ps s)
    else elim (delete_from now 0 ps s) [
      | none ↦ none
      | some s1 ↦ delete_from (length ps - next) next ps s1
    ]

-- `updateActiveProducers`. `before` is the block that `getBlockByNumber` gives for the number below,
-- `producer` what the database has for the block's producer, `ps` the sorted list of producers.
unfoldable pub update_active_producers :
    Block → Producer → List Producer → Block → ProducerSnapshot → Option ProducerSnapshot
update_active_producers before producer ps b s =
    delete_missed (position before.timestamp) (position b.timestamp) ps
      (add_producer producer (record s { timestamp = b.timestamp }))
