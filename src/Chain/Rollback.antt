-- ===== src/Chain/Rollback.antt =====
-- chain/RollbackState.cpp: the index of the blocks that are not solidified yet.
pub mod Linked
pub mod Remove
pub mod Descend
pub mod Fetch
mod Examples
use gsenetwork.Prelude.{
  ℕ, zero, suc, List, [], ◌∷◌, ◌++◌, Bool, true, false, not, ◌&&◌, ◌||◌, Option, none, some, ltb,
  leb, ◌==◌, if◌then◌else◌, length,
}
use gsenetwork.Core.Snapshot.{ProducerSnapshot, size}
use gsenetwork.Core.Block.{Block}
use gsenetwork.Chain.BlockState.{
  HeaderConfirmation, BlockState, new_block_state, prev, add_confirmation, threshold,
}

-- The multi-index container, the block state that was inserted last first.
abbrev pub Index : Type 0
Index = List BlockState

-- `m_head` is a pointer to a block state; only its number, identifiers and parent are read, and those
-- do not change.
pub record RollbackState : Type 0 where
  pub index : Index
  pub head : Option BlockState
  pub solidify_number : ℕ

-- `RollbackStateException`, by what it says.
pub data RollbackError : Type 0 where
  duplicate_state no_head has_exist unlinked duplicate_added : RollbackError

-- `m_index.find(blockID)`
abbrev pub find : ℕ → Index → Option BlockState
find id [] = none
find id (b ∷ bs) = if b.block_id == id then some b else find id bs

abbrev pub exists : ℕ → Index → Bool
exists id idx = elim (find id idx) [ none ↦ false | some _ ↦ true ]

-- `getBlock(BlockID const&)`
abbrev pub get_block : ℕ → RollbackState → Option BlockState
get_block id s = find id s.index

-- `getBlock(uint64_t)`: among equal numbers, the one that was inserted first.
abbrev pub find_number : ℕ → Index → Option BlockState
find_number n [] = none
find_number n (b ∷ bs) = elim (find_number n bs) [
  | some old ↦ some old
  | none ↦ if b.block_number == n then some b else none
]

abbrev pub get_block_by_number : ℕ → RollbackState → Option BlockState
get_block_by_number n s = find_number n s.index

-- The first by `ByBlockNumber`: the greatest number, and the oldest entry among equal ones.
abbrev pub greatest : BlockState → Index → BlockState
greatest b [] = b
greatest b (c ∷ cs) =
    let rest = greatest c cs in if ltb rest.block_number b.block_number then b else rest

-- The number of the first by `ByUpBlockNumber`.
abbrev pub lowest_number : BlockState → Index → ℕ
lowest_number b [] = b.block_number
lowest_number b (c ∷ cs) =
    let rest = lowest_number c cs in if ltb b.block_number rest then b.block_number else rest

-- `m_bftSolidifyBlockNumber` of the first by `ByMultiBlockNumber`.
abbrev pub greatest_solidify : BlockState → Index → ℕ
greatest_solidify b [] = b.bft_solidify_block_number
greatest_solidify b (c ∷ cs) =
    let rest = greatest_solidify c cs in
    if ltb rest b.bft_solidify_block_number then b.bft_solidify_block_number else rest

-- `set`: the new state, or the exception, which leaves the state as it was.
unfoldable pub set : BlockState → RollbackState → Option RollbackError × RollbackState
set b s = if exists b.block_id s.index then (some duplicate_state, s) else (
  none,
  record s {
    index = b ∷ s.index;
    head = elim s.head [
      | none ↦ some b
      | some h ↦ if ltb h.block_number b.block_number then some b else some h
    ];
  },
)

-- The block state that `add(BlockStatePtr)` raises the signal `m_solidifiable` with, at its end.
unfoldable pub solidifiable : BlockState → Index → Option BlockState
solidifiable b idx =
    let number = greatest_solidify b idx in
    if ltb (lowest_number b idx) number then find_number number (b ∷ idx) else none

-- What `add` gives: the exception, or the block state to signal, if there is one.
pub data Added : Type 0 where
  thrown : RollbackError → Added
  added : Option BlockState → Added

-- `add(BlockStatePtr)`
unfoldable pub add_state : BlockState → RollbackState → Added × RollbackState
add_state b s = if exists b.block_id s.index then (thrown duplicate_added, s) else (
  added (solidifiable b s.index),
  record s { index = b ∷ s.index; head = some (greatest b s.index) },
)

-- `add(Block&, ProducerSnapshot const&, bool)`; `count` is what the memory of the new state holds.
unfoldable pub add : ℕ → Block → ProducerSnapshot → RollbackState → Added × RollbackState
add count b ps s = elim s.head [
  | none ↦ (thrown no_head, s)
  | some _ ↦
      if exists b.hash s.index
      then (thrown has_exist, s)
      else if not (exists b.parent_hash s.index)
      then (thrown unlinked, s)
      else add_state (new_block_state count ps b) s
]

abbrev pub erase : ℕ → Index → Index
erase id [] = []
erase id (b ∷ bs) = if b.block_id == id then bs else b ∷ erase id bs

-- `remove(BlockID const&)`: the block and, before it, its ancestors. The recursion is on fuel.
unfoldable pub remove_from : ℕ → ℕ → Index → Index
remove_from zero id idx = idx
remove_from (suc n) id idx = elim (find id idx) [
  | none ↦ idx
  | some b ↦
      let rest = remove_from n (prev b) idx in erase id (if exists (prev b) idx then rest else idx)
]

abbrev pub remove : ℕ → RollbackState → RollbackState
remove id s = record s { index = remove_from (length s.index) id s.index }

-- `remove(uint64_t)`
abbrev pub remove_number : ℕ → RollbackState → RollbackState
remove_number n s = elim (find_number n s.index) [ none ↦ s | some b ↦ remove b.block_id s ]

-- A change of the block state with an identifier, in place.
abbrev pub change : ℕ → (BlockState → BlockState) → Index → Index
change id f [] = []
change id f (b ∷ bs) = if b.block_id == id then f b ∷ bs else b ∷ change id f bs

-- `add(HeaderConfirmation const&)` and `setBFTSolidify`, on the block state.
unfoldable pub confirm : HeaderConfirmation → BlockState → BlockState
confirm c b =
    let b' = add_confirmation c b in
    if ltb b'.bft_solidify_block_number b'.block_number
      && leb (threshold b') (length b'.confirmations)
    then record b' { bft_solidify_block_number = b'.block_number }
    else b'

abbrev pub add_header : HeaderConfirmation → RollbackState → RollbackState
add_header c s = record s { index = change c.block_id (confirm c) s.index }

abbrev pub add_headers : List HeaderConfirmation → RollbackState → RollbackState
add_headers [] s = s
add_headers (c ∷ cs) s = add_headers cs (add_header c s)

-- `addSyncBlockState`
abbrev pub add_sync_block_state : BlockState → RollbackState → RollbackState
add_sync_block_state b s =
    if leb b.block_number s.solidify_number then s else add_headers b.confirmations s

abbrev pub set_solidify_number : ℕ → RollbackState → RollbackState
set_solidify_number n s = record s { solidify_number = n }

-- The loop of `rollbackTo` from an item on, with the branch so far, and the tests behind it: the branch,
-- or `none` where it returns false. The recursion is on fuel.
unfoldable pub rollback_from :
    ℕ → BlockState → BlockState → List BlockState → Index → Option (List BlockState)
rollback_from zero first item branch idx = none
rollback_from (suc n) first item branch idx =
    if ltb first.block_number item.block_number
    then elim (find (prev item) idx) [
      | none ↦ none
      | some next ↦ rollback_from n first next (branch ++ item ∷ []) idx
    ]
    else if not (first.block_number == item.block_number)
    then none
    else if not (prev first == prev item)
    then none
    else some branch

-- `rollbackTo`
abbrev pub rollback_to : BlockState → BlockState → RollbackState → Option (List BlockState)
rollback_to first second s = rollback_from (suc (length s.index)) first second [] s.index

-- How a walk of `fetchBranchFrom` ends: the fuel is used up, an ancestor is unknown, or it reached a block.
pub data Climbed : Type 0 where
  tired lost : Climbed
  reached : BlockState → List BlockState → Climbed

-- The first two loops of `fetchBranchFrom`: up to a block whose number is not above the bound.
unfoldable pub climb : ℕ → ℕ → BlockState → List BlockState → Index → Climbed
climb zero bound item branch idx = tired
climb (suc n) bound item branch idx =
    if ltb bound item.block_number
    then elim (find (prev item) idx) [
      | none ↦ lost
      | some next ↦ climb n bound next (branch ++ item ∷ []) idx
    ]
    else reached item branch

-- What `fetchBranchFrom` gives: no fuel, an exception for one of the blocks, or both branches.
pub data Fetched : Type 0 where
  unfinished lost_first lost_second : Fetched
  fetched : List BlockState → List BlockState → Fetched

-- The third loop. Where an ancestor is unknown it ends too, since the exception is not thrown.
unfoldable pub meet :
    ℕ → BlockState → BlockState → List BlockState → List BlockState → Index → Fetched
meet zero a b firsts seconds idx = unfinished
meet (suc n) a b firsts seconds idx =
    let firsts' = firsts ++ a ∷ [] in
    let seconds' = seconds ++ b ∷ [] in
    if prev a == prev b then fetched firsts seconds else elim (find (prev a) idx) [
      | none ↦ fetched firsts' seconds'
      | some a' ↦ elim (find (prev b) idx) [
        | none ↦ fetched firsts' seconds'
        | some b' ↦ meet n a' b' firsts' seconds' idx
      ]
    ]

-- `fetchBranchFrom`; if one of the blocks is unknown, no loop runs.
unfoldable pub fetch_branch_from : ℕ → ℕ → RollbackState → Fetched
fetch_branch_from first second s =
    let fuel = suc (length s.index) in
    elim (find first s.index) [
      | none ↦ fetched [] []
      | some a ↦ elim (find second s.index) [
        | none ↦ fetched [] []
        | some b ↦ elim (climb fuel b.block_number a [] s.index) [
          | tired ↦ unfinished
          | lost ↦ lost_first
          | reached a' firsts ↦ elim (climb fuel a'.block_number b [] s.index) [
            | tired ↦ unfinished
            | lost ↦ lost_second
            | reached b' seconds ↦ meet fuel a' b' firsts seconds s.index
          ]
        ]
      ]
    ]
