-- ===== src/Chain/Fork.antt =====
-- `processBlock`, `checkBifurcation` and `popBlockState` of chain/BlockChain.cpp: the head of the chain.
pub mod Adopt
mod Examples
use gsenetwork.Prelude.{
  ℕ, List, [], ◌∷◌, Bool, true, false, not, Option, none, some, ◌==◌, if◌then◌else◌, sub64,
}
use gsenetwork.Core.Block.{Block}
use gsenetwork.Core.Snapshot.{ProducerSnapshot}
use gsenetwork.Server.{ChainStatus, sync_status}
use gsenetwork.Chain.BlockState.{BlockState, prev}
use gsenetwork.Chain.Rollback.{
  RollbackState, Added, added, thrown, find, add, remove_number, rollback_to,
}

-- The fields of `BlockChain` that these functions change; `state` has all that executing a block
-- changes, the memory queue first.
pub record Fork (S : Type 0) : Type 0 where
  pub rollback : RollbackState
  pub head : BlockState
  pub status : ChainStatus
  pub latest_number : ℕ
  pub state : S

-- How `processBlock` ends: it returns, or the exception of `onSolidifiable`, which it does not catch, goes
-- on to its caller.
pub data Ending : Type 0 where
  returned : Bool → Ending
  escaped : Ending

-- The `getPrev()` of the last block state of a branch.
abbrev pub last_prev : List BlockState → Option ℕ
last_prev [] = none
last_prev (b ∷ []) = some (prev b)
last_prev (b ∷ c ∷ bs) = last_prev (c ∷ bs)

-- `process` is `doProcessBlock`, `pop_back` takes the newest item off the memory queue, and `solidify` is
-- `onSolidifiable`, which may throw.
module _ {S : Type 0} (process : Block → Fork S → Fork S) (pop_back : S → S)
    (solidify : BlockState → Fork S → Bool × Fork S) where
  -- `popBlockState`; `none` where it throws, which ends the program.
  unfoldable pub pop_block_state : Fork S → Option (Fork S)
  pop_block_state f = elim (find (prev f.head) f.rollback.index) [
    | none ↦ none
    | some p ↦ some (record f { head = p; state = pop_back f.state })
  ]

  -- The loop of `checkBifurcation` over the branch.
  unfoldable pub undo : List BlockState → Fork S → Option (Fork S)
  undo [] f = some f
  undo (b ∷ bs) f =
      let lowered = record f {
        latest_number = sub64 b.block_number 1;
        rollback = remove_number b.block_number f.rollback;
      } in
      elim (pop_block_state lowered) [ none ↦ none | some g ↦ undo bs g ]

  -- `checkBifurcation`, with the head of the rollback state; `none` where the program ends.
  unfoldable pub check_bifurcation : Block → BlockState → Fork S → Option (Fork S)
  check_bifurcation b new_item f =
      if prev new_item == f.head.block_id
      then some (process b f)
      else elim (rollback_to new_item f.head f.rollback) [
        | none ↦ some f
        | some branch ↦ elim (undo branch (record f { status = sync_status })) [
          | none ↦ none
          | some g ↦ elim (last_prev branch) [
            | none ↦ some g
            | some id ↦ if g.head.block_id == id then some g else none
          ]
        ]
      ]

  -- `m_head = m_rollbackState.head()`
  abbrev pub follow : Fork S → Fork S
  follow f = elim f.rollback.head [ none ↦ f | some h ↦ record f { head = h } ]

  -- `processBlock` behind the adding, on what that gave.
  unfoldable pub after_add : Block → Fork S → Added × RollbackState → Option (Ending × Fork S)
  after_add b f (thrown e, rollback) = some (returned false, record f { rollback = rollback })
  after_add b f (added signal, rollback) =
      let f1 = record f { rollback = rollback } in
      let (failed, f2) = elim signal as (λ _. Bool × Fork S) [
        | none ↦ (false, f1)
        | some s ↦ solidify s f1
      ] in
      if failed then some (escaped, f2) else elim f2.rollback.head [
        | none ↦ none
        | some h ↦ elim (check_bifurcation b h f2) [
          | none ↦ none
          | some f3 ↦ some (returned true, follow f3)
        ]
      ]

  -- `processBlock`: how it ends and the state after it, `none` where the program ends. `valid` is the
  -- answer of `checkProducer`, `ps` the snapshot of the producers.
  unfoldable pub process_block :
      Bool → ℕ → ProducerSnapshot → Block → Fork S → Option (Ending × Fork S)
  process_block valid count ps b f =
      if not valid then some (returned false, f) else after_add b f (add count b ps f.rollback)
