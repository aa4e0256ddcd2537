-- ===== src/Chain/Rollback/Examples.antt =====
-- The theorems on chain/RollbackState.cpp at an index with a fork.
use gsenetwork.Prelude.{
  ℕ, ◌≤◌, [], ◌∷◌, true, false, ◌≡◌, refl, arith, some, some-injective, All, ◌↔◌,
}
use mathlib.Core.Path.{subst}
use gsenetwork.Prelude.Int.{pos}
use gsenetwork.Core.Block.{Block, empty_block}
use gsenetwork.Core.Snapshot.{ProducerSnapshot}
use gsenetwork.Chain.BlockState.{BlockState, new_block_state}
use gsenetwork.Chain.Rollback.{
  RollbackState, exists, add, remove, remove_from, rollback_to, fetch_branch_from,
}
use gsenetwork.Chain.Rollback.Fetch.{Outcome, fetch_branch_from-Outcome}
use gsenetwork.Chain.Rollback.Linked.{IsLinked, IsValid, add-IsValid}
use gsenetwork.Chain.Rollback.Remove.{remove_from-sweep, remove-absent}
use gsenetwork.Chain.Rollback.Descend.{line, Branched, rollback_to-Branched, rollback_to-descend}

abbrev nobody : ProducerSnapshot
nobody = record { timestamp = pos 0; producers = [] }

abbrev block : ℕ → ℕ → ℕ → Block
block id parent number = record empty_block { hash = id; parent_hash = parent; number = number }

abbrev entry : ℕ → ℕ → ℕ → BlockState
entry id parent number = new_block_state 0 nobody (block id parent number)

-- Block 10 with two children, 11 and 12, and 13 on top of 11.
abbrev forked : RollbackState
forked = record {
  index = entry 13 11 7 ∷ entry 12 10 6 ∷ entry 11 10 6 ∷ entry 10 9 5 ∷ [];
  head = some (entry 13 11 7);
  solidify_number = 4;
}

forked-IsLinked : IsLinked forked.index
forked-IsLinked = (
  refl,
  ((refl, refl), ((refl, refl), ((refl, refl), tt))),
  (refl, ((refl, refl), ((refl, refl), tt)), (refl, ((refl, refl), tt), (refl, tt, tt))),
)

abbrev one : RollbackState
one = record { index = entry 10 9 5 ∷ []; head = some (entry 10 9 5); solidify_number = 4 }

one-IsValid : IsValid one
one-IsValid = record { linked = (refl, tt, tt); headed = λ h e. headed h (some-injective e) }
  where
    headed :
        (h : BlockState)
        → entry 10 9 5 ≡ h
        → (exists h.block_id one.index ≡ true)
          × All (λ b. b.block_number ≤ h.block_number) one.index
    headed h e =
        subst
          (λ x.
            (exists x.block_id one.index ≡ true)
            × All (λ b. b.block_number ≤ x.block_number) one.index)
          e (refl, (omega arith, tt))

add-IsValid_example : IsValid (add 0 (block 11 10 6) nobody one).1
add-IsValid_example = add-IsValid 0 (block 11 10 6) nobody one refl (refl, tt) one-IsValid

-- Removing 11 removes 10 with it.
remove_from-sweep_example : remove_from 4 11 forked.index ≡ entry 13 11 7 ∷ entry 12 10 6 ∷ []
remove_from-sweep_example = remove_from-sweep 4 11 forked.index forked-IsLinked (omega arith)

remove-absent_example :
    IsLinked (remove 11 forked).index × (exists 11 (remove 11 forked).index ≡ false)
remove-absent_example = remove-absent 11 forked forked-IsLinked

rollback_to-descend_example :
    rollback_to (entry 12 10 6) (entry 13 11 7) forked ≡ some (entry 13 11 7 ∷ [])
rollback_to-descend_example =
    rollback_to-descend (entry 12 10 6) (entry 13 11 7) forked forked-IsLinked

rollback_to-Branched_example :
    (rollback_to (entry 12 10 6) (entry 13 11 7) forked ≡ some (entry 13 11 7 ∷ []))
    ↔ Branched (entry 12 10 6) (entry 13 11 7) (line 11 forked.index) (entry 13 11 7 ∷ [])
rollback_to-Branched_example =
    rollback_to-Branched (entry 12 10 6) (entry 13 11 7) forked (entry 13 11 7 ∷ []) forked-IsLinked

fetch_branch_from-Outcome_example :
    Outcome 13 12 (entry 12 10 6) forked (fetch_branch_from 13 12 forked)
fetch_branch_from-Outcome_example =
    fetch_branch_from-Outcome 13 12 (entry 13 11 7) (entry 12 10 6) forked forked-IsLinked refl refl
