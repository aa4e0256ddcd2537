-- ===== src/Chain/Fork/Examples.antt =====
-- The theorem on `processBlock` at an index with a fork, on which the second branch grows longer.
use gsenetwork.Prelude.{ℕ, [], ◌∷◌, List, Bool, true, false, ◌≡◌, refl, arith, none, some}
use gsenetwork.Prelude.Int.{pos}
use gsenetwork.Core.Block.{Block, empty_block}
use gsenetwork.Core.Snapshot.{ProducerSnapshot}
use gsenetwork.Server.{producer_status}
use gsenetwork.Chain.BlockState.{BlockState, new_block_state}
use gsenetwork.Chain.Rollback.{solidifiable}
use gsenetwork.Chain.Fork.{returned, Fork, process_block}
use gsenetwork.Chain.Fork.Adopt.{process_block_adopts}

abbrev nobody : ProducerSnapshot
nobody = record { timestamp = pos 0; producers = [] }

abbrev block : ℕ → ℕ → ℕ → Block
block id parent number = record empty_block { hash = id; parent_hash = parent; number = number }

abbrev entry : ℕ → ℕ → ℕ → BlockState
entry id parent number = new_block_state 0 nobody (block id parent number)

-- The identifiers of the executed blocks, the newest first.
abbrev execute : Block → Fork (List ℕ) → Fork (List ℕ)
execute b f = record f { state = b.hash ∷ f.state }

abbrev back : List ℕ → List ℕ
back [] = []
back (x ∷ xs) = xs

abbrev ignore : BlockState → Fork (List ℕ) → Bool × Fork (List ℕ)
ignore s f = (false, f)

-- Block 10 and on it 11, both executed, and 12 beside 11.
abbrev node : Fork (List ℕ)
node = record {
  rollback = record {
    index = entry 12 10 6 ∷ entry 11 10 6 ∷ entry 10 9 5 ∷ [];
    head = some (entry 11 10 6);
    solidify_number = 4;
  };
  head = entry 11 10 6;
  status = producer_status;
  latest_number = 6;
  state = 11 ∷ 10 ∷ [];
}

none_due : solidifiable (new_block_state 0 nobody (block 13 12 7)) node.rollback.index ≡ none
unfolding solidifiable
none_due = refl

process_block_adopts_example :
    (g : Fork (List ℕ)) × (process_block execute back ignore true 0 nobody (block 13 12 7) node
      ≡ some (returned true, g))
    × (g.state ≡ 11 ∷ 10 ∷ [])
    × (g.head ≡ entry 13 12 7)
process_block_adopts_example =
    process_block_adopts execute back ignore 0 nobody (block 13 12 7) node (entry 11 10 6) refl refl
      refl refl (refl, (refl, (refl, tt)))
      (refl, ((refl, refl), ((refl, refl), tt)), (refl, ((refl, refl), tt), (refl, tt, tt)))
      (omega arith, (omega arith, (omega arith, tt))) (omega arith) refl none_due
