-- ===== src/Chain/BlockState/Examples.antt =====
-- The theorems on chain/BlockState.cpp at a block with seven active producers.
use gsenetwork.Prelude.{[], ◌∷◌, ◌≡◌, refl, length}
use gsenetwork.Prelude.Int.{pos}
use gsenetwork.Core.Producer.{new_producer}
use gsenetwork.Core.Snapshot.{ProducerSnapshot}
use gsenetwork.Core.Block.{empty_block}
use gsenetwork.Chain.BlockState.{BlockState, new_block_state, threshold}
use gsenetwork.Chain.BlockState.Tally.{flood, flood-length}

abbrev seven : ProducerSnapshot
seven = record {
  timestamp = pos 0;
  producers =
      new_producer 1 (pos 0)
      ∷ new_producer 2 (pos 0)
      ∷ new_producer 3 (pos 0)
      ∷ new_producer 4 (pos 0)
      ∷ new_producer 5 (pos 0)
      ∷ new_producer 6 (pos 0)
      ∷ new_producer 7 (pos 0)
      ∷ [];
}

abbrev fresh : BlockState
fresh = new_block_state 0 seven (record empty_block { hash = 50; number = 8 })

-- Four confirmations of one producer, as many as the threshold asks of seven.
flood-length_example : length (flood fresh 3 4).confirmations ≡ threshold fresh
flood-length_example = flood-length fresh 3 4 refl refl
