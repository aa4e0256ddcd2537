-- ===== src/Chain/Admission/Examples.antt =====
-- The theorems on the checks of chain/BlockChain.cpp at a block and at a schedule of two producers.
use gsenetwork.Prelude.{ℕ, [], ◌∷◌, true, ◌≡◌, ◌↔◌}
use gsenetwork.Core.Transaction.{Transaction, empty_transaction}
use gsenetwork.Core.Block.{Block, empty_block}
use gsenetwork.Chain.Admission.{check_duplicate_tx}
use gsenetwork.Chain.Admission.Duplicates.{NoRepeat, check_duplicate_tx-NoRepeat}

abbrev tx : ℕ → Transaction
tx h = record empty_transaction { hash = h }

abbrev doubled : Block
doubled = record empty_block { transactions = tx 3 ∷ tx 8 ∷ tx 3 ∷ [] }

check_duplicate_tx-NoRepeat_example :
    (check_duplicate_tx doubled ≡ true) ↔ NoRepeat (3 ∷ 8 ∷ 3 ∷ [])
check_duplicate_tx-NoRepeat_example = check_duplicate_tx-NoRepeat doubled
