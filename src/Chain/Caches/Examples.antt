-- ===== src/Chain/Caches/Examples.antt =====
-- The theorems on the caches of chain/BlockChain.cpp at caches of a few entries.
use gsenetwork.Prelude.{ℕ, [], ◌∷◌, List, ◌≡◌, refl, arith, some}
use gsenetwork.Prelude.Int.{pos}
use gsenetwork.Core.Transaction.{Transaction, empty_transaction}
use gsenetwork.Core.Block.{Block, empty_block}
use gsenetwork.Chain.Caches.{select}
use gsenetwork.Chain.Caches.Order.{IsTimed}
use gsenetwork.Chain.Caches.Select.{calls, calls-taken}

abbrev numbered : ℕ → Block
numbered n = record empty_block { number = n }

abbrev waiting : List Block
waiting = numbered 4 ∷ numbered 6 ∷ numbered 9 ∷ []

selected : (select 5 3 waiting).0 ≡ some (numbered 4)
unfolding select
selected = refl

calls-taken_example : calls 2 5 4 waiting ≡ some (numbered 6)
calls-taken_example =
    calls-taken 5 4 (numbered 4 ∷ []) (numbered 9 ∷ []) (numbered 6) (omega arith, tt) (omega arith)
      refl

abbrev timed : ℕ → ℕ → Transaction
timed h t = record empty_transaction { hash = h; timestamp = pos t }

abbrev cache : List Transaction
cache = timed 1 100 ∷ timed 2 200 ∷ []

cache-IsTimed : IsTimed cache
cache-IsTimed = ((omega arith, tt), (tt, tt))
