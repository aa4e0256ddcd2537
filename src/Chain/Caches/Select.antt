-- ===== src/Chain/Caches/Select.antt =====
-- On `doWork` of chain/BlockChain.cpp: which block is taken to be processed.
use gsenetwork.Prelude.{
  ℕ, zero, suc, ◌+◌, ◌≤◌, ◌<◌, List, [], ◌∷◌, ◌++◌, true, false, ◌≡◌, refl, ap, ◌∙◌, arith, inl,
  inr, Bool-cases, ◌==◌, leb, eq→==, All, Option, none, some, some-injective, length,
}
use mathlib.Core.Path.{subst}
use gsenetwork.Core.Block.{Block}
use gsenetwork.Chain.Caches.{select}
use gsenetwork.Chain.Caches.Order.{IsNumbered}

-- From a cache of growing numbers, where what is solidified is not above the last block, the block that
-- is taken is the one of the least number, is above the solidified ones and at most one above the last,
-- and the cache is left with the rest.
pub select-taken :
    (last solidified : ℕ) (bs : List Block) (b : Block)
    → IsNumbered bs
    → solidified ≤ last
    → (select last solidified bs).0 ≡ some b
    → (solidified < b.number)
      × (b.number ≤ last + 1)
      × (bs ≡ b ∷ (select last solidified bs).1)
      × All (λ c. b.number < c.number) (select last solidified bs).1
unfolding select
select-taken last solidified [] b s h e = absurd (cc e)
select-taken last solidified (c ∷ cs) b s h e = elim (Bool-cases (c.number == last + 1)) [
  | inl next ↦ rw next (taken (ground arith) (ground arith) (some-injective (rw next at e)))
  | inr other ↦ elim (Bool-cases (leb c.number last)) [
    | inr far ↦ absurd (cc (rw (other, far) at e))
    | inl fork ↦ elim (Bool-cases (leb c.number solidified)) [
      | inl stale ↦ absurd (cc (rw (other, fork, stale) at e))
      | inr live ↦
          rw (other, fork, live)
            (taken (ground arith) (ground arith) (some-injective (rw (other, fork, live) at e)))
    ]
  ]
]
  where
    taken :
        solidified < c.number
        → c.number ≤ last + 1
        → c ≡ b
        → (solidified < b.number)
          × (b.number ≤ last + 1)
          × (c ∷ cs ≡ b ∷ cs)
          × All (λ d. b.number < d.number) cs
    taken l u same =
        subst
          (λ (x : Block).
            (solidified < x.number)
            × (x.number ≤ last + 1)
            × (c ∷ cs ≡ x ∷ cs)
            × All (λ d. x.number < d.number) cs)
          same (l, u, refl, s.0)

-- The calls of `doWork` until one takes a block, up to a number of calls.
pub calls : ℕ → ℕ → ℕ → List Block → Option Block
calls zero last solidified bs = none
calls (suc n) last solidified bs =
    let again = calls n last solidified (select last solidified bs).1 in
    elim (select last solidified bs).0 [ some b ↦ some b | none ↦ again ]

calls-step :
    (n last solidified : ℕ) (bs rest : List Block)
    → select last solidified bs ≡ (none, rest)
    → calls (suc n) last solidified bs ≡ calls n last solidified rest
unfolding calls
calls-step n last solidified bs rest e =
    ap
      (λ (r : Option Block × List Block). elim r.0 as (λ _. Option Block) [
        | some b ↦ some b
        | none ↦ calls n last solidified r.1
      ])
      e

-- Where everything in the cache before the block that follows the last one is solidified, and what is
-- solidified is not above the last block, that block is taken after one call for each entry before it
-- and one more.
pub calls-taken :
    (last solidified : ℕ) (older newer : List Block) (b : Block)
    → All (λ c. c.number ≤ solidified) older
    → solidified ≤ last
    → b.number ≡ last + 1
    → calls (suc (length older)) last solidified (older ++ b ∷ newer) ≡ some b
unfolding calls select
calls-taken last solidified [] newer b s h e = rw (eq→== b.number (last + 1) e, calls) refl
calls-taken last solidified (c ∷ cs) newer b s h e =
    let other : (c.number == last + 1) ≡ false = ground (arith, s.0) in
    let fork : leb c.number last ≡ true = ground (arith, s.0) in
    let stale : leb c.number solidified ≡ true = ground (arith, s.0) in
    calls-step (suc (length cs)) last solidified (c ∷ (cs ++ b ∷ newer)) (cs ++ b ∷ newer)
      (rw (other, fork, stale) refl)
    ∙ calls-taken last solidified cs newer b s.1 h e
