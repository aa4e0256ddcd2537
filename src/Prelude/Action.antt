-- ===== src/Prelude/Action.antt =====
-- State and exceptions: what a member function changed before it throws stays changed.
use mathlib.Core.Bool.{Bool}
use mathlib.Core.Path.{◌≡◌, refl}
use gsenetwork.Prelude.Tests.{if◌then◌else◌}

pub data Error : Type 0 where
  overflow no_account not_enough no_producer bad_ballot : Error

pub data Result {ℓ} (A : Type ℓ) : Type ℓ where
  ok : A → Result A
  err : Error → Result A

abbrev pub Action : Type 0 → Type 0 → Type 0
Action S A = S → Result A × S

infixl 5 ◌>>=◌ ◌>>◌
abbrev pub ◌>>=◌ : {S A B : Type 0} → Action S A → (A → Action S B) → Action S B
◌>>=◌ m f s = let (r, s') = m s in elim r [ ok a ↦ f a s' | err e ↦ (err e, s') ]

abbrev pub ◌>>◌ : {S A B : Type 0} → Action S A → Action S B → Action S B
m >> k = m >>= λ _. k

abbrev pub pure : {S A : Type 0} → A → Action S A
pure a s = (ok a, s)

abbrev pub gets : {S A : Type 0} → (S → A) → Action S A
gets f s = (ok (f s), s)

abbrev pub modify : {S : Type 0} → (S → S) → Action S (Unit {0})
modify f s = (ok tt, f s)

abbrev pub raise_if : {S : Type 0} → Bool → Error → Action S (Unit {0})
raise_if b e s = if b then (err e, s) else (ok tt, s)

-- A sequence that does not throw ends as its second step does.
pub then_ok :
    {S : Type 0} (m k : Action S (Unit {0})) (r : S)
    → ((m >> k) r).0 ≡ ok tt
    → ((m r).0 ≡ ok tt) × ((m >> k) r ≡ k (m r).1)
then_ok {S} m k r done = go (m r) done
  where
    go :
        (o : Result (Unit {0}) × S)
        → (elim o.0 as (λ _. Result (Unit {0}) × S) [ ok _ ↦ k o.1 | err e ↦ (err e, o.1) ]).0
          ≡ ok tt
        → (o.0 ≡ ok tt)
          × ((elim o.0 as (λ _. Result (Unit {0}) × S) [ ok _ ↦ k o.1 | err e ↦ (err e, o.1) ])
              ≡ k o.1)
    go (ok tt', s) h = (refl, refl)
    go (err e, s) h = absurd (cc h)
