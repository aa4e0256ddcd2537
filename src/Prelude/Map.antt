-- ===== src/Prelude/Map.antt =====
-- std::map over numeric keys: an association list in key order.
use mathlib.Core.Path.{◌≡◌, refl}
use mathlib.Core.List.{List, [], ◌∷◌}
use mathlib.Core.Option.{Option, none, some}
use Prim.Native.Nat.{ℕ, ◌+◌, ◌≤◌, ◌<◌}
use native.Mathlib.Omega.{arith}
use gsenetwork.Prelude.Tests.{ltb, ◌==◌, if◌then◌else◌}

abbrev pub Map {ℓ} : Type ℓ → Type ℓ
Map V = List (ℕ × V)

module _ {ℓ} {V : Type ℓ} where
  -- `m.find(k)`
  abbrev pub lookup : ℕ → Map V → Option V
  lookup k [] = none
  lookup k ((j, v) ∷ m) = if j == k then some v else lookup k m

  -- `m[k] = v`
  abbrev pub insert : ℕ → V → Map V → Map V
  insert k v [] = (k, v) ∷ []
  insert k v ((j, w) ∷ m) =
      if ltb k j then (k, v) ∷ (j, w) ∷ m else if k == j then (k, v) ∷ m else (j, w) ∷ insert k v m

  -- `m.erase(m.find(k))`, if the key is there
  abbrev pub erase : ℕ → Map V → Map V
  erase k [] = []
  erase k ((j, w) ∷ m) = if k == j then m else (j, w) ∷ erase k m

  -- Every key lies above the bound, and the keys grow along the list.
  abbrev pub Above : ℕ → Map V → Type 0
  Above b [] = Unit
  Above b ((j, w) ∷ m) = (b ≤ j) × Above (j + 1) m

  abbrev pub IsSorted : Map V → Type 0
  IsSorted m = Above 0 m

module _ {ℓ} {V : Type ℓ} where
  pub lookup-insert :
      (k : ℕ) (v : V) (j : ℕ) (m : Map V)
      → lookup j (insert k v m) ≡ (if k == j then some v else lookup j m)
  lookup-insert k v j [] = refl
  lookup-insert k v j ((i, w) ∷ m) = ground (arith, lookup-insert k v j m)

  pub Above-mono : (b c : ℕ) (m : Map V) → b ≤ c → Above c m → Above b m
  Above-mono b c [] h s = tt
  Above-mono b c ((j, w) ∷ m) h s = (omega arith, s.1)

  pub insert-Above : (b k : ℕ) (v : V) (m : Map V) → b ≤ k → Above b m → Above b (insert k v m)
  insert-Above b k v [] h s = (h, tt)
  insert-Above b k v ((j, w) ∷ m) h s =
      ground (arith, insert-Above (j + 1) k v m, Above-mono (k + 1) (j + 1) m)

  pub erase-Above : (b k : ℕ) (m : Map V) → Above b m → Above b (erase k m)
  erase-Above b k [] s = tt
  erase-Above b k ((j, w) ∷ m) s = ground (arith, erase-Above (j + 1) k m, Above-mono b (j + 1) m)

  -- A key below the bound is not there.
  pub lookup_below : (b k : ℕ) (m : Map V) → Above b m → k < b → lookup k m ≡ none
  lookup_below b k [] s h = refl
  lookup_below b k ((j, w) ∷ m) s h = ground (arith, lookup_below (j + 1) k m)

  pub lookup-erase :
      (b k j : ℕ) (m : Map V)
      → Above b m
      → lookup j (erase k m) ≡ (if k == j then none else lookup j m)
  lookup-erase b k j [] s = ground arith
  lookup-erase b k j ((i, w) ∷ m) s =
      ground (arith, lookup-erase (i + 1) k j m, lookup_below (i + 1) j m)
