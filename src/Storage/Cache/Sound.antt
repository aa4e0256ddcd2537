-- ===== src/Storage/Cache/Sound.antt =====
-- The invariant of a chain of caches: keys in order, every entry under its own key and not empty.
use gsenetwork.Prelude.{
  ℕ, List, [], ◌∷◌, false, some, ◌≡◌, refl, inl, inr, arith, Option-cases, All,
}
use gsenetwork.Prelude.Map.{Map, lookup, insert, Above, insert-Above}
use gsenetwork.Storage.Cache.{Entity, put}

module _ {V : Type 0} ⦃e : Entity V⦄ where
  abbrev pub IsOwn : ℕ × V → Type 0
  IsOwn (k, v) = (e.key v ≡ k) × (e.is_empty v ≡ false)

  abbrev pub IsSound : Map V → Type 0
  IsSound m = Above 0 m × All IsOwn m

  abbrev pub AllSound : List (Map V) → Type 0
  AllSound ms = All IsSound ms

  -- The database gives a stored object under its own key.
  abbrev pub IsKeyed : (ℕ → V) → Type 0
  IsKeyed db = (k : ℕ) → e.is_empty (db k) ≡ false → e.key (db k) ≡ k

  pub lookup-IsOwn : (k : ℕ) (v : V) (m : Map V) → All IsOwn m → lookup k m ≡ some v → IsOwn (k, v)
  lookup-IsOwn k v [] h q = cc
  lookup-IsOwn k v ((j, w) ∷ m) h q = ground (arith, lookup-IsOwn k v m)

  insert-IsOwn : (k : ℕ) (v : V) (m : Map V) → IsOwn (k, v) → All IsOwn m → All IsOwn (insert k v m)
  insert-IsOwn k v [] o h = (o, tt)
  insert-IsOwn k v ((j, w) ∷ m) o h = ground (arith, insert-IsOwn k v m o)

  pub put-IsSound : (v : V) (m : Map V) → e.is_empty v ≡ false → IsSound m → IsSound (put v m)
  unfolding put
  put-IsSound v m n h = elim (Option-cases (lookup (e.key v) m)) [
    | inl q ↦
        rw q
          (insert-Above 0 (e.key v) v m (omega arith) h.0, insert-IsOwn (e.key v) v m (refl, n) h.1)
    | inr (old, q) ↦ rw q (
      insert-Above 0 (e.key v) (e.assign old v) m (omega arith) h.0,
      insert-IsOwn (e.key v) (e.assign old v) m (e.key-assign old v, cc (e.is_empty-assign old v))
          h.1,
    )
  ]
