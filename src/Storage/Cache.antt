-- ===== src/Storage/Cache.antt =====
-- The caches of runtime/storage/Repository.cpp for one kind of object: a chain of std::map layers,
-- the repository's own first and its ancestors' after it, over a database.
pub mod Sound
pub mod View
pub mod Commit
mod Examples
use gsenetwork.Prelude.{ℕ, List, [], ◌∷◌, Bool, true, false, Option, none, some, ◌≡◌, if◌then◌else◌}
use gsenetwork.Prelude.Map.{Map, lookup, insert}

-- What the macros of Repository.cpp use of an object, with the laws that their use relies on.
pub record Entity (V : Type 0) : Type 0 where
  pub key : V → ℕ
  pub empty : V
  -- `v == EmptyV`
  pub is_empty : V → Bool
  -- `operator=`, on the old and the new value
  pub assign : V → V → V
  -- what a read that finds nothing returns, from what the database gave
  pub on_miss : V → V
  pub is_empty-empty : is_empty empty ≡ true
  pub is_empty-on_miss : (v : V) → is_empty v ≡ true → is_empty (on_miss v) ≡ true
  pub key-assign : (u v : V) → key (assign u v) ≡ key v
  pub is_empty-assign : (u v : V) → is_empty (assign u v) ≡ is_empty v
  pub assign-assign : (t u v : V) → assign t (assign u v) ≡ assign t v

module _ {V : Type 0} ⦃e : Entity V⦄ where
  -- `put`: an entry that is there is assigned to, a new one is a copy.
  unfoldable pub put : V → Map V → Map V
  put v m = insert (e.key v) (elim (lookup (e.key v) m) [ none ↦ v | some old ↦ e.assign old v ]) m

  -- `put` of the repository, into its own cache.
  pub put_top : V → List (Map V) → List (Map V)
  put_top v [] = []
  put_top v (m ∷ ms) = put v m ∷ ms

  -- A read of a database that returns `empty` for a key that it does not hold.
  abbrev pub fetch : Map V → ℕ → V
  fetch store k = elim (lookup k store) [ none ↦ e.empty | some v ↦ v ]

  -- GET_FROM_DBC_RETURN and the `return` behind it.
  unfoldable pub read_db : V → Map V → List (Map V) → V × List (Map V)
  read_db d m ms =
      if e.is_empty (e.assign e.empty d)
      then (e.on_miss (e.assign e.empty d), m ∷ ms)
      else (e.assign e.empty d, put (e.assign e.empty d) m ∷ ms)

  -- GET_FROM_PARENT_RETURN on what the parent returned, and what follows it.
  unfoldable pub read_parent : V → V → Map V → List (Map V) → V × List (Map V)
  read_parent d p m ms =
      if e.is_empty (e.assign e.empty p)
      then read_db d m ms
      else (e.assign e.empty p, put (e.assign e.empty p) m ∷ ms)

  -- `getAccount`, `getProducer`, `getTransaction`. Where there is no parent the chain ends, which
  -- reads as a parent that finds nothing.
  unfoldable pub read : (ℕ → V) → ℕ → List (Map V) → V × List (Map V)
  read db k [] = (e.empty, [])
  read db k (m ∷ ms) =
      let (p, ms') = read db k ms in
      elim (lookup k m) [ some v ↦ (v, m ∷ ms) | none ↦ read_parent (db k) p m ms' ]

  -- COMMIT_REPO into a parent: each entry is put there.
  pub put_all : Map V → Map V → Map V
  put_all [] m = m
  put_all ((_, v) ∷ c) m = put_all c (put v m)

  -- COMMIT_REPO into the database, which stores the bytes of each entry under its key. The store holds
  -- what a read makes of the bytes, `reread` of the entry.
  pub store_all : (V → V) → Map V → Map V → Map V
  store_all reread [] s = s
  store_all reread ((_, v) ∷ c) s = store_all reread c (insert (e.key v) (reread v) s)
