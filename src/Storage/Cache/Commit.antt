-- ===== src/Storage/Cache/Commit.antt =====
-- On COMMIT_REPO of runtime/storage/Repository.cpp: what a chain of caches shows before and after.
use gsenetwork.Prelude.{
  ℕ, ◌+◌, List, [], ◌∷◌, ◌++◌, ◌≡◌, refl, ◌∙◌, arith, All, ◌==◌, none, some, inl, inr, Bool-cases,
  Option-cases,
}
use gsenetwork.Prelude.Map.{Map, lookup, insert, Above, lookup-insert, lookup_below}
use gsenetwork.Storage.Cache.{Entity, put, put_all, store_all, fetch}
use gsenetwork.Storage.Cache.Sound.{IsOwn, IsSound}
use gsenetwork.Storage.Cache.View.{norm, view, view-put_top}

module _ {V : Type 0} ⦃e : Entity V⦄ where
  view-put_all-Above :
      (db : ℕ → V) (j b : ℕ) (c m : Map V) (ms : List (Map V))
      → Above b c
      → All IsOwn c
      → norm (view db j (put_all c m ∷ ms)) ≡ norm (view db j (c ∷ m ∷ ms))
  unfolding put_all
  view-put_all-Above db j b [] m ms s o = refl
  view-put_all-Above db j b ((k, v) ∷ c) m ms s o =
      view-put_all-Above db j (k + 1) c (put v m) ms s.1 o.1
      ∙ ground (arith, view-put_top db v j m ms, lookup_below (k + 1) j c)

  -- Committing a sound cache into its parent leaves the parent showing, for every key, what the child
  -- showed over it.
  pub view-put_all :
      (db : ℕ → V) (j : ℕ) (c m : Map V) (ms : List (Map V))
      → IsSound c
      → norm (view db j (put_all c m ∷ ms)) ≡ norm (view db j (c ∷ m ∷ ms))
  view-put_all db j c m ms s = view-put_all-Above db j 0 c m ms s.0 s.1

  -- Where a read of an entry's bytes agrees with the entry on what `seen` takes of both.
  module _ {W : Type 0} (seen : V → W) (reread : V → V)
      (agrees : (v : V) → seen (reread v) ≡ seen v) where
    seen_first :
        (j k : ℕ) (v : V) (c s : Map V)
        → Above (k + 1) c
        → e.key v ≡ k
        → seen (view (fetch (insert (e.key v) (reread v) s)) j (c ∷ []))
          ≡ seen (view (fetch s) j (((k, v) ∷ c) ∷ []))
    seen_first j k v c s a own = elim (Bool-cases (k == j)) [
      | inl same ↦
          let gone : lookup j c ≡ none = ground (arith, lookup_below (k + 1) j c) in
          let kept : lookup j (insert (e.key v) (reread v) s) ≡ some (reread v) =
            ground (arith, lookup-insert (e.key v) (reread v) j s) in
          rw (view, fetch, gone, kept, same) (agrees v)
      | inr other ↦
          let kept : lookup j (insert (e.key v) (reread v) s) ≡ lookup j s =
            ground (arith, lookup-insert (e.key v) (reread v) j s) in
          elim (Option-cases (lookup j c)) [
            | inl gone ↦ rw (view, fetch, gone, kept, other) refl
            | inr (w, there) ↦ rw (view, fetch, there, other) refl
          ]
    ]

    fetch-store_all :
        (j b : ℕ) (c s : Map V)
        → Above b c
        → All IsOwn c
        → seen (fetch (store_all reread c s) j) ≡ seen (view (fetch s) j (c ∷ []))
    unfolding store_all
    fetch-store_all j b [] s a o = refl
    fetch-store_all j b ((k, v) ∷ c) s a o =
        fetch-store_all j (k + 1) c (insert (e.key v) (reread v) s) a.1 o.1
        ∙ seen_first j k v c s a.1 o.0.0

    -- Committing the oldest sound cache into the database and dropping its layer changes nothing of what
    -- is seen of the chain, for every key.
    pub view-store_all :
        (j : ℕ) (c s : Map V) (ms : List (Map V))
        → IsSound c
        → seen (view (fetch (store_all reread c s)) j ms) ≡ seen (view (fetch s) j (ms ++ c ∷ []))
    view-store_all j c s [] h = fetch-store_all j 0 c s h.0 h.1
    view-store_all j c s (m ∷ ms) h = elim (Option-cases (lookup j m)) [
      | inl gone ↦ rw (view, gone) (view-store_all j c s ms h)
      | inr (v, there) ↦ rw (view, there) refl
    ]
