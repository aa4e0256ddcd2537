-- ===== src/Storage/Cache/View.antt =====
-- On the reads of runtime/storage/Repository.cpp: what a chain of caches shows, which is the first layer's
-- entry or else the database's.
use gsenetwork.Prelude.{
  ℕ, List, [], ◌∷◌, true, false, none, some, ◌≡◌, refl, sym, ap, ◌∙◌, ◌⊎◌, inl, inr, arith,
  if◌then◌else◌, ◌==◌, ==→eq, Bool-cases, Option-cases,
}
use gsenetwork.Prelude.Map.{Map, lookup, lookup-insert}
use gsenetwork.Storage.Cache.{Entity, put, read_db, read_parent, read}
use gsenetwork.Storage.Cache.Sound.{IsSound, AllSound, IsKeyed, lookup-IsOwn, put-IsSound}

module _ {V : Type 0} ⦃e : Entity V⦄ where
  -- Values are compared as `operator=` copies them.
  abbrev pub norm : V → V
  norm v = e.assign e.empty v

  abbrev pub view : (ℕ → V) → ℕ → List (Map V) → V
  view db k [] = db k
  view db k (m ∷ ms) = elim (lookup k m) [ some v ↦ v | none ↦ view db k ms ]

  pub lookup-put_self :
      (v : V) (m : Map V) → (w : V) × (lookup (e.key v) (put v m) ≡ some w) × (norm w ≡ norm v)
  unfolding put
  lookup-put_self v m = elim (Option-cases (lookup (e.key v) m)) [
    | inl q ↦ (v, rw q (ground (arith, lookup-insert (e.key v) v (e.key v) m)), refl)
    | inr (old, q) ↦ (
      e.assign old v,
      rw q (ground (arith, lookup-insert (e.key v) (e.assign old v) (e.key v) m)),
      e.assign-assign e.empty old v,
    )
  ]

  pub lookup-put_ne :
      (v : V) (j : ℕ) (m : Map V) → (e.key v == j) ≡ false → lookup j (put v m) ≡ lookup j m
  unfolding put
  lookup-put_ne v j m h = elim (Option-cases (lookup (e.key v) m)) [
    | inl q ↦ rw q (ground (arith, lookup-insert (e.key v) v j m))
    | inr (old, q) ↦ rw q (ground (arith, lookup-insert (e.key v) (e.assign old v) j m))
  ]

  -- After a put the chain shows the new value under its key, and what it showed elsewhere.
  pub view-put_top :
      (db : ℕ → V) (v : V) (j : ℕ) (m : Map V) (ms : List (Map V))
      → norm (view db j (put v m ∷ ms))
        ≡ (if e.key v == j then norm v else norm (view db j (m ∷ ms)))
  view-put_top db v j m ms = elim (Bool-cases (e.key v == j)) [
    | inl same ↦
        let (w, q, n) = lookup-put_self v m in
        let k : e.key v ≡ j = ==→eq (e.key v) j same in rw (same, ← k) (rw (q, view) n)
    | inr other ↦ rw (other, lookup-put_ne v j m other, view)
  ]

  module _ (db : ℕ → V) (keyed : IsKeyed db) where
    -- What a read has done to a chain `ms`, giving `r`, for the key `k`.
    abbrev Reads : ℕ → List (Map V) → V × List (Map V) → Type 0
    Reads k ms (v, ms') =
        AllSound ms'
        × ((j : ℕ) → norm (view db j ms') ≡ norm (view db j ms))
        × (((e.is_empty v ≡ false) × (e.key v ≡ k) × (norm v ≡ norm (view db k ms)))
            ⊎ ((e.is_empty v ≡ true)
                × (view db k ms ≡ db k)
                × ((ms ≡ []) ⊎ (e.is_empty (db k) ≡ true))))

    -- Two chains that show the same of what they hold.
    abbrev Same : List (Map V) → List (Map V) → Type 0
    Same ms' ms = (j : ℕ) → norm (view db j ms') ≡ norm (view db j ms)

    Same-cons : (m : Map V) (ms ms' : List (Map V)) → Same ms' ms → Same (m ∷ ms') (m ∷ ms)
    Same-cons m ms ms' keep j = ground (arith, keep j)

    -- Caching a value that the chain shows already.
    cached_Reads :
        (k : ℕ) (d : V) (m : Map V) (ms ms' : List (Map V))
        → e.is_empty d ≡ false
        → e.key d ≡ k
        → norm d ≡ norm (view db k (m ∷ ms))
        → IsSound m
        → AllSound ms'
        → Same ms' ms
        → Reads k (m ∷ ms) (d, put d m ∷ ms')
    cached_Reads k d m ms ms' full own shown sm sms keep =
        ((put-IsSound d m full sm, sms), after, inl (full, own, shown))
      where
        after : Same (put d m ∷ ms') (m ∷ ms)
        after j = elim (Bool-cases (e.key d == j)) [
          | inl same ↦
              let at_j : k ≡ j = sym own ∙ ==→eq (e.key d) j same in
              view-put_top db d j m ms' ∙ (rw (same, ← at_j) shown)
          | inr other ↦ view-put_top db d j m ms' ∙ (rw other (Same-cons m ms ms' keep j))
        ]

    db_Reads :
        (k : ℕ) (m : Map V) (ms ms' : List (Map V))
        → lookup k m ≡ none
        → view db k ms ≡ db k
        → IsSound m
        → AllSound ms'
        → Same ms' ms
        → Reads k (m ∷ ms) (read_db (db k) m ms')
    unfolding read_db
    db_Reads k m ms ms' q same sm sms keep = elim (Bool-cases (e.is_empty (norm (db k)))) [
      | inl miss ↦
          rw (miss, read_db)
            (
              (sm, sms),
              Same-cons m ms ms' keep,
              inr (e.is_empty-on_miss (norm (db k)) miss, rw (q, view) same, inr (gone miss)),
            )
      | inr full ↦
          rw (full, read_db)
            (cached_Reads k (norm (db k)) m ms ms' full
              (e.key-assign e.empty (db k)
                ∙ keyed k (sym (e.is_empty-assign e.empty (db k)) ∙ full))
              (rw (q, view) (e.assign-assign e.empty e.empty (db k) ∙ ap norm (sym same))) sm sms
              keep)
    ]
      where
        gone : e.is_empty (norm (db k)) ≡ true → e.is_empty (db k) ≡ true
        gone miss = sym (e.is_empty-assign e.empty (db k)) ∙ miss

    parent_Reads :
        (k : ℕ) (m : Map V) (ms : List (Map V)) (p : V) (ms' : List (Map V))
        → lookup k m ≡ none
        → IsSound m
        → Reads k ms (p, ms')
        → Reads k (m ∷ ms) (read_parent (db k) p m ms')
    unfolding read_parent
    parent_Reads k m ms p ms' q sm (sms, keep, inl (full, own, shown)) =
        rw (e.is_empty-assign e.empty p, full)
          (cached_Reads k (norm p) m ms ms' (e.is_empty-assign e.empty p ∙ full)
            (e.key-assign e.empty p ∙ own)
            (rw (q, view) (e.assign-assign e.empty e.empty p ∙ shown)) sm sms keep)
    parent_Reads k m ms p ms' q sm (sms, keep, inr (miss, same, _)) =
        rw (e.is_empty-assign e.empty p, miss) (db_Reads k m ms ms' q same sm sms keep)

    read-Reads : (k : ℕ) (ms : List (Map V)) → AllSound ms → Reads k ms (read db k ms)
    unfolding read
    read-Reads k [] s = (tt, λ j. refl, inr (e.is_empty-empty, refl, inl refl))
    read-Reads k (m ∷ ms) s = elim (Option-cases (lookup k m)) [
      | inl q ↦ rw (q, read) (parent_Reads k m ms _ _ q s.0 (read-Reads k ms s.1))
      | inr (v, q) ↦
          let own = lookup-IsOwn k v m s.0.1 q in
          rw (q, read) (s, λ j. refl, inl (own.1, own.0, rw (q, view)))
    ]

    -- A read in a sound chain over a keyed database returns what the chain shows for the key, as
    -- `operator=` copies it, and an empty object exactly when that is empty. The chain stays sound,
    -- and shows the same for every key.
    pub read-view :
        (k : ℕ) (m : Map V) (ms : List (Map V))
        → AllSound (m ∷ ms)
        → let (v, ms') = read db k (m ∷ ms) in
          AllSound ms'
          × ((j : ℕ) → norm (view db j ms') ≡ norm (view db j (m ∷ ms)))
          × (e.is_empty v ≡ e.is_empty (view db k (m ∷ ms)))
          × (e.is_empty v ≡ false → (e.key v ≡ k) × (norm v ≡ norm (view db k (m ∷ ms))))
    read-view k m ms s = finish (read-Reads k (m ∷ ms) s)
      where
        finish :
            Reads k (m ∷ ms) (read db k (m ∷ ms))
            → let (v, ms') = read db k (m ∷ ms) in
              AllSound ms'
              × ((j : ℕ) → norm (view db j ms') ≡ norm (view db j (m ∷ ms)))
              × (e.is_empty v ≡ e.is_empty (view db k (m ∷ ms)))
              × (e.is_empty v ≡ false → (e.key v ≡ k) × (norm v ≡ norm (view db k (m ∷ ms))))
        finish (sound, keep, inl (full, own, shown)) = (
          sound,
          keep,
          sym (e.is_empty-assign e.empty _) ∙ ap e.is_empty shown ∙ e.is_empty-assign e.empty _,
          λ _. (own, shown),
        )
        finish (sound, keep, inr (miss, same, inl last)) = absurd (cc)
        finish (sound, keep, inr (miss, same, inr gone)) =
            (sound, keep, miss ∙ sym (ap e.is_empty same ∙ gone), λ full. absurd (cc))
