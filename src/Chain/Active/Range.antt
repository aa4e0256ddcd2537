-- ===== src/Chain/Active/Range.antt =====
-- On `updateActiveProducers` of chain/BlockChain.cpp: the indices that it reads.
use gsenetwork.Prelude.{
  ℕ, zero, suc, ◌+◌, ◌-◌, ◌≤◌, ◌<◌, List, [], ◌∷◌, some, ◌≡◌, refl, arith, inl, inr, Bool-cases,
  ltb, ◌==◌, length, get_elem?,
}
use gsenetwork.Core.Producer.{Producer}
use gsenetwork.Core.Snapshot.{ProducerSnapshot, delete_producer}
use gsenetwork.Chain.Active.{delete_from, delete_others, next_index, delete_missed}

get_elem?-some :
    (ps : List Producer) (i : ℕ) → i < length ps → (p : Producer) × (get_elem? ps i ≡ some p)
get_elem?-some [] i h = absurd (omega arith)
get_elem?-some (p ∷ ps) zero h = (p, refl)
get_elem?-some (p ∷ ps) (suc i) h = get_elem?-some ps i (omega arith)

pub get_elem?-lt :
    (ps : List Producer) (i : ℕ) (p : Producer) → get_elem? ps i ≡ some p → i < length ps
get_elem?-lt [] i p h = absurd (cc h)
get_elem?-lt (q ∷ ps) zero p h = omega arith
get_elem?-lt (q ∷ ps) (suc i) p h = omega (arith, get_elem?-lt ps i p h)

delete_from-some :
    (count i : ℕ) (ps : List Producer) (s : ProducerSnapshot)
    → i + count ≤ length ps
    → (s' : ProducerSnapshot) × (delete_from count i ps s ≡ some s')
unfolding delete_from
delete_from-some zero i ps s h = (s, refl)
delete_from-some (suc count) i ps s h =
    let (p, e) = get_elem?-some ps i (omega arith) in
    let (s', e') = delete_from-some count (i + 1) ps (delete_producer p s) (omega arith) in
    (s', rw (e, delete_from) e')

pub delete_missed-some :
    (before now : ℕ) (ps : List Producer) (s : ProducerSnapshot)
    → now < length ps
    → (s' : ProducerSnapshot) × (delete_missed before now ps s ≡ some s')
unfolding delete_missed delete_from
delete_missed-some before now ps s h =
    let next = next_index before in
    elim (Bool-cases (ltb before now)) [
      | inl later ↦
          let (s', e) = delete_from-some (now - next) next ps s (ground arith) in (s', rw later e)
      | inr notlater ↦ elim (Bool-cases (before == now)) [
        | inl same ↦ (delete_others 0 now ps s, rw (notlater, same) refl)
        | inr other ↦
            let (s1, e1) = delete_from-some now 0 ps s (omega arith) in
            elim (Bool-cases (ltb next (length ps))) [
              | inl within ↦
                  let (s', e) = delete_from-some (length ps - next) next ps s1 (ground arith) in
                  (s', rw (notlater, other, e1) e)
              | inr beyond ↦
                  let none_left : length ps - next ≡ 0 = ground arith in
                  (s1, rw (notlater, other, e1, none_left, delete_from) refl)
            ]
      ]
    ]
