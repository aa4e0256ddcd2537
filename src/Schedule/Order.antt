-- ===== src/Schedule/Order.antt =====
-- On `schedule` of producer/Schedule.cpp: the order of the producers.
use gsenetwork.Prelude.{
  ◌≤◌, ◌<◌, List, [], ◌∷◌, ◌++◌, true, false, ◌≡◌, refl, sym, ap, ◌∙◌, ◌⊎◌, inl, inr, arith,
  Bool-cases, All,
}
use mathlib.Core.Path.{subst}
use mathlib.Core.List.{Perm, append_assoc, append-nil}
use mathlib.Core.List.Perm
use gsenetwork.Prelude.Int.{ℤ}
use gsenetwork.Core.Producer.{Producer, producer_gt}
use gsenetwork.Schedule.{Schedule, insert_sorted, sort, producer_sort, retire, enter, schedule}

-- `p` need not stand behind `q`: more votes, or as many and an address that is not lower.
abbrev pub Precedes : Producer → Producer → Type 0
Precedes p q = (q.votes < p.votes) ⊎ ((q.votes ≡ p.votes) × (q.address ≤ p.address))

abbrev pub IsOrdered : List Producer → Type 0
IsOrdered [] = Unit
IsOrdered (p ∷ ps) = All (Precedes p) ps × IsOrdered ps

Precedes-trans : (p q r : Producer) → Precedes p q → Precedes q r → Precedes p r
Precedes-trans p q r h k = ground arith

gt-Precedes : (p q : Producer) → producer_gt p q ≡ true → Precedes p q
gt-Precedes p q h = ground arith

not_gt-Precedes : (p q : Producer) → producer_gt p q ≡ false → Precedes q p
not_gt-Precedes p q h = ground arith

All-Precedes :
    (p q : Producer) (qs : List Producer) → Precedes p q → All (Precedes q) qs → All (Precedes p) qs
All-Precedes p q [] h a = tt
All-Precedes p q (r ∷ qs) h a = (Precedes-trans p q r h a.0, All-Precedes p q qs h a.1)

All-insert :
    (r p : Producer) (qs : List Producer)
    → Precedes r p
    → All (Precedes r) qs
    → All (Precedes r) (insert_sorted p qs)
unfolding insert_sorted
All-insert r p [] h a = (h, tt)
All-insert r p (q ∷ qs) h a = elim (Bool-cases (producer_gt q p)) [
  | inl gt ↦ rw gt (a.0, All-insert r p qs h a.1)
  | inr le ↦ rw le (h, a)
]

insert_sorted-IsOrdered :
    (p : Producer) (qs : List Producer) → IsOrdered qs → IsOrdered (insert_sorted p qs)
unfolding insert_sorted
insert_sorted-IsOrdered p [] o = (tt, tt)
insert_sorted-IsOrdered p (q ∷ qs) o = elim (Bool-cases (producer_gt q p)) [
  | inl gt ↦ rw gt (All-insert q p qs (gt-Precedes q p gt) o.0, insert_sorted-IsOrdered p qs o.1)
  | inr le ↦ let first = not_gt-Precedes q p le in rw le ((first, All-Precedes p q qs first o.0), o)
]

insert_sorted-perm : (p : Producer) (qs : List Producer) → Perm (insert_sorted p qs) (p ∷ qs)
unfolding insert_sorted
insert_sorted-perm p [] = Perm.refl _
insert_sorted-perm p (q ∷ qs) = elim (Bool-cases (producer_gt q p)) [
  | inl gt ↦ rw gt (Perm.trans (Perm.cons q (insert_sorted-perm p qs)) (Perm.swap p q qs))
  | inr le ↦ rw le (Perm.refl _)
]

sort-IsOrdered : (ps : List Producer) → IsOrdered (sort ps)
unfolding sort
sort-IsOrdered [] = tt
sort-IsOrdered (p ∷ ps) = insert_sorted-IsOrdered p (sort ps) (sort-IsOrdered ps)

sort-perm : (ps : List Producer) → Perm (sort ps) ps
unfolding sort
sort-perm [] = Perm.refl _
sort-perm (p ∷ ps) = Perm.trans (insert_sorted-perm p (sort ps)) (Perm.cons p (sort-perm ps))

pub enter_current :
    (ps : List Producer) (t : ℤ) (s : Schedule)
    → (enter ps t s).current_producers ≡ s.current_producers ++ ps
unfolding enter
enter_current [] t s = sym (append-nil s.current_producers)
enter_current (p ∷ ps) t s = enter_current ps t _ ∙ append_assoc s.current_producers (p ∷ []) ps

pub enter_prev :
    (ps : List Producer) (t : ℤ) (s : Schedule) → (enter ps t s).prev_producers ≡ s.prev_producers
unfolding enter
enter_prev [] t s = refl
enter_prev (p ∷ ps) t s = enter_prev ps t _

pub retire_current : (s : Schedule) → (retire s).current_producers ≡ []
unfolding retire
retire_current s = ground arith

pub retire_prev : (s : Schedule) → (retire s).prev_producers ≡ s.current_producers
unfolding retire
retire_prev s = ground arith

-- `schedule` makes the given producers the current list, and the former current list the previous one;
-- each is a permutation of what it was made from, with the most votes first and among equal votes the
-- higher address first.
pub schedule_orders :
    (ps : List Producer) (t : ℤ) (s : Schedule)
    → let s' = schedule ps t s in
      IsOrdered s'.current_producers
      × Perm s'.current_producers ps
      × IsOrdered s'.prev_producers
      × Perm s'.prev_producers s.current_producers
unfolding schedule producer_sort
schedule_orders ps t s =
    let now = enter_current ps t (retire s) ∙ ap (λ qs. qs ++ ps) (retire_current s) in
    let before = enter_prev ps t (retire s) ∙ retire_prev s in
    (
      sort-IsOrdered _,
      subst (Perm _) now (sort-perm _),
      sort-IsOrdered _,
      subst (Perm _) before (sort-perm _),
    )
