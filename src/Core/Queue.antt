-- ===== src/Core/Queue.antt =====
-- `FixedQueue` of core/include/core/Queue.h, over identifiers: the front of the list is the oldest.
use gsenetwork.Prelude.{
  ℕ, zero, suc, ◌-◌, ◌≤◌, ◌<◌, List, [], ◌∷◌, ◌++◌, Bool, true, false, leb, ◌==◌, if◌then◌else◌,
  length, length-append, ◌≡◌, refl, sym, ap, ◌∙◌, arith, inl, inr, Bool-cases,
}
use mathlib.Core.List.{append_assoc, append-nil}

abbrev pub pop_front : List ℕ → List ℕ
pop_front [] = []
pop_front (x ∷ q) = q

-- `push`, for a queue of the size `n`
unfoldable pub push : ℕ → ℕ → List ℕ → List ℕ
push n t q = (if leb n (length q) then pop_front q else q) ++ t ∷ []

abbrev pub is_exist : ℕ → List ℕ → Bool
is_exist t [] = false
is_exist t (x ∷ q) = if x == t then true else is_exist t q

-- Pushing a list, one after the other.
abbrev pub push_all : ℕ → List ℕ → List ℕ → List ℕ
push_all n [] q = q
push_all n (x ∷ xs) q = push_all n xs (push n x q)

abbrev pub drop : ℕ → List ℕ → List ℕ
drop zero l = l
drop (suc k) [] = []
drop (suc k) (x ∷ l) = drop k l

-- The last `n` of a list.
abbrev pub last : ℕ → List ℕ → List ℕ
last n l = drop (length l - n) l

push-length : (n t : ℕ) (q : List ℕ) → length q ≤ n → 0 < n → length (push n t q) ≤ n
unfolding push
push-length n t [] h k = elim (Bool-cases (leb n 0)) [
  | inl e ↦ rw e (omega arith)
  | inr e ↦ rw e (omega arith)
]
push-length n t (x ∷ q) h k = elim (Bool-cases (leb n (length (x ∷ q)))) [
  | inl e ↦ rw e (ground (arith, length-append q (t ∷ [])))
  | inr e ↦ rw e (ground (arith, length-append (x ∷ q) (t ∷ [])))
]

last-cons : (n x : ℕ) (l : List ℕ) → n ≤ length l → last n (x ∷ l) ≡ last n l
last-cons n x l h = ap (λ k. drop k (x ∷ l)) (suc_sub n (length l) h)
  where
    suc_sub : (a b : ℕ) → a ≤ b → suc b - a ≡ suc (b - a)
    suc_sub a b h = omega arith

last-short : (n : ℕ) (l : List ℕ) → length l ≤ n → last n l ≡ l
last-short n l h = ap (λ k. drop k l) (gone (length l) n h)
  where
    gone : (a b : ℕ) → a ≤ b → a - b ≡ 0
    gone a b h = omega arith

last-push :
    (n t : ℕ) (q xs : List ℕ)
    → length q ≤ n
    → 0 < n
    → last n (push n t q ++ xs) ≡ last n (q ++ t ∷ xs)
unfolding push
last-push n t [] xs h k = elim (Bool-cases (leb n 0)) [ inl e ↦ rw e refl | inr e ↦ rw e refl ]
last-push n t (x ∷ q) xs h k = elim (Bool-cases (leb n (length (x ∷ q)))) [
  | inl e ↦ rw e (
      ap (last n) (append_assoc q (t ∷ []) xs)
      ∙ sym (last-cons n x (q ++ t ∷ xs) (ground (arith, length-append q (t ∷ xs)))))
  | inr e ↦ rw e (ap (last n) (append_assoc (x ∷ q) (t ∷ []) xs))
]

-- Pushing a list one by one onto a queue within its positive size leaves the last ones of what was there
-- and what was pushed, as many as the size.
pub push_all-last :
    (n : ℕ) (xs q : List ℕ) → length q ≤ n → 0 < n → push_all n xs q ≡ last n (q ++ xs)
push_all-last n [] q h k = sym (ap (last n) (append-nil q) ∙ last-short n q h)
push_all-last n (x ∷ xs) q h k =
    push_all-last n xs (push n x q) (push-length n x q h k) k ∙ last-push n x q xs h k
