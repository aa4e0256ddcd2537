-- ===== src/Storage/Repository/Total.antt =====
-- On runtime/storage/Repository.cpp: the money on some accounts together.
use gsenetwork.Prelude.{
  ℕ, ◌+◌, ◌-◌, ◌≤◌, ◌<◌, ◌||◌, List, [], ◌∷◌, Bool, true, false, ◌≡◌, ◌≢◌, refl, ap, arith, inl,
  inr, Bool-cases, ◌==◌, if◌then◌else◌, ltb, leb, u64, or-left, or-right, ltb_false→le,
  leb_false→lt,
}
use gsenetwork.Prelude.Int.{ℤ}
use gsenetwork.Core.Account.{Account, set_balance as with_balance}
use gsenetwork.Storage.Database.{account_entity}
use gsenetwork.Storage.Repository.{is_empty}
use gsenetwork.Storage.Repository.Ledger.{update}
use gsenetwork.Storage.Repository.Book.{Book, opened, spec_burn, spec_transfer}
use gsenetwork.Storage.Repository.Money.{opened_balance}

-- The sum of the balances on some addresses.
abbrev pub total : List ℕ → Book → ℕ
total [] f = 0
total (x ∷ xs) f = (f x).balance + total xs f

abbrev pub has : ℕ → List ℕ → Bool
has a [] = false
has a (x ∷ xs) = if x == a then true else has a xs

abbrev pub AreDistinct : List ℕ → Type 0
AreDistinct [] = Unit
AreDistinct (x ∷ xs) = (has x xs ≡ false) × AreDistinct xs

abbrev pub Bounded : Book → Type 0
Bounded f = (j : ℕ) → (f j).balance < u64

pub update-Bounded :
    (f : Book) (a : ℕ) (w : Account) → Bounded f → w.balance < u64 → Bounded (update f a w)
update-Bounded f a w b h j = ground (arith, b j)

pub total-le :
    (xs : List ℕ) (f : Book) (a : ℕ) (w : Account)
    → w.balance ≤ (f a).balance
    → total xs (update f a w) ≤ total xs f
total-le [] f a w h = omega arith
total-le (x ∷ xs) f a w h = elim (Bool-cases (a == x)) [
  | inl same ↦ ground (arith, total-le xs f a w h)
  | inr other ↦ rw other (omega (arith, total-le xs f a w h))
]

pub total-outside :
    (xs : List ℕ) (f : Book) (a : ℕ) (w : Account)
    → has a xs ≡ false
    → total xs (update f a w) ≡ total xs f
total-outside [] f a w h = refl
total-outside (x ∷ xs) f a w h = ground (arith, total-outside xs f a w)

pub total-inside :
    (xs : List ℕ) (f : Book) (a : ℕ) (w : Account)
    → AreDistinct xs
    → has a xs ≡ true
    → total xs (update f a w) + (f a).balance ≡ total xs f + w.balance
total-inside [] f a w d h = absurd (cc h)
total-inside (x ∷ xs) f a w d h = elim (Bool-cases (x == a)) [
  | inl same ↦ ground (arith, total-outside xs f a w)
  | inr other ↦ ground (arith, total-inside xs f a w)
]

pub spec_burn-Total :
    (xs : List ℕ) (a value : ℕ) (f : Book)
    → Bounded f
    → let g = (spec_burn a value f).1 in Bounded g × (total xs g ≤ total xs f)
spec_burn-Total xs a value f b = elim (Bool-cases (is_empty (f a))) [
  | inl gone ↦ rw gone (b, omega arith)
  | inr full ↦ rw full (elim (Bool-cases (ltb (f a).balance value)) [
    | inl short ↦ rw short (b, omega arith)
    | inr enough ↦
        rw enough (update-Bounded f a _ b (omega (arith, b a)), total-le xs f a _ (omega arith))
  ])
]

-- Between two accounts, the first of which counts.
pub spec_transfer-Total :
    (xs : List ℕ) (from to value : ℕ) (now : ℤ) (f : Book)
    → AreDistinct xs
    → has from xs ≡ true
    → from ≢ to
    → Bounded f
    → let g = (spec_transfer from to value now f).1 in Bounded g × (total xs g ≤ total xs f)
spec_transfer-Total xs from to value now f d counts ne b =
    let t = opened to now (f to) in
    let own = opened_balance to now (f to) in
    elim (Bool-cases (is_empty (f from))) [
      | inl gone ↦ rw gone (b, omega arith)
      | inr full ↦
          rw full (elim (Bool-cases (ltb (f from).balance value || leb u64 (t.balance + value))) [
            | inl refused ↦ rw refused (b, omega arith)
            | inr passed ↦
                let enough : value ≤ (f from).balance =
                  ltb_false→le (f from).balance value
                    (or-left (ltb (f from).balance value) (leb u64 (t.balance + value)) passed) in
                let fits : t.balance + value < u64 =
                  leb_false→lt u64 (t.balance + value)
                    (or-right (ltb (f from).balance value) (leb u64 (t.balance + value)) passed) in
                let f1 = update f from (with_balance ((f from).balance - value) (f from)) in
                let out =
                  total-inside xs f from (with_balance ((f from).balance - value) (f from)) d
                    counts in
                let b1 =
                  update-Bounded f from (with_balance ((f from).balance - value) (f from)) b
                    (omega (arith, b from)) in
                let untouched : f1 to ≡ f to = ground arith in
                rw passed (
                  update-Bounded f1 to (with_balance (t.balance + value) t) b1
                      (omega (arith, fits)),
                  elim (Bool-cases (has to xs)) [
                    | inl both ↦
                        let into =
                          total-inside xs f1 to (with_balance (t.balance + value) t) d both in
                        omega
                          (arith, out, into, own, ap (λ (v : Account). v.balance) untouched, enough)
                    | inr one ↦
                        let into =
                          total-outside xs f1 to (with_balance (t.balance + value) t) one in
                        omega (arith, out, into)
                  ],
                )
          ])
    ]
