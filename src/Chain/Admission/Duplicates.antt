-- ===== src/Chain/Admission/Duplicates.antt =====
-- On `checkDuplicateTx` of chain/BlockChain.cpp: the sizes that it compares.
use gsenetwork.Prelude.{
  ℕ, ◌+◌, ◌≤◌, List, [], ◌∷◌, Bool, true, false, ◌≡◌, ◌↔◌, refl, sym, ap, ◌∙◌, arith, inl, inr,
  Bool-cases, ◌==◌, ==→eq, eq→==, if◌then◌else◌, length, All, none, some,
}
use gsenetwork.Prelude.Map.{Map, lookup, insert, Above, lookup-insert, insert-Above, lookup_below}
use gsenetwork.Core.Transaction.{Transaction}
use gsenetwork.Core.Block.{Block}
use gsenetwork.Chain.Admission.{insert_all, hashes, check_duplicate_tx}

abbrev pub NoRepeat : List ℕ → Type 0
NoRepeat [] = Unit
NoRepeat (h ∷ hs) = All (λ k. (h == k) ≡ false) hs × NoRepeat hs

abbrev known : ℕ → Map (Unit {0}) → Bool
known h m = elim (lookup h m) [ none ↦ false | some _ ↦ true ]

insert-length :
    (b h : ℕ) (m : Map (Unit {0}))
    → Above b m
    → length (insert h tt m) ≡ length m + (if known h m then 0 else 1)
insert-length b h [] s = refl
insert-length b h ((j, v) ∷ m) s =
    ground (arith, insert-length (j + 1) h m, lookup_below (j + 1) h m)

known-insert :
    (h k : ℕ) (m : Map (Unit {0})) → known k (insert h tt m) ≡ (if h == k then true else known k m)
known-insert h k m = ground (arith, lookup-insert h tt k m)

insert_all-bound :
    (hs : List ℕ) (m : Map (Unit {0})) → Above 0 m → length (insert_all hs m) ≤ length m + length hs
insert_all-bound [] m s = omega arith
insert_all-bound (h ∷ hs) m s =
    let bound = insert_all-bound hs (insert h tt m) (insert-Above 0 h tt m (omega arith) s) in
    ground (arith, insert-length 0 h m s, bound)

known-split :
    (h : ℕ) (hs : List ℕ) (m : Map (Unit {0}))
    → All (λ k. known k (insert h tt m) ≡ false) hs
    → All (λ k. known k m ≡ false) hs × All (λ k. (h == k) ≡ false) hs
known-split h [] m a = (tt, tt)
known-split h (k ∷ ks) m a =
    let (old, apart) = known-split h ks m a.1 in
    let e : (if h == k then true else known k m) ≡ false = sym (known-insert h k m) ∙ a.0 in
    elim (Bool-cases (h == k)) [
      | inl same ↦ absurd (cc (rw same at e))
      | inr other ↦ ((rw other at e, old), (other, apart))
    ]

known-join :
    (h : ℕ) (hs : List ℕ) (m : Map (Unit {0}))
    → All (λ k. known k m ≡ false) hs
    → All (λ k. (h == k) ≡ false) hs
    → All (λ k. known k (insert h tt m) ≡ false) hs
known-join h [] m a b = tt
known-join h (k ∷ ks) m a b = (
  known-insert h k m ∙ ap (λ t. if t then true else known k m) b.0 ∙ a.0,
  known-join h ks m a.1 b.1,
)

full-NoRepeat :
    (hs : List ℕ) (m : Map (Unit {0}))
    → Above 0 m
    → length (insert_all hs m) ≡ length m + length hs
    → All (λ k. known k m ≡ false) hs × NoRepeat hs
full-NoRepeat [] m s e = (tt, tt)
full-NoRepeat (h ∷ hs) m s e =
    let s' = insert-Above 0 h tt m (omega arith) s in
    let bound = insert_all-bound hs (insert h tt m) s' in
    elim (Bool-cases (known h m)) [
      | inl there ↦
          let long : length (insert h tt m) ≡ length m + 0 =
            insert-length 0 h m s ∙ ap (λ t. length m + (if t then 0 else 1)) there in
          absurd (ground arith)
      | inr new ↦
          let long : length (insert h tt m) ≡ length m + 1 =
            insert-length 0 h m s ∙ ap (λ t. length m + (if t then 0 else 1)) new in
          let (fresh, rest) = full-NoRepeat hs (insert h tt m) s' (ground arith) in
          let (old, apart) = known-split h hs m fresh in ((new, old), (apart, rest))
    ]

NoRepeat-full :
    (hs : List ℕ) (m : Map (Unit {0}))
    → Above 0 m
    → All (λ k. known k m ≡ false) hs
    → NoRepeat hs
    → length (insert_all hs m) ≡ length m + length hs
NoRepeat-full [] m s a n = omega arith
NoRepeat-full (h ∷ hs) m s a n =
    let s' = insert-Above 0 h tt m (omega arith) s in
    let long : length (insert h tt m) ≡ length m + 1 =
      insert-length 0 h m s ∙ ap (λ t. length m + (if t then 0 else 1)) a.0 in
    let rest = NoRepeat-full hs (insert h tt m) s' (known-join h hs m a.1 n.0) n.1 in ground arith

hashes-length : (ts : List Transaction) → length (hashes ts) ≡ length ts
hashes-length [] = refl
hashes-length (t ∷ ts) = ground (arith, hashes-length ts)

none_known : (hs : List ℕ) → All (λ k. known k [] ≡ false) hs
none_known [] = tt
none_known (h ∷ hs) = (refl, none_known hs)

-- `checkDuplicateTx` accepts a block exactly when no two of its transactions have the same hash.
pub check_duplicate_tx-NoRepeat :
    (b : Block) → (check_duplicate_tx b ≡ true) ↔ NoRepeat (hashes b.transactions)
check_duplicate_tx-NoRepeat b =
    let same = hashes-length b.transactions in
    (
      (λ e.
          (full-NoRepeat (hashes b.transactions) [] tt (
            ==→eq _ (length b.transactions) e
            ∙ sym same
            ∙ zero_add (length (hashes b.transactions)))).1),
      λ n. eq→== _ (length b.transactions) (
          NoRepeat-full (hashes b.transactions) [] tt (none_known (hashes b.transactions)) n
          ∙ sym (zero_add (length (hashes b.transactions)))
          ∙ same),
    )
  where
    zero_add : (n : ℕ) → n ≡ 0 + n
    zero_add n = omega arith
