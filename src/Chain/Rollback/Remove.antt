-- ===== src/Chain/Rollback/Remove.antt =====
-- On `remove` of chain/RollbackState.cpp, against one walk over the index.
use gsenetwork.Prelude.{
  ℕ, zero, suc, ◌≤◌, [], ◌∷◌, true, false, ◌≡◌, refl, sym, ap, ◌∙◌, arith, inl, inr, Bool-cases,
  Option-cases, ◌==◌, ==→eq, if◌then◌else◌, length, All, some-injective, none, some,
}
use mathlib.Core.Path.{subst}
use gsenetwork.Chain.BlockState.{BlockState, prev}
use gsenetwork.Chain.Rollback.{Index, RollbackState, find, exists, erase, remove_from, remove}
use gsenetwork.Chain.Rollback.Linked.{Apart, IsLinked, exists-cons}

-- From the newest entry to the oldest: drop the wanted block, and want its parent from there on.
abbrev pub sweep : ℕ → Index → Index
sweep id [] = []
sweep id (b ∷ bs) = if b.block_id == id then sweep (prev b) bs else b ∷ sweep id bs

pub eq_comm : (a b : ℕ) → (a == b) ≡ false → (b == a) ≡ false
eq_comm a b h = ground arith

find-absent : (id : ℕ) (idx : Index) → find id idx ≡ none → exists id idx ≡ false
find-absent id idx e = ap (λ o. elim o [ none ↦ false | some _ ↦ true ]) e

pub find-Apart :
    (k id : ℕ) (b : BlockState) (bs : Index) → find id bs ≡ some b → All (Apart k) bs → Apart k b
find-Apart k id b [] e a = absurd (cc e)
find-Apart k id b (c ∷ cs) e a = elim (Bool-cases (c.block_id == id)) [
  | inl hit ↦
      let same : c ≡ b =
        some-injective (sym (ap (λ t. if t then some c else find id cs) hit) ∙ e) in
      subst (Apart k) same a.0
  | inr miss ↦ find-Apart k id b cs (sym (ap (λ t. if t then some c else find id cs) miss) ∙ e) a.1
]

remove_from-absent : (n id : ℕ) (idx : Index) → find id idx ≡ none → remove_from n id idx ≡ idx
unfolding remove_from
remove_from-absent zero id idx e = refl
remove_from-absent (suc n) id idx e = rw (e, remove_from) refl

-- One step of the recursion, with the test for the parent taken away.
remove_from-found :
    (n id : ℕ) (b : BlockState) (idx : Index)
    → find id idx ≡ some b
    → remove_from (suc n) id idx ≡ erase id (remove_from n (prev b) idx)
unfolding remove_from
remove_from-found n id b idx e = elim (Option-cases (find (prev b) idx)) [
  | inl gone ↦
      rw (e, remove_from)
        (rw (find-absent (prev b) idx gone)
          (ap (erase id) (sym (remove_from-absent n (prev b) idx gone))))
  | inr (c, there) ↦
      let yes : exists (prev b) idx ≡ true =
        ap (λ o. elim o [ none ↦ false | some _ ↦ true ]) there in
      rw (e, remove_from) (rw yes refl)
]

-- An entry that is neither wanted nor a parent of older entries stays in front.
remove_from-cons :
    (n k : ℕ) (e : BlockState) (es : Index)
    → (e.block_id == k) ≡ false
    → All (Apart e.block_id) es
    → remove_from n k (e ∷ es) ≡ e ∷ remove_from n k es
unfolding remove_from
remove_from-cons zero k e es other a = refl
remove_from-cons (suc n) k e es other a =
    let past : find k (e ∷ es) ≡ find k es = ap (λ t. if t then some e else find k es) other in
    elim (Option-cases (find k es)) [
      | inl gone ↦
          remove_from-absent (suc n) k (e ∷ es) (past ∙ gone)
          ∙ ap (λ r. e ∷ r) (sym (remove_from-absent (suc n) k es gone))
      | inr (b, there) ↦
          let behind = find-Apart e.block_id k b es there a in
          remove_from-found n k b (e ∷ es) (past ∙ there)
          ∙ ap (erase k) (remove_from-cons n (prev b) e es (eq_comm (prev b) e.block_id behind.1) a)
          ∙ ap
              (λ t.
                if t then remove_from n (prev b) es else e ∷ erase k (remove_from n (prev b) es))
              other
          ∙ ap (λ r. e ∷ r) (sym (remove_from-found n k b es there))
    ]

-- In a linked index, fuel for each entry is enough for `remove`, which then takes away the block with
-- the identifier and all its ancestors in the index, and leaves the rest in order.
pub remove_from-sweep :
    (n id : ℕ) (idx : Index) → IsLinked idx → length idx ≤ n → remove_from n id idx ≡ sweep id idx
remove_from-sweep n id [] l h = remove_from-absent n id [] refl
remove_from-sweep zero id (e ∷ es) l h = absurd (ground arith)
remove_from-sweep (suc n) id (e ∷ es) l h = elim (Bool-cases (e.block_id == id)) [
  | inl hit ↦
      remove_from-found n id e (e ∷ es) (ap (λ t. if t then some e else find id es) hit)
      ∙ ap (erase id) (remove_from-cons n (prev e) e es (eq_comm (prev e) e.block_id l.0) l.1)
      ∙ ap (λ t. if t then remove_from n (prev e) es else e ∷ erase id (remove_from n (prev e) es))
          hit
      ∙ remove_from-sweep n (prev e) es l.2 (ground arith)
      ∙ sym (ap (λ t. if t then sweep (prev e) es else e ∷ sweep id es) hit)
  | inr miss ↦
      remove_from-cons (suc n) id e es miss l.1
      ∙ ap (λ r. e ∷ r) (remove_from-sweep (suc n) id es l.2 (ground arith))
      ∙ sym (ap (λ t. if t then sweep (prev e) es else e ∷ sweep id es) miss)
]

sweep-All : (P : BlockState → Type 0) (id : ℕ) (idx : Index) → All P idx → All P (sweep id idx)
sweep-All P id [] a = tt
sweep-All P id (b ∷ bs) a = elim (Bool-cases (b.block_id == id)) [
  | inl hit ↦ rw hit (sweep-All P (prev b) bs a.1)
  | inr miss ↦ rw miss (a.0, sweep-All P id bs a.1)
]

sweep-IsLinked : (id : ℕ) (idx : Index) → IsLinked idx → IsLinked (sweep id idx)
sweep-IsLinked id [] l = tt
sweep-IsLinked id (b ∷ bs) l = elim (Bool-cases (b.block_id == id)) [
  | inl hit ↦ rw hit (sweep-IsLinked (prev b) bs l.2)
  | inr miss ↦ rw miss (l.0, sweep-All (Apart b.block_id) id bs l.1, sweep-IsLinked id bs l.2)
]

Apart-absent : (k id : ℕ) (idx : Index) → k ≡ id → All (Apart k) idx → exists id idx ≡ false
Apart-absent k id [] e a = refl
Apart-absent k id (b ∷ bs) e a = exists-cons id b bs ∙ ground (arith, Apart-absent k id bs e a.1)

sweep-absent : (id : ℕ) (idx : Index) → IsLinked idx → exists id (sweep id idx) ≡ false
sweep-absent id [] l = refl
sweep-absent id (b ∷ bs) l = elim (Bool-cases (b.block_id == id)) [
  | inl hit ↦ rw hit (
      Apart-absent b.block_id id (sweep (prev b) bs) (==→eq b.block_id id hit)
        (sweep-All (Apart b.block_id) (prev b) bs l.1))
  | inr miss ↦ rw miss (
      exists-cons id b (sweep id bs)
      ∙ ap (λ t. if t then true else exists id (sweep id bs)) miss
      ∙ sweep-absent id bs l.2)
]

-- After `remove` on a linked index the block is gone and the index is linked still.
pub remove-absent :
    (id : ℕ) (s : RollbackState)
    → IsLinked s.index
    → IsLinked (remove id s).index × (exists id (remove id s).index ≡ false)
remove-absent id s l =
    let same = remove_from-sweep (length s.index) id s.index l (omega arith) in
    (
      subst IsLinked (sym same) (sweep-IsLinked id s.index l),
      ap (exists id) same ∙ sweep-absent id s.index l,
    )
