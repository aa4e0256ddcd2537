-- ===== src/Chain/Rollback/Linked.antt =====
-- On `add` of chain/RollbackState.cpp: the links between the blocks of the index, and the head.
use gsenetwork.Prelude.{
  ℕ, ◌≤◌, [], ◌∷◌, true, false, Option, none, some, ◌≡◌, refl, sym, ◌∙◌, arith, ltb, inl, inr,
  Bool-cases, ◌==◌, if◌then◌else◌, All, some-injective, eq→==,
}
use mathlib.Core.Path.{subst}
use gsenetwork.Core.Block.{Block}
use gsenetwork.Core.Snapshot.{ProducerSnapshot}
use gsenetwork.Chain.BlockState.{BlockState, new_block_state, prev}
use gsenetwork.Chain.Rollback.{Index, RollbackState, find, exists, greatest, add_state, add}

-- An entry is neither the block nor a child of the block with the identifier.
abbrev pub Apart : ℕ → BlockState → Type 0
Apart id b = ((b.block_id == id) ≡ false) × ((prev b == id) ≡ false)

abbrev pub IsLinked : Index → Type 0
IsLinked [] = Unit
IsLinked (b ∷ bs) = ((prev b == b.block_id) ≡ false) × All (Apart b.block_id) bs × IsLinked bs

-- The head's block is in the index and no number there is greater.
abbrev pub IsGreatest : BlockState → Index → Type 0
IsGreatest h idx = (exists h.block_id idx ≡ true) × All (λ b. b.block_number ≤ h.block_number) idx

pub record IsValid (s : RollbackState) : Type 0 where
  pub linked : IsLinked s.index
  pub headed : (h : BlockState) → s.head ≡ some h → IsGreatest h s.index

-- No entry is a child of the block with the identifier.
abbrev pub NoChild : ℕ → Index → Type 0
NoChild id idx = All (λ b. (prev b == id) ≡ false) idx

pub exists-cons :
    (id : ℕ) (b : BlockState) (bs : Index)
    → exists id (b ∷ bs) ≡ (if b.block_id == id then true else exists id bs)
exists-cons id b bs = elim (Bool-cases (b.block_id == id)) [
  | inl same ↦ rw (same, exists, find) refl
  | inr other ↦ rw (other, exists, find) refl
]

pub apart : (id : ℕ) (idx : Index) → exists id idx ≡ false → NoChild id idx → All (Apart id) idx
apart id [] h n = tt
apart id (b ∷ bs) h n =
    let h' : (if b.block_id == id then true else exists id bs) ≡ false =
      sym (exists-cons id b bs) ∙ h in
    elim (Bool-cases (b.block_id == id)) [
      | inl same ↦ absurd (cc (rw same at h'))
      | inr other ↦ ((other, n.0), apart id bs (rw other at h') n.1)
    ]

greatest-bound :
    (b : BlockState) (bs : Index) (n : ℕ)
    → (greatest b bs).block_number ≤ n
    → All (λ x. x.block_number ≤ n) (b ∷ bs)
greatest-bound b [] n h = (h, tt)
greatest-bound b (c ∷ cs) n h =
    elim (Bool-cases (ltb (greatest c cs).block_number b.block_number)) [
      | inl more ↦
          let h' : b.block_number ≤ n = rw more at h in (h', greatest-bound c cs n (ground arith))
      | inr less ↦
          let h' : (greatest c cs).block_number ≤ n = rw less at h in
          (ground arith, greatest-bound c cs n h')
    ]

greatest-exists : (b : BlockState) (bs : Index) → exists (greatest b bs).block_id (b ∷ bs) ≡ true
greatest-exists b [] = rw (exists-cons b.block_id b [], eq→== b.block_id b.block_id refl) refl
greatest-exists b (c ∷ cs) = elim (Bool-cases (ltb (greatest c cs).block_number b.block_number)) [
  | inl more ↦
      rw more (rw (exists-cons b.block_id b (c ∷ cs), eq→== b.block_id b.block_id refl) refl)
  | inr less ↦
      rw less
        (exists-cons (greatest c cs).block_id b (c ∷ cs) ∙ ground (arith, greatest-exists c cs))
]

-- Adding a block whose hash is neither its own parent's nor that of a parent in the index keeps the
-- index linked and the head the block of the greatest number, whether the block is taken or refused.
pub add-IsValid :
    (count : ℕ) (b : Block) (ps : ProducerSnapshot) (s : RollbackState)
    → (b.parent_hash == b.hash) ≡ false
    → NoChild b.hash s.index
    → IsValid s
    → IsValid (add count b ps s).1
unfolding add add_state
add-IsValid count b ps s own child v = go s.head v
  where
    go :
        (hd : Option BlockState)
        → IsValid (record s { head = hd })
        → IsValid (add count b ps (record s { head = hd })).1
    go none w = w
    go (some h) w = elim (Bool-cases (exists b.hash s.index)) [
      | inl known ↦ rw known w
      | inr fresh ↦ rw fresh (elim (Bool-cases (exists b.parent_hash s.index)) [
        | inr lost ↦ rw lost w
        | inl found ↦ rw found (record {
          linked = (own, apart b.hash s.index fresh child, w.linked);
          headed = λ x same.
              subst (λ y. IsGreatest y (new_block_state count ps b ∷ s.index)) (some-injective same)
                (
                  greatest-exists (new_block_state count ps b) s.index,
                  greatest-bound (new_block_state count ps b) s.index _ (omega arith),
                );
        })
      ])
    ]
