-- ===== src/Chain/Rollback/Descend.antt =====
-- On `rollbackTo` of chain/RollbackState.cpp, against a walk along a block's line of ancestors.
use gsenetwork.Prelude.{
  ℕ, zero, suc, ◌≤◌, ◌<◌, List, [], ◌∷◌, ◌++◌, true, false, not, ◌≡◌, refl, sym, ap, ◌∙◌, arith,
  inl, inr, Bool-cases, Option-cases, ◌==◌, ==→eq, if◌then◌else◌, length, All, Option, none, some,
  some-injective, ltb, ◌↔◌,
}
use mathlib.Core.Path.{subst}
use mathlib.Core.List.{append_assoc, append-nil, head-eq_of_cons-eq, tail-eq_of_cons-eq}
use gsenetwork.Chain.BlockState.{BlockState, prev}
use gsenetwork.Chain.Rollback.{Index, RollbackState, find, rollback_from, rollback_to}
use gsenetwork.Chain.Rollback.Linked.{IsLinked}
use gsenetwork.Chain.Rollback.Remove.{find-Apart, eq_comm}

-- The block with an identifier and its ancestors, as far as the index has them.
abbrev pub line : ℕ → Index → List BlockState
line id [] = []
line id (b ∷ bs) = if b.block_id == id then b ∷ line (prev b) bs else line id bs

abbrev pub verdict : BlockState → BlockState → List BlockState → Option (List BlockState)
verdict first item branch =
    if not (first.block_number == item.block_number)
    then none
    else if not (prev first == prev item)
    then none
    else some branch

-- The walk of `rollbackTo` from an item along its ancestors.
abbrev pub descend :
    BlockState → BlockState → List BlockState → List BlockState → Option (List BlockState)
descend first item [] branch =
    if ltb first.block_number item.block_number then none else verdict first item branch
descend first item (next ∷ older) branch =
    let below = descend first next older (branch ++ item ∷ []) in
    if ltb first.block_number item.block_number then below else verdict first item branch

pub line-absent : (id : ℕ) (idx : Index) → find id idx ≡ none → line id idx ≡ []
line-absent id [] e = refl
line-absent id (b ∷ bs) e = elim (Bool-cases (b.block_id == id)) [
  | inl hit ↦ absurd (cc (sym (ap (λ t. if t then some b else find id bs) hit) ∙ e))
  | inr miss ↦
      rw miss (line-absent id bs (sym (ap (λ t. if t then some b else find id bs) miss) ∙ e))
]

pub line-found :
    (id : ℕ) (b : BlockState) (idx : Index)
    → IsLinked idx
    → find id idx ≡ some b
    → line id idx ≡ b ∷ line (prev b) idx
line-found id b [] l e = absurd (cc e)
line-found id b (c ∷ cs) l e = elim (Bool-cases (c.block_id == id)) [
  | inl hit ↦
      let same : c ≡ b =
        some-injective (sym (ap (λ t. if t then some c else find id cs) hit) ∙ e) in
      subst (λ x. line id (c ∷ cs) ≡ x ∷ line (prev x) (c ∷ cs)) same
        (rw (hit, eq_comm (prev c) c.block_id l.0) refl)
  | inr miss ↦
      let there : find id cs ≡ some b = sym (ap (λ t. if t then some c else find id cs) miss) ∙ e in
      let behind = find-Apart c.block_id id b cs there l.1 in
      rw (miss, eq_comm (prev b) c.block_id behind.1) (line-found id b cs l.2 there)
]

pub line-length : (id : ℕ) (idx : Index) → length (line id idx) ≤ length idx
line-length id [] = omega arith
line-length id (b ∷ bs) = ground (arith, line-length (prev b) bs, line-length id bs)

descend-stop :
    (first item : BlockState) (older branch : List BlockState)
    → ltb first.block_number item.block_number ≡ false
    → descend first item older branch ≡ verdict first item branch
descend-stop first item [] branch e = rw e refl
descend-stop first item (next ∷ older) branch e = rw e refl

rollback_from-descend :
    (n : ℕ) (first item : BlockState) (branch : List BlockState) (idx : Index)
    → IsLinked idx
    → length (line (prev item) idx) < n
    → rollback_from n first item branch idx ≡ descend first item (line (prev item) idx) branch
unfolding rollback_from
rollback_from-descend zero first item branch idx l h = absurd (omega arith)
rollback_from-descend (suc n) first item branch idx l h =
    elim (Bool-cases (ltb first.block_number item.block_number)) [
      | inr reached ↦
          rw reached (sym (descend-stop first item (line (prev item) idx) branch reached))
      | inl above ↦ elim (Option-cases (find (prev item) idx)) [
        | inl gone ↦ rw (line-absent (prev item) idx gone) (rw above (rw gone refl))
        | inr (next, there) ↦
            let known = line-found (prev item) next idx l there in
            let shorter : length (line (prev next) idx) < n = ground (arith, ap length known) in
            rw known (
              rw above
                (rw there (rollback_from-descend n first next (branch ++ item ∷ []) idx l shorter)))
      ]
    ]

-- What a rollback gives, as a decomposition of the walk along the ancestors.
pub record Branched (first item : BlockState) (older branch : List BlockState) : Type 0 where
  pub fork : BlockState
  pub rest : List BlockState
  pub whole : item ∷ older ≡ branch ++ fork ∷ rest
  pub above : All (λ b. first.block_number < b.block_number) branch
  pub same_number : fork.block_number ≡ first.block_number
  pub same_parent : prev fork ≡ prev first

verdict-some :
    (first item : BlockState) (acc branch : List BlockState)
    → verdict first item acc ≡ some branch
    → (branch ≡ acc) × (item.block_number ≡ first.block_number) × (prev item ≡ prev first)
verdict-some first item acc branch e = elim (Bool-cases (first.block_number == item.block_number)) [
  | inr other ↦ absurd (cc (rw other at e))
  | inl number ↦ elim (Bool-cases (prev first == prev item)) [
    | inr other ↦ absurd (cc (rw (number, other) at e))
    | inl parent ↦ (
      sym (some-injective (rw (number, parent) at e)),
      sym (==→eq first.block_number item.block_number number),
      sym (==→eq (prev first) (prev item) parent),
    )
  ]
]

stopped :
    (first item : BlockState) (older acc branch : List BlockState)
    → verdict first item acc ≡ some branch
    → (more : List BlockState) × (branch ≡ acc ++ more) × Branched first item older more
stopped first item older acc branch e =
    let (same, number, parent) = verdict-some first item acc branch e in
    (
      [],
      same ∙ sym (append-nil acc),
      record {
        fork = item;
        rest = older;
        whole = refl;
        above = tt;
        same_number = number;
        same_parent = parent;
      },
    )

descend-Branched :
    (first item : BlockState) (older acc branch : List BlockState)
    → descend first item older acc ≡ some branch
    → (more : List BlockState) × (branch ≡ acc ++ more) × Branched first item older more
descend-Branched first item [] acc branch e =
    elim (Bool-cases (ltb first.block_number item.block_number)) [
      | inl above ↦ absurd (cc (rw above at e))
      | inr reached ↦ stopped first item [] acc branch (rw reached at e)
    ]
descend-Branched first item (next ∷ older) acc branch e =
    elim (Bool-cases (ltb first.block_number item.block_number)) [
      | inl above ↦
          let (more, same, b) =
            descend-Branched first next older (acc ++ item ∷ []) branch (rw above at e) in
          (
            item ∷ more,
            same ∙ append_assoc acc (item ∷ []) more,
            record {
              fork = b.fork;
              rest = b.rest;
              whole = ap (λ r. item ∷ r) b.whole;
              above = (ground arith, b.above);
              same_number = b.same_number;
              same_parent = b.same_parent;
            },
          )
      | inr reached ↦ stopped first item (next ∷ older) acc branch (rw reached at e)
    ]

-- On a linked index the loop of `rollbackTo` ends, and is the walk along the second block's line of
-- ancestors in the index.
pub rollback_to-descend :
    (first second : BlockState) (s : RollbackState)
    → IsLinked s.index
    → rollback_to first second s ≡ descend first second (line (prev second) s.index) []
rollback_to-descend first second s l =
    rollback_from-descend (suc (length s.index)) first second [] s.index l
      (ground (arith, line-length (prev second) s.index))

-- A branch that `rollbackTo` gives is a decomposition of the line.
pub branch_of :
    (first second : BlockState) (s : RollbackState) (branch : List BlockState)
    → IsLinked s.index
    → rollback_to first second s ≡ some branch
    → Branched first second (line (prev second) s.index) branch
branch_of first second s branch l e =
    let (more, same, b) =
      descend-Branched first second (line (prev second) s.index) [] branch
        (sym (rollback_to-descend first second s l) ∙ e) in
    subst (Branched first second (line (prev second) s.index)) (sym same) b

verdict_fits :
    (first fork : BlockState) (acc : List BlockState)
    → fork.block_number ≡ first.block_number
    → prev fork ≡ prev first
    → verdict first fork acc ≡ some acc
verdict_fits first fork acc n p =
    let same : (first.block_number == fork.block_number) ≡ true = ground (arith, n) in
    let parents : (prev first == prev fork) ≡ true = ground (arith, p) in rw (same, parents) refl

-- A decomposition is found.
descend_found :
    (first item fork : BlockState) (older acc branch rest : List BlockState)
    → item ∷ older ≡ branch ++ fork ∷ rest
    → All (λ b. first.block_number < b.block_number) branch
    → fork.block_number ≡ first.block_number
    → prev fork ≡ prev first
    → descend first item older acc ≡ some (acc ++ branch)
descend_found first item fork older acc [] rest whole above n p =
    let same : item ≡ fork = head-eq_of_cons-eq whole in
    let number : item.block_number ≡ first.block_number =
      ap (λ (b : BlockState). b.block_number) same ∙ n in
    let parent : prev item ≡ prev first = ap (λ (b : BlockState). prev b) same ∙ p in
    descend-stop first item older acc (ground (arith, number))
    ∙ verdict_fits first item acc number parent
    ∙ ap some (sym (append-nil acc))
descend_found first item fork [] acc (x ∷ []) rest whole above n p =
    absurd (cc (tail-eq_of_cons-eq whole))
descend_found first item fork [] acc (x ∷ y ∷ xs) rest whole above n p =
    absurd (cc (tail-eq_of_cons-eq whole))
descend_found first item fork (next ∷ older) acc (x ∷ xs) rest whole above n p =
    let same : item ≡ x = head-eq_of_cons-eq whole in
    let high : ltb first.block_number item.block_number ≡ true =
      ground (arith, ap (λ (b : BlockState). b.block_number) same, above.0) in
    rw high (
      descend_found first next fork older (acc ++ item ∷ []) xs rest (tail-eq_of_cons-eq whole)
        above.1 n p
      ∙ ap some (append_assoc acc (item ∷ []) xs ∙ ap (λ b. acc ++ b ∷ xs) same))

-- On a linked index `rollbackTo` ends, and gives a branch exactly if this is the beginning of the second
-- block's line of ancestors, with numbers above the first block's, right after which comes a block with
-- the first block's number and parent. So it fails exactly if the line has no such block there.
pub rollback_to-Branched :
    (first second : BlockState) (s : RollbackState) (branch : List BlockState)
    → IsLinked s.index
    → (rollback_to first second s ≡ some branch)
      ↔ Branched first second (line (prev second) s.index) branch
rollback_to-Branched first second s branch l = (
  branch_of first second s branch l,
  λ b.
      rollback_to-descend first second s l
      ∙ descend_found first second b.fork (line (prev second) s.index) [] branch b.rest b.whole
          b.above b.same_number b.same_parent,
)
