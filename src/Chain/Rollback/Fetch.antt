-- ===== src/Chain/Rollback/Fetch.antt =====
-- On `fetchBranchFrom` of chain/RollbackState.cpp: both branches, against the lines of ancestors.
use gsenetwork.Prelude.{
  ℕ, zero, suc, ◌≤◌, ◌<◌, List, [], ◌∷◌, ◌++◌, false, ◌≡◌, refl, sym, ap, ◌∙◌, ◌⊎◌, inl, inr, arith,
  Bool-cases, Option-cases, ◌==◌, ==→eq, length, All, some, ltb,
}
use mathlib.Core.Path.{subst}
use mathlib.Core.List.{append_assoc, append-nil}
use gsenetwork.Chain.BlockState.{BlockState, prev}
use gsenetwork.Chain.Rollback.{
  Index, RollbackState, find, Climbed, lost, reached, climb, Fetched, lost_first, lost_second,
  fetched, meet, fetch_branch_from,
}
use gsenetwork.Chain.Rollback.Linked.{IsLinked}
use gsenetwork.Chain.Rollback.Descend.{line, line-absent, line-found, line-length}

-- A block and its line of ancestors.
abbrev pub from : BlockState → Index → List BlockState
from b idx = b ∷ line (prev b) idx

-- A walk ends behind the last known ancestor, all numbers being above the bound, or at the first block of the line with a number that is not above
-- the bound.
Walked : ℕ → BlockState → List BlockState → Index → Climbed → Type 0
Walked bound item acc idx o =
    ((o ≡ lost) × All (λ c. bound < c.block_number) (from item idx))
    ⊎ ((b : BlockState) × (more : List BlockState) × (o ≡ reached b (acc ++ more))
        × (from item idx ≡ more ++ from b idx)
        × All (λ c. bound < c.block_number) more
        × (b.block_number ≤ bound))

climb-Walked :
    (n bound : ℕ) (item : BlockState) (acc : List BlockState) (idx : Index)
    → IsLinked idx
    → length (line (prev item) idx) < n
    → Walked bound item acc idx (climb n bound item acc idx)
unfolding climb Walked
climb-Walked zero bound item acc idx l h = absurd (omega arith)
climb-Walked (suc n) bound item acc idx l h = elim (Bool-cases (ltb bound item.block_number)) [
  | inr low ↦ inr (
    item,
    [],
    rw (climb, low) (ap (λ r. reached item r) (sym (append-nil acc))),
    refl,
    tt,
    ground arith,
  )
  | inl high ↦ elim (Option-cases (find (prev item) idx)) [
    | inl gone ↦ inl (
      rw (climb, high, gone) refl,
      (
        ground arith,
        subst (All (λ c. bound < c.block_number)) (sym (line-absent (prev item) idx gone)) tt,
      ),
    )
    | inr (next, there) ↦
        let known = line-found (prev item) next idx l there in
        let shorter : length (line (prev next) idx) < n = ground (arith, ap length known) in
        elim (climb-Walked n bound next (acc ++ item ∷ []) idx l shorter) [
          | inl (e, above) ↦ inl (
            rw (climb, high, there) e,
            (ground arith, subst (All (λ c. bound < c.block_number)) (sym known) above),
          )
          | inr (b, more, e, whole, above, low) ↦ inr (
            b,
            item ∷ more,
            rw (climb, high, there) (e ∙ ap (λ r. reached b r) (append_assoc acc (item ∷ []) more)),
            ap (λ r. item ∷ r) (known ∙ whole),
            (ground arith, above),
            low,
          )
        ]
  ]
]

-- The rests of two lines: the first blocks of both have one parent, or one line is used up.
abbrev pub Meets : List BlockState → List BlockState → Type 0
Meets [] bs = Unit
Meets (a ∷ as') [] = Unit
Meets (a ∷ as') (b ∷ bs) = prev a ≡ prev b

-- Two branches of one length, no two blocks at one place of which have the same parent.
abbrev pub Parallel : List BlockState → List BlockState → Type 0
Parallel [] [] = Unit
Parallel [] (b ∷ bs) = ⊥
Parallel (a ∷ as') [] = ⊥
Parallel (a ∷ as') (b ∷ bs) = ((prev a == prev b) ≡ false) × Parallel as' bs

-- Two such branches that lead up to the first blocks with one parent, or to the end of a line.
pub record Parted (xs ys firsts seconds : List BlockState) : Type 0 where
  pub rest : List BlockState
  pub other_rest : List BlockState
  pub first_line : xs ≡ firsts ++ rest
  pub second_line : ys ≡ seconds ++ other_rest
  pub parallel : Parallel firsts seconds
  pub meets : Meets rest other_rest

-- What the third loop adds to the branches.
Met : BlockState → BlockState → List BlockState → List BlockState → Index → Fetched → Type 0
Met a b firsts seconds idx o =
    (more : List BlockState) × (more' : List BlockState) × (o
      ≡ fetched (firsts ++ more) (seconds ++ more'))
    × Parted (from a idx) (from b idx) more more'

Meets-nil : (bs : List BlockState) → Meets bs []
Meets-nil [] = tt
Meets-nil (b ∷ bs) = tt

meet-Met :
    (n : ℕ) (a b : BlockState) (firsts seconds : List BlockState) (idx : Index)
    → IsLinked idx
    → length (line (prev a) idx) < n
    → Met a b firsts seconds idx (meet n a b firsts seconds idx)
unfolding meet Met
meet-Met zero a b firsts seconds idx l h = absurd (omega arith)
meet-Met (suc n) a b firsts seconds idx l h = elim (Bool-cases (prev a == prev b)) [
  | inl same ↦ (
    [],
    [],
    rw (meet, same) (cc (append-nil firsts, append-nil seconds)),
    record {
      rest = from a idx;
      other_rest = from b idx;
      first_line = refl;
      second_line = refl;
      parallel = tt;
      meets = ==→eq (prev a) (prev b) same;
    },
  )
  | inr apart ↦ elim (Option-cases (find (prev a) idx)) [
    | inl gone ↦ (
      a ∷ [],
      b ∷ [],
      rw (meet, apart, gone) refl,
      record {
        rest = [];
        other_rest = line (prev b) idx;
        first_line = ap (λ r. a ∷ r) (line-absent (prev a) idx gone);
        second_line = refl;
        parallel = (apart, tt);
        meets = tt;
      },
    )
    | inr (a', there) ↦ elim (Option-cases (find (prev b) idx)) [
      | inl gone ↦ (
        a ∷ [],
        b ∷ [],
        rw (meet, apart, there, gone) refl,
        record {
          rest = line (prev a) idx;
          other_rest = [];
          first_line = refl;
          second_line = ap (λ r. b ∷ r) (line-absent (prev b) idx gone);
          parallel = (apart, tt);
          meets = Meets-nil (line (prev a) idx);
        },
      )
      | inr (b', there') ↦
          let known = line-found (prev a) a' idx l there in
          let known' = line-found (prev b) b' idx l there' in
          let shorter : length (line (prev a') idx) < n = ground (arith, ap length known) in
          let (more, more', e, p) =
            meet-Met n a' b' (firsts ++ a ∷ []) (seconds ++ b ∷ []) idx l shorter in
          (
            a ∷ more,
            b ∷ more',
            rw (meet, apart, there, there')
                (e
                  ∙ ap (λ r. fetched r ((seconds ++ b ∷ []) ++ more'))
                      (append_assoc firsts (a ∷ []) more)
                  ∙ ap (λ r. fetched (firsts ++ a ∷ more) r) (append_assoc seconds (b ∷ []) more')),
            record {
              rest = p.rest;
              other_rest = p.other_rest;
              first_line = ap (λ r. a ∷ r) (known ∙ p.first_line);
              second_line = ap (λ r. b ∷ r) (known' ∙ p.second_line);
              parallel = (apart, p.parallel);
              meets = p.meets;
            },
          )
    ]
  ]
]

-- The outcomes of `fetchBranchFrom` for two known blocks.
pub data Outcome (first second : ℕ) (b : BlockState) (s : RollbackState) (o : Fetched)
    : Type 0 where
  no_first :
      o ≡ lost_first
      → All (λ c. b.block_number < c.block_number) (line first s.index)
      → Outcome first second b s o
  no_second :
      (a' : BlockState) (firsts : List BlockState)
      → o ≡ lost_second
      → line first s.index ≡ firsts ++ from a' s.index
      → All (λ c. b.block_number < c.block_number) firsts
      → a'.block_number ≤ b.block_number
      → All (λ c. a'.block_number < c.block_number) (line second s.index)
      → Outcome first second b s o
  -- Down to `a'` and `b'`, and from there in step.
  both :
      (a' b' : BlockState)
      → (low low' more more' : List BlockState) → o ≡ fetched (low ++ more) (low' ++ more')
      → line first s.index ≡ low ++ from a' s.index
      → All (λ c. b.block_number < c.block_number) low
      → a'.block_number ≤ b.block_number
      → line second s.index ≡ low' ++ from b' s.index
      → All (λ c. a'.block_number < c.block_number) low'
      → b'.block_number ≤ a'.block_number
      → Parted (from a' s.index) (from b' s.index) more more'
      → Outcome first second b s o

-- On a linked index `fetchBranchFrom` of two known blocks ends. Either it throws for the first block,
-- whose whole line of ancestors is then above the second block; or it throws for the second one, whose
-- whole line is then above the first block of the first line that is not above the second block; or it
-- gives beginnings of both lines: of the first line what is above the second block, of the second line
-- what is above the next block of the first, and from there on as many blocks of both lines as have
-- different parents pair by pair, behind which the next two have one parent, or one line is used up.
pub fetch_branch_from-Outcome :
    (first second : ℕ) (a b : BlockState) (s : RollbackState)
    → IsLinked s.index
    → find first s.index ≡ some a
    → find second s.index ≡ some b
    → Outcome first second b s (fetch_branch_from first second s)
unfolding fetch_branch_from Walked Met
fetch_branch_from-Outcome first second a b s l ea eb =
    let idx = s.index in
    let fuel = suc (length idx) in
    let la = line-found first a idx l ea in
    let lb = line-found second b idx l eb in
    elim (climb-Walked fuel b.block_number a [] idx l (ground (arith, line-length (prev a) idx))) [
      | inl (e, above) ↦
          no_first (rw (fetch_branch_from, ea, eb, e) refl)
            (subst (All (λ c. b.block_number < c.block_number)) (sym la) above)
      | inr (a', firsts, e, wa, high, low) ↦
          elim (climb-Walked fuel a'.block_number b [] idx l
            (ground (arith, line-length (prev b) idx))) [
              | inl (f, above) ↦
                  no_second a' firsts (rw (fetch_branch_from, ea, eb, e, f) refl) (la ∙ wa) high low
                    (subst (All (λ c. a'.block_number < c.block_number)) (sym lb) above)
              | inr (b', seconds, f, wb, high', low') ↦
                  let (more, more', g, p) =
                    meet-Met fuel a' b' firsts seconds idx l
                      (ground (arith, line-length (prev a') idx)) in
                  both a' b' firsts seconds more more' (rw (fetch_branch_from, ea, eb, e, f) g)
                    (la ∙ wa) high low (lb ∙ wb) high' low' p
            ]
    ]
