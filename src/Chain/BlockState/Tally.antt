-- ===== src/Chain/BlockState/Tally.antt =====
-- On `addConfirmation` of chain/BlockState.cpp: which confirmations are held, and how they are counted.
use gsenetwork.Prelude.{
  All-append, ℕ, zero, suc, ◌+◌, ◌%◌, ◌≤◌, List, [], ◌∷◌, ◌++◌, true, false, not, ◌||◌, ◌≡◌, refl,
  ap, ◌∙◌, arith, inl, inr, Bool-cases, ◌==◌, length, length-append, All, eq→==,
}
use gsenetwork.Prelude.Int.{pos}
use gsenetwork.Core.Snapshot.{is_exist}
use gsenetwork.Chain.BlockState.{
  HeaderConfirmation, confirmation_eq, BlockState, has_confirmation, add_confirmation,
}

-- A confirmation is for the block and by one of its active producers.
abbrev pub Belongs : BlockState → HeaderConfirmation → Type 0
Belongs bs c =
    (c.number ≡ bs.block_number)
    × (c.block_id ≡ bs.block_id)
    × (is_exist c.producer bs.active_producers ≡ true)

-- No confirmation is equal to a later one.
abbrev pub NoRepeat : List HeaderConfirmation → Type 0
NoRepeat [] = Unit
NoRepeat (c ∷ cs) = All (λ d. confirmation_eq c d ≡ false) cs × NoRepeat cs

-- The count started at `n` and grew with each confirmation, as a uint8_t.
pub record IsValid (n : ℕ) (bs : BlockState) : Type 0 where
  pub belong : All (Belongs bs) bs.confirmations
  pub no_repeat : NoRepeat bs.confirmations
  pub counted : bs.confirm_count ≡ (n + length bs.confirmations) % 256

append-NoRepeat :
    (cs : List HeaderConfirmation) (c : HeaderConfirmation)
    → NoRepeat cs
    → has_confirmation c cs ≡ false
    → NoRepeat (cs ++ c ∷ [])
append-NoRepeat [] c n h = (tt, tt)
append-NoRepeat (d ∷ cs) c n h = elim (Bool-cases (confirmation_eq d c)) [
  | inl same ↦ absurd (cc (rw same at h))
  | inr other ↦
      let rest : has_confirmation c cs ≡ false = rw other at h in
      (All-append (λ x. confirmation_eq d x ≡ false) cs c n.0 other, append-NoRepeat cs c n.1 rest)
]

-- `addConfirmation` keeps a block state valid: every confirmation it holds is for the block and by one
-- of its active producers, none is there twice, and the count is that of the confirmations on top of
-- what the memory held, modulo 256.
pub add_confirmation-IsValid :
    (n : ℕ) (c : HeaderConfirmation) (bs : BlockState)
    → IsValid n bs
    → IsValid n (add_confirmation c bs)
unfolding add_confirmation
add_confirmation-IsValid n c bs v =
    elim (Bool-cases (not (c.number == bs.block_number) || not (c.block_id == bs.block_id))) [
      | inl other ↦ rw other v
      | inr same ↦ rw same (elim (Bool-cases (is_exist c.producer bs.active_producers)) [
        | inr inactive ↦ rw inactive v
        | inl active ↦ rw active (elim (Bool-cases (has_confirmation c bs.confirmations)) [
          | inl known ↦ rw known v
          | inr fresh ↦ rw fresh (record {
            belong =
                All-append (Belongs bs) bs.confirmations c v.belong
                  (ground arith, ground arith, active);
            no_repeat = append-NoRepeat bs.confirmations c v.no_repeat fresh;
            counted = ground (arith, length-append bs.confirmations (c ∷ []), v.counted);
          })
        ])
      ])
    ]

-- The confirmation by a producer for a block, with the number as its timestamp.
abbrev pub mark : BlockState → ℕ → ℕ → HeaderConfirmation
mark bs p k = record {
  chain_id = 0;
  number = bs.block_number;
  block_id = bs.block_id;
  timestamp = pos k;
  producer = p;
  signature = 0;
}

abbrev marks : BlockState → ℕ → ℕ → List HeaderConfirmation
marks bs p zero = []
marks bs p (suc k) = marks bs p k ++ mark bs p k ∷ []

-- A producer's confirmations for a block with the timestamps below a number, added in turn.
pub flood : BlockState → ℕ → ℕ → BlockState
flood bs p zero = bs
flood bs p (suc k) = add_confirmation (mark bs p k) (flood bs p k)

has_confirmation-append :
    (c d : HeaderConfirmation) (cs : List HeaderConfirmation)
    → has_confirmation c (cs ++ d ∷ []) ≡ (has_confirmation c cs || confirmation_eq d c)
has_confirmation-append c d [] = ground arith
has_confirmation-append c d (e ∷ cs) = ground (arith, has_confirmation-append c d cs)

marks_fresh :
    (bs : BlockState) (p k j : ℕ) → k ≤ j → has_confirmation (mark bs p j) (marks bs p k) ≡ false
unfolding confirmation_eq
marks_fresh bs p zero j h = refl
marks_fresh bs p (suc k) j h =
    has_confirmation-append (mark bs p j) (mark bs p k) (marks bs p k)
    ∙ ground (arith, marks_fresh bs p k j)

add_confirmation_fresh :
    (c : HeaderConfirmation) (bs : BlockState)
    → c.number ≡ bs.block_number
    → c.block_id ≡ bs.block_id
    → is_exist c.producer bs.active_producers ≡ true
    → has_confirmation c bs.confirmations ≡ false
    → add_confirmation c bs ≡ record bs {
      confirm_count = (bs.confirm_count + 1) % 256;
      confirmations = bs.confirmations ++ c ∷ [];
    }
unfolding add_confirmation
add_confirmation_fresh c bs n i active fresh =
    rw (eq→== c.number bs.block_number n, eq→== c.block_id bs.block_id i, active, fresh) refl

flood_holds :
    (bs : BlockState) (p k : ℕ)
    → bs.confirmations ≡ []
    → is_exist p bs.active_producers ≡ true
    → flood bs p k
      ≡ record bs { confirm_count = (flood bs p k).confirm_count; confirmations = marks bs p k }
unfolding flood
flood_holds bs p zero none active = ap (λ cs. record bs { confirmations = cs }) none
flood_holds bs p (suc k) none active =
    let known = flood_holds bs p k none active in
    rw known (
      let same : add_confirmation (mark bs p k) (record bs {
        confirm_count = (flood bs p k).confirm_count;
        confirmations = marks bs p k;
      })
          ≡ record bs {
            confirm_count = ((flood bs p k).confirm_count + 1) % 256;
            confirmations = marks bs p k ++ mark bs p k ∷ [];
          } =
        add_confirmation_fresh (mark bs p k)
          (record bs { confirm_count = (flood bs p k).confirm_count; confirmations = marks bs p k })
          refl refl active (marks_fresh bs p k k (omega arith)) in
      rw same refl)

marks-length : (bs : BlockState) (p k : ℕ) → length (marks bs p k) ≡ k
marks-length bs p zero = refl
marks-length bs p (suc k) =
    length-append (marks bs p k) (mark bs p k ∷ []) ∙ ground (arith, marks-length bs p k)

-- A block state with no confirmation counts every one of any number of confirmations by a single active
-- producer for its block that differ in the timestamp alone.
pub flood-length :
    (bs : BlockState) (p k : ℕ)
    → bs.confirmations ≡ []
    → is_exist p bs.active_producers ≡ true
    → length (flood bs p k).confirmations ≡ k
flood-length bs p k none active =
    ap (λ (x : BlockState). length x.confirmations) (flood_holds bs p k none active)
    ∙ marks-length bs p k
