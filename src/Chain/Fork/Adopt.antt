-- ===== src/Chain/Fork/Adopt.antt =====
-- On `processBlock` of chain/BlockChain.cpp: a block on another branch than the head's.
use gsenetwork.Prelude.{
  ℕ, ◌≤◌, ◌<◌, List, [], ◌∷◌, Bool, true, false, ◌≡◌, refl, ap, ◌∙◌, arith, inl, inr, Bool-cases,
  Option-cases, ◌==◌, Option, none, some, All, ltb,
}
use mathlib.Core.List.{head-eq_of_cons-eq}
use gsenetwork.Core.Block.{Block}
use gsenetwork.Core.Snapshot.{ProducerSnapshot}
use gsenetwork.Server.{sync_status}
use gsenetwork.Chain.BlockState.{BlockState, prev, new_block_state}
use gsenetwork.Chain.Rollback.{
  RollbackState, Index, added, exists, add, add_state, greatest, solidifiable, rollback_to,
}
use gsenetwork.Chain.Rollback.Linked.{IsLinked, NoChild, apart}
use gsenetwork.Chain.Rollback.Descend.{Branched, line, branch_of}
use gsenetwork.Chain.Fork.{
  Ending, returned, Fork, check_bifurcation, follow, after_add, process_block, undo,
}

-- A rollback from a block to one whose number is not less gives no branch, or the empty one.
rollback_to_higher :
    (first second : BlockState) (s : RollbackState) (branch : List BlockState)
    → IsLinked s.index
    → second.block_number ≤ first.block_number
    → rollback_to first second s ≡ some branch
    → branch ≡ []
rollback_to_higher first second s branch l h e = go branch (branch_of first second s branch l e)
  where
    go : (b : List BlockState) → Branched first second (line (prev second) s.index) b → b ≡ []
    go [] d = refl
    go (x ∷ xs) d =
        let same : second ≡ x = head-eq_of_cons-eq d.whole in
        absurd (ground (arith, d.above.0, ap (λ (y : BlockState). y.block_number) same))

greatest-below :
    (b : BlockState) (bs : Index) (n : ℕ)
    → All (λ x. x.block_number < n) (b ∷ bs)
    → (greatest b bs).block_number < n
greatest-below b [] n a = a.0
greatest-below b (c ∷ cs) n a =
    let rest = greatest-below c cs n a.1 in
    elim (Bool-cases (ltb (greatest c cs).block_number b.block_number)) [
      | inl e ↦ rw e a.0
      | inr e ↦ rw e rest
    ]

greatest_new :
    (b : BlockState) (bs : Index)
    → All (λ x. x.block_number < b.block_number) bs
    → greatest b bs ≡ b
greatest_new b [] a = refl
greatest_new b (c ∷ cs) a =
    let e : ltb (greatest c cs).block_number b.block_number ≡ true =
      ground (arith, greatest-below c cs b.block_number a) in
    rw e refl

-- A block that `add` takes.
add_taken :
    (count : ℕ) (b : Block) (ps : ProducerSnapshot) (s : RollbackState) (h : BlockState)
    → s.head ≡ some h
    → exists b.hash s.index ≡ false
    → exists b.parent_hash s.index ≡ true
    → let new = new_block_state count ps b in
      add count b ps s ≡ (
        added (solidifiable new s.index),
        record s { index = new ∷ s.index; head = some (greatest new s.index) },
      )
unfolding add add_state
add_taken count b ps s h e fresh linked =
    ap (λ x. add count b ps (record s { head = x })) e ∙ rw (fresh, linked) refl

module _ {S : Type 0} (process : Block → Fork S → Fork S) (pop_back : S → S)
    (solidify : BlockState → Fork S → Bool × Fork S) where
  -- On a linked index `checkBifurcation` takes no block back and executes none, for a new block whose
  -- number is not below the head's and whose parent is not the head.
  check_bifurcation_idle :
      (b : Block) (new : BlockState) (f : Fork S)
      → IsLinked f.rollback.index
      → f.head.block_number ≤ new.block_number
      → (prev new == f.head.block_id) ≡ false
      → (g : Fork S) × (check_bifurcation process pop_back solidify b new f ≡ some g)
        × (g.state ≡ f.state)
        × (g.rollback ≡ f.rollback)
  unfolding check_bifurcation undo
  check_bifurcation_idle b new f l h other =
      elim (Option-cases (rollback_to new f.head f.rollback)) [
        | inl e ↦ (f, rw (other, e) refl, refl, refl)
        | inr (branch, e) ↦
            let empty : rollback_to new f.head f.rollback ≡ some [] =
              e ∙ ap some (rollback_to_higher new f.head f.rollback branch l h e) in
            (record f { status = sync_status }, rw (other, empty) refl, refl, refl)
      ]

  -- A valid block is added whose number is above all in a linked index, whose parent is in the index but
  -- is not the head, and with which no block is solidified: `processBlock` returns true and makes the
  -- block the head, though neither it nor its parent's branch was executed and nothing was taken back.
  pub process_block_adopts :
      (count : ℕ) (ps : ProducerSnapshot) (b : Block) (f : Fork S) (h : BlockState)
      → f.rollback.head ≡ some h
      → exists b.hash f.rollback.index ≡ false
      → exists b.parent_hash f.rollback.index ≡ true
      → (b.parent_hash == b.hash) ≡ false
      → NoChild b.hash f.rollback.index
      → IsLinked f.rollback.index
      → All (λ x. x.block_number < b.number) f.rollback.index
      → f.head.block_number ≤ b.number
      → (b.parent_hash == f.head.block_id) ≡ false
      → solidifiable (new_block_state count ps b) f.rollback.index ≡ none
      → (g : Fork S) × (process_block process pop_back solidify true count ps b f
          ≡ some (returned true, g))
        × (g.state ≡ f.state)
        × (g.head ≡ new_block_state count ps b)
  unfolding process_block after_add
  process_block_adopts count ps b f h e fresh found own child l above low other none_due =
      let new = new_block_state count ps b in
      let taken =
        add_taken count b ps f.rollback h e fresh found
        ∙ ap
            (λ (x : Option BlockState). (
              added x,
              record f.rollback {
                index = new ∷ f.rollback.index;
                head = some (greatest new f.rollback.index);
              },
            ))
            none_due
        ∙ ap
            (λ x. (added none, record f.rollback { index = new ∷ f.rollback.index; head = some x }))
            (greatest_new new f.rollback.index above) in
      let rb = record f.rollback { index = new ∷ f.rollback.index; head = some new } in
      let l' : IsLinked rb.index = (own, apart b.hash f.rollback.index fresh child, l) in
      let (g, same, state, rolled) =
        check_bifurcation_idle b new (record f { rollback = rb }) l' low other in
      (
        record g { head = new },
        ap (after_add process pop_back solidify b f) taken
            ∙ ap
                (λ (o : Option (Fork S)). elim o as (λ _. Option (Ending × Fork S)) [
                  | none ↦ none
                  | some f3 ↦ some (returned true, follow process pop_back solidify f3)
                ])
                same
            ∙ ap
                (λ (r : Option BlockState). some (
                  returned true,
                  elim r as (λ _. Fork S) [ none ↦ g | some x ↦ record g { head = x } ],
                ))
                (ap (λ (r : RollbackState). r.head) rolled),
        state,
        refl,
      )
