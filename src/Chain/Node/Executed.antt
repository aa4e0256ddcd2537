-- ===== src/Chain/Node/Executed.antt =====
-- On `doProcessBlock` of chain/BlockChain.cpp: the execution of a block behind its checks.
use gsenetwork.Prelude.{
  ℕ, ◌<◌, List, Bool, true, false, Option, some, ◌≡◌, ◌≢◌, ◌⊎◌, inl, inr, refl, sym, ◌∙◌,
  Bool-cases, Option-cases, All, ◌==◌, ==→eq, if◌then◌else◌, ◌%◌, length, get_elem?,
}
use mathlib.Core.Path.{subst}
use gsenetwork.Prelude.Map.{insert}
use gsenetwork.Core.Snapshot.{add_producer}
use gsenetwork.Prelude.Action.{ok, err}
use gsenetwork.Core.Transaction.{Candidate}
use gsenetwork.Core.Block.{Block}
use gsenetwork.Schedule.{get_address, get_current_producer_list}
use gsenetwork.Schedule.Turns.{get_address_lem}
use gsenetwork.Slots.{position}
use gsenetwork.Storage.Database.{db_producer}
use gsenetwork.Storage.Repository.{Repository, bonus}
use gsenetwork.Runtime.{run}
use gsenetwork.Wire.Rlp.{Rlp, IsTime}
use gsenetwork.Wire.Accounts.RoundTrip.{ProducerFits}
use gsenetwork.Chain.BlockState.{HeaderConfirmation}
use gsenetwork.Chain.Admission.{Gate, check_producer}
use gsenetwork.Chain.Execute.{back_db}
use gsenetwork.Chain.Execute.{
  Back, item, cancel_memory_item, any_exists, add_memory_item, block_bonus,
}
use gsenetwork.Chain.Execute.Once.{Result-cases}
use gsenetwork.Chain.Terms.{get_producer_list_from_repo}
use gsenetwork.Chain.Terms.Running.{IsRunning, in_term, schedule_lem, in_term-IsRunning}
use gsenetwork.Chain.Active.{update_active_producers}
use gsenetwork.Chain.Active.Range.{get_elem?-lt, delete_missed-some}
use gsenetwork.Chain.Node.{
  Node, gate, term_length, enter_term, confirm_own, begin_term, settle, execute, do_process_block,
}

-- The end of `doProcessBlock` on the back of the queue, where no transaction of the block is known.
abbrev pub executed_back : (List ℕ → Option (List Candidate)) → Block → Back → Bool × Back
executed_back ballot_of b m =
    let (result, s) = run ballot_of b.transactions (add_memory_item b m) in
    let (paid, s') = bonus b.producer (block_bonus b.timestamp) s in
    elim result [
      | err _ ↦ (false, cancel_memory_item m s)
      | ok _ ↦ elim paid [ err _ ↦ (false, cancel_memory_item m s') | ok _ ↦ (true, item s') ]
    ]

-- The record of the producer is made, or a term begins with the block.
abbrev pub Noted : Block → Node → Node → Type 0
Noted b n n' =
    (n'.producer_record ≡ n.producer_record) ⊎ (n'.schedule_update_timestamp ≡ b.timestamp)

-- The position of an accepted block is one of the list of producers.
position-lt :
    (b : Block) (g : Gate)
    → check_producer b g ≡ true
    → b.producer ≢ 0
    → position b.timestamp < length (get_current_producer_list g.schedule)
unfolding check_producer
position-lt b g h nonzero =
    let i = position b.timestamp in
    elim (Bool-cases (b.producer == get_address i g.schedule)) [
      | inr other ↦ absurd (cc (rw other at h))
      | inl turn ↦ elim (Option-cases (get_elem? (get_current_producer_list g.schedule) i)) [
        | inr (p, e) ↦ get_elem?-lt _ i p e
        | inl e ↦ absurd (nonzero (==→eq _ _ turn ∙ get_address_lem i g.schedule ∙ rw e refl))
      ]
    ]

module _ (ballot_of : List ℕ → Option (List Candidate)) (sign : HeaderConfirmation → ℕ)
    (r : Rlp) where
  -- What stays of the node where a block is confirmed.
  confirm_own_kept :
      (b : Block) (n : Node)
      → let n' = confirm_own ballot_of sign r b n in
        (n'.terms ≡ n.terms)
        × (n'.latest_number ≡ n.latest_number)
        × (n'.producer_record ≡ n.producer_record)
  confirm_own_kept b n = elim (Bool-cases b.sync_block) [
    | inl e ↦ rw e (refl, refl, refl)
    | inr e ↦ rw e (refl, refl, refl)
  ]

  begin_term_lem :
      (b : Block) (s : Repository) (n : Node) (height : ℕ)
      → IsTime b.timestamp
      → All ProducerFits (get_producer_list_from_repo (item s))
      → IsRunning r height n.terms
      → (n1 : Node) × (begin_term ballot_of sign r b s n ≡ some n1)
        × IsRunning r height n1.terms
        × (n1.latest_number ≡ n.latest_number)
        × Noted b n n1
  unfolding begin_term
  begin_term_lem b s n height time fits v =
      let listed = get_producer_list_from_repo (item s) in
      elim (Bool-cases (b.number % term_length == 0)) [
        | inr within ↦ (n, rw within refl, v, refl, inl refl)
        | inl begins ↦ (
          enter_term b (in_term r listed b.timestamp n.terms) n,
          rw (begins, schedule_lem r listed b.timestamp n.terms v.prev_type v.current_type) refl,
          in_term-IsRunning r listed b.timestamp n.terms height time fits v,
          refl,
          inr refl,
        )
      ]

  -- A block behind its checks is executed or fails, as the block of a chain without terms does.
  pub execute_lem :
      (b : Block) (n : Node) (height : ℕ)
      → IsTime b.timestamp
      → All ProducerFits (
          get_producer_list_from_repo
            (item (run ballot_of b.transactions (add_memory_item b n.back)).1))
      → IsRunning r height n.terms
      → (e : Bool) × (n' : Node) × (execute ballot_of sign r b n ≡ some (e, n'))
        × ((e, n'.back) ≡ executed_back ballot_of b n.back)
        × IsRunning r height n'.terms
        × (n'.latest_number ≡ (if e then b.number else n.latest_number))
        × Noted b n n'
  unfolding execute
  execute_lem b n height time fits v =
      let s = (run ballot_of b.transactions (add_memory_item b n.back)).1 in
      let paid = bonus b.producer (block_bonus b.timestamp) s in
      let kept = confirm_own_kept b n in
      let (n1, eq, v1, latest, noted) =
        begin_term_lem b s (confirm_own ballot_of sign r b n) height time fits
          (subst (IsRunning r height) (sym kept.0) v) in
      let noted' : Noted b n n1 = elim noted [ inl e ↦ inl (e ∙ kept.2) | inr e ↦ inr e ] in
      elim (Result-cases (run ballot_of b.transactions (add_memory_item b n.back)).0) [
        | inr (x, f) ↦ (
          false,
          record n { back = cancel_memory_item n.back s },
          rw (execute, f) refl,
          rw (executed_back, f) refl,
          v,
          refl,
          inl refl,
        )
        | inl f ↦ elim (Result-cases paid.0) [
          | inr (x, g) ↦ (
            false,
            record n1 { back = cancel_memory_item n.back paid.1 },
            rw (execute, f, eq, g) refl,
            rw (executed_back, f, g) refl,
            v1,
            latest ∙ kept.1,
            noted',
          )
          | inl g ↦ (
            true,
            settle ballot_of sign r b paid.1 n1,
            rw (execute, f, eq, g) refl,
            rw (executed_back, f, g) refl,
            v1,
            refl,
            noted',
          )
        ]
      ]

  -- The node with which `do_process_block` executes a block that has no known transaction.
  pub ready :
      (before b : Block) (n : Node)
      → check_producer b (gate n) ≡ true
      → b.producer ≢ 0
      → (any_exists b.transactions n.back).0 ≡ false
      → (n0 : Node) × (do_process_block ballot_of sign r before b n ≡ execute ballot_of sign r b n0)
        × (n0.back ≡ (any_exists b.transactions n.back).1)
        × (n0.terms ≡ n.terms)
        × (n0.latest_number ≡ n.latest_number)
        × (n0.producer_record ≡ insert b.producer b.timestamp n.producer_record)
  unfolding do_process_block update_active_producers
  ready before b n turn nonzero fresh =
      let back = (any_exists b.transactions n.back).1 in
      let (active, e) =
        delete_missed-some (position before.timestamp) (position b.timestamp)
          (get_current_producer_list n.terms.schedule)
          (add_producer (db_producer (back_db back) b.producer)
            (record n.active { timestamp = b.timestamp }))
          (position-lt b (gate n) turn nonzero) in
      (
        record n {
          back = back;
          active = active;
          producer_record = insert b.producer b.timestamp n.producer_record;
        },
        rw (do_process_block, fresh, update_active_producers, e) refl,
        refl,
        refl,
        refl,
        refl,
      )
