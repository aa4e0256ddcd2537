-- ===== src/Chain/Node/Slot.antt =====
-- On `doProcessBlock` and `checkProducer` of chain/BlockChain.cpp: the slot of a processed block is used up.
use gsenetwork.Prelude.{
  ℕ, ◌≤◌, List, Bool, true, false, Option, some, ◌≡◌, ◌≢◌, inl, inr, sym, ap, ◌∙◌, arith, All,
}
use mathlib.Core.Path.{subst}
use gsenetwork.Prelude.Int.{pos}
use gsenetwork.Prelude.Map.{lookup, lookup-insert}
use gsenetwork.Core.Transaction.{Candidate}
use gsenetwork.Core.Block.{Block}
use gsenetwork.Slots.{slot, slot_taken, slot_taken_iff}
use gsenetwork.Runtime.{run}
use gsenetwork.Wire.Rlp.{Rlp, IsTime}
use gsenetwork.Wire.Accounts.RoundTrip.{ProducerFits}
use gsenetwork.Chain.BlockState.{HeaderConfirmation}
use gsenetwork.Chain.Admission.{Gate, check_producer}
use gsenetwork.Chain.Admission.Slot.{recorded_refused}
use gsenetwork.Chain.Execute.{item, any_exists, add_memory_item}
use gsenetwork.Chain.Terms.{get_producer_list_from_repo}
use gsenetwork.Chain.Terms.Running.{IsRunning}
use gsenetwork.Chain.Node.{Node, gate, do_process_block}
use gsenetwork.Chain.Node.Executed.{execute_lem, ready}

-- A block is refused when the last term began in its slot or later.
begun_refused :
    (b : Block) (g : Gate) (t last : ℕ)
    → b.timestamp ≡ pos t
    → g.schedule_update_timestamp ≡ pos last
    → 1538352000000 ≤ t
    → 1538352000000 ≤ last
    → slot t ≤ slot last
    → check_producer b g ≡ false
unfolding check_producer
begun_refused b g t last et eg ht hl h =
    let taken : slot_taken b.timestamp g.schedule_update_timestamp ≡ true =
      ap (λ x. slot_taken x g.schedule_update_timestamp) et
      ∙ ap (slot_taken (pos t)) eg
      ∙ slot_taken_iff t last ht hl
      ∙ ground arith in
    ground (arith, taken)

module _ (ballot_of : List ℕ → Option (List Candidate)) (sign : HeaderConfirmation → ℕ)
    (r : Rlp) where
  -- Once a running node has processed a block in its producer's turn, none of whose transactions was known,
  -- it refuses every block of the same producer whose slot is not later, whether or not the first was
  -- executed, and also where a term began with it. Both times are from the genesis on; the first block's
  -- and the numbers of the producers behind its execution are to be in range.
  pub do_process_block-slot :
      (before b c : Block) (n : Node) (height t last : ℕ)
      → check_producer b (gate n) ≡ true
      → b.producer ≢ 0
      → (any_exists b.transactions n.back).0 ≡ false
      → All ProducerFits (
          get_producer_list_from_repo (
            item
              (run ballot_of b.transactions
                (add_memory_item b (any_exists b.transactions n.back).1)).1))
      → IsRunning r height n.terms
      → c.producer ≡ b.producer
      → b.timestamp ≡ pos last
      → c.timestamp ≡ pos t
      → IsTime (pos last)
      → 1538352000000 ≤ t
      → 1538352000000 ≤ last
      → slot t ≤ slot last
      → (e : Bool) × (n' : Node) × (do_process_block ballot_of sign r before b n ≡ some (e, n'))
        × (check_producer c (gate n') ≡ false)
  do_process_block-slot before b c n height t last turn nonzero fresh fits v same eb ec time ht hl
        h =
      let (n0, start, eq, et, _, er) = ready ballot_of sign r before b n turn nonzero fresh in
      let (e, n', done, _, _, _, noted) =
        execute_lem ballot_of sign r b n0 height (subst IsTime (sym eb) time)
          (subst
            (λ m. All ProducerFits (
              get_producer_list_from_repo
                (item (run ballot_of b.transactions (add_memory_item b m)).1)))
            (sym eq) fits)
          (subst (IsRunning r height) (sym et) v) in
      let recorded : lookup c.producer n0.producer_record ≡ some (pos last) =
        ap (lookup c.producer) er
        ∙ lookup-insert b.producer b.timestamp c.producer n.producer_record
        ∙ ground (arith, same, eb) in
      (
        e,
        n',
        start ∙ done,
        elim noted [
          | inl kept ↦
              recorded_refused c (gate n') t last ec (ap (lookup c.producer) kept ∙ recorded) ht hl
                h
          | inr begun ↦ begun_refused c (gate n') t last ec (begun ∙ eb) ht hl h
        ],
      )
