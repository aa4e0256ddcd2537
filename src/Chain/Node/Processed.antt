-- ===== src/Chain/Node/Processed.antt =====
-- On `doProcessBlock` of chain/BlockChain.cpp: that it ends, and what it does to the node.
use gsenetwork.Prelude.{
  ℕ, List, Bool, true, false, Option, some, ◌≡◌, ◌≢◌, inl, inr, refl, sym, ap, ◌∙◌, Bool-cases, All,
  if◌then◌else◌,
}
use mathlib.Core.Path.{subst}
use gsenetwork.Core.Transaction.{Candidate}
use gsenetwork.Core.Block.{Block}
use gsenetwork.Runtime.{run}
use gsenetwork.Wire.Rlp.{Rlp, IsTime}
use gsenetwork.Wire.Accounts.RoundTrip.{ProducerFits}
use gsenetwork.Chain.BlockState.{HeaderConfirmation}
use gsenetwork.Chain.Admission.{check_producer}
use gsenetwork.Chain.Execute.{
  Back, item, cancel_memory_item, any_exists, add_memory_item, block_bonus,
}
use gsenetwork.Chain.Execute
use gsenetwork.Chain.Terms.{get_producer_list_from_repo}
use gsenetwork.Chain.Terms.Running.{IsRunning}
use gsenetwork.Chain.Node.{Node, gate, do_process_block}
use gsenetwork.Chain.Node.Executed.{executed_back, execute_lem, ready}

module _ (ballot_of : List ℕ → Option (List Candidate)) (sign : HeaderConfirmation → ℕ)
    (r : Rlp) where
  -- A running node that processes a block in its producer's turn, whose address is not zero, does to the
  -- memory queue what the execution of the block says, keeps running whether or not the block is
  -- executed, and has the block's number as the latest exactly if it is. The block's time and the numbers
  -- of the producers behind its execution are to be in range.
  pub do_process_block-executes :
      (before b : Block) (n : Node) (height : ℕ)
      → check_producer b (gate n) ≡ true
      → b.producer ≢ 0
      → IsTime b.timestamp
      → All ProducerFits (
          get_producer_list_from_repo (
            item
              (run ballot_of b.transactions
                (add_memory_item b (any_exists b.transactions n.back).1)).1))
      → IsRunning r height n.terms
      → (e : Bool) × (n' : Node) × (do_process_block ballot_of sign r before b n ≡ some (e, n'))
        × ((e, n'.back) ≡ gsenetwork.Chain.Execute.do_process_block ballot_of b n.back)
        × IsRunning r height n'.terms
        × (n'.latest_number ≡ (if e then b.number else n.latest_number))
  unfolding do_process_block gsenetwork.Chain.Execute.do_process_block
  do_process_block-executes before b n height turn nonzero time fits v =
      let back = (any_exists b.transactions n.back).1 in
      elim (Bool-cases (any_exists b.transactions n.back).0) [
        | inl found ↦ (
          false,
          record n { back = back },
          rw (do_process_block, found) refl,
          rw (gsenetwork.Chain.Execute.do_process_block, found) refl,
          v,
          refl,
        )
        | inr fresh ↦
            let (n0, start, eb, et, el, _) = ready ballot_of sign r before b n turn nonzero fresh in
            let (e, n', done, same, v', latest, _) =
              execute_lem ballot_of sign r b n0 height time
                (subst
                  (λ m. All ProducerFits (
                    get_producer_list_from_repo
                      (item (run ballot_of b.transactions (add_memory_item b m)).1)))
                  (sym eb) fits)
                (subst (IsRunning r height) (sym et) v) in
            (
              e,
              n',
              start ∙ done,
              same
                  ∙ ap (executed_back ballot_of b) eb
                  ∙ rw (gsenetwork.Chain.Execute.do_process_block, fresh) refl,
              v',
              latest ∙ ap (λ k. if e then b.number else k) el,
            )
      ]
