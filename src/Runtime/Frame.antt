-- ===== src/Runtime/Frame.antt =====
-- On runtime/action: a relation that reads and puts keep is kept while an action runs.
use gsenetwork.Prelude.{ℕ, List, Option}
use gsenetwork.Prelude.Action.{◌>>◌}
use gsenetwork.Core.Transaction.{Transaction, Candidate}
use gsenetwork.Storage.Repository.{Repository, put_producer}
use gsenetwork.Storage.Repository.Frame.{
  IsFrame, burn-Frame, transfer-Frame, clear_vote-Frame, vote_increase-Frame,
}
use gsenetwork.Runtime.{execute_action}
use gsenetwork.Runtime.Stable.{Step, IsStable, then-Stable, execute_action-Stable}

-- Every transfer is allowed.
abbrev Any : ℕ → ℕ → ℕ → Type 0
Any _ _ _ = Unit

module _ (R : Repository → Repository → Type 0) (f : IsFrame R) where
  stable : IsStable Any R
  unfolding put_producer
  stable = record {
    same = f.same;
    after = f.after;
    burns = burn-Frame R f;
    transfers = λ from to value may. transfer-Frame R f from to value;
    clears = clear_vote-Frame R f;
    increases = vote_increase-Frame R f;
    producer_read = f.producer_read;
    producer_put = f.producer_put;
  }

  pub then-Frame :
      (m k : Step) (r : Repository)
      → R r (m r).1
      → ((s : Repository) → R s (k s).1)
      → R r ((m >> k) r).1
  then-Frame = then-Stable Any R stable

  pub execute_action-Frame :
      (ballot_of : List ℕ → Option (List Candidate)) (t : Transaction) (r : Repository)
      → R r (execute_action ballot_of t r).1
  execute_action-Frame ballot_of t r = execute_action-Stable Any R stable ballot_of t (λ _. tt) r
