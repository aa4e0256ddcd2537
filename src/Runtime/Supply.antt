-- ===== src/Runtime/Supply.antt =====
-- On runtime/action and runtime/correlator/Correlation.cpp: transactions make no money.
use gsenetwork.Prelude.{ℕ, ◌<◌, List, [], ◌∷◌, Option, true, ◌≡◌, ◌≢◌, arith, All, u64}
use gsenetwork.Core.Transaction.{Transaction, Candidate}
use gsenetwork.Storage.Repository.{Repository, store_transaction, put_producer, put_transaction}
use gsenetwork.Storage.Repository.Total.{has, AreDistinct}
use gsenetwork.Storage.Repository.Supply.{
  NoGain, NoGain-refl, NoGain-trans, burn-NoGain, transfer-NoGain, clear_vote-NoGain,
  vote_increase-NoGain, producer_read-NoGain, producer_put-NoGain,
}
use gsenetwork.Runtime.{transfer_type, excute, run, execute_action}
use gsenetwork.Runtime.Stable.{IsStable, then-Stable, execute_action-Stable}

-- A transfer from an account that counts to another one.
abbrev pub Counted : List ℕ → ℕ → ℕ → ℕ → Type 0
Counted xs from to value = (has from xs ≡ true) × (from ≢ to) × (value < u64)

-- A transaction that is such a transfer, if it is one.
abbrev pub IsOrdinary : List ℕ → Transaction → Type 0
IsOrdinary xs t = t.tx_type ≡ transfer_type → Counted xs t.sender t.recipient t.value

module _ (xs : List ℕ) (d : AreDistinct xs) where
  stable : IsStable (Counted xs) (NoGain xs)
  unfolding put_producer
  stable = record {
    same = NoGain-refl xs;
    after = NoGain-trans xs;
    burns = burn-NoGain xs;
    transfers = λ from to value may r. transfer-NoGain xs from to value r d may.0 may.1 may.2;
    clears = clear_vote-NoGain xs;
    increases = vote_increase-NoGain xs;
    producer_read = producer_read-NoGain xs;
    producer_put = producer_put-NoGain xs;
  }

  put_transaction-NoGain : (t : Transaction) (r : Repository) → NoGain xs r (put_transaction t r).1
  unfolding put_transaction store_transaction
  put_transaction-NoGain t r f s b = (
    f,
    record { sound = s.sound; keyed = s.keyed; shows = s.shows; lives = s.lives },
    b,
    omega arith,
  )

  module _ (ballot_of : List ℕ → Option (List Candidate)) where
    excute-NoGain :
        (t : Transaction) (r : Repository) → IsOrdinary xs t → NoGain xs r (excute ballot_of t r).1
    unfolding excute
    excute-NoGain t r may =
        then-Stable (Counted xs) (NoGain xs) stable (execute_action ballot_of t) (put_transaction t)
          r (execute_action-Stable (Counted xs) (NoGain xs) stable ballot_of t may r)
          (put_transaction-NoGain t)

    pub run-NoGain :
        (ts : List Transaction) (r : Repository)
        → All (IsOrdinary xs) ts
        → NoGain xs r (run ballot_of ts r).1
    unfolding run
    run-NoGain [] r may = NoGain-refl xs r
    run-NoGain (t ∷ ts) r may =
        then-Stable (Counted xs) (NoGain xs) stable (excute ballot_of t) (run ballot_of ts) r
          (excute-NoGain t r may.0) (λ s. run-NoGain ts s may.1)
