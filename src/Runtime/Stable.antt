-- ===== src/Runtime/Stable.antt =====
-- On runtime/action: a relation that the operations of the repository keep is kept while an action runs.
use gsenetwork.Prelude.{
  ℕ, List, [], ◌∷◌, Option, if◌then◌else◌, Bool-cases, Option-cases, inl, inr, ◌==◌, ==→eq, ◌≡◌,
}
use gsenetwork.Prelude.Action.{Result, ok, err, Action, ◌>>=◌, ◌>>◌, pure, bad_ballot}
use gsenetwork.Core.Producer.{Producer, new_producer}
use gsenetwork.Core.Transaction.{Transaction, Candidate}
use gsenetwork.Storage.Repository.{
  Repository, get_producer, put_producer, burn, transfer, vote_increase, clear_vote, no_such,
  found_producer, after_producer, block_time,
}
use gsenetwork.Runtime.{
  vote_type, transfer_type, been_producer_type, or_raise, transaction_fee, producer_cost,
  execute_transfer, execute_been_producer, cast_votes, execute_vote, execute_action,
}

abbrev pub Step : Type 0
Step = Action Repository (Unit {0})

-- `BeenProducer::execute` behind the fee.
abbrev enrol : Transaction → Step
enrol t = do
  target ← get_producer t.sender
  now ← block_time
  if no_such target
      then (burn t.sender producer_cost >> put_producer (new_producer t.sender now))
      else pure tt

-- `Vote::execute` behind the fee.
abbrev vote_ballot : (List ℕ → Option (List Candidate)) → Transaction → Step
vote_ballot ballot_of t = or_raise (ballot_of t.content) bad_ballot >>= cast_votes t.sender

-- A relation between a repository and what it becomes, which each operation keeps that the handlers
-- call, and a transfer where it is allowed.
pub record IsStable (Allowed : ℕ → ℕ → ℕ → Type 0) (R : Repository → Repository → Type 0)
    : Type 0 where
  pub same : (r : Repository) → R r r
  pub after : (r s t : Repository) → R r s → R s t → R r t
  pub burns : (a value : ℕ) (r : Repository) → R r (burn a value r).1
  pub transfers :
      (from to value : ℕ)
      → Allowed from to value
      → (r : Repository) → R r (transfer from to value r).1
  pub clears : (a : ℕ) (r : Repository) → R r (clear_vote a r).1
  pub increases :
      (voter candidate value : ℕ) (r : Repository) → R r (vote_increase voter candidate value r).1
  pub producer_read : (a : ℕ) (r : Repository) → R r (after_producer a r)
  pub producer_put : (p : Producer) (r : Repository) → R r (put_producer p r).1

module _ (Allowed : ℕ → ℕ → ℕ → Type 0) (R : Repository → Repository → Type 0)
    (f : IsStable Allowed R) where
  -- One step after another keeps the relation if each of them does.
  pub then-Stable :
      (m k : Step) (r : Repository)
      → R r (m r).1
      → ((s : Repository) → R s (k s).1)
      → R r ((m >> k) r).1
  then-Stable m k r h next = go (m r) h
    where
      go :
          (o : Result (Unit {0}) × Repository)
          → R r o.1
          → R r
              (elim o.0 as (λ _. Result (Unit {0}) × Repository) [
                | ok _ ↦ k o.1
                | err e ↦ (err e, o.1)
              ]).1
      go (ok u, s) h = f.after _ _ _ h (next s)
      go (err e, s) h = h

  execute_transfer-Stable :
      (t : Transaction)
      → Allowed t.sender t.recipient t.value
      → (r : Repository) → R r (execute_transfer t r).1
  unfolding execute_transfer
  execute_transfer-Stable t may r =
      then-Stable (burn t.sender transaction_fee) (transfer t.sender t.recipient t.value) r
        (f.burns t.sender transaction_fee r) (f.transfers t.sender t.recipient t.value may)

  enrol-Stable : (t : Transaction) (r : Repository) → R r (enrol t r).1
  unfolding get_producer
  enrol-Stable t r =
      let s = after_producer t.sender r in
      let k = f.producer_read t.sender r in
      elim (Bool-cases (no_such (found_producer t.sender r))) [
        | inl unknown ↦ rw unknown (
            f.after _ _ _ k (
              then-Stable (burn t.sender producer_cost)
                (put_producer (new_producer t.sender s.block.timestamp)) s
                (f.burns t.sender producer_cost s) λ q. f.producer_put _ q))
        | inr known ↦ rw known k
      ]

  execute_been_producer-Stable :
      (t : Transaction) (r : Repository) → R r (execute_been_producer t r).1
  unfolding execute_been_producer
  execute_been_producer-Stable t r =
      then-Stable (burn t.sender transaction_fee) (enrol t) r (f.burns t.sender transaction_fee r)
        (enrol-Stable t)

  cast_votes-Stable :
      (sender : ℕ) (cs : List Candidate) (r : Repository) → R r (cast_votes sender cs r).1
  unfolding cast_votes
  cast_votes-Stable sender [] r = f.same r
  cast_votes-Stable sender (c ∷ cs) r =
      then-Stable (vote_increase sender c.address c.value) (cast_votes sender cs) r
        (f.increases sender c.address c.value r) (cast_votes-Stable sender cs)

  module _ (ballot_of : List ℕ → Option (List Candidate)) where
    vote_ballot-Stable : (t : Transaction) (r : Repository) → R r (vote_ballot ballot_of t r).1
    vote_ballot-Stable t r = elim (Option-cases (ballot_of t.content)) [
      | inl e ↦ rw e (f.same r)
      | inr (cs, e) ↦ rw e (cast_votes-Stable t.sender cs r)
    ]

    execute_vote-Stable : (t : Transaction) (r : Repository) → R r (execute_vote ballot_of t r).1
    unfolding execute_vote
    execute_vote-Stable t r =
        then-Stable (clear_vote t.sender) (burn t.sender transaction_fee >> vote_ballot ballot_of t)
          r (f.clears t.sender r)
          λ s.
            then-Stable (burn t.sender transaction_fee) (vote_ballot ballot_of t) s
              (f.burns t.sender transaction_fee s) (vote_ballot-Stable t)

    pub execute_action-Stable :
        (t : Transaction)
        → (t.tx_type ≡ transfer_type → Allowed t.sender t.recipient t.value)
        → (r : Repository) → R r (execute_action ballot_of t r).1
    unfolding execute_action
    execute_action-Stable t may r = elim (Bool-cases (t.tx_type == vote_type)) [
      | inl vote ↦ rw vote (execute_vote-Stable t r)
      | inr other ↦ rw other (elim (Bool-cases (t.tx_type == transfer_type)) [
        | inl pay ↦ rw pay (execute_transfer-Stable t (may (==→eq t.tx_type transfer_type pay)) r)
        | inr none_yet ↦ rw none_yet (elim (Bool-cases (t.tx_type == been_producer_type)) [
          | inl join ↦ rw join (execute_been_producer-Stable t r)
          | inr unknown ↦ rw unknown (f.same r)
        ])
      ])
    ]
