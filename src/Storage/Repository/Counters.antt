-- ===== src/Storage/Repository/Counters.antt =====
-- On `voteIncrease` of runtime/storage/Repository.cpp: the counters, and the test against the balance.
use gsenetwork.Prelude.{ℕ, ◌+◌, ◌^◌, false, ◌≡◌, sym, ◌∙◌, arith}
use mathlib.Core.Path.{subst}
use gsenetwork.Prelude.Action.{ok}
use gsenetwork.Prelude.Map.{Above, lookup-insert}
use gsenetwork.Core.Producer.{Producer, add_voter}
use gsenetwork.Core.Producer.Tally.{Exceeds, held, add_voter-Exceeds}
use gsenetwork.Storage.Repository.{Repository, is_empty, no_such, vote_increase}
use gsenetwork.Storage.Repository.Ledger.{Shows, shown}
use gsenetwork.Storage.Repository.Book.{Book}
use gsenetwork.Storage.Repository.Roster.{Lists, listed}
use gsenetwork.Storage.Repository.Mirror.{VotesAgree, vote_increase-VotesAgree}
use gsenetwork.Storage.Repository.Votes.{Roster, spec_vote, vote_increase-Refines}

spec_vote_candidate :
    (voter candidate value : ℕ) (f : Book) (g : Roster)
    → (spec_vote voter candidate value f g).0 ≡ ok tt
    → (spec_vote voter candidate value f g).2 candidate ≡ add_voter voter value (g candidate)
spec_vote_candidate voter candidate value f g done = ground arith

module _ (voter candidate value : ℕ) (r : Repository) (f : Book) (g : Roster) (s : Shows r f)
    (l : Lists r g) where
  vote_increase_candidate :
      (vote_increase voter candidate value r).0 ≡ ok tt
      → listed (vote_increase voter candidate value r).1 candidate
        ≡ add_voter voter value (g candidate)
  vote_increase_candidate done =
      let (same, _, l') = vote_increase-Refines voter candidate value r f g s l in
      l'.lists candidate ∙ spec_vote_candidate voter candidate value f g (sym same ∙ done)

  -- On a repository whose sound caches show a book and a roster, with the candidate's voters in key
  -- order, after a vote that goes through the candidate's counter exceeds the votes that its voters are
  -- recorded with by what was recorded for this voter before, on top of what it exceeded them by.
  pub vote_increase-Exceeds :
      (n : ℕ)
      → Above 0 (g candidate).voters
      → Exceeds n (g candidate)
      → (vote_increase voter candidate value r).0 ≡ ok tt
      → Exceeds
          (held voter (g candidate).voters + n)
          (listed (vote_increase voter candidate value r).1 candidate)
  vote_increase-Exceeds n sorted tallied done =
      subst (Exceeds (held voter (g candidate).voters + n)) (sym (vote_increase_candidate done))
        (add_voter-Exceeds voter value n (g candidate) sorted tallied)

held-add_voter :
    (voter value : ℕ) (p : Producer) → held voter (add_voter voter value p).voters ≡ value
unfolding add_voter
held-add_voter voter value p = ground (arith, lookup-insert voter value voter p.voters)

-- Where the two records of votes agree, the account has no recorded vote for the candidate and the
-- candidate's counter is the sum of its votes, two votes that go through by that account for that
-- candidate, as a ballot that names it twice makes them, leave the
-- counter above the recorded votes by the first of the two.
pub vote_twice :
    (voter candidate first second : ℕ) (r : Repository)
    → VotesAgree r
    → held voter (listed r candidate).voters ≡ 0
    → Exceeds 0 (listed r candidate)
    → let (res, r1) = vote_increase voter candidate first r in
      let (res', r2) = vote_increase voter candidate second r1 in
      res ≡ ok tt → res' ≡ ok tt → Exceeds first (listed r2 candidate)
vote_twice voter candidate first second r v new tallied done done' =
    let r1 = (vote_increase voter candidate first r).1 in
    let v1 = vote_increase-VotesAgree voter candidate first r v done in
    let e1 =
      vote_increase-Exceeds voter candidate first r (shown r) (listed r) v.book v.roster 0
        (v.sorted candidate) tallied done in
    let e2 =
      vote_increase-Exceeds voter candidate second r1 (shown r1) (listed r1) v1.book v1.roster
        (held voter (listed r candidate).voters + 0) (v1.sorted candidate) e1 done' in
    subst (λ n. Exceeds n (listed (vote_increase voter candidate second r1).1 candidate))
      (rw
        (
          vote_increase_candidate voter candidate first r (shown r) (listed r) v.book v.roster done,
          held-add_voter,
          new,
        )
        (omega arith))
      e2

-- On a repository whose sound caches show a book and a roster, a vote of 2 ^ 58 by a known account for a known producer goes through whatever the account's
-- balance and its earlier votes are: times a million it is 0 in 64 bits.
pub vote_unbacked :
    (voter candidate : ℕ) (r : Repository) (f : Book) (g : Roster)
    → Shows r f
    → Lists r g
    → is_empty (f voter) ≡ false
    → no_such (g candidate) ≡ false
    → (vote_increase voter candidate (2 ^ 58) r).0 ≡ ok tt
vote_unbacked voter candidate r f g s l full known =
    (vote_increase-Refines voter candidate (2 ^ 58) r f g s l).0 ∙ ground arith
