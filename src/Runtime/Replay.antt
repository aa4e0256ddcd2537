-- ===== src/Runtime/Replay.antt =====
-- On runtime/correlator/Correlation.cpp: the record of transactions after a block.
use gsenetwork.Prelude.{ℕ, List, [], ◌∷◌, false, Option, ◌≡◌, sym, ap, ◌∙◌, All}
use mathlib.Core.Path.{subst}
use gsenetwork.Prelude.Action.{Result, ok, then_ok}
use gsenetwork.Core.Transaction.{Transaction, Candidate}
use gsenetwork.Storage.Repository.{Repository, found_transaction, put_transaction}
use gsenetwork.Storage.Repository.Record.{
  is_none, Known, IsOrderly, store_transaction-Known, store_transaction_keeps,
  store_transaction-IsOrderly, Keeps-Known, Keeps-IsOrderly, found_transaction-Known,
}
use gsenetwork.Runtime.{execute_action, excute, run}
use gsenetwork.Runtime.Frame.{execute_action-Frame}
use gsenetwork.Storage.Repository.Frame.{Keeps, Keeps-IsFrame}

-- What executing one transaction after another leaves.
pub record Records (ts : List Transaction) (r s : Repository) : Type 0 where
  pub orderly : IsOrderly s
  pub recorded : All (λ t. Known t.hash s) ts
  pub kept : (h : ℕ) → Known h r → Known h s

module _ (ballot_of : List ℕ → Option (List Candidate)) where
  excute-Records :
      (t : Transaction) (r : Repository)
      → is_none t ≡ false
      → IsOrderly r
      → (excute ballot_of t r).0 ≡ ok tt
      → Records (t ∷ []) r (excute ballot_of t r).1
  unfolding excute put_transaction
  excute-Records t r full o done =
      let s = (execute_action ballot_of t r).1 in
      let k = execute_action-Frame Keeps Keeps-IsFrame ballot_of t r in
      let same = (then_ok (execute_action ballot_of t) (put_transaction t) r done).1 in
      subst (λ q. Records (t ∷ []) r q.1) (sym same)
        (record {
          orderly = store_transaction-IsOrderly t s full (Keeps-IsOrderly k o);
          recorded = (store_transaction-Known t s full, tt);
          kept = λ h known. store_transaction_keeps t s full h (Keeps-Known h k known);
        })

  All-Known :
      (ts : List Transaction) (r s : Repository)
      → ((h : ℕ) → Known h r → Known h s)
      → All (λ t. Known t.hash r) ts
      → All (λ t. Known t.hash s) ts
  All-Known [] r s keep a = tt
  All-Known (t ∷ ts) r s keep a = (keep t.hash a.0, All-Known ts r s keep a.1)

  pub run-Records :
      (ts : List Transaction) (r : Repository)
      → All (λ t. is_none t ≡ false) ts
      → IsOrderly r
      → (run ballot_of ts r).0 ≡ ok tt
      → Records ts r (run ballot_of ts r).1
  unfolding run
  run-Records [] r full o done = record { orderly = o; recorded = tt; kept = λ h k. k }
  run-Records (t ∷ ts) r full o done =
      let (fine, same) = then_ok (excute ballot_of t) (run ballot_of ts) r done in
      let s = (excute ballot_of t r).1 in
      let first = excute-Records t r full.0 o fine in
      let rest =
        run-Records ts s full.1 first.orderly
          (sym (ap (λ (q : Result (Unit {0}) × Repository). q.0) same) ∙ done) in
      subst (λ q. Records (t ∷ ts) r q.1) (sym same)
        (record {
          orderly = rest.orderly;
          recorded = (rest.kept t.hash first.recorded.0, rest.recorded);
          kept = λ h known. rest.kept h (first.kept h known);
        })

  All-found :
      (ts : List Transaction) (s : Repository)
      → IsOrderly s
      → All (λ t. Known t.hash s) ts
      → All (λ t. is_none (found_transaction t.hash s) ≡ false) ts
  All-found [] s o a = tt
  All-found (t ∷ ts) s o a = (found_transaction-Known t.hash s o a.0, All-found ts s o a.1)

  -- Once a block's transactions, none of them the empty one, have been executed with no exception on a
  -- repository whose caches of transactions are sound, a
  -- lookup finds every one of them, and whatever the caches showed before they show still.
  pub run_finds :
      (ts : List Transaction) (r : Repository)
      → All (λ t. is_none t ≡ false) ts
      → IsOrderly r
      → (run ballot_of ts r).0 ≡ ok tt
      → let s = (run ballot_of ts r).1 in
        All (λ t. is_none (found_transaction t.hash s) ≡ false) ts
        × ((h : ℕ) → Known h r → Known h s)
  run_finds ts r full o done =
      let records = run-Records ts r full o done in
      (All-found ts _ records.orderly records.recorded, records.kept)
