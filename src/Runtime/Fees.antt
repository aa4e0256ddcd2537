-- ===== src/Runtime/Fees.antt =====
-- On runtime/action/Transfer.cpp: what a transfer transaction costs, and whom.
use gsenetwork.Prelude.{ℕ, ◌+◌, ◌<◌, ◌≡◌, ◌≢◌, sym, ap, ◌∙◌, arith, u64}
use mathlib.Core.Path.{subst}
use gsenetwork.Prelude.Action.{Result, ok, then_ok}
use gsenetwork.Core.Account.{Account}
use gsenetwork.Core.Transaction.{Transaction}
use gsenetwork.Storage.Repository.{Repository, burn, transfer}
use gsenetwork.Storage.Repository.Ledger.{Shows, shown}
use gsenetwork.Storage.Repository.Book.{Book, spec_burn}
use gsenetwork.Storage.Repository.Balance.{burn-Refines}
use gsenetwork.Storage.Repository.Money.{transfer_moves}
use gsenetwork.Runtime.{transaction_fee, execute_transfer}

spec_burn_total :
    (a value : ℕ) (f : Book)
    → (spec_burn a value f).0 ≡ ok tt
    → (((spec_burn a value f).1 a).balance + value ≡ (f a).balance)
      × ((j : ℕ) → j ≢ a → (spec_burn a value f).1 j ≡ f j)
spec_burn_total a value f done = (ground arith, λ j ne. ground arith)

-- On a repository whose sound caches show a book, with both balances and the value below 2 ^ 64, a
-- transfer transaction between two different accounts that goes through takes its value and the fee
-- from the sender, gives the value to the recipient, and leaves every other account alone.
pub execute_transfer_pays :
    (t : Transaction) (r : Repository) (f : Book)
    → Shows r f
    → (f t.sender).balance < u64
    → (f t.recipient).balance < u64
    → t.value < u64
    → t.sender ≢ t.recipient
    → (execute_transfer t r).0 ≡ ok tt
    → let s = (execute_transfer t r).1 in
      ((shown s t.sender).balance + t.value + transaction_fee ≡ (f t.sender).balance)
      × ((shown s t.recipient).balance ≡ (f t.recipient).balance + t.value)
      × ((j : ℕ) → j ≢ t.sender → j ≢ t.recipient → shown s j ≡ f j)
unfolding execute_transfer
execute_transfer_pays t r f s bound bound_to bound_value ne done =
    let (fine, same) =
      then_ok (burn t.sender transaction_fee) (transfer t.sender t.recipient t.value) r done in
    let r1 = (burn t.sender transaction_fee r).1 in
    let f1 = (spec_burn t.sender transaction_fee f).1 in
    let (agrees, s1) = burn-Refines t.sender transaction_fee r f s bound in
    let (paid, others) = spec_burn_total t.sender transaction_fee f (sym agrees ∙ fine) in
    let kept = others t.recipient (λ e. ne (sym e)) in
    let (out, into, rest) =
      transfer_moves t.sender t.recipient t.value r1 f1 s1 (omega (arith, paid))
        (omega (arith, ap (λ (v : Account). v.balance) kept)) bound_value ne
        (sym (ap (λ (q : Result (Unit {0}) × Repository). q.0) same) ∙ done) in
    subst
      (λ q.
        ((shown q.1 t.sender).balance + t.value + transaction_fee ≡ (f t.sender).balance)
        × ((shown q.1 t.recipient).balance ≡ (f t.recipient).balance + t.value)
        × ((j : ℕ) → j ≢ t.sender → j ≢ t.recipient → shown q.1 j ≡ f j))
      (sym same)
      (
        omega (arith, out, paid),
        omega (arith, into, ap (λ (v : Account). v.balance) kept),
        λ j nf nt. rest j nf nt ∙ others j nf,
      )
