-- ===== src/Storage/Repository/Money.antt =====
-- On `transfer` of runtime/storage/Repository.cpp: where the money goes.
use gsenetwork.Prelude.{ℕ, ◌+◌, ◌≤◌, ◌<◌, true, false, ◌≡◌, ◌≢◌, sym, ap, ◌∙◌, arith, u64}
use gsenetwork.Prelude.Action.{ok}
use gsenetwork.Prelude.Int.{ℤ}
use gsenetwork.Core.Account.{Account, account_eq}
use gsenetwork.Storage.Repository.{Repository, transfer, is_empty}
use gsenetwork.Storage.Repository.Ledger.{Shows, shown}
use gsenetwork.Storage.Repository.Book.{Book, Refines, opened, spec_transfer}
use gsenetwork.Storage.Repository.Balance.{transfer-Refines}

empty_balance : (v : Account) → is_empty v ≡ true → v.balance ≡ 0
unfolding account_eq
empty_balance v h = ground arith

pub opened_balance : (a : ℕ) (now : ℤ) (v : Account) → (opened a now v).balance ≡ v.balance
opened_balance a now v = ground (arith, empty_balance v)

module _ (from to value : ℕ) (now : ℤ) (f : Book) where
  abbrev after_spec : Book
  after_spec = (spec_transfer from to value now f).1

  spec_transfer_total :
      from ≢ to
      → (spec_transfer from to value now f).0 ≡ ok tt
      → ((after_spec from).balance + value ≡ (f from).balance)
        × ((after_spec to).balance ≡ (f to).balance + value)
  spec_transfer_total ne done = ground (arith, opened_balance to now (f to))

  spec_transfer_others : (j : ℕ) → j ≢ from → j ≢ to → after_spec j ≡ f j
  spec_transfer_others j nf nt = ground arith

  spec_transfer_failed :
      (spec_transfer from to value now f).0 ≢ ok tt → (j : ℕ) → after_spec j ≡ f j
  spec_transfer_failed failed j = ground arith

spec_transfer_self :
    (a value : ℕ) (now : ℤ) (f : Book)
    → is_empty (f a) ≡ false
    → value ≤ (f a).balance
    → (f a).balance + value < u64
    → ((spec_transfer a a value now f).0 ≡ ok tt)
      × (((spec_transfer a a value now f).1 a).balance ≡ (f a).balance + value)
spec_transfer_self a value now f full covered fits = ground arith

module _ (from to value : ℕ) (r : Repository) (f : Book) (s : Shows r f)
    (bound : (f from).balance < u64) (bound_to : (f to).balance < u64)
    (bound_value : value < u64) where
  refined : Refines (transfer from to value r) (spec_transfer from to value r.block.timestamp f)
  refined =
      transfer-Refines from to value r f s bound
        (rw (opened_balance to r.block.timestamp (f to)) bound_to) bound_value

  -- On a repository whose sound caches show a book, with both balances and the value below 2 ^ 64, a
  -- transfer between two different accounts that goes through takes the value from the sender's
  -- balance, adds it to the recipient's and leaves every other account alone.
  pub transfer_moves :
      from ≢ to
      → (transfer from to value r).0 ≡ ok tt
      → let r' = (transfer from to value r).1 in
        ((shown r' from).balance + value ≡ (f from).balance)
        × ((shown r' to).balance ≡ (f to).balance + value)
        × ((j : ℕ) → j ≢ from → j ≢ to → shown r' j ≡ f j)
  transfer_moves ne done =
      let (same, s') = refined in
      let (out, into) =
        spec_transfer_total from to value r.block.timestamp f ne (sym same ∙ done) in
      (
        ap (λ (v : Account). v.balance + value) (s'.shows from) ∙ out,
        ap (λ (v : Account). v.balance) (s'.shows to) ∙ into,
        λ j nf nt. s'.shows j ∙ spec_transfer_others from to value r.block.timestamp f j nf nt,
      )

  -- On a repository whose sound caches show a book, with both balances and the value below 2 ^ 64, a
  -- transfer that throws leaves every account as it was.
  pub transfer_failed :
      (transfer from to value r).0 ≢ ok tt → (j : ℕ) → shown (transfer from to value r).1 j ≡ f j
  transfer_failed failed j =
      let (same, s') = refined in
      s'.shows j
      ∙ spec_transfer_failed from to value r.block.timestamp f (λ done. failed (same ∙ done)) j

-- On a repository whose sound caches show a book, a transfer from a known account to itself of a value
-- that it holds goes through, where the sum fits into
-- 64 bits, and raises the account's balance by the value: the money is made from nothing.
pub transfer_to_self :
    (a value : ℕ) (r : Repository) (f : Book)
    → Shows r f
    → is_empty (f a) ≡ false
    → value ≤ (f a).balance
    → (f a).balance + value < u64
    → ((transfer a a value r).0 ≡ ok tt)
      × ((shown (transfer a a value r).1 a).balance ≡ (f a).balance + value)
transfer_to_self a value r f s full covered fits =
    let (same, s') = refined a a value r f s (omega arith) (omega arith) (omega arith) in
    let (done, more) = spec_transfer_self a value r.block.timestamp f full covered fits in
    (same ∙ done, ap (λ (v : Account). v.balance) (s'.shows a) ∙ more)
