-- ===== src/Storage/Repository/Book.antt =====
-- The specification of the balance operations on a plain book of accounts, and the facts about reads
-- and puts that its proofs share.
use gsenetwork.Prelude.{
  ℕ, ◌+◌, ◌-◌, true, false, ◌||◌, ◌≡◌, ap, ◌∙◌, ltb, leb, u64, add64, if◌then◌else◌, Bool-cases,
  inl, inr,
}
use mathlib.Core.Path.{subst₂}
use gsenetwork.Prelude.Action.{Result, ok, err, no_account, not_enough, overflow}
use gsenetwork.Prelude.Int.{ℤ}
use gsenetwork.Core.Account.{Account, new_account, set_balance as with_balance}
use gsenetwork.Storage.Cache.View.{norm}
use gsenetwork.Storage.Database.{account_entity}
use gsenetwork.Storage.Repository.{
  Repository, found_account, store_account, is_empty, open_if_empty,
}
use gsenetwork.Storage.Repository.Ledger.{Shows, update, found_account-Finds, store_account-Shows}

abbrev pub Book : Type 0
Book = ℕ → Account

-- The outcome of an operation of the repository is that of its specification on books.
abbrev pub Refines : Result (Unit {0}) × Repository → Result (Unit {0}) × Book → Type 0
Refines (res, r) (res', f) = (res ≡ res') × Shows r f

-- An account of the book, opened at the block's time if it is not there.
abbrev pub opened : ℕ → ℤ → Account → Account
opened a now v = if is_empty v then new_account a 0 now else v

abbrev pub spec_burn : ℕ → ℕ → Book → Result (Unit {0}) × Book
spec_burn a value f =
    if is_empty (f a)
    then (err no_account, f)
    else if ltb (f a).balance value
    then (err not_enough, f)
    else (ok tt, update f a (with_balance ((f a).balance - value) (f a)))

abbrev pub spec_bonus : ℕ → ℕ → Book → Result (Unit {0}) × Book
spec_bonus a value f =
    if is_empty (f a)
    then (err no_account, f)
    else (ok tt, update f a (with_balance (add64 (f a).balance value) (f a)))

abbrev pub spec_add : ℕ → ℕ → ℤ → Book → Result (Unit {0}) × Book
spec_add a value now f =
    let b = (opened a now (f a)).balance in
    if leb u64 (b + value)
    then (err overflow, f)
    else (ok tt, update f a (with_balance (b + value) (opened a now (f a))))

abbrev pub spec_sub : ℕ → ℕ → Book → Result (Unit {0}) × Book
spec_sub a value f =
    if is_empty (f a) || ltb (f a).balance value
    then (err not_enough, f)
    else (ok tt, update f a (with_balance ((f a).balance - value) (f a)))

abbrev pub spec_set : ℕ → ℕ → ℤ → Book → Result (Unit {0}) × Book
spec_set a value now f = (ok tt, update f a (with_balance value (opened a now (f a))))

-- The recipient's balance is the one before the transfer, also where it is the sender.
abbrev pub spec_transfer : ℕ → ℕ → ℕ → ℤ → Book → Result (Unit {0}) × Book
spec_transfer from to value now f =
    let t = opened to now (f to) in
    if is_empty (f from)
    then (err no_account, f)
    else if ltb (f from).balance value || leb u64 (t.balance + value)
    then (err not_enough, f)
    else (
      ok tt,
      update (update f from (with_balance ((f from).balance - value) (f from))) to
          (with_balance (t.balance + value) t),
    )

-- Facts about the account that a read found, and about the same account opened.
pub record Found (a : ℕ) (f : Book) (v : Account) : Type 0 where
  pub empty_same : is_empty v ≡ is_empty (f a)
  pub own : is_empty (f a) ≡ false → v.address ≡ a
  pub same : is_empty (f a) ≡ false → norm v ≡ f a
  pub same_balance : is_empty (f a) ≡ false → v.balance ≡ (f a).balance
  pub is_alive : is_empty (f a) ≡ false → v.alive ≡ true

module _ (a : ℕ) (r : Repository) (f : Book) (s : Shows r f) where
  pub found : Found a f (found_account a r)
  found =
      let (e, rest) = found_account-Finds a r f s in
      let full = λ (h : is_empty (f a) ≡ false). (rest (e ∙ h)).1 in
      record {
        empty_same = e;
        own = λ h. (rest (e ∙ h)).0;
        same = λ h. full h;
        same_balance = λ h. ap (λ (v : Account). v.balance) (full h);
        is_alive = λ h. ap (λ (v : Account). v.alive) (full h) ∙ s.lives a h;
      }

-- An account that is put back with another balance.
pub store_same :
    (a b : ℕ) (w v : Account) (r : Repository) (g : Book)
    → v.address ≡ a
    → norm v ≡ w
    → v.alive ≡ true
    → Shows r g
    → Shows (store_account (with_balance b v) r) (update g a (with_balance b w))
store_same a b w v r g own same live s =
    subst₂ (λ k x. Shows (store_account (with_balance b v) r) (update g k x)) own
      (ap (with_balance b) same) (store_account-Shows (with_balance b v) r g live s)

-- The same for one that was opened if it was not there.
pub record Opened (a : ℕ) (now : ℤ) (f : Book) (v : Account) : Type 0 where
  pub own : v.address ≡ a
  pub same : norm v ≡ opened a now (f a)
  pub same_balance : v.balance ≡ (opened a now (f a)).balance
  pub is_alive : v.alive ≡ true

pub open_if_empty-Opened :
    (a : ℕ) (now : ℤ) (f : Book) (v : Account)
    → Found a f v
    → Opened a now f (open_if_empty a now v)
open_if_empty-Opened a now f v h = elim (Bool-cases (is_empty (f a))) [
  | inl gone ↦ record {
    own = rw (h.empty_same, gone);
    same = rw (h.empty_same, gone);
    same_balance = rw (h.empty_same, gone);
    is_alive = rw (h.empty_same, gone);
  }
  | inr full ↦ record {
    own = rw (h.empty_same, full) (h.own full);
    same = rw (h.empty_same, full) (h.same full);
    same_balance = rw (h.empty_same, full) (h.same_balance full);
    is_alive = rw (h.empty_same, full) (h.is_alive full);
  }
]
