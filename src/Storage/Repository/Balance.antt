-- ===== src/Storage/Repository/Balance.antt =====
-- On the balance operations of runtime/storage/Repository.cpp, against a plain book of accounts.
use gsenetwork.Prelude.{
  ℕ, ◌+◌, ◌<◌, ◌||◌, refl, ltb, leb, sub64_exact, add64_exact, add64_wraps, u64, inl, inr,
  Bool-cases, or-left, or-right,
}
use gsenetwork.Storage.Repository.{
  Repository, found_account, after_account, get_account, put_account, transfer, burn, bonus,
  add_balance, sub_balance, set_balance,
}
use gsenetwork.Storage.Repository.Book.{
  Book, Refines, opened, spec_burn, spec_bonus, spec_add, spec_sub, spec_set, spec_transfer, found,
  open_if_empty-Opened, store_same,
}
use gsenetwork.Storage.Repository.Ledger.{Shows, after_account-Shows}
use gsenetwork.Storage.Repository.{is_empty}

-- On a repository whose sound caches show a book, where the target's balance is below 2 ^ 64, `burn`
-- gives the result of its specification and shows the specification's book: it refuses an unknown
-- target and one that holds too little, and otherwise takes the value away.
pub burn-Refines :
    (a value : ℕ) (r : Repository) (f : Book)
    → Shows r f
    → (f a).balance < u64
    → Refines (burn a value r) (spec_burn a value f)
unfolding burn get_account put_account
burn-Refines a value r f s bound =
    let h = found a r f s in
    let s' = after_account-Shows a r f s in
    elim (Bool-cases (is_empty (f a))) [
      | inl gone ↦ rw (h.empty_same, gone) (refl, s')
      | inr full ↦
          rw (h.empty_same, full, h.same_balance full)
            (elim (Bool-cases (ltb (f a).balance value)) [
              | inl short ↦ rw short (refl, s')
              | inr enough ↦
                  rw (enough, sub64_exact (f a).balance value enough bound)
                    (
                      refl,
                      store_same a _ (f a) _ _ f (h.own full) (h.same full) (h.is_alive full) s',
                    )
            ])
    ]

-- On a repository whose sound caches show a book, `bonus` gives the result of its specification and
-- shows the specification's book: it refuses an unknown target, and otherwise adds the value modulo
-- 2 ^ 64, with no test for overflow.
pub bonus-Refines :
    (a value : ℕ) (r : Repository) (f : Book)
    → Shows r f
    → Refines (bonus a value r) (spec_bonus a value f)
unfolding bonus get_account put_account
bonus-Refines a value r f s =
    let h = found a r f s in
    let s' = after_account-Shows a r f s in
    elim (Bool-cases (is_empty (f a))) [
      | inl gone ↦ rw (h.empty_same, gone) (refl, s')
      | inr full ↦
          rw (h.empty_same, full, h.same_balance full)
            (refl, store_same a _ (f a) _ _ f (h.own full) (h.same full) (h.is_alive full) s')
    ]

-- On a repository whose sound caches show a book, `addBalance` of a value below 2 ^ 64 to an account
-- that, opened where it is missing, holds less than 2 ^ 64 gives the result and the book of its
-- specification: the test for wrap-around refuses exactly the sums of 2 ^ 64 and more.
pub add_balance-Refines :
    (a value : ℕ) (r : Repository) (f : Book)
    → Shows r f
    → (opened a r.block.timestamp (f a)).balance < u64
    → value < u64
    → Refines (add_balance a value r) (spec_add a value r.block.timestamp f)
unfolding add_balance get_account put_account after_account
add_balance-Refines a value r f s bound bound' =
    let now = r.block.timestamp in
    let w = opened a now (f a) in
    let h = open_if_empty-Opened a now f (found_account a r) (found a r f s) in
    let s' = after_account-Shows a r f s in
    rw (h.same_balance, add64_wraps w.balance value bound bound')
      (elim (Bool-cases (leb u64 (w.balance + value))) [
        | inl over ↦ rw over (refl, s')
        | inr fits ↦
            rw (fits, add64_exact w.balance value fits)
              (refl, store_same a _ w _ _ f h.own h.same h.is_alive s')
      ])

-- On a repository whose sound caches show a book, where the account's balance is below 2 ^ 64,
-- `subBalance` gives the result and the book of its specification: it refuses what the account does
-- not hold.
pub sub_balance-Refines :
    (a value : ℕ) (r : Repository) (f : Book)
    → Shows r f
    → (f a).balance < u64
    → Refines (sub_balance a value r) (spec_sub a value f)
unfolding sub_balance get_account put_account
sub_balance-Refines a value r f s bound =
    let h = found a r f s in
    let s' = after_account-Shows a r f s in
    elim (Bool-cases (is_empty (f a))) [
      | inl gone ↦ rw (h.empty_same, gone) (refl, s')
      | inr full ↦
          rw (h.empty_same, full, h.same_balance full)
            (elim (Bool-cases (ltb (f a).balance value)) [
              | inl short ↦ rw short (refl, s')
              | inr enough ↦
                  rw (enough, sub64_exact (f a).balance value enough bound)
                    (
                      refl,
                      store_same a _ (f a) _ _ f (h.own full) (h.same full) (h.is_alive full) s',
                    )
            ])
    ]

-- On a repository whose sound caches show a book, `setBalance` succeeds and shows the book in which the
-- account, opened where it is missing, has the balance, as its specification says.
pub set_balance-Refines :
    (a value : ℕ) (r : Repository) (f : Book)
    → Shows r f
    → Refines (set_balance a value r) (spec_set a value r.block.timestamp f)
unfolding set_balance get_account put_account after_account
set_balance-Refines a value r f s =
    let h = open_if_empty-Opened a r.block.timestamp f (found_account a r) (found a r f s) in
    (refl, store_same a _ _ _ _ f h.own h.same h.is_alive (after_account-Shows a r f s))

-- On a repository whose sound caches show a book, with both balances (the recipient's opened where it
-- is missing) and the value below 2 ^ 64, `transfer` gives the result and the book of its
-- specification, also from an account to itself: it refuses an unknown sender, a sender that
-- holds too little, and a recipient whose balance would reach 2 ^ 64, and otherwise books both sides
-- by the balances that it read before.
pub transfer-Refines :
    (from to value : ℕ) (r : Repository) (f : Book)
    → Shows r f
    → (f from).balance < u64
    → (opened to r.block.timestamp (f to)).balance < u64
    → value < u64
    → Refines (transfer from to value r) (spec_transfer from to value r.block.timestamp f)
unfolding transfer get_account put_account after_account
transfer-Refines from to value r f s bound bound_to bound_value =
    let now = r.block.timestamp in
    let r1 = after_account from r in
    let s1 = after_account-Shows from r f s in
    let s2 = after_account-Shows to r1 f s1 in
    let h = found from r f s in
    let k = open_if_empty-Opened to now f (found_account to r1) (found to r1 f s1) in
    let t = opened to now (f to) in
    elim (Bool-cases (is_empty (f from))) [
      | inl gone ↦ rw (h.empty_same, gone) (refl, s2)
      | inr full ↦
          rw
            (
              h.empty_same,
              full,
              h.same_balance full,
              k.same_balance,
              add64_wraps t.balance value bound_to bound_value,
            )
            (elim (Bool-cases (ltb (f from).balance value || leb u64 (t.balance + value))) [
              | inl refused ↦ rw refused (refl, s2)
              | inr passed ↦
                  let enough = or-left _ _ passed in
                  rw
                    (
                      passed,
                      sub64_exact (f from).balance value enough bound,
                      add64_exact t.balance value (or-right _ _ passed),
                    )
                    (
                      refl,
                      store_same to _ t _ _ _ k.own k.same k.is_alive (
                          store_same from _ (f from) _ _ f (h.own full) (h.same full)
                            (h.is_alive full) s2),
                    )
            ])
    ]
