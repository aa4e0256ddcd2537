-- ===== src/Storage/Repository/Supply.antt =====
-- On runtime/storage/Repository.cpp: no operation that a transaction calls makes money.
use gsenetwork.Prelude.{
  ℕ, ◌≤◌, ◌<◌, List, [], ◌∷◌, true, ◌≡◌, ◌≢◌, sym, ap, ◌∙◌, arith, inl, inr, Bool-cases, u64,
}
use gsenetwork.Prelude.Action.{Result, ok, err}
use gsenetwork.Prelude.Map.{Map}
use gsenetwork.Core.Account.{Account, add_voter as note_vote, clear_vote as forget_votes}
use gsenetwork.Core.Producer.{Producer, erase_voter}
use gsenetwork.Storage.Cache.View.{norm}
use gsenetwork.Storage.Database.{account_entity}
use gsenetwork.Storage.Repository.{
  Repository, found_account, after_account, get_account, store_account, put_account, found_producer,
  after_producer, get_producer, store_producer, put_producer, is_empty, no_such, erase_votes,
  clear_vote, vote_increase, burn, transfer,
}
use gsenetwork.Storage.Repository.Ledger.{
  Shows, update, after_account-Shows, store_account-Shows, after_producer-Shows,
  store_producer-Shows,
}
use gsenetwork.Storage.Repository.Book.{Book, spec_burn, spec_transfer, found}
use gsenetwork.Storage.Repository.Balance.{burn-Refines, transfer-Refines}
use gsenetwork.Storage.Repository.Money.{opened_balance}
use gsenetwork.Storage.Repository.Votes.{unbacked}
use gsenetwork.Storage.Repository.Clear.{finish, clear_vote_lem, clear_vote_unknown}
use gsenetwork.Storage.Repository.Total.{
  total, has, AreDistinct, Bounded, update-Bounded, total-le, spec_burn-Total, spec_transfer-Total,
}

-- Whatever book of 64-bit balances the first repository shows, the second shows one of such balances
-- that holds no more on the addresses together.
abbrev pub NoGain : List ℕ → Repository → Repository → Type 0
NoGain xs r s =
    (f : Book)
    → Shows r f
    → Bounded f
    → (g : Book) × Shows s g × Bounded g × (total xs g ≤ total xs f)

module _ (xs : List ℕ) where
  pub NoGain-refl : (r : Repository) → NoGain xs r r
  NoGain-refl r f s b = (f, s, b, omega arith)

  pub NoGain-trans : (r s t : Repository) → NoGain xs r s → NoGain xs s t → NoGain xs r t
  NoGain-trans r s t h k f sf bf =
      let (g, sg, bg, le) = h f sf bf in
      let (i, si, bi, le') = k g sg bg in (i, si, bi, omega (arith, le, le'))

  -- Where the book stays.
  kept : (r s : Repository) → ((f : Book) → Shows r f → Shows s f) → NoGain xs r s
  kept r s h f sf bf = (f, h f sf, bf, omega arith)

  -- An account of the book that is put back with its balance.
  put_back :
      (a : ℕ) (v : Account) (r : Repository) (f : Book)
      → v.address ≡ a
      → v.alive ≡ true
      → v.balance ≡ (f a).balance
      → Shows r f
      → Bounded f
      → (g : Book) × Shows (store_account v r) g × Bounded g × (total xs g ≤ total xs f)
  put_back a v r f own live same s b =
      let here : (norm v).balance ≤ (f v.address).balance =
        omega (arith, same, ap (λ k. (f k).balance) own) in
      (
        update f v.address (norm v),
        store_account-Shows v r f live s,
        update-Bounded f v.address (norm v) b (omega (arith, here, b v.address)),
        total-le xs f v.address (norm v) here,
      )

  pub burn-NoGain : (a value : ℕ) (r : Repository) → NoGain xs r (burn a value r).1
  burn-NoGain a value r f s b =
      let (_, s') = burn-Refines a value r f s (b a) in
      let (b', le) = spec_burn-Total xs a value f b in ((spec_burn a value f).1, s', b', le)

  pub transfer-NoGain :
      (from to value : ℕ) (r : Repository)
      → AreDistinct xs
      → has from xs ≡ true
      → from ≢ to
      → value < u64
      → NoGain xs r (transfer from to value r).1
  transfer-NoGain from to value r d counts ne fits f s b =
      let now = r.block.timestamp in
      let (_, s') =
        transfer-Refines from to value r f s (b from)
          (omega (arith, opened_balance to now (f to), b to)) fits in
      let (b', le) = spec_transfer-Total xs from to value now f d counts ne b in
      ((spec_transfer from to value now f).1, s', b', le)

  pub producer_read-NoGain : (a : ℕ) (r : Repository) → NoGain xs r (after_producer a r)
  producer_read-NoGain a r = kept r (after_producer a r) (after_producer-Shows a r)

  pub producer_put-NoGain : (p : Producer) (r : Repository) → NoGain xs r (store_producer p r)
  producer_put-NoGain p r = kept r (store_producer p r) (store_producer-Shows p r)

  erase_votes-Shows :
      (a : ℕ) (cs : Map ℕ) (r : Repository) (f : Book) → Shows r f → Shows (erase_votes a cs r).1 f
  unfolding erase_votes get_producer put_producer
  erase_votes-Shows a [] r f s = s
  erase_votes-Shows a ((c, w) ∷ cs) r f s =
      let s1 = after_producer-Shows c r f s in
      let p = erase_voter a (found_producer c r) in
      elim (Bool-cases (no_such (found_producer c r))) [
        | inl unknown ↦ rw unknown s1
        | inr known ↦ rw known (
            erase_votes-Shows a cs (store_producer p (after_producer c r)) f
              (store_producer-Shows p (after_producer c r) f s1))
      ]

  finish-NoGain :
      (a : ℕ) (v : Account) (f : Book) (o : Result (Unit {0}) × Repository)
      → v.address ≡ a
      → v.alive ≡ true
      → v.balance ≡ (f a).balance
      → Shows o.1 f
      → Bounded f
      → (g : Book) × Shows (finish v o).1 g × Bounded g × (total xs g ≤ total xs f)
  unfolding finish
  finish-NoGain a v f (ok _, r) own live same s b =
      put_back a (forget_votes v) r f own live same s b
  finish-NoGain a v f (err e, r) own live same s b = (f, s, b, omega arith)

  pub clear_vote-NoGain : (a : ℕ) (r : Repository) → NoGain xs r (clear_vote a r).1
  clear_vote-NoGain a r f s b =
      let h = found a r f s in
      let s1 = after_account-Shows a r f s in
      let v = found_account a r in
      elim (Bool-cases (is_empty v)) [
        | inl gone ↦ rw (clear_vote_unknown a r gone) (f, s1, b, omega arith)
        | inr full ↦
            let known = sym h.empty_same ∙ full in
            rw (clear_vote_lem a r full) (
              finish-NoGain a v f (erase_votes a v.candidates (after_account a r)) (h.own known)
                (h.is_alive known) (h.same_balance known)
                (erase_votes-Shows a v.candidates (after_account a r) f s1) b)
      ]

  pub vote_increase-NoGain :
      (voter candidate value : ℕ) (r : Repository)
      → NoGain xs r (vote_increase voter candidate value r).1
  unfolding vote_increase get_account put_account get_producer put_producer
  vote_increase-NoGain voter candidate value r f s b =
      let h = found voter r f s in
      let v = found_account voter r in
      let r1 = after_account voter r in
      let s1 = after_account-Shows voter r f s in
      let s2 = after_producer-Shows candidate r1 f s1 in
      elim (Bool-cases (is_empty v)) [
        | inl gone ↦ rw gone (f, s1, b, omega arith)
        | inr full ↦ rw full (elim (Bool-cases (no_such (found_producer candidate r1))) [
          | inl unknown ↦ rw unknown (f, s2, b, omega arith)
          | inr known ↦ rw known (elim (Bool-cases (unbacked value v)) [
            | inl short ↦ rw short (f, s2, b, omega arith)
            | inr enough ↦
                let there = sym h.empty_same ∙ full in
                let (g, sg, bg, le) =
                  put_back voter (note_vote candidate value v) (after_producer candidate r1) f
                    (h.own there) (h.is_alive there) (h.same_balance there) s2 b in
                rw enough (g, store_producer-Shows _ _ g sg, bg, le)
          ])
        ])
      ]
