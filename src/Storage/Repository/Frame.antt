-- ===== src/Storage/Repository/Frame.antt =====
-- On runtime/storage/Repository.cpp: the transactions and the database while accounts and producers change.
use gsenetwork.Prelude.{ℕ, [], ◌∷◌, ◌≡◌, refl, ◌∙◌, ◌||◌, ltb, add64, Bool-cases, inl, inr}
use gsenetwork.Prelude.Action.{Result, ok, err}
use gsenetwork.Prelude.Map.{Map}
use gsenetwork.Core.Account.{Account, clear_vote as forget_votes}
use gsenetwork.Core.Producer.{Producer, erase_voter}
use gsenetwork.Storage.Repository.{
  Repository, get_account, put_account, get_producer, put_producer, after_account, after_producer,
  store_account, store_producer, is_empty, no_such, open_if_empty, transfer, burn, bonus,
  erase_votes, clear_vote, vote_increase, found_account, found_producer,
}
use gsenetwork.Storage.Repository.Votes.{unbacked}
use gsenetwork.Storage.Repository.Clear.{finish, clear_vote_lem, clear_vote_unknown}

-- A relation between a repository and what it becomes, which every read and every put of an account or a
-- producer keeps.
pub record IsFrame (R : Repository → Repository → Type 0) : Type 0 where
  pub same : (r : Repository) → R r r
  pub after : (r s t : Repository) → R r s → R s t → R r t
  pub account_read : (a : ℕ) (r : Repository) → R r (after_account a r)
  pub account_put : (v : Account) (r : Repository) → R r (store_account v r)
  pub producer_read : (a : ℕ) (r : Repository) → R r (after_producer a r)
  pub producer_put : (p : Producer) (r : Repository) → R r (store_producer p r)

-- What does not touch the record of transactions.
pub record Keeps (r r' : Repository) : Type 0 where
  pub transactions : r'.transactions ≡ r.transactions
  pub db : r'.db ≡ r.db

pub Keeps-IsFrame : IsFrame Keeps
unfolding after_account store_account after_producer store_producer
Keeps-IsFrame = record {
  same = λ r. record { transactions = refl; db = refl };
  after = λ r s t h k. record { transactions = k.transactions ∙ h.transactions; db = k.db ∙ h.db };
  account_read = λ a r. record { transactions = refl; db = refl };
  account_put = λ v r. record { transactions = refl; db = refl };
  producer_read = λ a r. record { transactions = refl; db = refl };
  producer_put = λ p r. record { transactions = refl; db = refl };
}

-- Every operation of the repository is made of these, and keeps the relation, also when it throws.
module _ (R : Repository → Repository → Type 0) (f : IsFrame R) where
  read_then : {r s : Repository} (a : ℕ) → R r s → R r (after_account a s)
  read_then a h = f.after _ _ _ h (f.account_read a _)

  put_then : {r s : Repository} (v : Account) → R r s → R r (store_account v s)
  put_then v h = f.after _ _ _ h (f.account_put v _)

  pub read_producer_then : {r s : Repository} (a : ℕ) → R r s → R r (after_producer a s)
  read_producer_then a h = f.after _ _ _ h (f.producer_read a _)

  pub put_producer_then : {r s : Repository} (p : Producer) → R r s → R r (store_producer p s)
  put_producer_then p h = f.after _ _ _ h (f.producer_put p _)

  pub burn-Frame : (a value : ℕ) (r : Repository) → R r (burn a value r).1
  unfolding burn get_account put_account
  burn-Frame a value r =
      let k = read_then a (f.same r) in
      elim (Bool-cases (is_empty (found_account a r))) [
        | inl gone ↦ rw gone k
        | inr full ↦ rw full (elim (Bool-cases (ltb (found_account a r).balance value)) [
          | inl short ↦ rw short k
          | inr enough ↦ rw enough (put_then _ k)
        ])
      ]

  pub bonus-Frame : (a value : ℕ) (r : Repository) → R r (bonus a value r).1
  unfolding bonus get_account put_account
  bonus-Frame a value r =
      let k = read_then a (f.same r) in
      elim (Bool-cases (is_empty (found_account a r))) [
        | inl gone ↦ rw gone k
        | inr full ↦ rw full (put_then _ k)
      ]

  pub transfer-Frame : (from to value : ℕ) (r : Repository) → R r (transfer from to value r).1
  unfolding transfer get_account put_account
  transfer-Frame from to value r =
      let r2 = after_account to (after_account from r) in
      let k = read_then to (read_then from (f.same r)) in
      let t = open_if_empty to r2.block.timestamp (found_account to (after_account from r)) in
      elim (Bool-cases (is_empty (found_account from r))) [
        | inl gone ↦ rw gone k
        | inr full ↦
            rw full
              (elim (Bool-cases
                (ltb (found_account from r).balance value || ltb (add64 t.balance value) value)) [
                  | inl refused ↦ rw refused k
                  | inr passed ↦ rw passed (put_then _ (put_then _ k))
                ])
      ]

  erase_votes-Frame : (a : ℕ) (cs : Map ℕ) (r : Repository) → R r (erase_votes a cs r).1
  unfolding erase_votes get_producer put_producer
  erase_votes-Frame a [] r = f.same r
  erase_votes-Frame a ((c, _) ∷ cs) r =
      let k = read_producer_then c (f.same r) in
      elim (Bool-cases (no_such (found_producer c r))) [
        | inl unknown ↦ rw unknown k
        | inr known ↦ rw known (
            f.after _ _ _ (put_producer_then _ k) (
              erase_votes-Frame a cs
                (store_producer (erase_voter a (found_producer c r)) (after_producer c r))))
      ]

  finish-Frame :
      (v : Account) (r : Repository) (o : Result (Unit {0}) × Repository)
      → R r o.1
      → R r (finish v o).1
  unfolding finish
  finish-Frame v r (ok _, s) k = put_then (forget_votes v) k
  finish-Frame v r (err e, s) k = k

  pub clear_vote-Frame : (a : ℕ) (r : Repository) → R r (clear_vote a r).1
  clear_vote-Frame a r =
      let k = read_then a (f.same r) in
      elim (Bool-cases (is_empty (found_account a r))) [
        | inl gone ↦ rw (clear_vote_unknown a r gone) k
        | inr full ↦ rw (clear_vote_lem a r full) (
            finish-Frame _ r _ (
              f.after _ _ _ k
                (erase_votes-Frame a (found_account a r).candidates (after_account a r))))
      ]

  pub vote_increase-Frame :
      (voter candidate value : ℕ) (r : Repository) → R r (vote_increase voter candidate value r).1
  unfolding vote_increase get_account put_account get_producer put_producer
  vote_increase-Frame voter candidate value r =
      let k = read_then voter (f.same r) in
      let k2 = read_producer_then candidate k in
      let v = found_account voter r in
      elim (Bool-cases (is_empty v)) [
        | inl gone ↦ rw gone k
        | inr full ↦
            rw full
              (elim (Bool-cases (no_such (found_producer candidate (after_account voter r)))) [
                | inl unknown ↦ rw unknown k2
                | inr known ↦ rw known (elim (Bool-cases (unbacked value v)) [
                  | inl short ↦ rw short k2
                  | inr enough ↦ rw enough (put_producer_then _ (put_then _ k2))
                ])
              ])
      ]
