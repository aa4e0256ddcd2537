-- ===== src/Storage/Repository/Beneath.antt =====
-- On runtime/storage/Repository.cpp: what lies beneath a repository's own caches while it is used.
use gsenetwork.Prelude.{
  ℕ, List, [], ◌∷◌, ◌≡◌, refl, sym, ◌∙◌, ◌⊎◌, inl, inr, Bool-cases, Option-cases, arith,
}
use mathlib.Core.Path.{subst}
use gsenetwork.Prelude.Map.{Map, lookup}
use gsenetwork.Core.Account.{Account}
use gsenetwork.Core.Producer.{Producer}
use gsenetwork.Core.Transaction.{Transaction}
use gsenetwork.Storage.Cache.{Entity, read, read_parent, read_db}
use gsenetwork.Storage.Cache.Sound.{AllSound, IsKeyed}
use gsenetwork.Storage.Cache.View.{norm, view, read-view}
use gsenetwork.Storage.Database.{
  account_entity, producer_entity, transaction_entity, db_account, db_producer, db_transaction,
}
use gsenetwork.Storage.Repository.{
  Repository, Layers, to_list, of_list, after_account, store_account, after_producer,
  store_producer, after_transaction, store_transaction,
}
use gsenetwork.Storage.Repository.Frame.{IsFrame}

module _ {V : Type 0} ⦃e : Entity V⦄ where
  -- A chain that became another and shows what it showed, as `operator=` copies it.
  abbrev pub SameView : (ℕ → V) → List (Map V) → List (Map V) → Type 0
  SameView db ms ms' = AllSound ms' × ((j : ℕ) → norm (view db j ms') ≡ norm (view db j ms))

  -- Over a keyed database, a sound chain became such a chain.
  abbrev pub ShownKept : (ℕ → V) → List (Map V) → List (Map V) → Type 0
  ShownKept db ms ms' = IsKeyed db → AllSound ms → SameView db ms ms'

  ShownKept-refl : (db : ℕ → V) (ms : List (Map V)) → ShownKept db ms ms
  ShownKept-refl db ms _ s = (s, λ j. refl)

  ShownKept-trans :
      (db : ℕ → V) (ms ns os : List (Map V))
      → ShownKept db ms ns
      → ShownKept db ns os
      → ShownKept db ms os
  ShownKept-trans db ms ns os h k keyed s =
      let (t, same) = h keyed s in let (u, again) = k keyed t in (u, λ j. again j ∙ same j)

  -- So did each end of the chain, which keeps its length.
  abbrev pub ChainKept : (ℕ → V) → List (Map V) → List (Map V) → Type 0
  ChainKept db [] [] = Unit
  ChainKept db (m ∷ ms) (n ∷ ns) = ShownKept db (m ∷ ms) (n ∷ ns) × ChainKept db ms ns
  ChainKept db [] (n ∷ ns) = ⊥
  ChainKept db (m ∷ ms) [] = ⊥

  pub ChainKept-ShownKept :
      (db : ℕ → V) (ms ns : List (Map V)) → ChainKept db ms ns → ShownKept db ms ns
  ChainKept-ShownKept db [] [] h = ShownKept-refl db []
  ChainKept-ShownKept db (m ∷ ms) (n ∷ ns) h = h.0
  ChainKept-ShownKept db [] (n ∷ ns) h = absurd h
  ChainKept-ShownKept db (m ∷ ms) [] h = absurd h

  pub ChainKept-refl : (db : ℕ → V) (ms : List (Map V)) → ChainKept db ms ms
  ChainKept-refl db [] = tt
  ChainKept-refl db (m ∷ ms) = (ShownKept-refl db (m ∷ ms), ChainKept-refl db ms)

  pub ChainKept-trans :
      (db : ℕ → V) (ms ns os : List (Map V))
      → ChainKept db ms ns
      → ChainKept db ns os
      → ChainKept db ms os
  ChainKept-trans db [] [] os h k = k
  ChainKept-trans db (m ∷ ms) (n ∷ ns) (o ∷ os) h k =
      (ShownKept-trans db (m ∷ ms) (n ∷ ns) (o ∷ os) h.0 k.0, ChainKept-trans db ms ns os h.1 k.1)
  ChainKept-trans db (m ∷ ms) (n ∷ ns) [] h k = absurd k
  ChainKept-trans db [] (n ∷ ns) os h k = absurd h
  ChainKept-trans db (m ∷ ms) [] os h k = absurd h

  passed :
      (db : ℕ → V) (k : ℕ) (p : V) (m : Map V) (ms : List (Map V))
      → (of_list (read_parent (db k) p m ms).1).parents ≡ ms
  unfolding read_parent read_db
  passed db k p m ms = elim (Bool-cases (e.is_empty (e.assign e.empty p))) [
    | inr full ↦ rw full refl
    | inl miss ↦ rw miss (elim (Bool-cases (e.is_empty (e.assign e.empty (db k)))) [
      | inr full ↦ rw full refl
      | inl gone ↦ rw gone refl
    ])
  ]

  -- A read through a cache leaves the chain behind the cache as it was, or as a read of it leaves it.
  behind :
      (db : ℕ → V) (k : ℕ) (m : Map V) (ms : List (Map V))
      → ((of_list (read db k (m ∷ ms)).1).parents ≡ ms)
        ⊎ ((of_list (read db k (m ∷ ms)).1).parents ≡ (read db k ms).1)
  unfolding read
  behind db k m ms = elim (Option-cases (lookup k m)) [
    | inr (v, q) ↦ inl (rw (q, read) refl)
    | inl q ↦ inr (rw (q, read) (passed db k (read db k ms).0 m (read db k ms).1))
  ]

  -- The chain after a read through a cache has a cache on top.
  topped :
      (db : ℕ → V) (k : ℕ) (m : Map V) (ms : List (Map V))
      → (read db k (m ∷ ms)).1
        ≡ (of_list (read db k (m ∷ ms)).1).cache ∷ (of_list (read db k (m ∷ ms)).1).parents
  unfolding read read_parent read_db
  topped db k m ms = ground arith

  behind_list :
      (db : ℕ → V) (k : ℕ) (m : Map V) (ms : List (Map V))
      → ChainKept db ms (read db k ms).1
      → ChainKept db ms (of_list (read db k (m ∷ ms)).1).parents
  behind_list db k m ms rest = elim (behind db k m ms) [
    | inl e ↦ subst (ChainKept db ms) (sym e) (ChainKept-refl db ms)
    | inr e ↦ subst (ChainKept db ms) (sym e) rest
  ]

  pub read_kept : (db : ℕ → V) (k : ℕ) (ms : List (Map V)) → ChainKept db ms (read db k ms).1
  read_kept db k [] = unfold read in tt
  read_kept db k (m ∷ ms) =
      let whole = (read db k (m ∷ ms)).1 in
      let shown : ShownKept db (m ∷ ms) whole =
        λ keyed s. let (t, same, _, _) = read-view db keyed k m ms s in (t, same) in
      subst (ChainKept db (m ∷ ms)) (sym (topped db k m ms)) (
        subst (ShownKept db (m ∷ ms)) (topped db k m ms) shown,
        behind_list db k m ms (read_kept db k ms),
      )

  pub behind_kept :
      (db : ℕ → V) (k : ℕ) (l : Layers V)
      → ChainKept db l.parents (of_list (read db k (to_list l)).1).parents
  behind_kept db k l = behind_list db k l.cache l.parents (read_kept db k l.parents)

-- From one repository to another the database stays, and each chain beneath shows what it showed.
pub record Beneath (r s : Repository) : Type 0 where
  pub db : s.db ≡ r.db
  pub accounts : ChainKept (db_account r.db) r.accounts.parents s.accounts.parents
  pub producers : ChainKept (db_producer r.db) r.producers.parents s.producers.parents
  pub transactions : ChainKept (db_transaction r.db) r.transactions.parents s.transactions.parents

pub Beneath-refl : (r : Repository) → Beneath r r
Beneath-refl r = record {
  db = refl;
  accounts = ChainKept-refl (db_account r.db) r.accounts.parents;
  producers = ChainKept-refl (db_producer r.db) r.producers.parents;
  transactions = ChainKept-refl (db_transaction r.db) r.transactions.parents;
}

pub Beneath-trans : (r s t : Repository) → Beneath r s → Beneath s t → Beneath r t
Beneath-trans r s t h k = record {
  db = k.db ∙ h.db;
  accounts =
      ChainKept-trans (db_account r.db) _ _ _ h.accounts (
        subst (λ d. ChainKept (db_account d) s.accounts.parents t.accounts.parents) h.db
          k.accounts);
  producers = ChainKept-trans (db_producer r.db) _ _ _ h.producers (
      subst (λ d. ChainKept (db_producer d) s.producers.parents t.producers.parents) h.db
        k.producers);
  transactions = ChainKept-trans (db_transaction r.db) _ _ _ h.transactions (
      subst (λ d. ChainKept (db_transaction d) s.transactions.parents t.transactions.parents) h.db
        k.transactions);
}

after_account-Beneath : (a : ℕ) (r : Repository) → Beneath r (after_account a r)
unfolding after_account
after_account-Beneath a r =
    let b = Beneath-refl r in
    record {
      db = refl;
      accounts = behind_kept (db_account r.db) a r.accounts;
      producers = b.producers;
      transactions = b.transactions;
    }

after_producer-Beneath : (a : ℕ) (r : Repository) → Beneath r (after_producer a r)
unfolding after_producer
after_producer-Beneath a r =
    let b = Beneath-refl r in
    record {
      db = refl;
      accounts = b.accounts;
      producers = behind_kept (db_producer r.db) a r.producers;
      transactions = b.transactions;
    }

pub after_transaction-Beneath : (h : ℕ) (r : Repository) → Beneath r (after_transaction h r)
unfolding after_transaction
after_transaction-Beneath h r =
    let b = Beneath-refl r in
    record {
      db = refl;
      accounts = b.accounts;
      producers = b.producers;
      transactions = behind_kept (db_transaction r.db) h r.transactions;
    }

store_account-Beneath : (v : Account) (r : Repository) → Beneath r (store_account v r)
unfolding store_account
store_account-Beneath v r =
    let b = Beneath-refl r in
    record {
      db = refl;
      accounts = b.accounts;
      producers = b.producers;
      transactions = b.transactions;
    }

store_producer-Beneath : (p : Producer) (r : Repository) → Beneath r (store_producer p r)
unfolding store_producer
store_producer-Beneath p r =
    let b = Beneath-refl r in
    record {
      db = refl;
      accounts = b.accounts;
      producers = b.producers;
      transactions = b.transactions;
    }

pub store_transaction-Beneath :
    (t : Transaction) (r : Repository) → Beneath r (store_transaction t r)
unfolding store_transaction
store_transaction-Beneath t r =
    let b = Beneath-refl r in
    record {
      db = refl;
      accounts = b.accounts;
      producers = b.producers;
      transactions = b.transactions;
    }

pub Beneath-IsFrame : IsFrame Beneath
Beneath-IsFrame = record {
  same = Beneath-refl;
  after = Beneath-trans;
  account_read = after_account-Beneath;
  account_put = store_account-Beneath;
  producer_read = after_producer-Beneath;
  producer_put = store_producer-Beneath;
}
