-- ===== src/Chain/Execute/Shown.antt =====
-- On chain/BlockChain.cpp: what the back of the memory queue shows while repositories are used over it.
use gsenetwork.Prelude.{ℕ, List, [], ◌∷◌, Option, ◌≡◌, refl, sym, ◌∙◌}
use mathlib.Core.Path.{subst}
use gsenetwork.Prelude.Map.{Map}
use gsenetwork.Core.Account.{Account}
use gsenetwork.Core.Producer.{Producer}
use gsenetwork.Core.Transaction.{Transaction, Candidate}
use gsenetwork.Core.Block.{Block}
use gsenetwork.Storage.Cache.{Entity}
use gsenetwork.Storage.Cache.Sound.{AllSound, IsKeyed}
use gsenetwork.Storage.Cache.View.{norm, view}
use gsenetwork.Storage.Database.{
  Database, account_entity, producer_entity, transaction_entity, db_account, db_producer,
  db_transaction,
}
use gsenetwork.Storage.Repository.{Repository, to_list, of_list, put_transaction}
use gsenetwork.Storage.Repository.Beneath.{
  ChainKept, ChainKept-ShownKept, ChainKept-refl, ChainKept-trans, Beneath, Beneath-IsFrame,
  Beneath-refl, store_transaction-Beneath,
}
use gsenetwork.Runtime.{excute, run, execute_action}
use gsenetwork.Runtime.Frame.{execute_action-Frame, then-Frame}
use gsenetwork.Chain.Execute.{
  Back, no_item, item, back_db, back_accounts, back_producers, back_transactions, add_memory_item,
  cancel_memory_item,
}

-- What the back of the queue shows for a key, as `operator=` copies it.
abbrev pub account_of : ℕ → Back → Account
account_of j m = norm (view (db_account (back_db m)) j (back_accounts m))

abbrev pub producer_of : ℕ → Back → Producer
producer_of j m = norm (view (db_producer (back_db m)) j (back_producers m))

abbrev pub transaction_of : ℕ → Back → Transaction
transaction_of j m = norm (view (db_transaction (back_db m)) j (back_transactions m))

-- The caches are sound and the database keyed.
pub record BackSound (m : Back) : Type 0 where
  pub accounts : AllSound (back_accounts m)
  pub producers : AllSound (back_producers m)
  pub transactions : AllSound (back_transactions m)
  pub accounts_keyed : IsKeyed (db_account (back_db m))
  pub producers_keyed : IsKeyed (db_producer (back_db m))
  pub transactions_keyed : IsKeyed (db_transaction (back_db m))

pub record SameBack (m m' : Back) : Type 0 where
  pub db : back_db m' ≡ back_db m
  pub accounts : ChainKept (db_account (back_db m)) (back_accounts m) (back_accounts m')
  pub producers : ChainKept (db_producer (back_db m)) (back_producers m) (back_producers m')
  pub transactions :
      ChainKept (db_transaction (back_db m)) (back_transactions m) (back_transactions m')

pub SameBack-refl : (m : Back) → SameBack m m
SameBack-refl m = record {
  db = refl;
  accounts = ChainKept-refl (db_account (back_db m)) _;
  producers = ChainKept-refl (db_producer (back_db m)) _;
  transactions = ChainKept-refl (db_transaction (back_db m)) _;
}

pub SameBack-trans : (m n o : Back) → SameBack m n → SameBack n o → SameBack m o
SameBack-trans m n o h k = record {
  db = k.db ∙ h.db;
  accounts =
      ChainKept-trans (db_account (back_db m)) _ _ _ h.accounts
        (subst (λ d. ChainKept (db_account d) (back_accounts n) (back_accounts o)) h.db k.accounts);
  producers = ChainKept-trans (db_producer (back_db m)) _ _ _ h.producers (
      subst (λ d. ChainKept (db_producer d) (back_producers n) (back_producers o)) h.db
        k.producers);
  transactions = ChainKept-trans (db_transaction (back_db m)) _ _ _ h.transactions (
      subst (λ d. ChainKept (db_transaction d) (back_transactions n) (back_transactions o)) h.db
        k.transactions);
}

-- A chain with a cache is one of layers.
pub layered :
    {V : Type 0} ⦃e : Entity V⦄ (db : ℕ → V) (m : Map V) (ms ns : List (Map V))
    → ChainKept db (m ∷ ms) ns
    → ChainKept db (m ∷ ms) (to_list (of_list ns))
layered db m ms [] h = absurd h
layered db m ms (n ∷ ns) h = h

-- A repository that was used over the back is thrown away.
pub cancel-SameBack :
    (b : Block) (m : Back) (s : Repository)
    → Beneath (add_memory_item b m) s
    → SameBack m (cancel_memory_item m s)
cancel-SameBack b (no_item db) s h = record {
  db = h.db;
  accounts = ChainKept-refl (db_account db) [];
  producers = ChainKept-refl (db_producer db) [];
  transactions = ChainKept-refl (db_transaction db) [];
}
cancel-SameBack b (item r) s h = record {
  db = h.db;
  accounts =
      layered (db_account r.db) r.accounts.cache r.accounts.parents s.accounts.parents h.accounts;
  producers =
      layered (db_producer r.db) r.producers.cache r.producers.parents s.producers.parents
        h.producers;
  transactions =
      layered (db_transaction r.db) r.transactions.cache r.transactions.parents
        s.transactions.parents h.transactions;
}

pub put_transaction-Beneath : (t : Transaction) (r : Repository) → Beneath r (put_transaction t r).1
unfolding put_transaction
put_transaction-Beneath t r = store_transaction-Beneath t r

-- What a chain shows over the same database under another name.
pub same_view :
    {V : Type 0} ⦃e : Entity V⦄ (at : Database → ℕ → V) {d d' : Database} (ms ns : List (Map V))
    → d' ≡ d
    → IsKeyed (at d)
    → AllSound ms
    → ChainKept (at d) ms ns
    → IsKeyed (at d') × AllSound ns × ((j : ℕ) → norm (view (at d') j ns) ≡ norm (view (at d) j ms))
same_view at {d} ms ns q keyed s k =
    let (t, same) = ChainKept-ShownKept (at d) ms ns k keyed s in
    subst
      (λ x.
        IsKeyed (at x)
        × AllSound ns
        × ((j : ℕ) → norm (view (at x) j ns) ≡ norm (view (at d) j ms)))
      (sym q) (keyed, t, same)

pub shown :
    {m m' : Back}
    → SameBack m m'
    → BackSound m
    → (j : ℕ)
    → BackSound m'
      × (account_of j m' ≡ account_of j m)
      × (producer_of j m' ≡ producer_of j m)
      × (transaction_of j m' ≡ transaction_of j m)
shown {m} {m'} k s j =
    let (ka, sa, va) =
      same_view db_account (back_accounts m) (back_accounts m') k.db s.accounts_keyed s.accounts
        k.accounts in
    let (kp, sp, vp) =
      same_view db_producer (back_producers m) (back_producers m') k.db s.producers_keyed
        s.producers k.producers in
    let (kt, st, vt) =
      same_view db_transaction (back_transactions m) (back_transactions m') k.db
        s.transactions_keyed s.transactions k.transactions in
    (
      record {
        accounts = sa;
        producers = sp;
        transactions = st;
        accounts_keyed = ka;
        producers_keyed = kp;
        transactions_keyed = kt;
      },
      va j,
      vp j,
      vt j,
    )

module _ (ballot_of : List ℕ → Option (List Candidate)) where
  pub excute-Beneath : (t : Transaction) (r : Repository) → Beneath r (excute ballot_of t r).1
  unfolding excute
  excute-Beneath t r =
      then-Frame Beneath Beneath-IsFrame (execute_action ballot_of t) (put_transaction t) r
        (execute_action-Frame Beneath Beneath-IsFrame ballot_of t r) (put_transaction-Beneath t)

  pub run-Beneath : (ts : List Transaction) (r : Repository) → Beneath r (run ballot_of ts r).1
  unfolding run
  run-Beneath [] r = Beneath-refl r
  run-Beneath (t ∷ ts) r =
      then-Frame Beneath Beneath-IsFrame (excute ballot_of t) (run ballot_of ts) r
        (excute-Beneath t r) (run-Beneath ts)
