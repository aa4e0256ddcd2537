-- ===== src/Storage/Repository/Branch.antt =====
-- runtime/storage/Repository.cpp: a repository over its parent, its commit, and the list of producers.
use gsenetwork.Prelude.{ℕ, ◌+◌, List, [], ◌∷◌, ◌≡◌, refl, ◌∙◌, arith, none, some}
use gsenetwork.Prelude.Map.{Map, lookup, insert, Above, lookup-insert, lookup_below}
use gsenetwork.Core.Account.{Account}
use gsenetwork.Core.Producer.{Producer}
use gsenetwork.Core.Transaction.{Transaction}
use gsenetwork.Core.Block.{Block}
use gsenetwork.Storage.Cache.{Entity, fetch, put_all, store_all}
use gsenetwork.Storage.Cache.Sound.{AllSound}
use gsenetwork.Storage.Cache.View.{norm, view}
use gsenetwork.Storage.Cache.Commit.{view-put_all, view-store_all}
use gsenetwork.Storage.Database.{
  Database, account_entity, producer_entity, transaction_entity, db_account, db_producer,
  db_transaction, db_put_block,
}
use mathlib.Core.Path.{subst}
use gsenetwork.Wire.Rlp.{Rlp, IsRlp}
use gsenetwork.Wire.Accounts.{write_account, read_account}
use gsenetwork.Wire.Accounts.RoundTrip.{AccountFits, read_account-write_account}
use gsenetwork.Storage.Repository.{Layers, to_list, Repository}
use gsenetwork.Storage.Repository.Ledger.{Shows}
use gsenetwork.Storage.Repository.Roster.{Lists}
use gsenetwork.Storage.Repository.Record.{IsOrderly}

-- COMMIT_REPO for one kind of object: into the parent's cache, or into the store without a parent.
-- `reread` is what a read makes of the bytes of a stored object.
pub commit_layer : {V : Type 0} ⦃e : Entity V⦄ → (V → V) → Layers V → Map V → Layers V × Map V
commit_layer reread l store = elim l.parents [
  | [] ↦ (l, store_all reread l.cache store)
  | p ∷ ps ↦ (record l { parents = put_all l.cache p ∷ ps }, store)
]

-- An account whose bytes were stored and are read, the balance and the votes being below 2 ^ 63: the
-- constructor takes the code with its RLP header.
abbrev pub reread_account : Rlp → Account → Account
reread_account r a = record a { code = r.put_bytes a.code }

-- The bytes of producers and transactions are read as what was stored.
pub commit : Rlp → Repository → Repository
unfolding commit_layer
commit rlp r =
    let (accounts, stored_accounts) = commit_layer (reread_account rlp) r.accounts r.db.accounts in
    let (producers, stored_producers) = commit_layer (λ v. v) r.producers r.db.producers in
    let (transactions, stored_transactions) =
      commit_layer (λ v. v) r.transactions r.db.transactions in
    let db = record r.db {
      accounts = stored_accounts;
      producers = stored_producers;
      transactions = stored_transactions;
    } in
    record r {
      accounts = accounts;
      producers = producers;
      transactions = transactions;
      db = elim r.accounts.parents [ [] ↦ db_put_block r.block db | _ ∷ _ ↦ db ];
    }

-- `getProducerList`: the database's list, then each cache over it, the oldest first.
abbrev pub overlay : Map Producer → Map Producer → Map Producer
overlay [] m = m
overlay ((a, p) ∷ c) m = overlay c (insert a p m)

unfoldable pub producer_list_from : Map Producer → List (Map Producer) → Map Producer
producer_list_from store [] = store
producer_list_from store (m ∷ ms) = overlay m (producer_list_from store ms)

unfoldable pub get_producer_list : Repository → Map Producer
unfolding producer_list_from
get_producer_list r = producer_list_from r.db.producers (to_list r.producers)

-- A new repository over another, for the next block.
abbrev pub child : Block → Repository → Repository
child b r = record {
  accounts = record { cache = []; parents = to_list r.accounts };
  producers = record { cache = []; parents = to_list r.producers };
  transactions = record { cache = []; parents = to_list r.transactions };
  block = b;
  db = r.db;
}

-- What is seen of an account that was stored: all but the code.
abbrev pub but_code : Account → Account
but_code a = record a { code = [] }

-- An account that was stored can be read, and is as it was but for its code.
pub reread_account-read :
    (r : Rlp) (laws : IsRlp r) (a : Account)
    → AccountFits a
    → (b : Account) × (read_account r (write_account r a) ≡ some b) × (but_code b ≡ but_code a)
reread_account-read r laws a h = (reread_account r a, read_account-write_account r laws a h, refl)

module _ {V : Type 0} ⦃e : Entity V⦄ where
  commit_layer-stored :
      {W : Type 0} (seen : V → W) (reread : V → V) (agrees : (v : V) → seen (reread v) ≡ seen v)
      → (j : ℕ) (c : Map V) (store : Map V) → AllSound (c ∷ [])
      → seen (fetch (commit_layer reread (record { cache = c; parents = [] }) store).1 j)
        ≡ seen (view (fetch store) j (c ∷ []))
  unfolding commit_layer
  commit_layer-stored seen reread agrees j c store s =
      view-store_all seen reread agrees j c store [] s.0

  commit_layer-passed :
      (reread : V → V) (j : ℕ) (c p : Map V) (ps : List (Map V)) (store : Map V)
      → AllSound (c ∷ p ∷ ps)
      → let (l, store') = commit_layer reread (record { cache = c; parents = p ∷ ps }) store in
        norm (view (fetch store') j l.parents) ≡ norm (view (fetch store) j (c ∷ p ∷ ps))
  unfolding commit_layer
  commit_layer-passed reread j c p ps store s = view-put_all (fetch store) j c p ps s.0

  -- For objects that are read as they were stored.
  commit_layer-view :
      (j : ℕ) (c : Map V) (ms : List (Map V)) (store : Map V)
      → AllSound (c ∷ ms)
      → let (l, store') = commit_layer (λ v. v) (record { cache = c; parents = ms }) store in
        norm (view (fetch store') j l.parents) ≡ norm (view (fetch store) j (c ∷ ms))
  unfolding commit_layer
  commit_layer-view j c [] store s = commit_layer-stored norm (λ v. v) (λ v. refl) j c store s
  commit_layer-view j c (p ∷ ps) store s = commit_layer-passed (λ v. v) j c p ps store s

-- Storing the block changes no other store.
same_stores :
    (ps : List (Map Account)) (b : Block) (db : Database)
    → let db' = elim ps as (λ _. Database) [ [] ↦ db_put_block b db | _ ∷ _ ↦ db ] in
      (db'.accounts ≡ db.accounts)
      × (db'.producers ≡ db.producers)
      × (db'.transactions ≡ db.transactions)
same_stores [] b db = (refl, refl, refl)
same_stores (p ∷ ps) b db = (refl, refl, refl)

commit-stores :
    (rlp : Rlp) (r : Repository)
    → let s = commit rlp r in
      (s.db.accounts ≡ (commit_layer (reread_account rlp) r.accounts r.db.accounts).1)
      × (s.db.producers ≡ (commit_layer (λ v. v) r.producers r.db.producers).1)
      × (s.db.transactions ≡ (commit_layer (λ v. v) r.transactions r.db.transactions).1)
unfolding commit
commit-stores rlp r = same_stores r.accounts.parents r.block _

commit-layers :
    (rlp : Rlp) (r : Repository)
    → let s = commit rlp r in
      (s.accounts ≡ (commit_layer (reread_account rlp) r.accounts r.db.accounts).0)
      × (s.producers ≡ (commit_layer (λ v. v) r.producers r.db.producers).0)
      × (s.transactions ≡ (commit_layer (λ v. v) r.transactions r.db.transactions).0)
unfolding commit
commit-layers rlp r = (refl, refl, refl)

-- Two accounts are the same under a parent, and the same but for their code where the bytes go into the
-- database.
abbrev pub Committed : List (Map Account) → Account → Account → Type 0
Committed [] a b = but_code a ≡ but_code b
Committed (m ∷ ms) a b = a ≡ b

committed :
    (rlp : Rlp) (j : ℕ) (c : Map Account) (ms : List (Map Account)) (store : Map Account)
    → AllSound (c ∷ ms)
    → let (l, store') =
        commit_layer (reread_account rlp) (record { cache = c; parents = ms }) store in
      Committed ms (norm (view (fetch store') j l.parents)) (norm (view (fetch store) j (c ∷ ms)))
unfolding commit_layer
committed rlp j c [] store s =
    commit_layer-stored (λ a. but_code (norm a)) (reread_account rlp) (λ a. refl) j c store s
committed rlp j c (p ∷ ps) store s = commit_layer-passed (reread_account rlp) j c p ps store s

-- For a repository whose caches are sound and show a book and a roster: after a commit, what lies
-- beneath the repository's own caches shows for every key the producer and the transaction that the
-- repository itself showed before, whether that is a parent or, without one, the database. A parent
-- shows the account too; the database shows it with another code. An account whose numbers are in range,
-- the balance and the votes below 2 ^ 63, can be read back from its bytes, and is the same but for its
-- code.
pub commit-shown :
    (rlp : Rlp) (laws : IsRlp rlp) (r : Repository) (f : ℕ → Account) (g : ℕ → Producer) (j : ℕ)
    → Shows r f
    → Lists r g
    → IsOrderly r
    → AccountFits (f j)
    → let s = commit rlp r in
      Committed r.accounts.parents (norm (view (db_account s.db) j s.accounts.parents)) (f j)
      × (view (db_producer s.db) j s.producers.parents ≡ g j)
      × (view (db_transaction s.db) j s.transactions.parents
          ≡ view (db_transaction r.db) j (to_list r.transactions))
      × ((b : Account) × (read_account rlp (write_account rlp (f j)) ≡ some b)
          × (but_code b ≡ but_code (f j)))
commit-shown rlp laws r f g j s l o fits =
    let (sa, sp, st) = commit-stores rlp r in
    let (la, lp, lt) = commit-layers rlp r in
    (
      rw (sa, la)
          (subst
            (Committed r.accounts.parents (
              norm (
                view (fetch (commit_layer (reread_account rlp) r.accounts r.db.accounts).1) j
                  (commit_layer (reread_account rlp) r.accounts r.db.accounts).0.parents)))
            (s.shows j)
            (committed rlp j r.accounts.cache r.accounts.parents r.db.accounts s.sound)),
      rw (sp, lp)
          (commit_layer-view j r.producers.cache r.producers.parents r.db.producers l.sound
            ∙ l.lists j),
      rw (st, lt)
          (commit_layer-view j r.transactions.cache r.transactions.parents r.db.transactions
            o.sound),
      reread_account-read rlp laws (f j) fits,
    )

overlay-lookup :
    (j b : ℕ) (c m : Map Producer)
    → Above b c
    → lookup j (overlay c m) ≡ elim (lookup j c) [ none ↦ lookup j m | some v ↦ some v ]
overlay-lookup j b [] m s = refl
overlay-lookup j b ((k, v) ∷ c) m s =
    overlay-lookup j (k + 1) c (insert k v m) s.1
    ∙ ground (arith, lookup-insert k v j m, lookup_below (k + 1) j c)

producer_list_from-view :
    (j : ℕ) (store : Map Producer) (ms : List (Map Producer))
    → AllSound ms
    → fetch (producer_list_from store ms) j ≡ view (fetch store) j ms
unfolding producer_list_from
producer_list_from-view j store [] s = refl
producer_list_from-view j store (m ∷ ms) s = ground (
  arith,
  overlay-lookup j 0 m (producer_list_from store ms) s.0.0,
  producer_list_from-view j store ms s.1,
)

-- Where the sound caches show a roster, looking an address up in the list that `getProducerList` builds
-- gives the roster's producer, for every address.
pub get_producer_list_lem :
    (r : Repository) (g : ℕ → Producer) (j : ℕ) → Lists r g → fetch (get_producer_list r) j ≡ g j
unfolding get_producer_list
get_producer_list_lem r g j l =
    producer_list_from-view j r.db.producers (to_list r.producers) l.sound ∙ l.lists j

-- The commit of a repository without a parent stores each entry of its caches.
pub front_stores :
    (rlp : Rlp) (a : Map Account) (p : Map Producer) (t : Map Transaction) (b : Block)
    (db : Database)
    → let db' =
        (commit rlp (record {
          accounts = record { cache = a; parents = [] };
          producers = record { cache = p; parents = [] };
          transactions = record { cache = t; parents = [] };
          block = b;
          db = db;
        })).db in
      (db'.accounts ≡ store_all (reread_account rlp) a db.accounts)
      × (db'.producers ≡ store_all (λ v. v) p db.producers)
      × (db'.transactions ≡ store_all (λ v. v) t db.transactions)
unfolding commit commit_layer
front_stores rlp a p t b db = (refl, refl, refl)
