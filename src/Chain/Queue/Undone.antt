-- ===== src/Chain/Queue/Undone.antt =====
-- On `doProcessBlock` and `cancelMemoryItem` of chain/BlockChain.cpp: blocks that are taken back.
use mathlib.Core.Path.{subst}
use gsenetwork.Prelude.{
  ℕ, List, [], ◌∷◌, Bool, Option, ◌≡◌, refl, sym, ap, ◌∙◌, inl, inr, if◌then◌else◌, Bool-cases,
}
use gsenetwork.Prelude.Map.{Map}
use gsenetwork.Core.Account.{Account}
use gsenetwork.Core.Producer.{Producer}
use gsenetwork.Core.Transaction.{Transaction, Candidate}
use gsenetwork.Core.Block.{Block}
use gsenetwork.Storage.Database.{
  account_entity, producer_entity, transaction_entity, db_account, db_producer, db_transaction,
}
use gsenetwork.Storage.Database.{Database}
use gsenetwork.Storage.Repository.{Repository}
use gsenetwork.Storage.Repository.Beneath.{ChainKept, ChainKept-refl, ChainKept-trans}
use gsenetwork.Chain.Solidify.{MemoryItem}
use gsenetwork.Chain.Execute.{
  Back, back_db, back_accounts, back_producers, back_transactions, do_process_block,
}
use gsenetwork.Chain.Execute.Shown.{
  account_of, producer_of, transaction_of, BackSound, SameBack, shown,
}
use gsenetwork.Chain.Queue.{
  Queue, account_caches, producer_caches, transaction_caches, back_of, refill, pop_back, cancel,
  cancel_all, process, process_all,
}
use gsenetwork.Chain.Queue.Step.{Stacked, do_process_block-Step}

abbrev pub blocks_of : List MemoryItem → List Block
blocks_of [] = []
blocks_of (i ∷ is) = i.block ∷ blocks_of is

-- The chains of some caches became others that show the same.
pub record Kept (db : Database) (is : List MemoryItem) (a : List (Map Account))
    (p : List (Map Producer)) (t : List (Map Transaction)) : Type 0 where
  pub accounts : ChainKept (db_account db) (account_caches is) a
  pub producers : ChainKept (db_producer db) (producer_caches is) p
  pub transactions : ChainKept (db_transaction db) (transaction_caches is) t

-- A queue with the same blocks, that shows the same.
record SameQueue (q q' : Queue) : Type 0 where
  db : q'.db ≡ q.db
  blocks : blocks_of q'.items ≡ blocks_of q.items
  kept :
      Kept q.db q.items
        (account_caches q'.items)
        (producer_caches q'.items)
        (transaction_caches q'.items)

SameQueue-refl : (q : Queue) → SameQueue q q
SameQueue-refl q = record {
  db = refl;
  blocks = refl;
  kept = record {
    accounts = ChainKept-refl (db_account q.db) (account_caches q.items);
    producers = ChainKept-refl (db_producer q.db) (producer_caches q.items);
    transactions = ChainKept-refl (db_transaction q.db) (transaction_caches q.items);
  };
}

SameQueue-trans : (q r s : Queue) → SameQueue q r → SameQueue r s → SameQueue q s
SameQueue-trans q r s h k =
    let again : Kept q.db r.items (account_caches s.items) (producer_caches s.items)
        (transaction_caches s.items) =
      subst
        (λ d.
          Kept d r.items (account_caches s.items) (producer_caches s.items)
            (transaction_caches s.items))
        h.db k.kept in
    record {
      db = k.db ∙ h.db;
      blocks = k.blocks ∙ h.blocks;
      kept = record {
        accounts =
            ChainKept-trans (db_account q.db) (account_caches q.items) (account_caches r.items)
              (account_caches s.items) h.kept.accounts again.accounts;
        producers =
            ChainKept-trans (db_producer q.db) (producer_caches q.items) (producer_caches r.items)
              (producer_caches s.items) h.kept.producers again.producers;
        transactions =
            ChainKept-trans (db_transaction q.db) (transaction_caches q.items)
              (transaction_caches r.items) (transaction_caches s.items) h.kept.transactions
              again.transactions;
      };
    }

-- The caches that are left in the items, and their blocks.
pub refilled :
    (db : Database) (is : List MemoryItem) (a : List (Map Account)) (p : List (Map Producer))
    (t : List (Map Transaction))
    → Kept db is a p t
    → let js = refill is a p t in
      (account_caches js ≡ a)
      × (producer_caches js ≡ p)
      × (transaction_caches js ≡ t)
      × (blocks_of js ≡ blocks_of is)
refilled db [] [] [] [] k = (refl, refl, refl, refl)
refilled db [] (a ∷ as') p t k = absurd k.accounts
refilled db [] [] (p ∷ ps) t k = absurd k.producers
refilled db [] [] [] (t ∷ ts) k = absurd k.transactions
refilled db (i ∷ is) [] p t k = absurd k.accounts
refilled db (i ∷ is) (a ∷ as') [] t k = absurd k.producers
refilled db (i ∷ is) (a ∷ as') (p ∷ ps) [] k = absurd k.transactions
refilled db (i ∷ is) (a ∷ as') (p ∷ ps) (t ∷ ts) k =
    let (ea, ep, et, eb) = refilled db is as' ps ts (record {
      accounts = k.accounts.1;
      producers = k.producers.1;
      transactions = k.transactions.1;
    }) in
    (ap (λ r. a ∷ r) ea, ap (λ r. p ∷ r) ep, ap (λ r. t ∷ r) et, ap (λ r. i.block ∷ r) eb)

-- A queue whose caches became others.
refilled-SameQueue :
    (q : Queue) (db : Database) (a : List (Map Account)) (p : List (Map Producer))
    (t : List (Map Transaction))
    → db ≡ q.db
    → Kept q.db q.items a p t
    → SameQueue q (record { items = refill q.items a p t; db = db })
refilled-SameQueue q db a p t e k =
    let (ea, ep, et, eb) = refilled q.db q.items a p t k in
    record {
      db = e;
      blocks = eb;
      kept = record {
        accounts = subst (ChainKept (db_account q.db) (account_caches q.items)) (sym ea) k.accounts;
        producers =
            subst (ChainKept (db_producer q.db) (producer_caches q.items)) (sym ep) k.producers;
        transactions =
            subst (ChainKept (db_transaction q.db) (transaction_caches q.items)) (sym et)
              k.transactions;
      };
    }

-- Behind the newest item.
popped :
    (db : Database) (is js : List MemoryItem)
    → blocks_of js ≡ blocks_of is
    → Kept db is (account_caches js) (producer_caches js) (transaction_caches js)
    → let ks = pop_back js in
      (blocks_of ks ≡ blocks_of (pop_back is))
      × Kept db (pop_back is) (account_caches ks) (producer_caches ks) (transaction_caches ks)
popped db [] [] e k = (refl, k)
popped db [] (j ∷ js) e k = absurd k.accounts
popped db (i ∷ is) [] e k = absurd k.accounts
popped db (i ∷ is) (j ∷ js) e k = (
  cc e,
  record { accounts = k.accounts.1; producers = k.producers.1; transactions = k.transactions.1 },
)

cancel-SameQueue : (q q' : Queue) → SameQueue q q' → SameQueue (cancel q) (cancel q')
unfolding cancel
cancel-SameQueue q q' h =
    let (e, k) = popped q.db q.items q'.items h.blocks h.kept in
    record { db = h.db; blocks = e; kept = k }

-- The back of the same queue.
same_back :
    (is js : List MemoryItem) (d d' : Database)
    → d' ≡ d
    → Kept d is (account_caches js) (producer_caches js) (transaction_caches js)
    → SameBack (back_of is d) (back_of js d')
same_back [] [] d d' e k = record {
  db = e;
  accounts = k.accounts;
  producers = k.producers;
  transactions = k.transactions;
}
same_back [] (j ∷ js) d d' e k = absurd k.accounts
same_back (i ∷ is) [] d d' e k = absurd k.accounts
same_back (i ∷ is) (j ∷ js) d d' e k = record {
  db = e;
  accounts = k.accounts;
  producers = k.producers;
  transactions = k.transactions;
}

-- What the chains at the back of a queue became.
pub under_back :
    (is : List MemoryItem) (d : Database) (m : Back)
    → SameBack (back_of is d) m
    → (back_db m ≡ d) × Kept d is (back_accounts m) (back_producers m) (back_transactions m)
under_back [] d m h =
    (h.db, record { accounts = h.accounts; producers = h.producers; transactions = h.transactions })
under_back (i ∷ is) d m h =
    (h.db, record { accounts = h.accounts; producers = h.producers; transactions = h.transactions })

pub under_stack :
    (is : List MemoryItem) (d : Database) (s : Repository)
    → Stacked (back_of is d) s
    → (s.db ≡ d) × Kept d is s.accounts.parents s.producers.parents s.transactions.parents
under_stack [] d s h =
    (h.db, record { accounts = h.accounts; producers = h.producers; transactions = h.transactions })
under_stack (i ∷ is) d s h =
    (h.db, record { accounts = h.accounts; producers = h.producers; transactions = h.transactions })

module _ (ballot_of : List ℕ → Option (List Candidate)) where
  -- A block that was executed is taken back by one item, another one by none.
  abbrev undone : Bool × Queue → Queue
  undone o = if o.0 then cancel o.1 else o.1

  process-SameQueue : (b : Block) (q : Queue) → SameQueue q (undone (process ballot_of b q))
  unfolding process cancel
  process-SameQueue b q =
      let m = back_of q.items q.db in
      elim (do_process_block-Step ballot_of b m) [
        | inl (e, h) ↦
            let (d, k) = under_back q.items q.db (do_process_block ballot_of b m).1 h in
            rw (e, process) (refilled-SameQueue q _ _ _ _ d k)
        | inr (s, e, h) ↦
            let (d, k) = under_stack q.items q.db s h in
            rw (e, process) (refilled-SameQueue q _ _ _ _ d k)
      ]

  process_all-SameQueue :
      (bs : List Block) (q : Queue)
      → let (count, q') = process_all ballot_of bs q in SameQueue q (cancel_all count q')
  unfolding process_all cancel_all
  process_all-SameQueue [] q = SameQueue-refl q
  process_all-SameQueue (b ∷ bs) q =
      let q1 = (process ballot_of b q).1 in
      let later = process_all-SameQueue bs q1 in
      let now = process-SameQueue b q in
      elim (Bool-cases (process ballot_of b q).0) [
        | inl e ↦
            let back : SameQueue q (cancel q1) =
              subst (λ x. SameQueue q (if x then cancel q1 else q1)) e now in
            rw e (SameQueue-trans q (cancel q1) _ back (cancel-SameQueue q1 _ later))
        | inr e ↦
            let back : SameQueue q q1 =
              subst (λ x. SameQueue q (if x then cancel q1 else q1)) e now in
            rw e (SameQueue-trans q q1 _ back later)
      ]

  -- Whatever blocks are processed on a memory queue with sound caches over a keyed database, in any order
  -- and whether or not they are executed, taking back as many items as blocks were executed gives a queue
  -- of the same blocks whose caches are sound and which shows for every key the account, the producer and
  -- the transaction that it showed before.
  pub process_all-undone :
      (bs : List Block) (q : Queue) (j : ℕ)
      → BackSound (back_of q.items q.db)
      → let (count, q') = process_all ballot_of bs q in
        let u = cancel_all count q' in
        let before = back_of q.items q.db in
        let after = back_of u.items u.db in
        (blocks_of u.items ≡ blocks_of q.items)
        × BackSound after
        × (account_of j after ≡ account_of j before)
        × (producer_of j after ≡ producer_of j before)
        × (transaction_of j after ≡ transaction_of j before)
  process_all-undone bs q j sound =
      let h = process_all-SameQueue bs q in
      let u = cancel_all (process_all ballot_of bs q).0 (process_all ballot_of bs q).1 in
      let (s, a, p, t) = shown (same_back q.items u.items q.db u.db h.db h.kept) sound j in
      (h.blocks, s, a, p, t)
