-- ===== src/Chain/Queue/Step.antt =====
-- On `doProcessBlock` of chain/BlockChain.cpp: what a block leaves beneath its item.
use mathlib.Core.Path.{subst}
use gsenetwork.Prelude.{
  ℕ, List, [], ◌∷◌, Bool, true, false, not, Option, ◌≡◌, refl, ◌∙◌, ◌⊎◌, inl, inr, Bool-cases,
}
use gsenetwork.Core.Transaction.{Transaction, Candidate, empty_transaction, transaction_eq}
use gsenetwork.Core.Block.{Block}
use gsenetwork.Storage.Database.{
  account_entity, producer_entity, transaction_entity, db_account, db_producer, db_transaction,
}
use gsenetwork.Storage.Repository.{Repository, to_list, found_transaction, after_transaction, bonus}
use gsenetwork.Storage.Repository.Frame.{bonus-Frame}
use gsenetwork.Storage.Repository.Beneath.{
  ChainKept, ChainKept-refl, ChainKept-trans, read_kept, Beneath, Beneath-trans, Beneath-IsFrame,
}
use gsenetwork.Runtime.{run}
use gsenetwork.Chain.Execute.{
  Back, no_item, item, back_db, back_accounts, back_producers, back_transactions, is_exist_in_repo,
  any_exists, add_memory_item, block_bonus, do_process_block,
}
use gsenetwork.Chain.Execute.Once.{Result-cases}
use gsenetwork.Chain.Execute.Shown.{
  SameBack, SameBack-refl, SameBack-trans, cancel-SameBack, layered, run-Beneath,
}

-- A repository over the back of the queue, beneath which the back shows what it showed.
pub record Stacked (m : Back) (s : Repository) : Type 0 where
  pub db : s.db ≡ back_db m
  pub accounts : ChainKept (db_account (back_db m)) (back_accounts m) s.accounts.parents
  pub producers : ChainKept (db_producer (back_db m)) (back_producers m) s.producers.parents
  pub transactions :
      ChainKept (db_transaction (back_db m)) (back_transactions m) s.transactions.parents

Stacked-Beneath :
    (b : Block) (m : Back) (s : Repository) → Beneath (add_memory_item b m) s → Stacked m s
Stacked-Beneath b (no_item db) s h = record {
  db = h.db;
  accounts = h.accounts;
  producers = h.producers;
  transactions = h.transactions;
}
Stacked-Beneath b (item r) s h = record {
  db = h.db;
  accounts = h.accounts;
  producers = h.producers;
  transactions = h.transactions;
}

after_transaction-SameBack :
    (h : ℕ) (r : Repository) → SameBack (item r) (item (after_transaction h r))
unfolding after_transaction
after_transaction-SameBack h r = record {
  db = refl;
  accounts = ChainKept-refl (db_account r.db) (to_list r.accounts);
  producers = ChainKept-refl (db_producer r.db) (to_list r.producers);
  transactions =
      layered (db_transaction r.db) r.transactions.cache r.transactions.parents _
        (read_kept (db_transaction r.db) h (to_list r.transactions));
}

pub any_exists-SameBack : (ts : List Transaction) (m : Back) → SameBack m (any_exists ts m).1
unfolding any_exists is_exist_in_repo
any_exists-SameBack [] m = SameBack-refl m
any_exists-SameBack (t ∷ ts) (no_item db) =
    elim (Bool-cases (not (transaction_eq (db_transaction db t.hash) empty_transaction))) [
      | inl e ↦ rw e (SameBack-refl (no_item db))
      | inr e ↦ rw e (any_exists-SameBack ts (no_item db))
    ]
any_exists-SameBack (t ∷ ts) (item r) =
    let same = after_transaction-SameBack t.hash r in
    elim (Bool-cases (not (transaction_eq (found_transaction t.hash r) empty_transaction))) [
      | inl e ↦ rw e same
      | inr e ↦
          rw e
            (SameBack-trans _ _ _ same (any_exists-SameBack ts (item (after_transaction t.hash r))))
    ]

-- A stack over a back that became another.
Stacked-SameBack : (m n : Back) (s : Repository) → SameBack m n → Stacked n s → Stacked m s
Stacked-SameBack m n s h k = record {
  db = k.db ∙ h.db;
  accounts =
      ChainKept-trans (db_account (back_db m)) (back_accounts m) (back_accounts n)
        s.accounts.parents h.accounts
        (subst (λ d. ChainKept (db_account d) (back_accounts n) s.accounts.parents) h.db
          k.accounts);
  producers =
      ChainKept-trans (db_producer (back_db m)) (back_producers m) (back_producers n)
        s.producers.parents h.producers
        (subst (λ d. ChainKept (db_producer d) (back_producers n) s.producers.parents) h.db
          k.producers);
  transactions =
      ChainKept-trans (db_transaction (back_db m)) (back_transactions m) (back_transactions n)
        s.transactions.parents h.transactions
        (subst (λ d. ChainKept (db_transaction d) (back_transactions n) s.transactions.parents) h.db
          k.transactions);
}

module _ (ballot_of : List ℕ → Option (List Candidate)) where
  -- A block is not executed, and the back shows what it showed, or it stands over such a back.
  abbrev pub Step : Back → Bool × Back → Type 0
  Step m o =
      ((o.0 ≡ false) × SameBack m o.1) ⊎ ((s : Repository) × (o ≡ (true, item s)) × Stacked m s)

  pub do_process_block-Step : (b : Block) (m : Back) → Step m (do_process_block ballot_of b m)
  unfolding do_process_block
  do_process_block-Step b m =
      let m1 = (any_exists b.transactions m).1 in
      let same = any_exists-SameBack b.transactions m in
      let s = (run ballot_of b.transactions (add_memory_item b m1)).1 in
      let ran = run-Beneath ballot_of b.transactions (add_memory_item b m1) in
      let paid = bonus b.producer (block_bonus b.timestamp) s in
      let over = Beneath-trans _ _ _ ran (bonus-Frame Beneath Beneath-IsFrame b.producer _ s) in
      elim (Bool-cases (any_exists b.transactions m).0) [
        | inl e ↦ inl (rw (do_process_block, e) refl, rw (do_process_block, e) same)
        | inr e ↦ elim (Result-cases (run ballot_of b.transactions (add_memory_item b m1)).0) [
          | inr (x, f) ↦ inl (
            rw (do_process_block, e, f) refl,
            rw (do_process_block, e, f) (SameBack-trans _ _ _ same (cancel-SameBack b m1 s ran)),
          )
          | inl f ↦ elim (Result-cases paid.0) [
            | inr (x, g) ↦ inl (
              rw (do_process_block, e, f, g) refl,
              rw (do_process_block, e, f, g)
                  (SameBack-trans _ _ _ same (cancel-SameBack b m1 paid.1 over)),
            )
            | inl g ↦ inr (
              paid.1,
              rw (do_process_block, e, f, g) refl,
              Stacked-SameBack m m1 paid.1 same (Stacked-Beneath b m1 paid.1 over),
            )
          ]
        ]
      ]
