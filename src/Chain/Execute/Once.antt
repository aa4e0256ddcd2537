-- ===== src/Chain/Execute/Once.antt =====
-- On `doProcessBlock` of chain/BlockChain.cpp: the transactions of blocks that were executed.
use gsenetwork.Prelude.{
  ℕ, List, [], ◌∷◌, true, false, not, ◌≡◌, ◌⊎◌, inl, inr, refl, sym, ap, ◌∙◌, Bool-cases, Option,
  All,
}
use mathlib.Core.Path.{subst}
use gsenetwork.Prelude.Action.{Error, Result, ok, err}
use gsenetwork.Core.Transaction.{Transaction, Candidate, empty_transaction, transaction_eq}
use gsenetwork.Core.Block.{Block}
use gsenetwork.Storage.Database.{transaction_entity, db_transaction}
use gsenetwork.Storage.Cache.Sound.{IsKeyed}
use gsenetwork.Storage.Repository.{Repository, found_transaction, after_transaction, bonus}
use gsenetwork.Storage.Repository.Frame.{Keeps, Keeps-IsFrame, bonus-Frame}
use gsenetwork.Storage.Repository.Record.{
  is_none, Known, IsOrderly, found_transaction-Known, after_transaction-IsOrderly, Keeps-Known,
  Keeps-IsOrderly,
}
use gsenetwork.Runtime.{run}
use gsenetwork.Runtime.Replay.{run-Records}
use gsenetwork.Chain.Execute.{
  Back, no_item, item, is_exist_in_repo, any_exists, add_memory_item, do_process_block, block_bonus,
}

-- The caches of transactions are sound and the database is keyed.
abbrev pub BackOrderly : Back → Type 0
BackOrderly (no_item db) = IsKeyed (db_transaction db)
BackOrderly (item r) = IsOrderly r

-- Some transaction of the list has the hash.
abbrev pub HasHash : ℕ → List Transaction → Type 0
HasHash h [] = ⊥
HasHash h (t ∷ ts) = (t.hash ≡ h) ⊎ HasHash h ts

any_exists-orderly :
    (ts : List Transaction) (m : Back) → BackOrderly m → BackOrderly (any_exists ts m).1
unfolding any_exists is_exist_in_repo
any_exists-orderly [] m o = o
any_exists-orderly (t ∷ ts) (no_item db) o =
    elim (Bool-cases (not (transaction_eq (db_transaction db t.hash) empty_transaction))) [
      | inl e ↦ rw e o
      | inr e ↦ rw e (any_exists-orderly ts (no_item db) o)
    ]
any_exists-orderly (t ∷ ts) (item r) o =
    let (o', _) = after_transaction-IsOrderly t.hash r o in
    elim (Bool-cases (not (transaction_eq (found_transaction t.hash r) empty_transaction))) [
      | inl e ↦ rw e o'
      | inr e ↦ rw e (any_exists-orderly ts (item (after_transaction t.hash r)) o')
    ]

-- A known transaction is found in any list that has it.
any_exists-found :
    (h : ℕ) (ts : List Transaction) (r : Repository)
    → IsOrderly r
    → Known h r
    → HasHash h ts
    → (any_exists ts (item r)).0 ≡ true
unfolding any_exists is_exist_in_repo
any_exists-found h [] r o k has = absurd has
any_exists-found h (t ∷ ts) r o k has =
    let (o', keep) = after_transaction-IsOrderly t.hash r o in
    elim (Bool-cases (is_none (found_transaction t.hash r))) [
      | inr found ↦ rw found refl
      | inl lost ↦ elim has [
        | inl same ↦ absurd (
            cc
              (sym lost ∙ found_transaction-Known t.hash r o (subst (λ i. Known i r) (sym same) k)))
        | inr later ↦
            rw lost (any_exists-found h ts (after_transaction t.hash r) o' (keep h k) later)
      ]
    ]

pub add_memory_item-IsOrderly :
    (b : Block) (m : Back) → BackOrderly m → IsOrderly (add_memory_item b m)
add_memory_item-IsOrderly b (no_item db) o = record { sound = ((tt, tt), tt); keyed = o }
add_memory_item-IsOrderly b (item r) o = record { sound = ((tt, tt), o.sound); keyed = o.keyed }

All-HasHash :
    (h : ℕ) (ts : List Transaction) (s : Repository)
    → All (λ t. Known t.hash s) ts
    → HasHash h ts
    → Known h s
All-HasHash h [] s a has = absurd has
All-HasHash h (t ∷ ts) s a has = elim has [
  | inl same ↦ subst (λ i. Known i s) same a.0
  | inr later ↦ All-HasHash h ts s a.1 later
]

pub Result-cases : (r : Result (Unit {0})) → (r ≡ ok tt) ⊎ ((e : Error) × (r ≡ err e))
Result-cases (ok u) = inl refl
Result-cases (err e) = inr (e, refl)

module _ (ballot_of : List ℕ → Option (List Candidate)) where
  -- What an executed block leaves at the back of the queue.
  pub executed :
      (b : Block) (m : Back)
      → BackOrderly m
      → All (λ t. is_none t ≡ false) b.transactions
      → (do_process_block ballot_of b m).0 ≡ true
      → (s : Repository) × ((do_process_block ballot_of b m).1 ≡ item s)
        × IsOrderly s
        × ((h : ℕ) → HasHash h b.transactions → Known h s)
  unfolding do_process_block
  executed b m o full done =
      let m1 = (any_exists b.transactions m).1 in
      let r = add_memory_item b m1 in
      let s = (run ballot_of b.transactions r).1 in
      let paid = bonus b.producer (block_bonus b.timestamp) s in
      let orderly = add_memory_item-IsOrderly b m1 (any_exists-orderly b.transactions m o) in
      elim (Bool-cases (any_exists b.transactions m).0) [
        | inl e ↦ absurd (cc (rw e at done))
        | inr e ↦ elim (Result-cases (run ballot_of b.transactions r).0) [
          | inr (x, f) ↦ absurd (cc (rw (e, f) at done))
          | inl f ↦ elim (Result-cases paid.0) [
            | inr (x, g) ↦ absurd (cc (rw (e, f, g) at done))
            | inl g ↦
                let records = run-Records ballot_of b.transactions r full orderly f in
                let keeps =
                  bonus-Frame Keeps Keeps-IsFrame b.producer (block_bonus b.timestamp) s in
                (
                  paid.1,
                  rw (e, f, g) refl,
                  Keeps-IsOrderly keeps records.orderly,
                  λ h has.
                      Keeps-Known h keeps (All-HasHash h b.transactions s records.recorded has),
                )
          ]
        ]
      ]

  -- Once a block was executed, over sound caches of transactions and with no empty transaction in it, a
  -- block that has a transaction with the hash of one of its transactions is refused next.
  pub do_process_block_once :
      (b c : Block) (m : Back) (h : ℕ)
      → BackOrderly m
      → All (λ t. is_none t ≡ false) b.transactions
      → (do_process_block ballot_of b m).0 ≡ true
      → HasHash h b.transactions
      → HasHash h c.transactions
      → (do_process_block ballot_of c (do_process_block ballot_of b m).1).0 ≡ false
  unfolding do_process_block
  do_process_block_once b c m h o full done has again =
      let (s, same, orderly, known) = executed b m o full done in
      let found = any_exists-found h c.transactions s orderly (known h has) again in
      ap (λ x. (do_process_block ballot_of c x).0) same ∙ rw found refl
