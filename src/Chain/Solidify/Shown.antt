-- ===== src/Chain/Solidify/Shown.antt =====
-- On `onSolidifiable` of chain/BlockChain.cpp: what the queue over the database shows.
use gsenetwork.Prelude.{
  some, ℕ, ◌<◌, List, [], ◌∷◌, true, false, ◌≡◌, refl, ◌∙◌, ◌⊎◌, arith, inl, inr, Bool-cases,
  Option-cases, leb, All,
}
use gsenetwork.Core.Account.{Account}
use gsenetwork.Core.Producer.{Producer}
use gsenetwork.Core.Transaction.{Transaction}
use gsenetwork.Storage.Cache.Sound.{IsSound}
use gsenetwork.Storage.Cache.View.{view}
use gsenetwork.Storage.Cache.Commit.{view-store_all}
use gsenetwork.Storage.Database.{
  Database, account_entity, producer_entity, transaction_entity, db_account, db_producer,
  db_transaction,
}
use gsenetwork.Storage.Repository.Branch.{
  commit, front_stores, reread_account, but_code, reread_account-read,
}
use gsenetwork.Wire.Rlp.{Rlp, IsRlp}
use gsenetwork.Wire.Accounts.{write_account, read_account}
use gsenetwork.Wire.Accounts.RoundTrip.{AccountFits}
use gsenetwork.Chain.Rollback.{find_number}
use gsenetwork.Chain.Solidify.{
  MemoryItem, ChainStore, account_layers, producer_layers, transaction_layers, front_repository,
  solidify, settled,
}

-- What the chain shows for a key.
abbrev pub account_at : ℕ → List MemoryItem → Database → Account
account_at j is db = view (db_account db) j (account_layers is)

abbrev pub producer_at : ℕ → List MemoryItem → Database → Producer
producer_at j is db = view (db_producer db) j (producer_layers is)

abbrev pub transaction_at : ℕ → List MemoryItem → Database → Transaction
transaction_at j is db = view (db_transaction db) j (transaction_layers is)

abbrev pub ItemSound : MemoryItem → Type 0
ItemSound i = IsSound i.accounts × IsSound i.producers × IsSound i.transactions

-- Two stores show the same producers and transactions, and the same accounts but for their code.
abbrev pub SameShown : List MemoryItem → Database → List MemoryItem → Database → Type 0
SameShown is db js db' =
    (j : ℕ)
    → (but_code (account_at j is db) ≡ but_code (account_at j js db'))
      × (producer_at j is db ≡ producer_at j js db')
      × (transaction_at j is db ≡ transaction_at j js db')

commit_front-SameShown :
    (rlp : Rlp) (i : MemoryItem) (is : List MemoryItem) (db : Database)
    → ItemSound i
    → SameShown is (commit rlp (front_repository i db)).db (i ∷ is) db
commit_front-SameShown rlp i is db s j =
    let (a, p, t) = front_stores rlp i.accounts i.producers i.transactions i.block db in
    (
      rw a (
          view-store_all but_code (reread_account rlp) (λ v. refl) j i.accounts db.accounts
            (account_layers is) s.0),
      rw p (
          view-store_all (λ v. v) (λ v. v) (λ v. refl) j i.producers db.producers
            (producer_layers is) s.1),
      rw t (
          view-store_all (λ v. v) (λ v. v) (λ v. refl) j i.transactions db.transactions
            (transaction_layers is) s.2),
    )

solidify_shown :
    (rlp : Rlp) (number : ℕ) (is : List MemoryItem) (l : ChainStore)
    → All ItemSound is
    → let l' = (solidify rlp number is l).1 in SameShown l'.memory_queue l'.db is l.db
unfolding solidify
solidify_shown rlp number [] l s j = (refl, refl, refl)
solidify_shown rlp number (i ∷ is) l s j = elim (Bool-cases (leb i.block.number number)) [
  | inr above ↦ rw above (refl, refl, refl)
  | inl due ↦ elim (Bool-cases l.killed) [
    | inl killed ↦ rw (due, killed) (refl, refl, refl)
    | inr alive ↦ elim (Option-cases (find_number i.block.number l.rollback.index)) [
      | inl lost ↦ rw (due, alive, lost) (commit_front-SameShown rlp i is l.db s.0 j)
      | inr (b, found) ↦
          let (a, p, t) = solidify_shown rlp number is (settled rlp i is b l) s.1 j in
          let (a', p', t') = commit_front-SameShown rlp i is l.db s.0 j in
          rw (due, alive, found) (a ∙ a', p ∙ p', t ∙ t')
    ]
  ]
]

-- Where the caches of the memory queue are sound, `onSolidifiable` changes for no key the producer or the
-- transaction that the queue over the database shows, and nothing of the account but its code, also when
-- it throws. If the account's numbers are in range, the balance and the votes below 2 ^ 63, it can be
-- read back from the bytes that are stored for it, the same but for its code.
pub solidify-SameShown :
    (rlp : Rlp) (laws : IsRlp rlp) (number : ℕ) (is : List MemoryItem) (l : ChainStore) (j : ℕ)
    → All ItemSound is
    → AccountFits (account_at j is l.db)
    → let l' = (solidify rlp number is l).1 in
      let before = account_at j is l.db in
      (but_code (account_at j l'.memory_queue l'.db) ≡ but_code before)
      × (producer_at j l'.memory_queue l'.db ≡ producer_at j is l.db)
      × (transaction_at j l'.memory_queue l'.db ≡ transaction_at j is l.db)
      × ((b : Account) × (read_account rlp (write_account rlp before) ≡ some b)
          × (but_code b ≡ but_code before))
solidify-SameShown rlp laws number is l j s fits =
    let (a, p, t) = solidify_shown rlp number is l s j in
    (a, p, t, reread_account-read rlp laws (account_at j is l.db) fits)

-- The front of the queue is above the number, if there is one.
abbrev pub Waits : ℕ → List MemoryItem → Type 0
Waits number [] = Unit
Waits number (i ∷ is) = number < i.block.number

-- On a node that is not being killed, with the database marked clean: afterwards the database is marked
-- dirty exactly when `onSolidifiable` threw, and if it did not, only blocks above the number are left in
-- front of the queue.
pub solidify-Waits :
    (rlp : Rlp) (number : ℕ) (is : List MemoryItem) (l : ChainStore)
    → l.killed ≡ false
    → l.dirty ≡ false
    → let (thrown, l') = solidify rlp number is l in
      (l'.dirty ≡ thrown) × ((thrown ≡ true) ⊎ Waits number l'.memory_queue)
unfolding solidify
solidify-Waits rlp number [] l alive clean = (clean, inr tt)
solidify-Waits rlp number (i ∷ is) l alive clean = elim (Bool-cases (leb i.block.number number)) [
  | inr above ↦ rw above (clean, inr (ground arith))
  | inl due ↦ elim (Option-cases (find_number i.block.number l.rollback.index)) [
    | inl lost ↦ rw (due, alive, lost) (refl, inl refl)
    | inr (b, found) ↦
        rw (due, alive, found) (solidify-Waits rlp number is (settled rlp i is b l) alive refl)
  ]
]
