-- ===== src/Chain/Messages/Refused.antt =====
-- On the handlers of messages in chain/BlockChain.cpp: the transactions that they refuse.
use gsenetwork.Prelude.{
  ℕ, List, [], ◌∷◌, ◌++◌, Bool, true, false, not, Option, none, some, ◌≡◌, refl, ap, ◌∙◌, inl, inr,
  Bool-cases, ◌==◌, if◌then◌else◌, All, arith, leb, length,
}
use gsenetwork.Core.Transaction.{Transaction, Candidate, empty_transaction, transaction_eq}
use gsenetwork.Core.Block.{Block, empty_block}
use gsenetwork.Core.Queue.{is_exist, push, pop_front}
use gsenetwork.Storage.Repository.{Repository, found_transaction}
use gsenetwork.Storage.Repository.Record.{is_none, Known, IsOrderly, found_transaction-Known}
use gsenetwork.Chain.Caches.{insert_tx}
use gsenetwork.Chain.Execute.{Back, item, do_process_block}
use gsenetwork.Chain.Execute.Once.{BackOrderly, HasHash, executed, add_memory_item-IsOrderly}
use gsenetwork.Prelude.Action.{ok}
use gsenetwork.Chain.Messages.{
  caught, Inbox, Refusal, wrong_chain, bad_signature, has_exist, rpc_tx, tx, scratch, has_tx,
  is_exist_tx, pre_process_tx, add_rpc_tx, process_tx_message, receive,
}

is_exist-last : (h : ℕ) (q : List ℕ) → is_exist h (q ++ h ∷ []) ≡ true
is_exist-last h [] = ground arith
is_exist-last h (x ∷ q) = ground (arith, is_exist-last h q)

is_exist-push : (n h : ℕ) (q : List ℕ) → is_exist h (push n h q) ≡ true
unfolding push
is_exist-push n h q = is_exist-last h (if leb n (length q) then pop_front q else q)

abbrev seen_tx : Transaction → Inbox → Inbox
seen_tx t n = record n { history_txs = push 4096 t.hash n.history_txs }

module _ (ballot_of : List ℕ → Option (List Candidate)) (valid_tx : Transaction → Bool)
    (valid_block : Block → Bool) where
  is_exist_tx-history :
      (t : Transaction) (n : Inbox) → (is_exist_tx t n).1.history_txs ≡ n.history_txs
  unfolding is_exist_tx
  is_exist_tx-history t n = elim (Bool-cases (has_tx t.hash n.tx_cache)) [
    | inl e ↦ rw e refl
    | inr e ↦ rw e refl
  ]

  pre_process_tx-history :
      (t : Transaction) (n : Inbox)
      → (pre_process_tx ballot_of valid_tx valid_block t n).1.history_txs ≡ n.history_txs
  unfolding pre_process_tx
  pre_process_tx-history t n = elim (Bool-cases (not (t.chain_id == n.chain_id))) [
    | inl e ↦ rw e refl
    | inr e ↦ rw e (elim (Bool-cases (not (valid_tx t))) [
      | inl f ↦ rw f refl
      | inr f ↦ rw f (elim (Bool-cases (is_exist_tx t n).0) [
        | inl g ↦ rw g (is_exist_tx-history t n)
        | inr g ↦ rw g (is_exist_tx-history t n)
      ])
    ])
  ]

  -- An answer puts the transaction into the cache at most.
  answered :
      {A : Type 0} (a : Refusal → A) (b : A) (h : List ℕ) (o : Option Refusal × Inbox)
      (t : Transaction)
      → o.1.history_txs ≡ h
      → (elim o.0 as (λ _. A × Inbox) [
        | some x ↦ (a x, o.1)
        | none ↦ (b, record o.1 { tx_cache = insert_tx t o.1.tx_cache })
      ]).1.history_txs
        ≡ h
  answered a b h (some x, n) t same = same
  answered a b h (none, n) t same = same

  -- What comes in from either side has been seen.
  tx-seen :
      (t : Transaction) (n : Inbox)
      → is_exist t.hash (receive ballot_of valid_tx valid_block (tx t) n).history_txs ≡ true
  unfolding process_tx_message
  tx-seen t n = elim (Bool-cases (is_exist t.hash n.history_txs)) [
    | inl e ↦ rw (e, receive) e
    | inr e ↦
        rw (e, receive)
          (ap (is_exist t.hash) (
              answered (caught none) (ok (some t)) (push 4096 t.hash n.history_txs)
                (pre_process_tx ballot_of valid_tx valid_block t (seen_tx t n)) t
                (pre_process_tx-history t (seen_tx t n)))
            ∙ is_exist-push 4096 t.hash n.history_txs)
  ]

  rpc_tx-seen :
      (t : Transaction) (n : Inbox)
      → is_exist t.hash (receive ballot_of valid_tx valid_block (rpc_tx t) n).history_txs ≡ true
  unfolding add_rpc_tx
  rpc_tx-seen t n = elim (Bool-cases (is_exist t.hash n.history_txs)) [
    | inl e ↦ rw (e, receive) e
    | inr e ↦
        rw (e, receive)
          (ap (is_exist t.hash) (
              answered (λ _. false) true (push 4096 t.hash n.history_txs)
                (pre_process_tx ballot_of valid_tx valid_block t (seen_tx t n)) t
                (pre_process_tx-history t (seen_tx t n)))
            ∙ is_exist-push 4096 t.hash n.history_txs)
  ]

  seen_refused :
      (u : Transaction) (m : Inbox)
      → is_exist u.hash m.history_txs ≡ true
      → (add_rpc_tx ballot_of valid_tx valid_block u m ≡ (false, m))
        × (process_tx_message ballot_of valid_tx valid_block u m ≡ (ok none, m))
  unfolding add_rpc_tx process_tx_message
  seen_refused u m e = (rw e refl, rw e refl)

  -- Right after a transaction came in as a message or by RPC, a transaction of the same hash, from either
  -- side, is not accepted, not sent on, and changes nothing, whatever became of the first.
  pub tx_once :
      (t u : Transaction) (n : Inbox)
      → u.hash ≡ t.hash
      → let m = receive ballot_of valid_tx valid_block (tx t) n in
        let r = receive ballot_of valid_tx valid_block (rpc_tx t) n in
        ((add_rpc_tx ballot_of valid_tx valid_block u m ≡ (false, m))
          × (process_tx_message ballot_of valid_tx valid_block u m ≡ (ok none, m)))
        × ((add_rpc_tx ballot_of valid_tx valid_block u r ≡ (false, r))
            × (process_tx_message ballot_of valid_tx valid_block u r ≡ (ok none, r)))
  tx_once t u n e =
      let m = receive ballot_of valid_tx valid_block (tx t) n in
      let r = receive ballot_of valid_tx valid_block (rpc_tx t) n in
      (
        seen_refused u m (ap (λ h. is_exist h m.history_txs) e ∙ tx-seen t n),
        seen_refused u r (ap (λ h. is_exist h r.history_txs) e ∙ rpc_tx-seen t n),
      )

  known_exists :
      (t : Transaction) (n : Inbox) (s : Repository)
      → n.back ≡ item s
      → IsOrderly s
      → Known t.hash s
      → (is_exist_tx t n).0 ≡ true
  unfolding is_exist_tx
  known_exists t n s e o k = elim (Bool-cases (has_tx t.hash n.tx_cache)) [
    | inl q ↦ rw q refl
    | inr q ↦ rw q (
        ap (λ m. not (transaction_eq (found_transaction t.hash (scratch m)) empty_transaction)) e
        ∙ ap not (
            found_transaction-Known t.hash (scratch (item s))
              (add_memory_item-IsOrderly empty_block (item s) o) k))
  ]

  pre_process_tx-existing :
      (t : Transaction) (n : Inbox)
      → (is_exist_tx t n).0 ≡ true
      → (r : Refusal) × (caught {A = Option Transaction} none r ≡ ok none)
        × ((pre_process_tx ballot_of valid_tx valid_block t n).0 ≡ some r)
  unfolding pre_process_tx
  pre_process_tx-existing t n known = elim (Bool-cases (not (t.chain_id == n.chain_id))) [
    | inl e ↦ (wrong_chain, refl, rw e refl)
    | inr e ↦ elim (Bool-cases (not (valid_tx t))) [
      | inl f ↦ (bad_signature, refl, rw (e, f) refl)
      | inr f ↦ (has_exist, refl, rw (e, f, known) refl)
    ]
  ]

  existing_refused :
      (t : Transaction) (n : Inbox)
      → ((m : Inbox) → m.back ≡ n.back → (is_exist_tx t m).0 ≡ true)
      → ((add_rpc_tx ballot_of valid_tx valid_block t n).0 ≡ false)
        × ((process_tx_message ballot_of valid_tx valid_block t n).0 ≡ ok none)
  unfolding add_rpc_tx process_tx_message
  existing_refused t n h =
      let (r, dropped, refused) = pre_process_tx-existing t (seen_tx t n) (h (seen_tx t n) refl) in
      elim (Bool-cases (is_exist t.hash n.history_txs)) [
        | inl e ↦ (rw e refl, rw e refl)
        | inr e ↦ (rw (e, refused) refl, rw (e, refused) dropped)
      ]

  -- Once a block was executed, over sound caches of transactions and with no empty transaction in it, a
  -- transaction with the hash of one of its transactions is not accepted as long as the block is at the
  -- back of the queue, neither as a message, where it is not sent on, nor by RPC.
  pub executed_refused :
      (b : Block) (back : Back) (t : Transaction) (n : Inbox)
      → BackOrderly back
      → All (λ u. is_none u ≡ false) b.transactions
      → (do_process_block ballot_of b back).0 ≡ true
      → n.back ≡ (do_process_block ballot_of b back).1
      → HasHash t.hash b.transactions
      → ((add_rpc_tx ballot_of valid_tx valid_block t n).0 ≡ false)
        × ((process_tx_message ballot_of valid_tx valid_block t n).0 ≡ ok none)
  executed_refused b back t n o full done at has =
      let (s, same, orderly, known) = executed ballot_of b back o full done in
      existing_refused t n (λ m e. known_exists t m s (e ∙ at ∙ same) orderly (known t.hash has))
