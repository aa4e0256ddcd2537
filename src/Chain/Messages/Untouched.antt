-- ===== src/Chain/Messages/Untouched.antt =====
-- On the handlers of messages in chain/BlockChain.cpp: what the chain shows while transactions are tried.
use gsenetwork.Prelude.{
  ℕ, List, [], ◌∷◌, Bool, true, false, not, Option, none, some, ◌≡◌, refl, sym, inl, inr,
  Bool-cases, ◌==◌,
}
use mathlib.Core.Path.{subst}
use gsenetwork.Core.Transaction.{Transaction, Candidate}
use gsenetwork.Core.Block.{Block, empty_block}
use gsenetwork.Core.Queue.{is_exist, push}
use gsenetwork.Storage.Database.{account_entity, producer_entity, transaction_entity}
use gsenetwork.Storage.Repository.Beneath.{after_transaction-Beneath}
use gsenetwork.Chain.Admission.{check_duplicate_tx}
use gsenetwork.Chain.Caches.{insert_tx, insert_block, in_window}
use gsenetwork.Chain.Execute.{Back}
use gsenetwork.Prelude.Action.{ok}
use gsenetwork.Chain.Messages.{
  caught, Inbox, Refusal, Message, rpc_tx, tx, block, sync_block, scratch, has_tx, is_exist_tx,
  is_exist_block, try_all, pre_process_tx, add_rpc_tx, process_tx_message, pre_process_block,
  process_sync_block_message, process_block_message, receive, receive_all,
}
use gsenetwork.Chain.Execute.Shown.{
  account_of, producer_of, transaction_of, BackSound, SameBack, SameBack-refl, SameBack-trans,
  cancel-SameBack, shown, excute-Beneath, run-Beneath,
}

abbrev seen_tx : Transaction → Inbox → Inbox
seen_tx t n = record n { history_txs = push 4096 t.hash n.history_txs }

abbrev seen_block : Block → Inbox → Inbox
seen_block b n = record n { history_blocks = push 8 b.hash n.history_blocks }

module _ (ballot_of : List ℕ → Option (List Candidate)) (valid_tx : Transaction → Bool)
    (valid_block : Block → Bool) where
  is_exist_tx-SameBack : (t : Transaction) (n : Inbox) → SameBack n.back (is_exist_tx t n).1.back
  unfolding is_exist_tx
  is_exist_tx-SameBack t n = elim (Bool-cases (has_tx t.hash n.tx_cache)) [
    | inl e ↦ rw e (SameBack-refl n.back)
    | inr e ↦
        rw e
          (cancel-SameBack empty_block n.back _ (after_transaction-Beneath t.hash (scratch n.back)))
  ]

  pre_process_tx-SameBack :
      (t : Transaction) (n : Inbox)
      → SameBack n.back (pre_process_tx ballot_of valid_tx valid_block t n).1.back
  unfolding pre_process_tx
  pre_process_tx-SameBack t n =
      let k = is_exist_tx-SameBack t n in
      elim (Bool-cases (not (t.chain_id == n.chain_id))) [
        | inl e ↦ rw e (SameBack-refl n.back)
        | inr e ↦ rw e (elim (Bool-cases (not (valid_tx t))) [
          | inl f ↦ rw f (SameBack-refl n.back)
          | inr f ↦ rw f (elim (Bool-cases (is_exist_tx t n).0) [
            | inl g ↦ rw g k
            | inr g ↦ rw g (
                SameBack-trans _ _ _ k (
                  cancel-SameBack empty_block (is_exist_tx t n).1.back _
                    (excute-Beneath ballot_of t _)))
          ])
        ])
      ]

  pre_process_block-SameBack :
      (b : Block) (n : Inbox)
      → SameBack n.back (pre_process_block ballot_of valid_tx valid_block b n).1.back
  unfolding pre_process_block try_all
  pre_process_block-SameBack b n =
      let k =
        cancel-SameBack empty_block n.back _
          (run-Beneath ballot_of b.transactions (scratch n.back)) in
      elim (Bool-cases (not (b.chain_id == n.chain_id))) [
        | inl e ↦ rw e (SameBack-refl n.back)
        | inr e ↦ rw e (elim (Bool-cases (not (valid_block b))) [
          | inl f ↦ rw f (SameBack-refl n.back)
          | inr f ↦ rw f (elim (Bool-cases (is_exist_block b n)) [
            | inl g ↦ rw g (SameBack-refl n.back)
            | inr g ↦ rw g (elim (Bool-cases (not (check_duplicate_tx b))) [
              | inl d ↦ rw d (SameBack-refl n.back)
              | inr d ↦ rw d k
            ])
          ])
        ])
      ]

  -- An answer, and the state where an accepted object goes into a cache.
  answered :
      {A : Type 0} (a : Refusal → A) (b : A) (m : Back) (o : Option Refusal × Inbox)
      (keep : Inbox → Inbox)
      → ((n : Inbox) → (keep n).back ≡ n.back)
      → SameBack m o.1.back
      → SameBack m
          (elim o.0 as (λ _. A × Inbox) [ some x ↦ (a x, o.1) | none ↦ (b, keep o.1) ]).1.back
  answered a b m (some x, n) keep same h = h
  answered a b m (none, n) keep same h = subst (SameBack m) (sym (same n)) h

  pub receive-SameBack :
      (msg : Message) (n : Inbox)
      → SameBack n.back (receive ballot_of valid_tx valid_block msg n).back
  unfolding add_rpc_tx process_tx_message process_block_message process_sync_block_message
  receive-SameBack (rpc_tx t) n = elim (Bool-cases (is_exist t.hash n.history_txs)) [
    | inl e ↦ rw (e, receive) (SameBack-refl n.back)
    | inr e ↦
        rw (e, receive)
          (answered (λ _. false) true n.back
            (pre_process_tx ballot_of valid_tx valid_block t (seen_tx t n))
            (λ m. record m { tx_cache = insert_tx t m.tx_cache }) (λ m. refl)
            (pre_process_tx-SameBack t (seen_tx t n)))
  ]
  receive-SameBack (tx t) n = elim (Bool-cases (is_exist t.hash n.history_txs)) [
    | inl e ↦ rw (e, receive) (SameBack-refl n.back)
    | inr e ↦
        rw (e, receive)
          (answered (caught none) (ok (some t)) n.back
            (pre_process_tx ballot_of valid_tx valid_block t (seen_tx t n))
            (λ m. record m { tx_cache = insert_tx t m.tx_cache }) (λ m. refl)
            (pre_process_tx-SameBack t (seen_tx t n)))
  ]
  receive-SameBack (block b) n =
      elim (Bool-cases (not (in_window n.last_number n.solidify_number b.number))) [
        | inl e ↦ rw (e, receive) (SameBack-refl n.back)
        | inr e ↦
            rw (e, receive)
              (elim (Bool-cases (is_exist b.hash n.history_blocks)) [
                | inl f ↦ rw (f, receive) (SameBack-refl n.back)
                | inr f ↦
                    rw (f, receive)
                      (answered (caught none) (ok (some b)) n.back
                        (pre_process_block ballot_of valid_tx valid_block b (seen_block b n))
                        (λ m. record m { block_cache = insert_block b m.block_cache }) (λ m. refl)
                        (pre_process_block-SameBack b (seen_block b n)))
              ])
      ]
  receive-SameBack (sync_block b) n =
      answered (caught tt) (ok tt) n.back (pre_process_block ballot_of valid_tx valid_block b n)
        (λ m. record m { block_cache = insert_block b m.block_cache }) (λ m. refl)
        (pre_process_block-SameBack b n)

  receive_all-SameBack :
      (ms : List Message) (n : Inbox)
      → SameBack n.back (receive_all ballot_of valid_tx valid_block ms n).back
  receive_all-SameBack [] n = SameBack-refl n.back
  receive_all-SameBack (m ∷ ms) n =
      SameBack-trans _ _ _ (receive-SameBack m n)
        (receive_all-SameBack ms (receive ballot_of valid_tx valid_block m n))

  -- Where the caches at the back of the queue are sound over a keyed database, no messages with
  -- transactions and blocks, in any order and whatever their answers, change what the back shows for a
  -- key: neither an account, nor a producer, nor a transaction. The caches stay sound.
  pub receive_all-untouched :
      (ms : List Message) (n : Inbox) (j : ℕ)
      → BackSound n.back
      → let m = (receive_all ballot_of valid_tx valid_block ms n).back in
        BackSound m
        × (account_of j m ≡ account_of j n.back)
        × (producer_of j m ≡ producer_of j n.back)
        × (transaction_of j m ≡ transaction_of j n.back)
  receive_all-untouched ms n j h = shown (receive_all-SameBack ms n) h j
