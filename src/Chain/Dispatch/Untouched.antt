-- ===== src/Chain/Dispatch/Untouched.antt =====
-- On `Dispatch::processMsg` of chain/BlockChain.cpp: what the bytes of other nodes cannot change.
use gsenetwork.Prelude.{
  ℕ, List, [], ◌∷◌, Bool, true, false, Option, none, some, ltb, leb, ◌==◌, ◌≡◌, refl, ap, ◌∙◌, inl,
  inr, Bool-cases, arith,
}
use gsenetwork.Prelude.Action.{Result, ok, err}
use gsenetwork.Chain.Execute.{Back}
use gsenetwork.Chain.BlockState.{HeaderConfirmation, BlockState, add_confirmation}
use gsenetwork.Chain.Rollback.{
  Index, RollbackState, change, confirm, add_header, add_headers, add_sync_block_state,
}
use gsenetwork.Chain.Execute.Shown.{
  BackSound, SameBack, SameBack-refl, SameBack-trans, account_of, producer_of, transaction_of,
}
use gsenetwork.Chain.Execute.Shown
use gsenetwork.Chain.Messages.{
  process_tx_message, process_block_message, Inbox, tx, block, sync_block,
  process_sync_block_message,
}
use gsenetwork.Chain.Messages.Untouched.{receive-SameBack}
use gsenetwork.Wire.Rlp.{Bytes, Parsed, broken, text, items}
use gsenetwork.Wire.Transactions.{read_transaction}
use gsenetwork.Wire.Blocks.{Packet, read_packet, block_of_packet}
use gsenetwork.Wire.States.{read_confirmation, read_state}
use gsenetwork.Wire.Statuses.{
  StatusType, Status, unknown_type, get_height, reply_height, sync_blocks, reply_blocks,
  populate_status,
}
use gsenetwork.Chain.Dispatch.{
  PacketType, status_packet, transaction_packet, block_packet, confirmation_packet,
  transactions_packet, block_state_packet, other_packet, packet_type, Receiver, rollback_of, Effect,
  Outside, understood, passing, pass_tx, pass_block, handle_tx, handle_block,
  process_confirmation_message, process_block_state_message, reply_all, process_status_message,
  dispatch, process_msg, Delivery, deliver_all,
}

-- The identifiers of the blocks that are not solidified.
abbrev pub ids : Index → List ℕ
ids [] = []
ids (b ∷ bs) = b.block_id ∷ ids bs

confirm-block_id : (h : HeaderConfirmation) (b : BlockState) → (confirm h b).block_id ≡ b.block_id
unfolding confirm add_confirmation
confirm-block_id h b = ground arith

change-ids :
    (id : ℕ) (f : BlockState → BlockState) (idx : Index)
    → ((b : BlockState) → (f b).block_id ≡ b.block_id)
    → ids (change id f idx) ≡ ids idx
change-ids id f [] h = refl
change-ids id f (b ∷ bs) h = elim (Bool-cases (b.block_id == id)) [
  | inl e ↦ rw e (ap (λ (k : ℕ). k ∷ ids bs) (h b))
  | inr e ↦ rw e (ap (λ (ks : List ℕ). b.block_id ∷ ks) (change-ids id f bs h))
]

add_header-ids :
    (h : HeaderConfirmation) (s : RollbackState) → ids (add_header h s).index ≡ ids s.index
add_header-ids h s = change-ids h.block_id (confirm h) s.index (confirm-block_id h)

add_headers-ids :
    (hs : List HeaderConfirmation) (s : RollbackState) → ids (add_headers hs s).index ≡ ids s.index
add_headers-ids [] s = refl
add_headers-ids (h ∷ hs) s = add_headers-ids hs (add_header h s) ∙ add_header-ids h s

add_sync-ids :
    (b : BlockState) (s : RollbackState) → ids (add_sync_block_state b s).index ≡ ids s.index
add_sync-ids b s = elim (Bool-cases (leb b.block_number s.solidify_number)) [
  | inl e ↦ rw e refl
  | inr e ↦ rw e (add_headers-ids b.confirmations s)
]

-- The back of the queue is as it was, and the tree of blocks has the blocks and the head that it had.
pub record Kept (c d : Receiver) : Type 0 where
  pub back : SameBack c.inbox.back d.inbox.back
  pub blocks : ids d.index ≡ ids c.index
  pub head : d.head ≡ c.head

Kept-refl : (c : Receiver) → Kept c c
Kept-refl c = record { back = SameBack-refl c.inbox.back; blocks = refl; head = refl }

Kept-trans : (c d e : Receiver) → Kept c d → Kept d e → Kept c e
Kept-trans c d e h k = record {
  back = SameBack-trans _ _ _ h.back k.back;
  blocks = k.blocks ∙ h.blocks;
  head = k.head ∙ h.head;
}

-- Another inbox over the same back.
refilled :
    (c : Receiver) (n : Inbox) → SameBack c.inbox.back n.back → Kept c (record c { inbox = n })
refilled c n h = record { back = h; blocks = refl; head = refl }

-- Another index of the same blocks.
reindexed : (c : Receiver) (idx : Index) → ids idx ≡ ids c.index → Kept c (record c { index = idx })
reindexed c idx h = record { back = SameBack-refl c.inbox.back; blocks = h; head = refl }

module _ (o : Outside) where
  -- A block that lets an exception escape ends the loop.
  stopped :
      (m : Back) (r : Result (Unit {0})) (n : Inbox) (rest : Result (Unit {0}) × Inbox)
      → SameBack m n.back
      → SameBack m rest.1.back
      → SameBack m
          (elim r as (λ _. Result (Unit {0}) × Inbox) [ ok _ ↦ rest | err e ↦ (err e, n) ]).1.back
  stopped m (ok u) n rest h k = k
  stopped m (err e) n rest h k = h

  reply_all-SameBack : (ps : List Packet) (n : Inbox) → SameBack n.back (reply_all o ps n).1.back
  unfolding reply_all
  reply_all-SameBack [] n = SameBack-refl n.back
  reply_all-SameBack (p ∷ ps) n =
      let b = block_of_packet o.rlp o.sha3 (record p { sync_block = true }) in
      let out = process_sync_block_message o.ballot_of o.valid_tx o.valid_block b n in
      let now = receive-SameBack o.ballot_of o.valid_tx o.valid_block (sync_block b) n in
      stopped n.back out.0 out.1 (reply_all o ps out.1) now
        (SameBack-trans _ _ _ now (reply_all-SameBack ps out.1))

  -- What a handler passes on leaves its state.
  passing-Kept :
      {A : Type 0} (f : A → Effect) (r : Result (Option A)) (c d : Receiver)
      → Kept c d
      → Kept c (understood (passing f r d)).2
  passing-Kept f (ok none) c d h = h
  passing-Kept f (ok (some a)) c d h = h
  passing-Kept f (err e) c d h = h

  status-Kept :
      (from : ℕ) (t : StatusType) (s : Status) (c : Receiver)
      → s.status_type ≡ t
      → Kept c (process_status_message o from s c).2
  unfolding process_status_message
  status-Kept from unknown_type s c e = rw (process_status_message, e) (Kept-refl c)
  status-Kept from get_height s c e = rw (process_status_message, e) (Kept-refl c)
  status-Kept from sync_blocks s c e = rw (process_status_message, e) (Kept-refl c)
  status-Kept from reply_blocks s c e =
      rw (process_status_message, e)
        (refilled c (reply_all o s.blocks c.inbox).1 (reply_all-SameBack s.blocks c.inbox))
  status-Kept from reply_height s c e =
      rw (process_status_message, e)
        (elim (Bool-cases (ltb c.inbox.last_number s.height)) [
          | inl higher ↦
              rw higher (record { back = SameBack-refl c.inbox.back; blocks = refl; head = refl })
          | inr lower ↦ rw lower (Kept-refl c)
        ])

  dispatch-Kept :
      (from : ℕ) (t : PacketType) (x : Bytes) (c : Receiver) → Kept c (dispatch o from t x c).2
  unfolding dispatch process_confirmation_message process_block_state_message
  dispatch-Kept from status_packet x c =
      let s = populate_status o.rlp (read_packet o.rlp o.sha3 o.new_header) x o.new_status in
      status-Kept from s.status_type s c refl
  dispatch-Kept from transaction_packet x c =
      elim (read_transaction o.rlp o.sha3 x)
        as (λ q.
          Kept c
            (elim q as (λ _. Bool × List Effect × Receiver) [
              | none ↦ (false, [], c)
              | some t ↦ understood (handle_tx o t c)
            ]).2) [
              | none ↦ Kept-refl c
              | some t ↦
                  passing-Kept pass_tx
                    (process_tx_message o.ballot_of o.valid_tx o.valid_block t c.inbox).0 c _
                    (refilled c
                      (process_tx_message o.ballot_of o.valid_tx o.valid_block t c.inbox).1
                      (receive-SameBack o.ballot_of o.valid_tx o.valid_block (tx t) c.inbox))
            ]
  dispatch-Kept from block_packet x c =
      elim (read_packet o.rlp o.sha3 o.new_header x)
        as (λ q.
          Kept c
            (elim q as (λ _. Bool × List Effect × Receiver) [
              | none ↦ (false, [], c)
              | some p ↦ understood (handle_block o p c)
            ]).2) [
              | none ↦ Kept-refl c
              | some p ↦
                  let b = block_of_packet o.rlp o.sha3 p in
                  passing-Kept pass_block
                    (process_block_message o.ballot_of o.valid_tx o.valid_block b c.inbox).0 c _
                    (refilled c
                      (process_block_message o.ballot_of o.valid_tx o.valid_block b c.inbox).1
                      (receive-SameBack o.ballot_of o.valid_tx o.valid_block (block b) c.inbox))
            ]
  dispatch-Kept from confirmation_packet x c =
      elim (read_confirmation o.rlp x)
        as (λ q.
          Kept c
            (elim q as (λ _. Bool × List Effect × Receiver) [
              | none ↦ (false, [], c)
              | some h ↦ (true, [], process_confirmation_message o h c)
            ]).2) [
              | none ↦ Kept-refl c
              | some h ↦
                  reindexed c (add_header h (rollback_of c)).index
                    (add_header-ids h (rollback_of c))
            ]
  dispatch-Kept from transactions_packet x c = Kept-refl c
  dispatch-Kept from block_state_packet x c =
      let b = read_state o.rlp x o.new_state in
      reindexed c (add_sync_block_state b (rollback_of c)).index (add_sync-ids b (rollback_of c))
  dispatch-Kept from other_packet x c = Kept-refl c

  process_msg-Kept :
      (from n : ℕ) (rlp : Parsed) (c : Receiver) → Kept c (process_msg o from n rlp c).2
  unfolding process_msg
  process_msg-Kept from n broken c = Kept-refl c
  process_msg-Kept from n text c = Kept-refl c
  process_msg-Kept from n (items []) c = Kept-refl c
  process_msg-Kept from n (items (x ∷ [])) c = dispatch-Kept from (packet_type n) x c
  process_msg-Kept from n (items (x ∷ y ∷ xs)) c = Kept-refl c

  deliver_all-Kept : (ds : List Delivery) (c : Receiver) → Kept c (deliver_all o ds c)
  deliver_all-Kept [] c = Kept-refl c
  deliver_all-Kept (d ∷ ds) c =
      Kept-trans _ _ _ (process_msg-Kept d.from d.number d.rlp c)
        (deliver_all-Kept ds (process_msg o d.from d.number d.rlp c).2)

  -- Where the caches at the back of the queue are sound over a keyed database, no messages of other
  -- nodes, of whatever types and bytes and in whatever order, change what the back shows for a key,
  -- neither an account, nor a producer, nor a transaction, nor which blocks stand in the rollback state,
  -- nor its head. The caches stay sound.
  pub deliver_all-untouched :
      (ds : List Delivery) (c : Receiver) (j : ℕ)
      → BackSound c.inbox.back
      → let d = deliver_all o ds c in
        BackSound d.inbox.back
        × (account_of j d.inbox.back ≡ account_of j c.inbox.back)
        × (producer_of j d.inbox.back ≡ producer_of j c.inbox.back)
        × (transaction_of j d.inbox.back ≡ transaction_of j c.inbox.back)
        × (ids d.index ≡ ids c.index)
        × (d.head ≡ c.head)
  deliver_all-untouched ds c j sound =
      let k = deliver_all-Kept ds c in
      let (s, a, p, t) = Shown.shown k.back sound j in (s, a, p, t, k.blocks, k.head)
