-- ===== src/Chain/Dispatch/Streamed.antt =====
-- On `Dispatch::processMsg` of chain/BlockChain.cpp: what a node streams is what another node handles.
use gsenetwork.Prelude.{ℕ, List, [], ◌∷◌, Bool, true, ◌≡◌, refl, ap}
use gsenetwork.Core.Transaction.{Transaction}
use gsenetwork.Chain.BlockState.{HeaderConfirmation, BlockState}
use gsenetwork.Wire.Rlp.{Bytes, items, IsRlp}
use gsenetwork.Wire.Transactions.{write_transaction, hash_transaction}
use gsenetwork.Wire.Transactions.RoundTrip.{TransactionFits, read_transaction-write_transaction}
use gsenetwork.Wire.Blocks.{Packet, write_packet}
use gsenetwork.Wire.States.{write_confirmation, write_state}
use gsenetwork.Wire.States.RoundTrip.{
  ConfirmationFits, StateFits, read_confirmation-write_confirmation, read_state_lem,
}
use gsenetwork.Wire.Statuses.{
  StatusType, Status, unknown_type, get_height, reply_height, sync_blocks, reply_blocks,
  write_status,
}
use gsenetwork.Wire.Statuses.RoundTrip.{
  PacketFits, StatusFits, packet_back, carried, populate_status-write_status,
}
use gsenetwork.Chain.Dispatch.{
  Receiver, Effect, Outside, understood, handle_tx, handle_block, process_confirmation_message,
  process_block_state_message, process_status_message, dispatch, process_msg,
}

-- What nodes send to each other.
pub data Content : Type 0 where
  status : Status → Content
  transaction : Transaction → Content
  block : Packet → Content
  confirmation : HeaderConfirmation → Content
  state : BlockState → Content

-- The number of its type, as the controller gives it to the network.
abbrev pub number_of : Content → ℕ
number_of (status s) = 32
number_of (transaction t) = 33
number_of (block p) = 34
number_of (confirmation h) = 35
number_of (state b) = 37

module _ (o : Outside) where
  -- `streamRLP`
  abbrev pub stream : Content → Bytes
  stream (status s) = write_status o.rlp s
  stream (transaction t) = write_transaction o.rlp t
  stream (block p) = write_packet o.rlp p
  stream (confirmation h) = write_confirmation o.rlp h
  stream (state b) = write_state o.rlp b

  -- The handler's effect on the object itself.
  abbrev pub handled : ℕ → Content → Receiver → Bool × List Effect × Receiver
  handled from (status s) c = understood (process_status_message o from s c)
  handled from (transaction t) c = understood (handle_tx o t c)
  handled from (block p) c = understood (handle_block o p c)
  handled from (confirmation h) c = (true, [], process_confirmation_message o h c)
  handled from (state b) c = (true, [], process_block_state_message o b c)

  -- Numbers that their fields hold, hashes of transactions that are those of their contents, and blocks
  -- without receipts and without the mark of a synchronisation.
  abbrev pub ContentFits : (laws : IsRlp o.rlp) → Content → Type 0
  ContentFits laws (status s) = StatusFits o.rlp laws o.sha3 o.new_header s
  ContentFits laws (transaction t) = TransactionFits t × (t.hash ≡ hash_transaction o.rlp o.sha3 t)
  ContentFits laws (block p) = PacketFits o.rlp laws o.sha3 o.new_header p
  ContentFits laws (confirmation h) = ConfirmationFits h
  ContentFits laws (state b) = StateFits b

  -- A status that carries what belongs to its type is handled as the status is.
  status_as :
      (from : ℕ) (t : StatusType) (height start end : ℕ) (blocks : List Packet) (old : Status)
      (c : Receiver)
      → old.status_type ≡ unknown_type
      → let s : Status = record {
        status_type = t;
        height = height;
        start = start;
        end = end;
        blocks = blocks;
      } in
        process_status_message o from (carried s old) c ≡ process_status_message o from s c
  unfolding process_status_message
  status_as from unknown_type height start end blocks old c e = rw (process_status_message, e) refl
  status_as from get_height height start end blocks old c e = refl
  status_as from reply_height height start end blocks old c e = refl
  status_as from sync_blocks height start end blocks old c e = refl
  status_as from reply_blocks height start end blocks old c e = refl

  module _ (laws : IsRlp o.rlp) where
    -- What one node streams, a status, a transaction, a block, a confirmation or a block state, another node
    -- handles as the object that it was: it returns true exactly if no exception escapes the handler of the
    -- object, sends what the handler sends, and is in the state that the handler leaves. Numbers are to fit
    -- in their fields, hashes of transactions to be those of their contents, blocks to have neither
    -- receipts nor the mark of a synchronisation, and new statuses and block states to be empty.
    pub process_msg-stream :
        (from : ℕ) (m : Content) (c : Receiver)
        → ContentFits laws m
        → o.new_status.status_type ≡ unknown_type
        → o.new_status.blocks ≡ []
        → o.new_state.confirmations ≡ []
        → process_msg o from (number_of m) (items (stream m ∷ [])) c ≡ handled from m c
    unfolding process_msg dispatch process_block_state_message
    process_msg-stream from (status s) c h e f g =
        rw (populate_status-write_status o.rlp laws o.sha3 o.new_header s o.new_status h f) (
          ap understood
            (status_as from s.status_type s.height s.start s.end s.blocks o.new_status c e))
    process_msg-stream from (transaction t) c h e f g =
        rw (dispatch, read_transaction-write_transaction o.rlp laws o.sha3 t h.0 h.1) refl
    process_msg-stream from (block p) c h e f g =
        rw (dispatch, packet_back o.rlp laws o.sha3 o.new_header p h) refl
    process_msg-stream from (confirmation h) c fits e f g =
        rw (dispatch, read_confirmation-write_confirmation o.rlp laws h fits) refl
    process_msg-stream from (state b) c h e f g =
        rw (read_state_lem o.rlp laws b o.new_state h g) refl
