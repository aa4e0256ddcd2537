-- ===== src/Chain/Dispatch.antt =====
-- chain/BlockChain.cpp: `Dispatch::processMsg`, from the bytes of a message to what the node does with it.
pub mod Streamed
pub mod Untouched
mod Examples
use gsenetwork.Prelude.{
  ℕ, List, [], ◌∷◌, Bool, true, false, Option, none, some, ltb, ◌==◌, if◌then◌else◌,
}
use gsenetwork.Prelude.Action.{Result, ok, err}
use gsenetwork.Prelude.Map.{Map}
use gsenetwork.Core.Transaction.{Transaction, Candidate}
use gsenetwork.Core.Block.{Block}
use gsenetwork.Chain.BlockState.{HeaderConfirmation, BlockState}
use gsenetwork.Chain.Rollback.{Index, RollbackState, add_header, add_sync_block_state}
use gsenetwork.Chain.Execute.{back_db}
use gsenetwork.Chain.Messages.{
  Inbox, process_tx_message, process_block_message, process_sync_block_message,
}
use gsenetwork.Chain.Serve.{
  Archive, Answer, reply_height as answer_height, sync_blocks as serve_blocks,
}
use gsenetwork.Chain.Sync.{update}
use gsenetwork.Wire.Rlp.{Bytes, Parsed, items, Rlp}
use gsenetwork.Wire.Transactions.{read_transaction}
use gsenetwork.Wire.Blocks.{Header, Packet, read_packet, block_of_packet}
use gsenetwork.Wire.States.{read_confirmation, read_state}
use gsenetwork.Wire.Statuses.{
  Status, unknown_type, get_height, reply_height, sync_blocks, reply_blocks, populate_status,
}

-- `ProtocolPacketType`; the numbers that `processMsg` does not name are `other_packet`.
pub data PacketType : Type 0 where
  status_packet transaction_packet block_packet confirmation_packet transactions_packet
        block_state_packet other_packet :
      PacketType

abbrev pub packet_type : ℕ → PacketType
packet_type n =
    if n == 32
    then status_packet
    else if n == 33
    then transaction_packet
    else if n == 34
    then block_packet
    else if n == 35
    then confirmation_packet
    else if n == 36
    then transactions_packet
    else if n == 37
    then block_state_packet
    else other_packet

-- The fields that messages read and change. The number of the last solidified block stands in the inbox.
pub record Receiver : Type 0 where
  pub inbox : Inbox
  pub index : Index
  pub head : Option BlockState
  -- the store of block states by number
  pub state_index : Map BlockState
  -- the heights of the peers in `m_sync`
  pub heights : Map ℕ

-- `m_rollbackState`
abbrev pub rollback_of : Receiver → RollbackState
rollback_of c = record { index = c.index; head = c.head; solidify_number = c.inbox.solidify_number }

-- The second list behind the first one turned around: the queue with its front first.
abbrev pub turn : List Block → List Block → List Block
turn [] done = done
turn (b ∷ bs) done = turn bs (b ∷ done)

abbrev pub archive_of : Receiver → Archive
archive_of c = record {
  latest_number = c.inbox.last_number;
  rollback = rollback_of c;
  queue = turn c.inbox.queue_blocks [];
  db = back_db c.inbox.back;
  state_index = c.state_index;
}

-- What a handler sends: an answer to the peer, or what came in, to the others.
pub data Effect : Type 0 where
  answer : Answer → Effect
  pass_tx : Transaction → Effect
  pass_block : Block → Effect

abbrev pub answers : List Answer → List Effect
answers [] = []
answers (a ∷ rest) = answer a ∷ answers rest

-- What stands outside these functions: the RLP library and the hash, new objects as their default
-- constructors leave them, the size of a block's RLP data, the decoding of ballots and the signatures.
pub record Outside : Type 0 where
  pub rlp : Rlp
  pub sha3 : Bytes → ℕ
  pub new_header : Header
  pub new_status : Status
  pub new_state : BlockState
  -- `EmptyBlockState`
  pub empty_state : BlockState
  pub size : Block → ℕ
  pub ballot_of : List ℕ → Option (List Candidate)
  pub valid_tx : Transaction → Bool
  pub valid_block : Block → Bool

-- What a handler gives: whether an exception escapes it, what is sent, and the state after it.
abbrev pub Outcome : Type 0
Outcome = Result (Unit {0}) × List Effect × Receiver

-- An exception that escapes the handlers is caught by `processMsg`, which returns false then; what was
-- changed before stays changed.
abbrev pub understood : Outcome → Bool × List Effect × Receiver
understood (r, es, c) = (elim r [ ok _ ↦ true | err _ ↦ false ], es, c)

-- What a handler passes on to the others.
abbrev pub passing : {A : Type 0} → (A → Effect) → Result (Option A) → Receiver → Outcome
passing f (ok none) c = (ok tt, [], c)
passing f (ok (some a)) c = (ok tt, f a ∷ [], c)
passing f (err e) c = (err e, [], c)

module _ (o : Outside) where
  abbrev pub handle_tx : Transaction → Receiver → Outcome
  handle_tx t c =
      let (passed, n) = process_tx_message o.ballot_of o.valid_tx o.valid_block t c.inbox in
      passing pass_tx passed (record c { inbox = n })

  abbrev pub handle_block : Packet → Receiver → Outcome
  handle_block p c =
      let (passed, n) =
        process_block_message o.ballot_of o.valid_tx o.valid_block (block_of_packet o.rlp o.sha3 p)
          c.inbox in
      passing pass_block passed (record c { inbox = n })

  -- `processConfirmationMessage`
  unfoldable pub process_confirmation_message : HeaderConfirmation → Receiver → Receiver
  process_confirmation_message h c = record c { index = (add_header h (rollback_of c)).index }

  -- `processBlockStateMessage`
  unfoldable pub process_block_state_message : BlockState → Receiver → Receiver
  process_block_state_message b c = record c {
    index = (add_sync_block_state b (rollback_of c)).index;
  }

  -- `ReplyBlocks`: `setSyncBlock` and `processSyncBlockMessage` of each block, until an exception escapes.
  unfoldable pub reply_all : List Packet → Inbox → Result (Unit {0}) × Inbox
  reply_all [] n = (ok tt, n)
  reply_all (p ∷ ps) n =
      let b = block_of_packet o.rlp o.sha3 (record p { sync_block = true }) in
      let (r, m) = process_sync_block_message o.ballot_of o.valid_tx o.valid_block b n in
      let rest = reply_all ps m in elim r [ ok _ ↦ rest | err e ↦ (err e, m) ]

  -- `processStatusMessage`
  unfoldable pub process_status_message : ℕ → Status → Receiver → Outcome
  process_status_message from s c = elim s.status_type [
    | get_height ↦ (ok tt, answer (answer_height c.inbox.last_number) ∷ [], c)
    | reply_height ↦
        if ltb c.inbox.last_number s.height
        then (ok tt, [], record c { heights = update from s.height c.heights })
        else (ok tt, [], c)
    | sync_blocks ↦
        (ok tt, answers (serve_blocks o.size o.empty_state s.start s.end (archive_of c)), c)
    | reply_blocks ↦ let (r, n) = reply_all s.blocks c.inbox in (r, [], record c { inbox = n })
    | unknown_type ↦ (ok tt, [], c)
  ]

  -- The cases of `processMsg`, on the item's bytes: what it returns, what is sent, and the state after it.
  unfoldable pub dispatch : ℕ → PacketType → Bytes → Receiver → Bool × List Effect × Receiver
  dispatch from status_packet x c =
      let s = populate_status o.rlp (read_packet o.rlp o.sha3 o.new_header) x o.new_status in
      understood (process_status_message from s c)
  dispatch from transaction_packet x c = elim (read_transaction o.rlp o.sha3 x) [
    | none ↦ (false, [], c)
    | some t ↦ understood (handle_tx t c)
  ]
  dispatch from block_packet x c = elim (read_packet o.rlp o.sha3 o.new_header x) [
    | none ↦ (false, [], c)
    | some p ↦ understood (handle_block p c)
  ]
  dispatch from confirmation_packet x c = elim (read_confirmation o.rlp x) [
    | none ↦ (false, [], c)
    | some h ↦ (true, [], process_confirmation_message h c)
  ]
  dispatch from transactions_packet x c = (true, [], c)
  dispatch from block_state_packet x c =
      (true, [], process_block_state_message (read_state o.rlp x o.new_state) c)
  dispatch from other_packet x c = (false, [], c)

  -- `processMsg`
  unfoldable pub process_msg : ℕ → ℕ → Parsed → Receiver → Bool × List Effect × Receiver
  process_msg from n (items (x ∷ [])) c = dispatch from (packet_type n) x c
  process_msg from n _ c = (false, [], c)

-- A message of a peer, by the number of its type and what its bytes are.
pub record Delivery : Type 0 where
  pub from : ℕ
  pub number : ℕ
  pub rlp : Parsed

module _ (o : Outside) where
  abbrev pub deliver_all : List Delivery → Receiver → Receiver
  deliver_all [] c = c
  deliver_all (d ∷ ds) c = deliver_all ds (process_msg o d.from d.number d.rlp c).2
