-- ===== src/Chain/Messages.antt =====
-- chain/BlockChain.cpp: what the node does with transactions and blocks that are sent to it.
pub mod Refused
pub mod Untouched
mod Examples
use gsenetwork.Prelude.{
  ℕ, List, [], ◌∷◌, Bool, true, false, not, Option, none, some, ◌==◌, if◌then◌else◌,
}
use gsenetwork.Prelude.Action.{Error, bad_ballot, Result, ok, err}
use gsenetwork.Prelude.Map.{Map, lookup}
use gsenetwork.Core.Transaction.{Transaction, Candidate, empty_transaction, transaction_eq}
use gsenetwork.Core.Block.{Block, empty_block, block_eq}
use gsenetwork.Core.Queue.{push, is_exist}
use gsenetwork.Storage.Database.{Database}
use gsenetwork.Storage.Repository.{Repository, found_transaction, after_transaction}
use gsenetwork.Runtime.{excute, run}
use gsenetwork.Chain.Admission.{check_duplicate_tx}
use gsenetwork.Chain.Caches.{insert_tx, insert_block, in_window}
use gsenetwork.Chain.Execute.{Back, no_item, item, back_db, add_memory_item, cancel_memory_item}

-- The fields of `BlockChain` that the handlers read and change.
pub record Inbox : Type 0 where
  pub chain_id : ℕ
  -- FixedQueue<TxID, 4096> and FixedQueue<BlockID, 8>
  pub history_txs : List ℕ
  pub history_blocks : List ℕ
  pub tx_cache : List Transaction
  pub block_cache : List Block
  -- the back of the memory queue, and the blocks of the queue, the back first
  pub back : Back
  pub queue_blocks : List Block
  pub last_number : ℕ
  pub solidify_number : ℕ

-- Why a transaction or a block is refused: the exceptions that the handlers catch.
pub data Refusal : Type 0 where
  wrong_chain bad_signature has_exist has_duplicates : Refusal
  failed : Error → Refusal

-- The repository over the back of the queue that the handlers try transactions on and throw away.
abbrev pub scratch : Back → Repository
scratch m = add_memory_item empty_block m

abbrev pub has_tx : ℕ → List Transaction → Bool
has_tx h [] = false
has_tx h (t ∷ ts) = if t.hash == h then true else has_tx h ts

abbrev pub has_block : ℕ → List Block → Bool
has_block h [] = false
has_block h (b ∷ bs) = if b.hash == h then true else has_block h bs

-- `isExist(Transaction&)`
unfoldable pub is_exist_tx : Transaction → Inbox → Bool × Inbox
is_exist_tx t n = if has_tx t.hash n.tx_cache then (true, n) else (
  not (transaction_eq (found_transaction t.hash (scratch n.back)) empty_transaction),
  record n { back = cancel_memory_item n.back (after_transaction t.hash (scratch n.back)) },
)

-- `DatabaseController::getBlock` by identifier
abbrev pub db_block : ℕ → Database → Block
db_block h db = elim (lookup h db.blocks) [ none ↦ empty_block | some b ↦ b ]

-- `Repository::getBlock`, over the blocks of a repository and its ancestors.
unfoldable pub get_block : ℕ → List Block → Database → Block
get_block h [] db = db_block h db
get_block h (b ∷ bs) db =
    let above = get_block h bs db in
    if b.hash == h then b else if not (block_eq above empty_block) then above else db_block h db

-- `isExist(Block&)`
unfoldable pub is_exist_block : Block → Inbox → Bool
is_exist_block b n =
    if has_block b.hash n.block_cache
    then true
    else not
        (block_eq (get_block b.hash (empty_block ∷ n.queue_blocks) (back_db n.back)) empty_block)

abbrev pub refusal_of : Result (Unit {0}) → Option Refusal
refusal_of (ok _) = none
refusal_of (err e) = some (failed e)

-- What a handler of messages returns for a refusal. The DeserializeException of a ballot is none of the
-- exceptions that it catches, and goes on to its caller.
abbrev pub caught : {A : Type 0} → A → Refusal → Result A
caught dropped (failed bad_ballot) = err bad_ballot
caught dropped _ = ok dropped

-- `ballot_of` decodes a ballot, and the `valid` functions are `crypto::validSignature`.
module _ (ballot_of : List ℕ → Option (List Candidate)) (valid_tx : Transaction → Bool)
    (valid_block : Block → Bool) where
  -- A try of the transactions on a scratch repository.
  unfoldable pub try_all : List Transaction → Inbox → Option Refusal × Inbox
  try_all ts n =
      let (result, s) = run ballot_of ts (scratch n.back) in
      (refusal_of result, record n { back = cancel_memory_item n.back s })

  -- `preProcessTx`
  unfoldable pub pre_process_tx : Transaction → Inbox → Option Refusal × Inbox
  pre_process_tx t n =
      let (known, n1) = is_exist_tx t n in
      let (result, s) = excute ballot_of t (scratch n1.back) in
      if not (t.chain_id == n.chain_id)
      then (some wrong_chain, n)
      else if not (valid_tx t)
      then (some bad_signature, n)
      else if known
      then (some has_exist, n1)
      else (refusal_of result, record n1 { back = cancel_memory_item n1.back s })

  -- `addRPCTx`
  unfoldable pub add_rpc_tx : Transaction → Inbox → Bool × Inbox
  add_rpc_tx t n =
      let (refusal, n1) =
        pre_process_tx t (record n { history_txs = push 4096 t.hash n.history_txs }) in
      if is_exist t.hash n.history_txs then (false, n) else elim refusal [
        | some _ ↦ (false, n1)
        | none ↦ (true, record n1 { tx_cache = insert_tx t n1.tx_cache })
      ]

  -- `processTxMessage`: what is broadcast, or the exception that escapes, and the state after it.
  unfoldable pub process_tx_message : Transaction → Inbox → Result (Option Transaction) × Inbox
  process_tx_message t n =
      let (refusal, n1) =
        pre_process_tx t (record n { history_txs = push 4096 t.hash n.history_txs }) in
      if is_exist t.hash n.history_txs then (ok none, n) else elim refusal [
        | some x ↦ (caught none x, n1)
        | none ↦ (ok (some t), record n1 { tx_cache = insert_tx t n1.tx_cache })
      ]

  -- `preProcessBlock`
  unfoldable pub pre_process_block : Block → Inbox → Option Refusal × Inbox
  pre_process_block b n =
      let tried = try_all b.transactions n in
      if not (b.chain_id == n.chain_id)
      then (some wrong_chain, n)
      else if not (valid_block b)
      then (some bad_signature, n)
      else if is_exist_block b n
      then (some has_exist, n)
      else if not (check_duplicate_tx b)
      then (some has_duplicates, n)
      else tried

  -- `processSyncBlockMessage`: whether an exception escapes, and the state after it.
  unfoldable pub process_sync_block_message : Block → Inbox → Result (Unit {0}) × Inbox
  process_sync_block_message b n =
      let (refusal, n1) = pre_process_block b n in
      elim refusal [
        | some x ↦ (caught tt x, n1)
        | none ↦ (ok tt, record n1 { block_cache = insert_block b n1.block_cache })
      ]

  -- `processBlockMessage`: what is broadcast, or the exception that escapes, and the state after it.
  unfoldable pub process_block_message : Block → Inbox → Result (Option Block) × Inbox
  process_block_message b n =
      let (refusal, n1) =
        pre_process_block b (record n { history_blocks = push 8 b.hash n.history_blocks }) in
      if not (in_window n.last_number n.solidify_number b.number)
      then (ok none, n)
      else if is_exist b.hash n.history_blocks
      then (ok none, n)
      else elim refusal [
        | some x ↦ (caught none x, n1)
        | none ↦ (ok (some b), record n1 { block_cache = insert_block b n1.block_cache })
      ]

-- A message for the node, or a transaction from its RPC service.
pub data Message : Type 0 where
  rpc_tx tx : Transaction → Message
  block sync_block : Block → Message

module _ (ballot_of : List ℕ → Option (List Candidate)) (valid_tx : Transaction → Bool)
    (valid_block : Block → Bool) where
  -- The state after a message.
  abbrev pub receive : Message → Inbox → Inbox
  receive (rpc_tx t) n = (add_rpc_tx ballot_of valid_tx valid_block t n).1
  receive (tx t) n = (process_tx_message ballot_of valid_tx valid_block t n).1
  receive (block b) n = (process_block_message ballot_of valid_tx valid_block b n).1
  receive (sync_block b) n = (process_sync_block_message ballot_of valid_tx valid_block b n).1

  abbrev pub receive_all : List Message → Inbox → Inbox
  receive_all [] n = n
  receive_all (m ∷ ms) n = receive_all ms (receive m n)
