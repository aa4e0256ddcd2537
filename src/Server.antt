-- ===== src/Server.antt =====
-- producer/ProducerServer.cpp: when the node makes a block, and what is in it.
pub mod Turn
pub mod Control
mod Examples
use gsenetwork.Prelude.{
  ℕ, ◌+◌, List, [], ◌∷◌, ◌++◌, Bool, true, false, not, ◌&&◌, ◌||◌, Option, none, some, ltb, ◌==◌,
  if◌then◌else◌, length, ◌≤◌, u64, take,
}
use gsenetwork.Prelude.Int.{ℤ, pos, pos_part, ◌-ℤ◌, ltb_ℤ, leb_ℤ}
use gsenetwork.Core.Transaction.{Transaction}
use gsenetwork.Core.Block.{Block, block_eq, empty_block}
use gsenetwork.Schedule.{Schedule, get_address}
use gsenetwork.Slots.{position, slot_taken}

pub data ProducerState : Type 0 where
  ready running suspended stopped undefined : ProducerState

-- `BlockChainStatus`
pub data ChainStatus : Type 0 where
  normal_status sync_status producer_status killed : ChainStatus

abbrev pub is_producer_status : ChainStatus → Bool
is_producer_status producer_status = true
is_producer_status _ = false

pub record Server : Type 0 where
  pub chain_id : ℕ
  -- the address of the node's key
  pub key : ℕ
  pub state : ProducerState
  pub schedule : Schedule
  pub prev_timestamp : ℤ

-- What the event handler answers.
pub record Handler : Type 0 where
  pub last_block : Block
  pub status : ChainStatus
  -- `checkTransactionNotExisted`
  pub not_existed : ℕ → Bool

unfoldable pub check_timestamp : Server → Handler → ℤ → Bool
check_timestamp s h t =
    if slot_taken t s.prev_timestamp
    then false
    else if slot_taken t h.last_block.timestamp
    then false
    else true

unfoldable pub check_producer : Server → Handler → ℤ → Bool
check_producer s h t =
    if ltb_ℤ t s.prev_timestamp
    then false
    else if s.key == get_address (position t) s.schedule
    then check_timestamp s h t && is_producer_status h.status
    else false

-- MAX_TRANSACTIONS_PER_BLOCK
abbrev pub max_transactions : ℕ
max_transactions = 400

-- The loop over what `getTransactionFromCache` returns.
unfoldable pub collect : (ℕ → Bool) → List (Option Transaction) → List Transaction
collect fresh [] = []
collect fresh (none ∷ rest) = collect fresh rest
collect fresh (some t ∷ rest) =
    let others = collect fresh rest in if fresh t.hash then t ∷ others else others

-- `timestampEnd - timestamp < PRODUCER_INTERVAL * 3 / 10`, unsigned.
unfoldable pub in_time : ℤ → ℤ → Bool
in_time start end = leb_ℤ start end && ltb (pos_part (end -ℤ start)) 600

-- The block that `doWork` makes; its hash comes with the roots and the signature.
abbrev pub new_block : (Block → ℕ) → Server → Handler → ℤ → List Transaction → Block
new_block hash_of s h t txs =
    let b : Block = record {
      hash = 0;
      chain_id = s.chain_id;
      producer = s.key;
      parent_hash = h.last_block.hash;
      number = h.last_block.number + 1;
      timestamp = t;
      transactions = txs;
      sync_block = false;
    } in
    record b { hash = hash_of b }

-- `doWork` at the time `t`, ending at the time `end`: the new state and the block that is broadcast.
-- `hash_of` gives the hash of a block, `pulled` what the calls of the cache return, of which
-- there are as many as a block may hold transactions.
unfoldable pub do_work :
    (Block → ℕ) → Handler → ℤ → ℤ → List (Option Transaction) → Server → Server × Option Block
do_work hash_of h t end pulled s =
    if check_producer s h t
    then (
      record s { prev_timestamp = t },
      if block_eq h.last_block empty_block || not (in_time t end)
          then none
          else some
              (new_block hash_of s h t (collect h.not_existed (take max_transactions pulled))),
    )
    else (s, none)

-- `start`, `suspend` and `stop`, on the state of the server.
unfoldable pub start : Server → Server
start s = s

unfoldable pub suspend : Server → Server
suspend s = elim s.state [ running ↦ record s { state = suspended } | _ ↦ s ]

unfoldable pub stop : Server → Server
stop s = record s { state = stopped }
