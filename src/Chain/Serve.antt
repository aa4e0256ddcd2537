-- ===== src/Chain/Serve.antt =====
-- chain/BlockChain.cpp: the blocks that the node has, and its answers to the status messages of others.
pub mod Reply
mod Examples
use gsenetwork.Prelude.{
  ℕ, zero, suc, ◌+◌, ◌-◌, List, [], ◌∷◌, ◌++◌, Bool, true, false, not, ◌&&◌, Option, none, some,
  ltb, leb, ◌==◌, if◌then◌else◌,
}
use gsenetwork.Prelude.Map.{Map, lookup}
use gsenetwork.Core.Block.{Block, empty_block, block_eq}
use gsenetwork.Storage.Database.{Database}
use gsenetwork.Chain.BlockState.{BlockState, block_state_eq, is_solidified}
use gsenetwork.Chain.Rollback.{RollbackState}
use gsenetwork.Chain.Rollback

-- The fields of `BlockChain` that these functions read, and the store of block states by number.
pub record Archive : Type 0 where
  pub latest_number : ℕ
  pub rollback : RollbackState
  -- the blocks of the memory queue, the front first
  pub queue : List Block
  pub db : Database
  pub state_index : Map BlockState

-- `DatabaseController::getBlock(uint64_t)`
abbrev pub db_block_at : ℕ → Database → Block
db_block_at n db = elim (lookup n db.block_index) [ none ↦ empty_block | some b ↦ b ]

-- The loop over the memory queue.
abbrev pub find_in_queue : ℕ → List Block → Option Block
find_in_queue n [] = none
find_in_queue n (b ∷ bs) = if b.number == n then some b else find_in_queue n bs

-- The number at the back, or the given one.
abbrev pub last_number : ℕ → List Block → ℕ
last_number k [] = k
last_number k (b ∷ bs) = last_number b.number bs

-- The test against the numbers at both ends, and the loop.
abbrev pub queued : ℕ → List Block → Option Block
queued n [] = none
queued n (b ∷ bs) =
    if leb b.number n && leb n (last_number b.number bs) then find_in_queue n (b ∷ bs) else none

-- `getBlockByNumber`
unfoldable pub get_block_by_number : ℕ → Archive → Block
get_block_by_number n a =
    if ltb a.latest_number n
    then empty_block
    else if leb n a.rollback.solidify_number
    then db_block_at n a.db
    else elim (queued n a.queue) [ some b ↦ b | none ↦ db_block_at n a.db ]

-- `getBlockStateByNumber`; `empty` is the global `EmptyBlockState`.
unfoldable pub get_block_state_by_number : BlockState → ℕ → Archive → BlockState
get_block_state_by_number empty n a =
    let stored : BlockState = elim (lookup n a.state_index) [ none ↦ empty | some s ↦ s ] in
    if leb a.rollback.solidify_number n
    then elim (gsenetwork.Chain.Rollback.get_block_by_number n a.rollback) [
      | some s ↦ s
      | none ↦ stored
    ]
    else stored

-- `maxPacketSize`
abbrev pub max_packet_size : ℕ
max_packet_size = 55000

-- `operator=` of a block state, which appends the confirmations to those that are there.
abbrev pub assign_state : BlockState → BlockState → BlockState
assign_state old bs = record bs { confirmations = old.confirmations ++ bs.confirmations }

-- The block state that goes with the block of a number: if it is solidified, it is assigned to the one
-- before.
unfoldable pub offered : BlockState → ℕ → Archive → BlockState → BlockState
offered empty i a old =
    let bs = get_block_state_by_number empty (if ltb i 11 then i else i - 10) a in
    if not (block_state_eq bs empty) && is_solidified bs then assign_state old bs else old

-- The loop of `SyncBlocks`, with `n` numbers left from `i` on, the size so far and the state so far.
-- `size` is that of a block's RLP data.
unfoldable pub collect :
    (Block → ℕ) → BlockState → ℕ → ℕ → ℕ → BlockState → Archive → List Block × BlockState
collect size empty zero i total state a = ([], state)
collect size empty (suc n) i total state a =
    let b = get_block_by_number i a in
    let rest = collect size empty n (i + 1) (total + size b) (offered empty i a state) a in
    if block_eq b empty_block
    then ([], state)
    else if leb max_packet_size (total + size b)
    then ([], state)
    else (b ∷ rest.0, rest.1)

-- What `processStatusMessage` sends back.
pub data Answer : Type 0 where
  reply_height : ℕ → Answer
  reply_blocks : List Block → Answer
  block_state : BlockState → Answer

-- The block state is sent unless it is the empty one.
abbrev pub state_answer : BlockState → BlockState → List Answer
state_answer empty s = if not (block_state_eq s empty) then block_state s ∷ [] else []

-- `SyncBlocks`: the blocks of the range, and the block state unless it is the empty one.
unfoldable pub sync_blocks : (Block → ℕ) → BlockState → ℕ → ℕ → Archive → List Answer
sync_blocks size empty start end a =
    let found = collect size empty (end + 1 - start) start 0 empty a in
    if ltb start end && leb end a.latest_number
    then reply_blocks found.0 ∷ state_answer empty found.1
    else []

-- `GetHeight`
abbrev pub get_height : Archive → List Answer
get_height a = reply_height a.latest_number ∷ []
