-- ===== src/Chain/BlockState.antt =====
-- chain/BlockState.cpp: a block with the confirmations that producers sent for it.
pub mod Tally
mod Examples
use gsenetwork.Prelude.{
  ℕ, ◌+◌, ◌*◌, ◌/◌, ◌%◌, List, [], ◌∷◌, ◌++◌, Bool, true, false, not, ◌&&◌, ◌||◌, leb, ◌==◌,
  if◌then◌else◌, length,
}
use gsenetwork.Prelude.Int.{ℤ, ◌==ℤ◌}
use gsenetwork.Core.Snapshot.{ProducerSnapshot, is_exist, size}
use gsenetwork.Core.Block.{Block}

pub record HeaderConfirmation : Type 0 where
  pub chain_id : ℕ
  pub number : ℕ
  pub block_id : ℕ
  pub timestamp : ℤ
  pub producer : ℕ
  pub signature : ℕ

-- `operator==`: the signature is not compared, the timestamp is.
unfoldable pub confirmation_eq : HeaderConfirmation → HeaderConfirmation → Bool
confirmation_eq c d =
    c.chain_id == d.chain_id
    && c.number == d.number
    && c.block_id == d.block_id
    && c.timestamp ==ℤ d.timestamp
    && c.producer == d.producer

pub record BlockState : Type 0 where
  pub block : Block
  pub block_number : ℕ
  pub block_id : ℕ
  pub bft_solidify_block_number : ℕ
  pub validated : Bool
  pub in_current_chain : Bool
  pub active_producers : ProducerSnapshot
  -- a uint8_t
  pub confirm_count : ℕ
  pub confirmations : List HeaderConfirmation

-- `BlockState(core::Block&)`. No constructor sets the count or the snapshot: the count is whatever the
-- memory held, an argument here, and the snapshot is a new one.
abbrev pub new_block_state : ℕ → ProducerSnapshot → Block → BlockState
new_block_state count ps b = record {
  block = b;
  block_number = b.number;
  block_id = b.hash;
  bft_solidify_block_number = 0;
  validated = false;
  in_current_chain = false;
  active_producers = ps;
  confirm_count = count;
  confirmations = [];
}

-- `operator==`
abbrev pub block_state_eq : BlockState → BlockState → Bool
block_state_eq a b =
    a.block_number == b.block_number
    && a.block_id == b.block_id
    && size a.active_producers == size b.active_producers
    && a.confirm_count == b.confirm_count

-- `getPrev`
abbrev pub prev : BlockState → ℕ
prev bs = bs.block.parent_hash

abbrev pub set_producer_snapshot : ProducerSnapshot → BlockState → BlockState
set_producer_snapshot ps bs = record bs { active_producers = ps }

-- `std::find` over the confirmations
abbrev pub has_confirmation : HeaderConfirmation → List HeaderConfirmation → Bool
has_confirmation c [] = false
has_confirmation c (d ∷ ds) = if confirmation_eq d c then true else has_confirmation c ds

unfoldable pub add_confirmation : HeaderConfirmation → BlockState → BlockState
add_confirmation c bs =
    if not (c.number == bs.block_number) || not (c.block_id == bs.block_id)
    then bs
    else if not (is_exist c.producer bs.active_producers)
    then bs
    else if has_confirmation c bs.confirmations
    then bs
    else record bs {
      confirm_count = (bs.confirm_count + 1) % 256;
      confirmations = bs.confirmations ++ c ∷ [];
    }

-- The threshold that `isSolidified` and `RollbackState::add` compare with.
abbrev pub threshold : BlockState → ℕ
threshold bs = size bs.active_producers * 2 / 3

abbrev pub is_solidified : BlockState → Bool
is_solidified bs =
    if size bs.active_producers == 0 then false else leb (threshold bs) bs.confirm_count
