-- ===== src/Chain/Node.antt =====
-- The whole of `doProcessBlock` of chain/BlockChain.cpp: the execution of a block, with the records of the
-- producers, the node's confirmation and the terms that begin.
pub mod Executed
pub mod Processed
pub mod Slot
mod Examples
use gsenetwork.Prelude.{
  ℕ, ◌%◌, List, [], ◌∷◌, Bool, true, false, Option, none, some, ◌==◌, if◌then◌else◌,
}
use gsenetwork.Prelude.Int.{ℤ}
use gsenetwork.Prelude.Map.{Map}
use gsenetwork.Prelude.Action.{ok, err}
use gsenetwork.Core.Transaction.{Transaction, Candidate}
use gsenetwork.Core.Snapshot.{ProducerSnapshot, clear}
use gsenetwork.Core.Block.{Block}
use gsenetwork.Schedule.{get_current_producer_list}
use gsenetwork.Storage.Database.{db_producer}
use gsenetwork.Storage.Repository.{Repository, bonus}
use gsenetwork.Runtime.{run}
use gsenetwork.Wire.Rlp.{Rlp}
use gsenetwork.Chain.BlockState.{HeaderConfirmation}
use gsenetwork.Chain.Rollback.{RollbackState, add_header}
use gsenetwork.Chain.Admission.{Gate, note_block, update_producer_record}
use gsenetwork.Chain.Caches.{erase_solicited_tx}
use gsenetwork.Chain.Execute.{back_db}
use gsenetwork.Chain.Execute.{
  Back, item, any_exists, add_memory_item, cancel_memory_item, block_bonus,
}
use gsenetwork.Chain.Terms.{Terms, get_producer_list_from_repo, schedule}
use gsenetwork.Chain.Active.{update_active_producers}

-- The fields of `BlockChain` that `doProcessBlock` uses, and what the node has sent.
pub record Node : Type 0 where
  -- m_chainID and the address of m_key
  pub chain_id : ℕ
  pub key : ℕ
  -- the back of the memory queue
  pub back : Back
  pub terms : Terms
  pub producer_record : Map ℤ
  pub schedule_update_timestamp : ℤ
  pub active : ProducerSnapshot
  pub rollback : RollbackState
  pub tx_cache : List Transaction
  pub latest_number : ℕ
  pub latest_block : Block
  pub sent : List HeaderConfirmation

-- What `checkProducer` reads, and what `note_block` and `updateProducerRecord` change.
abbrev pub gate : Node → Gate
gate n = record {
  producer_record = n.producer_record;
  schedule_update_timestamp = n.schedule_update_timestamp;
  schedule = n.terms.schedule;
}

-- Each block of this many rounds begins a term: NUM_DELEGATED_BLOCKS * SCHEDULE_UPDATE_ROUNDS.
abbrev pub term_length : ℕ
term_length = 140

-- What follows `schedule` where a block begins a term.
abbrev pub enter_term : Block → Terms → Node → Node
enter_term b terms n = record n {
  terms = terms;
  active = clear n.active;
  producer_record =
      (update_producer_record (record (gate n) { schedule = terms.schedule })).producer_record;
  schedule_update_timestamp = b.timestamp;
}

-- `sign` is the signature of a confirmation by the node's key, and `ballot_of` decodes a ballot.
module _ (ballot_of : List ℕ → Option (List Candidate)) (sign : HeaderConfirmation → ℕ)
    (r : Rlp) where
  -- The confirmation of a block.
  abbrev pub own_confirmation : Block → Node → HeaderConfirmation
  own_confirmation b n =
      let c : HeaderConfirmation = record {
        chain_id = n.chain_id;
        number = b.number;
        block_id = b.hash;
        timestamp = b.timestamp;
        producer = n.key;
        signature = 0;
      } in
      record c { signature = sign c }

  -- A block that came by a synchronisation is not confirmed.
  abbrev pub confirm_own : Block → Node → Node
  confirm_own b n = if b.sync_block then n else record n {
    rollback = add_header (own_confirmation b n) n.rollback;
    sent = own_confirmation b n ∷ n.sent;
  }

  -- The block that begins a term, over the repository of its item; `none` where `schedule` throws.
  unfoldable pub begin_term : Block → Repository → Node → Option Node
  begin_term b s n =
      if b.number % term_length == 0
      then elim (schedule r (get_producer_list_from_repo (item s)) b.timestamp n.terms) [
        | none ↦ none
        | some terms ↦ some (enter_term b terms n)
      ]
      else some n

  -- The end, behind the bonus of the producer.
  abbrev pub settle : Block → Repository → Node → Node
  settle b s n = record n {
    back = item s;
    tx_cache = erase_solicited_tx b.transactions n.tx_cache;
    latest_number = b.number;
    latest_block = b;
  }

  -- The block is known to be new, and its producer's record is made: the execution and what follows.
  unfoldable pub execute : Block → Node → Option (Bool × Node)
  execute b n =
      let (result, s) = run ballot_of b.transactions (add_memory_item b n.back) in
      let (paid, s') = bonus b.producer (block_bonus b.timestamp) s in
      elim result [
        | err _ ↦ some (false, record n { back = cancel_memory_item n.back s })
        | ok _ ↦ elim (begin_term b s (confirm_own b n)) [
          | none ↦ none
          | some n1 ↦ elim paid [
            | err _ ↦ some (false, record n1 { back = cancel_memory_item n.back s' })
            | ok _ ↦ some (true, settle b s' n1)
          ]
        ]
      ]

  -- `doProcessBlock`: whether the block was executed, and the node after it. `before` is the block that
  -- `getBlockByNumber` gives for the number below. `none` where the source reads beyond the list of
  -- producers, or an exception that it does not catch leaves it.
  unfoldable pub do_process_block : Block → Block → Node → Option (Bool × Node)
  do_process_block before b n =
      let (found, back) = any_exists b.transactions n.back in
      if found
      then some (false, record n { back = back })
      else elim (update_active_producers before (db_producer (back_db back) b.producer)
          (get_current_producer_list n.terms.schedule) b n.active) [
            | none ↦ none
            | some active ↦ execute b (record n {
              back = back;
              active = active;
              producer_record = (note_block b (gate n)).producer_record;
            })
          ]
