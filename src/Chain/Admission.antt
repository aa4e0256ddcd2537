-- ===== src/Chain/Admission.antt =====
-- chain/BlockChain.cpp: which blocks are let in. The duplicates among a block's transactions, and the
-- turn of its producer.
pub mod Duplicates
pub mod Slot
mod Examples
use gsenetwork.Prelude.{
  ℕ, List, [], ◌∷◌, Bool, true, false, not, Option, none, some, ◌==◌, if◌then◌else◌, length, map,
}
use gsenetwork.Prelude.Int.{ℤ, pos}
use gsenetwork.Prelude.Map.{Map, lookup, insert}
use gsenetwork.Core.Producer.{Producer}
use gsenetwork.Core.Transaction.{Transaction}
use gsenetwork.Core.Block.{Block}
use gsenetwork.Schedule.{Schedule, get_address, get_current_producer_list}
use gsenetwork.Slots.{position, slot_taken}

-- A std::set of hashes is a map to nothing.
abbrev pub insert_all : List ℕ → Map (Unit {0}) → Map (Unit {0})
insert_all [] m = m
insert_all (h ∷ hs) m = insert_all hs (insert h tt m)

abbrev pub hashes : List Transaction → List ℕ
hashes [] = []
hashes (t ∷ ts) = t.hash ∷ hashes ts

-- `checkDuplicateTx`
abbrev pub check_duplicate_tx : Block → Bool
check_duplicate_tx b = length (insert_all (hashes b.transactions) []) == length b.transactions

-- The fields of `BlockChain` that `checkProducer` reads; the schedule stands behind `m_messageFace`.
pub record Gate : Type 0 where
  pub producer_record : Map ℤ
  pub schedule_update_timestamp : ℤ
  pub schedule : Schedule

-- `checkProducer`
unfoldable pub check_producer : Block → Gate → Bool
check_producer b g =
    if not (b.producer == get_address (position b.timestamp) g.schedule)
    then false
    else if elim (lookup b.producer g.producer_record) [
      | none ↦ false
      | some last ↦ slot_taken b.timestamp last
    ]
    then false
    else if slot_taken b.timestamp g.schedule_update_timestamp
    then false
    else true

-- `m_producerRecord[producer] = timestamp` in `doProcessBlock`
abbrev pub note_block : Block → Gate → Gate
note_block b g = record g { producer_record = insert b.producer b.timestamp g.producer_record }

-- The loop of `updateProducerRecord`: `m_producerRecord[address]` is 0 for a missing address.
abbrev pub keep_records : List Producer → Map ℤ → Map ℤ → Map ℤ
keep_records [] old new = new
keep_records (p ∷ ps) old new =
    keep_records ps old
      (insert p.address (elim (lookup p.address old) [ none ↦ pos 0 | some t ↦ t ]) new)

-- `updateProducerRecord`
abbrev pub update_producer_record : Gate → Gate
update_producer_record g = record g {
  producer_record = keep_records (get_current_producer_list g.schedule) g.producer_record [];
}
