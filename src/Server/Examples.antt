-- ===== src/Server/Examples.antt =====
-- The theorems on producer/ProducerServer.cpp at the turn of one of two producers.
use gsenetwork.Prelude.{
  ◌+◌, ◌≤◌, ◌<◌, ◌↔◌, ◌⊎◌, false, [], ◌∷◌, true, ◌≡◌, refl, arith, none, some, All, length, Option,
  List,
}
use gsenetwork.Prelude.Int.{pos}
use gsenetwork.Core.Producer.{new_producer}
use gsenetwork.Core.Transaction.{Transaction, empty_transaction}
use gsenetwork.Core.Block.{Block, empty_block}
use gsenetwork.Schedule.{Schedule, get_address, get_current_producer_list, list_from}
use gsenetwork.Slots.{slot, position, slot_taken, slice}
use gsenetwork.Server.{
  Server, Handler, ready, producer_status, check_timestamp, check_producer, collect, do_work,
  new_block, in_time,
}
use gsenetwork.Server.Turn.{do_work_once, do_work_makes}

abbrev turns : Schedule
turns = record {
  prev_timestamp = pos 0;
  prev_producers = [];
  current_timestamp = pos 0;
  current_producers = new_producer 6 (pos 0) ∷ new_producer 7 (pos 0) ∷ [];
}

abbrev node : Server
node = record {
  chain_id = 1;
  key = 7;
  state = ready;
  schedule = turns;
  prev_timestamp = pos 1538352000000;
}

abbrev handler : Handler
handler = record {
  last_block = record empty_block { hash = 55; number = 3; timestamp = pos 1538352000000 };
  status = producer_status;
  not_existed = λ _. true;
}

abbrev made : Block
made =
    new_block (λ _. 56) node handler (pos 1538352002500)
      (record empty_transaction { hash = 9 } ∷ [])

abbrev pulled : List (Option Transaction)
pulled = some (record empty_transaction { hash = 9 }) ∷ none ∷ []

turn : (do_work (λ _. 56) handler (pos 1538352002500) (pos 1538352002600) pulled node).1 ≡ some made
unfolding do_work check_producer check_timestamp collect in_time slot_taken slice position
    get_address get_current_producer_list list_from
turn = refl

do_work_once_example :
    (do_work
      (λ _. 56)
      handler
      (pos 1538352003999)
      (pos 1538352004000)
      pulled
      (do_work (λ _. 56) handler (pos 1538352002500) (pos 1538352002600) pulled node).0).1
    ≡ none
do_work_once_example =
    do_work_once (λ _. 56) handler handler 1538352002500 1538352002600 1538352003999 1538352004000
      pulled pulled node made (omega arith) (omega arith) (omega arith) turn

do_work_makes_example :
    let o = (do_work (λ _. 56) handler (pos 1538352002500) (pos 1538352002600) pulled node).1 in
    ((o ≡ some made) ↔ (
      (1538352000000 ≤ 1538352002500)
      × (7 ≡ get_address (position (pos 1538352002500)) turns)
      × (slot 1538352000000 < slot 1538352002500)
      × (slot 1538352000000 < slot 1538352002500)
      × (true ≡ true)
      × (false ≡ false)
      × (1538352002500 ≤ 1538352002600)
      × (1538352002600 < 1538352002500 + 600)))
    × ((o ≡ some made) ⊎ (o ≡ none))
    × All (λ t. handler.not_existed t.hash ≡ true) made.transactions
    × (length made.transactions ≤ 400)
unfolding collect
do_work_makes_example =
    do_work_makes (λ _. 56) handler 1538352002500 1538352002600 1538352000000 1538352000000 pulled
      node refl refl (omega arith) (omega arith) (omega arith)
