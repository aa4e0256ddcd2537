-- ===== src/Schedule.antt =====
-- producer/Schedule.cpp: the order in which producers take their turns.
pub mod Order
pub mod Turns
mod Examples
use gsenetwork.Prelude.{
  ℕ, zero, suc, ◌+◌, List, [], ◌∷◌, ◌++◌, Bool, true, false, ◌||◌, Option, none, some, ltb, leb,
  ◌==◌, if◌then◌else◌, length, get_elem?,
}
use gsenetwork.Prelude.Int.{ℤ}
use gsenetwork.Core.Producer.{Producer, producer_gt}
use gsenetwork.Core.Snapshot.{ProducerSnapshot, add_producer}

-- NUM_DELEGATED_BLOCKS
abbrev pub delegated : ℕ
delegated = 7

pub record Schedule : Type 0 where
  pub prev_timestamp : ℤ
  pub prev_producers : List Producer
  pub current_timestamp : ℤ
  pub current_producers : List Producer

-- `std::sort` with `ProducerCompareLess`, which puts the larger producer first.
unfoldable pub insert_sorted : Producer → List Producer → List Producer
insert_sorted p [] = p ∷ []
insert_sorted p (q ∷ qs) = if producer_gt q p then q ∷ insert_sorted p qs else p ∷ q ∷ qs

unfoldable pub sort : List Producer → List Producer
unfolding insert_sorted
sort [] = []
sort (p ∷ ps) = insert_sorted p (sort ps)

-- `producerSort`
unfoldable pub producer_sort : Schedule → Schedule
producer_sort s = record s {
  prev_producers = sort s.prev_producers;
  current_producers = sort s.current_producers;
}

-- The current list becomes the previous one, if there is one.
unfoldable pub retire : Schedule → Schedule
retire s = elim s.current_producers [
  | [] ↦ record s { prev_producers = [] }
  | _ ∷ _ ↦ record s {
    prev_producers = s.current_producers;
    prev_timestamp = s.current_timestamp;
    current_producers = [];
  }
]

-- The loop over the new list, which sets the time once for each producer.
unfoldable pub enter : List Producer → ℤ → Schedule → Schedule
enter [] t s = s
enter (p ∷ ps) t s =
    enter ps t
      (record s { current_timestamp = t; current_producers = s.current_producers ++ p ∷ [] })

-- `schedule(ProducersConstRef, int64_t)`
unfoldable pub schedule : List Producer → ℤ → Schedule → Schedule
unfolding retire enter producer_sort
schedule ps t s = producer_sort (enter ps t (retire s))

-- The loop of `getProducerSnapshot`: `count` producers have been taken.
unfoldable pub snapshot_from : ℕ → List Producer → ProducerSnapshot → ProducerSnapshot
snapshot_from count [] ps = ps
snapshot_from count (p ∷ rest) ps =
    let wanted = ltb count delegated in
    snapshot_from (if wanted then count + 1 else count) rest
      (if wanted then add_producer p ps else ps)

unfoldable pub get_producer_snapshot : Schedule → ProducerSnapshot
unfolding snapshot_from
get_producer_snapshot s =
    snapshot_from 0 s.current_producers (record { timestamp = s.current_timestamp; producers = [] })

-- `getAddress`: the zero address beyond the list or the turns of a round.
unfoldable pub get_address : ℕ → Schedule → ℕ
get_address i s =
    if leb (length s.current_producers) i || leb delegated i
    then 0
    else elim (get_elem? s.current_producers i) [ none ↦ 0 | some p ↦ p.address ]

-- The loop of `getCurrentProducerList`.
unfoldable pub list_from : ℕ → List Producer → List Producer
list_from count [] = []
list_from count (p ∷ ps) =
    let rest = list_from (if ltb count delegated then count + 1 else count) ps in
    if ltb count delegated then p ∷ rest else rest

unfoldable pub get_current_producer_list : Schedule → List Producer
unfolding list_from
get_current_producer_list s = list_from 0 s.current_producers
