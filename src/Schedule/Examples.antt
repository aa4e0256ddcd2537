-- ===== src/Schedule/Examples.antt =====
-- The theorems on producer/Schedule.cpp at a schedule of three producers.
use gsenetwork.Prelude.{ℕ, [], ◌∷◌, List, ◌≡◌, refl}
use gsenetwork.Prelude.Int.{pos}
use mathlib.Core.List.{Perm}
use gsenetwork.Core.Producer.{Producer, new_producer}
use gsenetwork.Schedule.{Schedule, schedule, insert_sorted, sort, producer_sort, retire, enter}
use gsenetwork.Schedule.Order.{IsOrdered, schedule_orders}

abbrev named : ℕ → ℕ → Producer
named a v = record (new_producer a (pos 3)) { votes = v }

abbrev old : Schedule
old = record {
  prev_timestamp = pos 0;
  prev_producers = [];
  current_timestamp = pos 3;
  current_producers = named 4 10 ∷ named 5 8 ∷ named 6 9 ∷ [];
}

abbrev voted : List Producer
voted = named 8 1 ∷ named 9 7 ∷ named 7 7 ∷ []

-- The most voted first, the higher address before the lower.
sorted : (schedule voted (pos 9) old).current_producers ≡ named 9 7 ∷ named 7 7 ∷ named 8 1 ∷ []
unfolding schedule insert_sorted sort producer_sort retire enter
sorted = refl

schedule_orders_example :
    let s' = schedule voted (pos 9) old in
    IsOrdered s'.current_producers
    × Perm s'.current_producers voted
    × IsOrdered s'.prev_producers
    × Perm s'.prev_producers (named 4 10 ∷ named 5 8 ∷ named 6 9 ∷ [])
schedule_orders_example = schedule_orders voted (pos 9) old
