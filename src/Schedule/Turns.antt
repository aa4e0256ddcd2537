-- ===== src/Schedule/Turns.antt =====
-- On the queries of producer/Schedule.cpp: the producers that have a turn.
use gsenetwork.Prelude.{
  ℕ, zero, suc, ◌+◌, ◌≤◌, List, [], ◌∷◌, ◌||◌, none, some, ◌≡◌, refl, arith, if◌then◌else◌, leb,
  length, get_elem?, take,
}
use gsenetwork.Core.Producer.{Producer}
use gsenetwork.Core.Snapshot.{ProducerSnapshot, has_address, is_exist, size, add_producer}
use gsenetwork.Core.Snapshot.Distinct.{
  IsDistinct, add_producer-IsDistinct, is_exist-add_producer, size-add_producer,
}
use gsenetwork.Schedule.{
  Schedule, delegated, snapshot_from, get_producer_snapshot, get_address, list_from,
  get_current_producer_list,
}

-- The turns that are left once `count` producers have theirs.
list_from-take :
    (left count : ℕ) (ps : List Producer)
    → count + left ≡ delegated
    → list_from count ps ≡ take left ps
unfolding list_from
list_from-take zero count [] e = refl
list_from-take zero count (p ∷ ps) e = ground (arith, list_from-take zero count ps)
list_from-take (suc left) count [] e = refl
list_from-take (suc left) count (p ∷ ps) e = ground (arith, list_from-take left (count + 1) ps)

-- `getCurrentProducerList` gives the first seven of the current list.
pub get_current_producer_list_lem :
    (s : Schedule) → get_current_producer_list s ≡ take 7 s.current_producers
unfolding get_current_producer_list
get_current_producer_list_lem s = list_from-take 7 0 s.current_producers refl

snapshot_lem :
    (a left count : ℕ) (ps : List Producer) (s : ProducerSnapshot)
    → count + left ≡ delegated
    → size s ≤ count
    → IsDistinct s.producers
    → let t = snapshot_from count ps s in
      (size t ≤ delegated)
      × IsDistinct t.producers
      × (is_exist a t ≡ (is_exist a s || has_address a (take left ps)))
unfolding snapshot_from
snapshot_lem a zero count [] s e h d = (omega arith, d, ground arith)
snapshot_lem a zero count (p ∷ ps) s e h d = ground (arith, snapshot_lem a zero count ps s e h d)
snapshot_lem a (suc left) count [] s e h d = (omega arith, d, ground arith)
snapshot_lem a (suc left) count (p ∷ ps) s e h d = ground (
  arith,
  snapshot_lem a left (count + 1) ps (add_producer p s) (omega arith)
      (omega (arith, size-add_producer p s)) (add_producer-IsDistinct p s d),
  is_exist-add_producer a p s,
)

-- The snapshot holds at most seven producers and none twice, and its addresses are those of the first
-- seven of the current list.
pub get_producer_snapshot_lem :
    (s : Schedule)
    → let t = get_producer_snapshot s in
      (size t ≤ 7)
      × IsDistinct t.producers
      × ((a : ℕ) → is_exist a t ≡ has_address a (take 7 s.current_producers))
unfolding get_producer_snapshot
get_producer_snapshot_lem s =
    let start : ProducerSnapshot = record { timestamp = s.current_timestamp; producers = [] } in
    let facts = λ (a : ℕ). snapshot_lem a 7 0 s.current_producers start refl (omega arith) tt in
    ((facts 0).0, (facts 0).1, λ a. (facts a).2)

get_elem?-take :
    (n i : ℕ) (ps : List Producer)
    → get_elem? (take n ps) i ≡ (if leb (length ps) i || leb n i then none else get_elem? ps i)
get_elem?-take zero i ps = ground arith
get_elem?-take (suc n) i [] = ground arith
get_elem?-take (suc n) zero (p ∷ ps) = ground arith
get_elem?-take (suc n) (suc i) (p ∷ ps) = ground (arith, get_elem?-take n i ps)

-- `getAddress` gives the address at a position of the list that `getCurrentProducerList` gives, and
-- the zero address at a position beyond it.
pub get_address_lem :
    (i : ℕ) (s : Schedule)
    → get_address i s
      ≡ elim (get_elem? (get_current_producer_list s) i) [ none ↦ 0 | some p ↦ p.address ]
unfolding get_address
get_address_lem i s =
    rw (get_current_producer_list_lem s, get_elem?-take 7 i s.current_producers) (ground arith)
