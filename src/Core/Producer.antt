-- ===== src/Core/Producer.antt =====
-- core/Producer.cpp: a block producer and the votes it holds.
pub mod Tally
use gsenetwork.Prelude.{
  ℕ, [], Bool, true, false, ◌&&◌, Option, none, some, ltb, ◌==◌, add64, sub64, if◌then◌else◌,
}
use gsenetwork.Prelude.Int.{ℤ, pos, ◌==ℤ◌}
use gsenetwork.Prelude.Map.{Map, lookup, insert, erase}

pub record Producer : Type 0 where
  pub address : ℕ
  pub timestamp : ℤ
  pub votes : ℕ
  pub voters : Map ℕ

-- The global `EmptyProducer`: static storage, so its numbers are zero.
abbrev pub empty_producer : Producer
empty_producer = record { address = 0; timestamp = pos 0; votes = 0; voters = [] }

-- `Producer(Address, int64_t timestamp)`
abbrev pub new_producer : ℕ → ℤ → Producer
new_producer a t = record { address = a; timestamp = t; votes = 0; voters = [] }

-- `operator==`
unfoldable pub producer_eq : Producer → Producer → Bool
producer_eq p q = p.address == q.address && p.timestamp ==ℤ q.timestamp

-- `operator>`
abbrev pub producer_gt : Producer → Producer → Bool
producer_gt p q =
    if ltb q.votes p.votes
    then true
    else if p.votes == q.votes
    then ltb q.address p.address
    else false

abbrev pub set_votes : ℕ → Producer → Producer
set_votes v p = record p { votes = v }

unfoldable pub add_voter : ℕ → ℕ → Producer → Producer
add_voter voter value p = record p {
  voters = insert voter value p.voters;
  votes = add64 p.votes value;
}

unfoldable pub erase_voter : ℕ → Producer → Producer
erase_voter voter p = elim (lookup voter p.voters) [
  | none ↦ p
  | some value ↦ record p { votes = sub64 p.votes value; voters = erase voter p.voters }
]
