-- ===== src/Core/Producer/Tally.antt =====
-- On core/Producer.cpp: how `m_votes` of a producer relates to the votes in `m_voters`.
use gsenetwork.Prelude.{
  ℕ, ◌+◌, ◌%◌, ◌≡◌, [], ◌∷◌, ◌<◌, none, some, arith, u64, Option-cases, inl, inr,
}
use gsenetwork.Prelude.Map.{Map, lookup, insert, erase, Above, lookup_below}
use gsenetwork.Core.Producer.{Producer, add_voter, erase_voter}

abbrev pub sum : Map ℕ → ℕ
sum [] = 0
sum ((_, v) ∷ m) = v + sum m

-- What the map holds for a voter, 0 for none.
abbrev pub held : ℕ → Map ℕ → ℕ
held k m = elim (lookup k m) [ none ↦ 0 | some v ↦ v ]

sum-insert : (b k v : ℕ) (m : Map ℕ) → Above b m → sum (insert k v m) + held k m ≡ sum m + v
sum-insert b k v [] s = omega arith
sum-insert b k v ((j, w) ∷ m) s = ground (arith, sum-insert (j + 1) k v m, lookup_below (j + 1) k m)

sum-erase : (k : ℕ) (m : Map ℕ) → sum (erase k m) + held k m ≡ sum m
sum-erase k [] = omega arith
sum-erase k ((j, w) ∷ m) = ground (arith, sum-erase k m)

-- The counter exceeds the recorded votes by `n`, as 64-bit numbers.
abbrev pub Exceeds : ℕ → Producer → Type 0
Exceeds n p = p.votes ≡ (sum p.voters + n) % u64

-- For a producer whose voters are in key order, adding a voter leaves the counter in excess of the recorded votes by what was recorded for that
-- voter before, on top of the excess it had: nothing for a new voter, the old vote for a known one.
pub add_voter-Exceeds :
    (voter value n : ℕ) (p : Producer)
    → Above 0 p.voters
    → Exceeds n p
    → Exceeds (held voter p.voters + n) (add_voter voter value p)
unfolding add_voter
add_voter-Exceeds voter value n p s h = omega (arith, sum-insert 0 voter value p.voters s)

-- For a voter whose recorded vote is below 2 ^ 64, erasing the voter takes exactly the recorded vote away, so the excess stays as it was.
pub erase_voter-Exceeds :
    (voter n : ℕ) (p : Producer)
    → held voter p.voters < u64
    → Exceeds n p
    → Exceeds n (erase_voter voter p)
unfolding erase_voter
erase_voter-Exceeds voter n p b h = elim (Option-cases (lookup voter p.voters)) [
  | inl e ↦ rw (e, erase_voter) h
  | inr (v, e) ↦ rw (e, erase_voter) (ground (arith, sum-erase voter p.voters))
]
