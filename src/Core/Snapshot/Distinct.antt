-- ===== src/Core/Snapshot/Distinct.antt =====
-- On `addProducer` of core/Producer.cpp: the addresses in a snapshot.
use gsenetwork.Prelude.{
  ℕ, ◌+◌, ◌≤◌, List, [], ◌∷◌, ◌++◌, false, ◌||◌, ◌≡◌, refl, arith, inl, inr, Bool-cases, ◌==◌,
  length-append,
}
use gsenetwork.Core.Producer.{Producer}
use gsenetwork.Core.Snapshot.{ProducerSnapshot, has_address, is_exist, size, add_producer}

-- No address stands twice.
abbrev pub IsDistinct : List Producer → Type 0
IsDistinct [] = Unit
IsDistinct (p ∷ ps) = (has_address p.address ps ≡ false) × IsDistinct ps

pub has_address-append :
    (a : ℕ) (ps : List Producer) (q : Producer)
    → has_address a (ps ++ q ∷ []) ≡ (has_address a ps || q.address == a)
has_address-append a [] q = ground arith
has_address-append a (p ∷ ps) q = ground (arith, has_address-append a ps q)

append-IsDistinct :
    (ps : List Producer) (q : Producer)
    → IsDistinct ps
    → has_address q.address ps ≡ false
    → IsDistinct (ps ++ q ∷ [])
append-IsDistinct [] q d h = (refl, tt)
append-IsDistinct (p ∷ ps) q d h =
    ground (arith, append-IsDistinct ps q, has_address-append p.address ps q)

-- A snapshot with no address twice has none twice after `addProducer`.
pub add_producer-IsDistinct :
    (p : Producer) (s : ProducerSnapshot)
    → IsDistinct s.producers
    → IsDistinct (add_producer p s).producers
unfolding add_producer
add_producer-IsDistinct p s d = elim (Bool-cases (is_exist p.address s)) [
  | inl there ↦ rw there d
  | inr new ↦ rw new (append-IsDistinct s.producers p d new)
]

-- An added producer is there, and so is what was there before; nothing else is.
pub is_exist-add_producer :
    (a : ℕ) (p : Producer) (s : ProducerSnapshot)
    → is_exist a (add_producer p s) ≡ (is_exist a s || p.address == a)
unfolding add_producer
is_exist-add_producer a p s = elim (Bool-cases (is_exist p.address s)) [
  | inl there ↦ rw there (ground arith)
  | inr new ↦ rw new (has_address-append a s.producers p)
]

pub size-add_producer : (p : Producer) (s : ProducerSnapshot) → size (add_producer p s) ≤ size s + 1
unfolding add_producer
size-add_producer p s = ground (arith, length-append s.producers (p ∷ []))
