-- ===== src/Chain/Admission/Slot.antt =====
-- On `checkProducer` and `updateProducerRecord` of chain/BlockChain.cpp: the slots of one producer.
use gsenetwork.Prelude.{
  ℕ, ◌≤◌, List, [], ◌∷◌, true, false, ◌≡◌, refl, ap, ◌∙◌, arith, inl, inr, Bool-cases, ◌==◌, ==→eq,
  if◌then◌else◌, none, some,
}
use gsenetwork.Prelude.Int.{ℤ, pos}
use gsenetwork.Prelude.Map.{Map, lookup, insert, lookup-insert}
use gsenetwork.Core.Producer.{Producer}
use gsenetwork.Core.Snapshot.{has_address}
use gsenetwork.Core.Block.{Block}
use gsenetwork.Schedule.{get_address, get_current_producer_list}
use gsenetwork.Slots.{position, slot, slot_taken, slot_taken_iff}
use gsenetwork.Chain.Admission.{
  Gate, check_producer, note_block, keep_records, update_producer_record,
}

keep_records-lookup :
    (a : ℕ) (ps : List Producer) (old new : Map ℤ)
    → lookup a (keep_records ps old new) ≡ (
        if has_address a ps
        then some (elim (lookup a old) [ none ↦ pos 0 | some t ↦ t ])
        else lookup a new)
keep_records-lookup a [] old new = refl
keep_records-lookup a (p ∷ ps) old new =
    let kept : ℤ = elim (lookup p.address old) [ none ↦ pos 0 | some t ↦ t ] in
    let rest = keep_records-lookup a ps old (insert p.address kept new) in
    let stored = lookup-insert p.address kept a new in
    elim (Bool-cases (has_address a ps)) [
      | inl later ↦
          rest
          ∙ rw later (elim (Bool-cases (p.address == a)) [ inl e ↦ rw e refl | inr e ↦ rw e refl ])
      | inr never ↦
          rest
          ∙ rw (never, stored)
              (elim (Bool-cases (p.address == a)) [
                | inl same ↦ rw same (
                    ap (λ k. some (elim (lookup k old) [ none ↦ pos 0 | some t ↦ t ]))
                      (==→eq p.address a same))
                | inr other ↦ rw other refl
              ])
    ]

-- After `updateProducerRecord` each of the current producers, and no other address, has a record: the
-- time it had, or 0 if it had none.
pub update_producer_record_lem :
    (a : ℕ) (g : Gate)
    → lookup a (update_producer_record g).producer_record ≡ (
        if has_address a (get_current_producer_list g.schedule)
        then some (elim (lookup a g.producer_record) [ none ↦ pos 0 | some t ↦ t ])
        else none)
update_producer_record_lem a g =
    keep_records-lookup a (get_current_producer_list g.schedule) g.producer_record []

-- A producer's block is refused when the record has a time of that producer, from the genesis on, whose
-- slot is not before the block's.
pub recorded_refused :
    (b : Block) (g : Gate) (t last : ℕ)
    → b.timestamp ≡ pos t
    → lookup b.producer g.producer_record ≡ some (pos last)
    → 1538352000000 ≤ t
    → 1538352000000 ≤ last
    → slot t ≤ slot last
    → check_producer b g ≡ false
unfolding check_producer
recorded_refused b g t last et er ht hl h =
    let taken : slot_taken b.timestamp (pos last) ≡ true =
      ap (λ x. slot_taken x (pos last)) et ∙ slot_taken_iff t last ht hl ∙ ground arith in
    elim (Bool-cases (b.producer == get_address (position b.timestamp) g.schedule)) [
      | inr other ↦ rw other refl
      | inl turn ↦ rw (turn, er, taken) refl
    ]

-- Once a block of one of the current producers was recorded, another block of that producer is refused if
-- its slot is not later, both times being from the genesis on, before and after `updateProducerRecord`.
pub check_producer_once :
    (b c : Block) (g : Gate) (t last : ℕ)
    → c.producer ≡ b.producer
    → b.timestamp ≡ pos last
    → c.timestamp ≡ pos t
    → 1538352000000 ≤ t
    → 1538352000000 ≤ last
    → slot t ≤ slot last
    → has_address c.producer (get_current_producer_list g.schedule) ≡ true
    → (check_producer c (note_block b g) ≡ false)
      × (check_producer c (update_producer_record (note_block b g)) ≡ false)
check_producer_once b c g t last same eb ec ht hl h listed =
    let noted : lookup c.producer (note_block b g).producer_record ≡ some (pos last) =
      lookup-insert b.producer b.timestamp c.producer g.producer_record
      ∙ ground (arith, same, eb) in
    (
      recorded_refused c (note_block b g) t last ec noted ht hl h,
      recorded_refused c (update_producer_record (note_block b g)) t last ec
          (update_producer_record_lem c.producer (note_block b g) ∙ rw (listed, noted) refl) ht hl
          h,
    )
