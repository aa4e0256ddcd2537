-- ===== src/Server/Turn.antt =====
-- On `checkProducer` and `doWork` of producer/ProducerServer.cpp: when a block is made, and which.
use gsenetwork.Prelude.{
  ℕ, ◌+◌, ◌≤◌, ◌<◌, List, [], ◌∷◌, Bool, true, false, not, ◌||◌, Option, none, some, ◌≡◌, refl, sym,
  ◌∙◌, ◌⊎◌, zero, suc, take, or-left, or-right, ◌↔◌, arith, inl, inr, Bool-cases, ◌==◌, length, All,
}
use gsenetwork.Prelude.Int.{pos, ltb_ℤ}
use gsenetwork.Core.Transaction.{Transaction}
use gsenetwork.Core.Block.{Block, block_eq, empty_block}
use gsenetwork.Schedule.{get_address}
use gsenetwork.Slots.{position, slot, slot_taken, slot_taken_iff}
use gsenetwork.Server.{
  Server, Handler, is_producer_status, check_timestamp, check_producer, collect, do_work, new_block,
  in_time, max_transactions,
}

-- For times from the genesis on (the given one, that of the node's last block and that of the chain's),
-- the node may make a block at a time exactly when the time is not before its
-- last block's, its key has the turn, the slot is after those of its own last block and of the chain's
-- last block, and the chain is in the state for producing.
pub check_producer_iff :
    (s : Server) (h : Handler) (now prev last : ℕ)
    → s.prev_timestamp ≡ pos prev
    → h.last_block.timestamp ≡ pos last
    → 1538352000000 ≤ now
    → 1538352000000 ≤ prev
    → 1538352000000 ≤ last
    → (check_producer s h (pos now) ≡ true) ↔ (
        (prev ≤ now)
        × (s.key ≡ get_address (position (pos now)) s.schedule)
        × (slot prev < slot now)
        × (slot last < slot now)
        × (is_producer_status h.status ≡ true))
unfolding check_producer check_timestamp
check_producer_iff s h now prev last ep el hn hp hl =
    rw (ep, el, slot_taken_iff now prev hn hp, slot_taken_iff now last hn hl)
      ((λ e. ground arith), λ f. ground arith)

timestamp_refused :
    (s : Server) (h : Handler) (now prev : ℕ)
    → s.prev_timestamp ≡ pos prev
    → 1538352000000 ≤ now
    → 1538352000000 ≤ prev
    → slot now ≤ slot prev
    → check_timestamp s h (pos now) ≡ false
unfolding check_timestamp
timestamp_refused s h now prev e hn hp same =
    let taken : slot_taken (pos now) s.prev_timestamp ≡ true =
      rw (e, slot_taken_iff now prev hn hp) (ground arith) in
    rw taken refl

-- A slot that is not after the server's last one is refused.
slot_refused :
    (s : Server) (h : Handler) (now prev : ℕ)
    → s.prev_timestamp ≡ pos prev
    → 1538352000000 ≤ now
    → 1538352000000 ≤ prev
    → slot now ≤ slot prev
    → check_producer s h (pos now) ≡ false
unfolding check_producer
slot_refused s h now prev e hn hp same = elim (Bool-cases (ltb_ℤ (pos now) s.prev_timestamp)) [
  | inl a ↦ rw a refl
  | inr a ↦ rw a (elim (Bool-cases (s.key == get_address (position (pos now)) s.schedule)) [
    | inl k ↦ rw (k, timestamp_refused s h now prev e hn hp same) refl
    | inr k ↦ rw k refl
  ])
]

-- After a block was made at a time from the genesis on, no other is made at a time from the genesis on
-- whose slot is not later, whatever the event handler answers then.
pub do_work_once :
    (hash_of : Block → ℕ) (h h' : Handler) (now end now' end' : ℕ)
    (pulled pulled' : List (Option Transaction)) (s : Server) (b : Block)
    → 1538352000000 ≤ now
    → 1538352000000 ≤ now'
    → slot now' ≤ slot now
    → (do_work hash_of h (pos now) (pos end) pulled s).1 ≡ some b
    → (do_work hash_of h'
        (pos now')
        (pos end')
        pulled'
        (do_work hash_of h (pos now) (pos end) pulled s).0).1
      ≡ none
unfolding do_work
do_work_once hash_of h h' now end now' end' pulled pulled' s b hn hn' same made =
    elim (Bool-cases (check_producer s h (pos now))) [
      | inl c ↦
          rw (c, slot_refused (record s { prev_timestamp = pos now }) h' now' now refl hn' hn same)
            refl
      | inr c ↦ absurd (cc (rw c at made))
    ]

-- The transactions taken into a block are ones the cache handed out that the chain does not know.
collect-fresh :
    (fresh : ℕ → Bool) (pulled : List (Option Transaction))
    → All (λ t. fresh t.hash ≡ true) (collect fresh pulled)
unfolding collect
collect-fresh fresh [] = tt
collect-fresh fresh (none ∷ rest) = collect-fresh fresh rest
collect-fresh fresh (some t ∷ rest) = elim (Bool-cases (fresh t.hash)) [
  | inl e ↦ rw e (e, collect-fresh fresh rest)
  | inr e ↦ rw e (collect-fresh fresh rest)
]

collect-length :
    (fresh : ℕ → Bool) (pulled : List (Option Transaction))
    → length (collect fresh pulled) ≤ length pulled
unfolding collect
collect-length fresh [] = omega arith
collect-length fresh (none ∷ rest) = ground (arith, collect-length fresh rest)
collect-length fresh (some t ∷ rest) = elim (Bool-cases (fresh t.hash)) [
  | inl e ↦ rw e (ground (arith, collect-length fresh rest))
  | inr e ↦ rw e (ground (arith, collect-length fresh rest))
]

held : (b : Bool) → not b ≡ false → b ≡ true
held true e = refl
held false e = absurd (cc e)

in_time_iff :
    (start end : ℕ) → (in_time (pos start) (pos end) ≡ true) ↔ ((start ≤ end) × (end < start + 600))
unfolding in_time
in_time_iff start end = ((λ e. ground arith), λ f. ground arith)

take-length : {A : Type 0} (n : ℕ) (xs : List A) → length (take n xs) ≤ n
take-length zero xs = omega arith
take-length (suc n) [] = omega arith
take-length (suc n) (x ∷ xs) = omega (arith, take-length n xs)

-- What the block of a turn is given of the transactions that the calls of the cache return.
abbrev pub chosen : Handler → List (Option Transaction) → List Transaction
chosen h pulled = collect h.not_existed (take max_transactions pulled)

-- For times from the genesis on, `doWork` broadcasts the block that it builds on the chain's last block
-- exactly when the time is not before its own last block's, its key has the turn, the slot is after those
-- of its own last block and of the chain's last block, the chain is in the state for producing, the
-- chain has a last block, and it is done within three tenths of a slot; it broadcasts nothing else. The
-- block holds 400 transactions at most, none of which the chain knows.
pub do_work_makes :
    (hash_of : Block → ℕ) (h : Handler) (now end prev last : ℕ) (pulled : List (Option Transaction))
    (s : Server)
    → s.prev_timestamp ≡ pos prev
    → h.last_block.timestamp ≡ pos last
    → 1538352000000 ≤ now
    → 1538352000000 ≤ prev
    → 1538352000000 ≤ last
    → let o = (do_work hash_of h (pos now) (pos end) pulled s).1 in
      let b = new_block hash_of s h (pos now) (chosen h pulled) in
      ((o ≡ some b) ↔ (
        (prev ≤ now)
        × (s.key ≡ get_address (position (pos now)) s.schedule)
        × (slot prev < slot now)
        × (slot last < slot now)
        × (is_producer_status h.status ≡ true)
        × (block_eq h.last_block empty_block ≡ false)
        × (now ≤ end)
        × (end < now + 600)))
      × ((o ≡ some b) ⊎ (o ≡ none))
      × All (λ t. h.not_existed t.hash ≡ true) b.transactions
      × (length b.transactions ≤ 400)
unfolding do_work
do_work_makes hash_of h now end prev last pulled s ep el hn hp hl =
    let turn = check_producer_iff s h now prev last ep el hn hp hl in
    let timely = in_time_iff now end in
    let known : (block_eq h.last_block empty_block || not (in_time (pos now) (pos end))) ≡ false
        → in_time (pos now) (pos end) ≡ true =
      λ g.
        held (in_time (pos now) (pos end))
          (or-right (block_eq h.last_block empty_block) (not (in_time (pos now) (pos end))) g) in
    let few : length (chosen h pulled) ≤ 400 = omega (
      arith,
      collect-length h.not_existed (take max_transactions pulled),
      take-length max_transactions pulled,
    ) in
    let fresh = collect-fresh h.not_existed (take max_transactions pulled) in
    elim (Bool-cases (check_producer s h (pos now))) [
      | inl c ↦
          let (t0, t1, t2, t3, t4) = turn.0 c in
          elim (Bool-cases
            (block_eq h.last_block empty_block || not (in_time (pos now) (pos end)))) [
              | inl late ↦
                  rw (c, late)
                    (
                      (
                        (λ e. absurd (cc e)),
                        λ f. absurd (cc (rw (f.5, timely.1 (f.6, f.7)) at late)),
                      ),
                      inr refl,
                      fresh,
                      few,
                    )
              | inr good ↦
                  rw (c, good)
                    (
                      (
                        (λ e. (
                          t0,
                          t1,
                          t2,
                          t3,
                          t4,
                          or-left (block_eq h.last_block empty_block)
                              (not (in_time (pos now) (pos end))) good,
                          (timely.0 (known good)).0,
                          (timely.0 (known good)).1,
                        )),
                        λ f. refl,
                      ),
                      inl refl,
                      fresh,
                      few,
                    )
            ]
      | inr c ↦ rw c (
        ((λ e. absurd (cc e)), λ f. absurd (cc (sym c ∙ turn.1 (f.0, f.1, f.2, f.3, f.4)))),
        inr refl,
        fresh,
        few,
      )
    ]
