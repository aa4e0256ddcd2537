-- ===== src/Chain/Serve/Reply.antt =====
-- On the answer to SyncBlocks in chain/BlockChain.cpp: which blocks it has.
use gsenetwork.Prelude.{
  ℕ, zero, suc, ◌+◌, ◌-◌, ◌≤◌, ◌<◌, List, [], ◌∷◌, true, false, some, ◌≡◌, ◌⊎◌, inl, inr, refl, ap,
  ◌∙◌, arith, Bool-cases, Option-cases, leb, ltb, ◌&&◌, length,
}
use gsenetwork.Core.Block.{Block, empty_block, block_eq}
use gsenetwork.Storage.Database.{Database}
use gsenetwork.Chain.BlockState.{BlockState}
use gsenetwork.Chain.Serve.{
  Archive, db_block_at, find_in_queue, last_number, queued, get_block_by_number, collect, offered,
  max_packet_size, sync_blocks, Answer, reply_blocks, state_answer,
}

-- The database gives a stored block under its own number.
abbrev pub IsNumbered : Database → Type 0
IsNumbered db =
    (n : ℕ) → block_eq (db_block_at n db) empty_block ≡ false → (db_block_at n db).number ≡ n

find_in_queue-number :
    (n : ℕ) (bs : List Block) (c : Block) → find_in_queue n bs ≡ some c → c.number ≡ n
find_in_queue-number n [] c e = absurd (cc e)
find_in_queue-number n (b ∷ bs) c e = ground (arith, find_in_queue-number n bs c)

queued-number : (n : ℕ) (bs : List Block) {b : Block} → queued n bs ≡ some b → b.number ≡ n
queued-number n [] e = absurd (cc e)
queued-number n (c ∷ bs) {b} e =
    elim (Bool-cases (leb c.number n && leb n (last_number c.number bs))) [
      | inl inside ↦ find_in_queue-number n (c ∷ bs) b (rw inside at e)
      | inr outside ↦ absurd (cc (rw outside at e))
    ]

get_block_by_number-number :
    (n : ℕ) (a : Archive)
    → IsNumbered a.db
    → block_eq (get_block_by_number n a) empty_block ≡ false
    → (get_block_by_number n a).number ≡ n
unfolding get_block_by_number
get_block_by_number-number n a keyed full = elim (Bool-cases (ltb a.latest_number n)) [
  | inl above ↦ absurd (cc (rw above at full))
  | inr known ↦ elim (Bool-cases (leb n a.rollback.solidify_number)) [
    | inl solid ↦ rw (known, solid) (keyed n (rw (known, solid) at full))
    | inr open' ↦ elim (Option-cases (queued n a.queue)) [
      | inl e ↦ rw (known, open', e) (keyed n (rw (known, open', e) at full))
      | inr (b, e) ↦ rw (known, open', e) (queued-number n a.queue e)
    ]
  ]
]

abbrev pub sum : (Block → ℕ) → List Block → ℕ
sum size [] = 0
sum size (b ∷ bs) = size b + sum size bs

-- The blocks that the node has under `k` numbers from `i` on.
abbrev pub held : ℕ → ℕ → Archive → List Block
held zero i a = []
held (suc k) i a = get_block_by_number i a ∷ held k (i + 1) a

-- The numbers of the blocks go up by one from `i` on.
abbrev pub Ascend : ℕ → List Block → Type 0
Ascend i [] = Unit
Ascend i (b ∷ bs) = (b.number ≡ i) × Ascend (i + 1) bs

-- Why the loop ends behind the blocks `bs`, of a range of `n` numbers from `i` on.
abbrev pub Ends : (Block → ℕ) → ℕ → ℕ → ℕ → Archive → List Block → Type 0
Ends size n i total a bs =
    (length bs ≡ n)
    ⊎ (block_eq (get_block_by_number (i + length bs) a) empty_block ≡ true)
    ⊎ (max_packet_size ≤ total + sum size bs + size (get_block_by_number (i + length bs) a))

-- What the blocks of an answer are.
abbrev pub Run : (Block → ℕ) → ℕ → ℕ → ℕ → Archive → List Block → Type 0
Run size n i total a bs =
    (bs ≡ held (length bs) i a)
    × Ascend i bs
    × (length bs ≤ n)
    × (total + sum size bs < max_packet_size)
    × Ends size n i total a bs

add_zero : (i : ℕ) → i + 0 ≡ i
add_zero i = omega arith

module _ (size : Block → ℕ) (empty : BlockState) where
  Run-cons :
      (n i total : ℕ) (a : Archive) (bs : List Block)
      → (get_block_by_number i a).number ≡ i
      → Run size n (i + 1) (total + size (get_block_by_number i a)) a bs
      → Run size (suc n) i total a (get_block_by_number i a ∷ bs)
  Run-cons n i total a bs own (same, up, short, small, ends) =
      (ap (λ r. get_block_by_number i a ∷ r) same, (own, up), omega arith, omega arith, ends')
    where
      next : i + 1 + length bs ≡ i + suc (length bs)
      next = omega arith

      ends' : Ends size (suc n) i total a (get_block_by_number i a ∷ bs)
      ends' = elim ends [
        | inl all ↦ inl (omega arith)
        | inr (inl gone) ↦ inr (inl (rw next at gone))
        | inr (inr full) ↦ inr (inr (omega (arith, rw next at full)))
      ]

  pub collect-Run :
      (n i total : ℕ) (state : BlockState) (a : Archive)
      → IsNumbered a.db
      → total < max_packet_size
      → Run size n i total a (collect size empty n i total state a).0
  unfolding collect
  collect-Run zero i total state a keyed low = (refl, tt, omega arith, omega arith, inl refl)
  collect-Run (suc n) i total state a keyed low =
      let b = get_block_by_number i a in
      elim (Bool-cases (block_eq b empty_block)) [
        | inl gone ↦ rw gone (
          refl,
          tt,
          omega arith,
          omega arith,
          inr (inl (ap (λ k. block_eq (get_block_by_number k a) empty_block) (add_zero i) ∙ gone)),
        )
        | inr there ↦ elim (Bool-cases (leb max_packet_size (total + size b))) [
          | inl full ↦
              rw (there, full)
                (refl, tt, omega arith, omega arith, inr (inr (ground (arith, add_zero i))))
          | inr fits ↦
              rw (there, fits)
                (Run-cons n i total a _ (get_block_by_number-number i a keyed there) (
                  collect-Run n (i + 1) (total + size b) (offered empty i a state) a keyed
                    (ground arith)))
        ]
      ]

-- To a request for a range of several blocks that ends at or below the latest one, the answer begins with
-- the blocks that the node has under the numbers from the start of the range on, each with its own
-- number. They are less than 55000 bytes together, and stop only at the end of the range, before a block
-- that is missing, or before one that would bring them to that size. The database is to give blocks under
-- their own numbers.
pub sync_blocks-Run :
    (size : Block → ℕ) (empty : BlockState) (start end : ℕ) (a : Archive)
    → IsNumbered a.db
    → start < end
    → end ≤ a.latest_number
    → (bs : List Block) × (rest : List Answer) × (sync_blocks size empty start end a
        ≡ reply_blocks bs ∷ rest)
      × Run size (end + 1 - start) start 0 a bs
unfolding sync_blocks
sync_blocks-Run size empty start end a keyed several known =
    let e : (ltb start end && leb end a.latest_number) ≡ true = ground arith in
    (
      (collect size empty (end + 1 - start) start 0 empty a).0,
      state_answer empty (collect size empty (end + 1 - start) start 0 empty a).1,
      rw e refl,
      collect-Run size empty (end + 1 - start) start 0 empty a keyed (omega arith),
    )
