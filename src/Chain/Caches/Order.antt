-- ===== src/Chain/Caches/Order.antt =====
-- On the order of the caches of chain/BlockChain.cpp.
use gsenetwork.Prelude.{
  ℕ, ◌<◌, List, [], ◌∷◌, ◌++◌, true, false, ◌≡◌, refl, ap, ◌∙◌, arith, inl, inr, Bool-cases, ◌==◌,
  ltb, if◌then◌else◌, All,
}
use gsenetwork.Prelude.Int.{ℤ, ltb_ℤ, ◌<ℤ◌}
use gsenetwork.Core.Transaction.{Transaction}
use gsenetwork.Core.Block.{Block}
use gsenetwork.Chain.Caches.{insert_tx, insert_block, erase_tx, erase_solicited_tx}

-- The times grow along the list.
abbrev pub IsTimed : List Transaction → Type 0
IsTimed [] = Unit
IsTimed (t ∷ ts) = All (λ u. t.timestamp <ℤ u.timestamp) ts × IsTimed ts

-- The numbers grow along the list.
abbrev pub IsNumbered : List Block → Type 0
IsNumbered [] = Unit
IsNumbered (b ∷ bs) = All (λ c. b.number < c.number) bs × IsNumbered bs

All-later :
    (a b : ℕ) (bs : List Block) → a < b → All (λ c. b < c.number) bs → All (λ c. a < c.number) bs
All-later a b [] h s = tt
All-later a b (c ∷ cs) h s = (omega arith, All-later a b cs h s.1)

All-insert_block :
    (a : ℕ) (b : Block) (bs : List Block)
    → a < b.number
    → All (λ c. a < c.number) bs
    → All (λ c. a < c.number) (insert_block b bs)
All-insert_block a b [] h s = (h, tt)
All-insert_block a b (c ∷ cs) h s = elim (Bool-cases (ltb b.number c.number)) [
  | inl before ↦ rw before (h, s)
  | inr after ↦ rw after (elim (Bool-cases (ltb c.number b.number)) [
    | inl behind ↦ rw behind (s.0, All-insert_block a b cs h s.1)
    | inr equal ↦ rw equal s
  ])
]

-- Inserting a block into a cache of growing numbers keeps them growing.
pub insert_block-IsNumbered :
    (b : Block) (bs : List Block) → IsNumbered bs → IsNumbered (insert_block b bs)
insert_block-IsNumbered b [] s = (tt, tt)
insert_block-IsNumbered b (c ∷ cs) s = elim (Bool-cases (ltb b.number c.number)) [
  | inl before ↦ rw before ((ground arith, All-later b.number c.number cs (ground arith) s.0), s)
  | inr after ↦ rw after (elim (Bool-cases (ltb c.number b.number)) [
    | inl behind ↦
        rw behind
          (All-insert_block c.number b cs (ground arith) s.0, insert_block-IsNumbered b cs s.1)
    | inr equal ↦ rw equal s
  ])
]

All-insert_tx :
    (P : Transaction → Type 0) (t : Transaction) (ts : List Transaction)
    → P t
    → All P ts
    → All P (insert_tx t ts)
All-insert_tx P t [] p a = (p, tt)
All-insert_tx P t (u ∷ us) p a = elim (Bool-cases (ltb_ℤ t.timestamp u.timestamp)) [
  | inl before ↦ rw before (p, a)
  | inr after ↦ rw after (elim (Bool-cases (ltb_ℤ u.timestamp t.timestamp)) [
    | inl behind ↦ rw behind (a.0, All-insert_tx P t us p a.1)
    | inr equal ↦ rw equal a
  ])
]

All-erase_tx :
    (P : Transaction → Type 0) (h : ℕ) (ts : List Transaction) → All P ts → All P (erase_tx h ts)
All-erase_tx P h [] a = tt
All-erase_tx P h (u ∷ us) a = elim (Bool-cases (u.hash == h)) [
  | inl hit ↦ rw hit a.1
  | inr miss ↦ rw miss (a.0, All-erase_tx P h us a.1)
]

<ℤ-trans : (a b c : ℤ) → a <ℤ b → b <ℤ c → a <ℤ c
<ℤ-trans a b c h k = omega arith

ltb_ℤ→lt : (a b : ℤ) → ltb_ℤ a b ≡ true → a <ℤ b
ltb_ℤ→lt a b h = ground arith

lt→ltb_ℤ : (a b : ℤ) → a <ℤ b → (ltb_ℤ a b ≡ true) × (ltb_ℤ b a ≡ false)
lt→ltb_ℤ a b h = (ground arith, ground arith)

ltb_ℤ-refl : (a : ℤ) → ltb_ℤ a a ≡ false
ltb_ℤ-refl a = ground arith

All-middle :
    (P : Transaction → Type 0) (u : Transaction) (before after : List Transaction)
    → All P (before ++ u ∷ after)
    → P u
All-middle P u [] after a = a.0
All-middle P u (c ∷ cs) after a = All-middle P u cs after a.1

All-after :
    (a b : ℤ) (ts : List Transaction)
    → a <ℤ b
    → All (λ u. b <ℤ u.timestamp) ts
    → All (λ u. a <ℤ u.timestamp) ts
All-after a b [] h s = tt
All-after a b (u ∷ us) h s = (<ℤ-trans a b u.timestamp h s.0, All-after a b us h s.1)

insert_tx-IsTimed :
    (t : Transaction) (ts : List Transaction) → IsTimed ts → IsTimed (insert_tx t ts)
insert_tx-IsTimed t [] s = (tt, tt)
insert_tx-IsTimed t (u ∷ us) s = elim (Bool-cases (ltb_ℤ t.timestamp u.timestamp)) [
  | inl before ↦
      let h = ltb_ℤ→lt t.timestamp u.timestamp before in
      rw before ((h, All-after t.timestamp u.timestamp us h s.0), s)
  | inr after ↦ rw after (elim (Bool-cases (ltb_ℤ u.timestamp t.timestamp)) [
    | inl behind ↦ rw behind (
      All-insert_tx (λ v. u.timestamp <ℤ v.timestamp) t us (ltb_ℤ→lt u.timestamp t.timestamp behind)
          s.0,
      insert_tx-IsTimed t us s.1,
    )
    | inr equal ↦ rw equal s
  ])
]

erase_tx-IsTimed : (h : ℕ) (ts : List Transaction) → IsTimed ts → IsTimed (erase_tx h ts)
erase_tx-IsTimed h [] s = tt
erase_tx-IsTimed h (u ∷ us) s = elim (Bool-cases (u.hash == h)) [
  | inl hit ↦ rw hit s.1
  | inr miss ↦
      rw miss (All-erase_tx (λ v. u.timestamp <ℤ v.timestamp) h us s.0, erase_tx-IsTimed h us s.1)
]

erase_solicited_tx-IsTimed :
    (ts cache : List Transaction) → IsTimed cache → IsTimed (erase_solicited_tx ts cache)
erase_solicited_tx-IsTimed [] cache s = s
erase_solicited_tx-IsTimed (t ∷ ts) cache s =
    erase_solicited_tx-IsTimed ts (erase_tx t.hash cache) (erase_tx-IsTimed t.hash cache s)

-- In a cache of growing times, times grow still after an insertion and after the transactions of a block
-- are taken out.
pub tx_cache-IsTimed :
    (t : Transaction) (done cache : List Transaction)
    → IsTimed cache
    → IsTimed (insert_tx t cache) × IsTimed (erase_solicited_tx done cache)
tx_cache-IsTimed t done cache s =
    (insert_tx-IsTimed t cache s, erase_solicited_tx-IsTimed done cache s)

-- A transaction whose time one in the cache has is dropped: the cache stays as it was.
pub insert_tx-dropped :
    (t u : Transaction) (before after : List Transaction)
    → IsTimed (before ++ u ∷ after)
    → t.timestamp ≡ u.timestamp
    → insert_tx t (before ++ u ∷ after) ≡ before ++ u ∷ after
insert_tx-dropped t u [] after s e = let self = ltb_ℤ-refl u.timestamp in rw (e, self) refl
insert_tx-dropped t u (c ∷ cs) after s e =
    let earlier : c.timestamp <ℤ u.timestamp =
      All-middle (λ v. c.timestamp <ℤ v.timestamp) u cs after s.0 in
    let (less, more) = lt→ltb_ℤ c.timestamp u.timestamp earlier in
    ap
      (λ (x : ℤ).
        if ltb_ℤ x c.timestamp
        then t ∷ c ∷ (cs ++ u ∷ after)
        else if ltb_ℤ c.timestamp x
        then c ∷ insert_tx t (cs ++ u ∷ after)
        else c ∷ (cs ++ u ∷ after))
      e
    ∙ rw (more, less) (ap (λ r. c ∷ r) (insert_tx-dropped t u cs after s.1 e))
