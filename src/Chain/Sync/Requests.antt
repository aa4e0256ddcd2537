-- ===== src/Chain/Sync/Requests.antt =====
-- On `doWork` of chain/Sync.cpp: the ranges that are asked for, and the status of the chain.
use gsenetwork.Prelude.{
  ℕ, ◌+◌, ◌≤◌, ◌<◌, List, [], ◌∷◌, Bool, true, false, leb, if◌then◌else◌, add64, add64_exact, u64,
  ◌≡◌, ◌↔◌, refl, sym, ◌∙◌, arith, inl, inr, Bool-cases, All, ◌⊎◌,
}
use gsenetwork.Chain.Sync.{Request, request_end, requests, work, is_sync, is_nil}
use gsenetwork.Server.{ChainStatus, normal_status, sync_status, producer_status, killed}

-- The heights do not fall along the list, and leave room below 2 ^ 64.
abbrev pub IsAscending : List (ℕ × ℕ) → Type 0
IsAscending [] = Unit
IsAscending ((_, h) ∷ rest) = All (λ (q : ℕ × ℕ). h ≤ q.1) rest × (h + 30 < u64) × IsAscending rest

-- A peer of the list with that name has the block of that number.
abbrev pub Offers : List (ℕ × ℕ) → ℕ → ℕ → Type 0
Offers [] peer number = ⊥
Offers ((q, h) ∷ rest) peer number = ((q ≡ peer) × (number ≤ h)) ⊎ Offers rest peer number

-- A range above a height, of one to fifteen blocks, that the peer has.
abbrev pub IsSane : ℕ → List (ℕ × ℕ) → Request → Type 0
IsSane height peers r =
    (height < r.start) × (r.start ≤ r.end) × (r.end < r.start + 15) × Offers peers r.peer r.end

-- What the loop holds between two peers that are asked for the same range.
abbrev Ready : Bool → ℕ → ℕ → List (ℕ × ℕ) → Type 0
Ready true start end peers = Unit
Ready false start end peers =
    (start ≤ end) × (end < start + 15) × All (λ (q : ℕ × ℕ). end ≤ q.1) peers

All-IsSane :
    (height : ℕ) (p : ℕ × ℕ) (peers : List (ℕ × ℕ)) (rs : List Request)
    → All (IsSane height peers) rs
    → All (IsSane height (p ∷ peers)) rs
All-IsSane height p peers [] a = tt
All-IsSane height p peers (r ∷ rs) a =
    ((a.0.0, a.0.1, a.0.2, inr a.0.3), All-IsSane height p peers rs a.1)

All-most :
    (m n : ℕ) (ps : List (ℕ × ℕ))
    → m ≤ n
    → All (λ (q : ℕ × ℕ). n ≤ q.1) ps
    → All (λ (q : ℕ × ℕ). m ≤ q.1) ps
All-most m n [] h a = tt
All-most m n (p ∷ ps) h a = (omega arith, All-most m n ps h a.1)

request_end-bounds :
    (start h : ℕ)
    → start ≤ h
    → (start ≤ request_end start h) × (request_end start h < start + 15) × (request_end start h ≤ h)
request_end-bounds start h le = ground arith

requests-IsSane :
    (even : Bool) (height start end : ℕ) (peers : List (ℕ × ℕ))
    → height < start
    → IsAscending peers
    → Ready even start end peers
    → All (IsSane height peers) (requests even start end peers)
unfolding requests
requests-IsSane even height start end [] g a r = tt
requests-IsSane true height start end ((p, h) ∷ rest) g a r = elim (Bool-cases (leb start h)) [
  | inr behind ↦
      rw behind
        (All-IsSane height (p, h) rest _ (requests-IsSane true height start end rest g a.2 tt))
  | inl ahead ↦
      let (low, high, has) = request_end-bounds start h (ground arith) in
      rw ahead (
        (g, low, high, inl (refl, has)),
        All-IsSane height (p, h) rest _
            (requests-IsSane false height start (request_end start h) rest g a.2
              (low, high, All-most (request_end start h) h rest has a.0)),
      )
]
requests-IsSane false height start end ((p, h) ∷ rest) g a r =
    let exact : add64 start 15 ≡ start + 15 = add64_exact start 15 (ground arith) in
    (
      (g, r.0, r.1, inl (refl, r.2.0)),
      All-IsSane height (p, h) rest _
          (requests-IsSane true height (add64 start 15) end rest (ground arith) a.2 tt),
    )

-- With the peers in the order of their heights, which leave room below 2 ^ 64, every request is sent to
-- a peer for a range of one to fifteen blocks that begins above the last block and that the peer has.
pub work-IsSane :
    (height : ℕ) (peers : List (ℕ × ℕ)) (status : ChainStatus)
    → IsAscending peers
    → All (IsSane height peers) (work height peers status).0
unfolding work
work-IsSane height [] status a = tt
work-IsSane height (p ∷ ps) status a =
    let sane = requests-IsSane true height (height + 1) 0 (p ∷ ps) (omega arith) a tt in
    elim (Bool-cases (is_nil (requests true (height + 1) 0 (p ∷ ps)))) [
      | inl e ↦ rw e sane
      | inr e ↦ rw e sane
    ]

requests-nil :
    (start end : ℕ) (peers : List (ℕ × ℕ))
    → (is_nil (requests true start end peers) ≡ true) ↔ All (λ (q : ℕ × ℕ). q.1 < start) peers
unfolding requests
requests-nil start end [] = ((λ e. tt), λ a. refl)
requests-nil start end ((p, h) ∷ rest) = elim (Bool-cases (leb start h)) [
  | inl ahead ↦ rw ahead ((λ e. absurd (cc e)), λ a. absurd (ground arith))
  | inr behind ↦
      let (to, from) = requests-nil start end rest in
      rw behind ((λ e. (ground arith, to e)), λ a. from a.1)
]

calm : (s : ChainStatus) → is_sync (if is_sync s then producer_status else s) ≡ false
calm normal_status = refl
calm sync_status = refl
calm producer_status = refl
calm killed = refl

All-not_ahead :
    (height : ℕ) (ps : List (ℕ × ℕ))
    → All (λ (q : ℕ × ℕ). q.1 < height + 1) ps ↔ All (λ (q : ℕ × ℕ). q.1 ≤ height) ps
All-not_ahead height [] = ((λ a. tt), λ a. tt)
All-not_ahead height (p ∷ ps) =
    let (to, from) = All-not_ahead height ps in
    ((λ a. (omega arith, to a.1)), λ a. (omega arith, from a.1))

-- After `doWork` with some peers known, the chain is not synchronising exactly when no peer is ahead of
-- its last block.
pub work-is_sync :
    (height : ℕ) (p : ℕ × ℕ) (ps : List (ℕ × ℕ)) (status : ChainStatus)
    → (is_sync (work height (p ∷ ps) status).1 ≡ false) ↔ All (λ (q : ℕ × ℕ). q.1 ≤ height) (p ∷ ps)
unfolding work
work-is_sync height p ps status =
    let (to, from) = requests-nil (height + 1) 0 (p ∷ ps) in
    let (below, above) = All-not_ahead height (p ∷ ps) in
    elim (Bool-cases (is_nil (requests true (height + 1) 0 (p ∷ ps)))) [
      | inl e ↦ rw e ((λ _. below (to e)), λ _. calm status)
      | inr e ↦ rw e ((λ x. absurd (cc x)), λ a. absurd (cc (sym (from (above a)) ∙ e)))
    ]
