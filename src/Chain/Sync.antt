-- ===== src/Chain/Sync.antt =====
-- chain/Sync.cpp: which blocks are asked for, from which peers.
pub mod Requests
mod Examples
use gsenetwork.Prelude.{ℕ, ◌+◌, ◌-◌, List, [], ◌∷◌, Bool, true, false, leb, if◌then◌else◌, add64}
use gsenetwork.Prelude.Int.{ℤ, ◌-ℤ◌, leb_ℤ, pos}
use gsenetwork.Prelude.Map.{Map, insert}
use gsenetwork.Server.{ChainStatus, normal_status, sync_status, producer_status, killed}

-- COUNT_PER_ROUND
abbrev pub count_per_round : ℕ
count_per_round = 15

-- A peer, and the first and the last number of the blocks asked for.
pub record Request : Type 0 where
  pub peer : ℕ
  pub start : ℕ
  pub end : ℕ

-- `requestEnd` for a peer of a height that is not below the start.
abbrev pub request_end : ℕ → ℕ → ℕ
request_end start height =
    if leb count_per_round (height - start) then start + count_per_round - 1 else height

-- The loop over the peers in the order of their heights: whether `idx` is even, and `requestStart` and
-- `requestEnd`.
unfoldable pub requests : Bool → ℕ → ℕ → List (ℕ × ℕ) → List Request
requests even start end [] = []
requests even start end ((peer, height) ∷ rest) =
    let skipped = requests true start end rest in
    let opened = requests false start (request_end start height) rest in
    let repeated = requests true (add64 start count_per_round) end rest in
    if even
    then if leb start height
      then record { peer = peer; start = start; end = request_end start height } ∷ opened
      else skipped
    else record { peer = peer; start = start; end = end } ∷ repeated

abbrev pub is_sync : ChainStatus → Bool
is_sync sync_status = true
is_sync _ = false

abbrev pub is_nil : List Request → Bool
is_nil [] = true
is_nil (r ∷ rs) = false

-- `doWork` of a running `Sync` behind the wait: what is sent, and the status of the chain. `sorted` are
-- the heights of the peers as `std::sort` leaves them, `height` is that of the last block.
unfoldable pub work : ℕ → List (ℕ × ℕ) → ChainStatus → List Request × ChainStatus
work height [] status = ([], sync_status)
work height (p ∷ ps) status =
    let sent = requests true (height + 1) 0 (p ∷ ps) in
    if is_nil sent
    then (sent, if is_sync status then producer_status else status)
    else (sent, sync_status)

-- `update`
abbrev pub update : ℕ → ℕ → Map ℕ → Map ℕ
update peer height heights = insert peer height heights
