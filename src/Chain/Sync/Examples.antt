-- ===== src/Chain/Sync/Examples.antt =====
-- The theorems on chain/Sync.cpp at three peers.
use gsenetwork.Prelude.{ℕ, [], ◌∷◌, List, arith, All}
use gsenetwork.Server.{producer_status}
use gsenetwork.Chain.Sync.{work}
use gsenetwork.Chain.Sync.Requests.{IsSane, work-IsSane}

-- Names and heights.
abbrev peers : List (ℕ × ℕ)
peers = (1, 90) ∷ (2, 104) ∷ (3, 250) ∷ []

work-IsSane_example : All (IsSane 100 peers) (work 100 peers producer_status).0
work-IsSane_example = work-IsSane 100 peers producer_status (
  (omega arith, (omega arith, tt)),
  omega arith,
  ((omega arith, tt), omega arith, (tt, omega arith, tt)),
)
