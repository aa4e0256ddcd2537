-- ===== src/Slots.antt =====
-- The time slots of block production (config/include/config/Constant.h), as producer/ProducerServer.cpp
-- and chain/BlockChain.cpp compute them. Timestamps are integers in milliseconds.
use gsenetwork.Prelude.{ℕ, ◌-◌, ◌/◌, ◌%◌, ◌^◌, ◌≤◌, ◌<◌, Bool, ◌≡◌, arith, leb}
use gsenetwork.Prelude.Int.{ℤ, pos, negsuc, ◌-ℤ◌, ◌*ℕ◌, ◌≤ℤ◌, quot, rem, leb_ℤ}

-- GENESIS_TIMESTAMP
abbrev pub genesis : ℤ
genesis = pos 1538352000000

-- PRODUCER_INTERVAL
abbrev pub interval : ℕ
interval = 2000

-- TIME_PER_ROUND
abbrev pub round : ℕ
round = 14000

-- The conversion of an int64_t to unsigned.
abbrev pub to_unsigned : ℤ → ℕ
to_unsigned (pos n) = n % 2 ^ 32
to_unsigned (negsuc n) = 2 ^ 32 - 1 - n % 2 ^ 32

-- `((timestamp - GENESIS_TIMESTAMP) % TIME_PER_ROUND) / PRODUCER_INTERVAL`, as an unsigned.
unfoldable pub position : ℤ → ℕ
position t = to_unsigned (quot (rem (t -ℤ genesis) round) interval)

-- `((timestamp - GENESIS_TIMESTAMP) / PRODUCER_INTERVAL) * PRODUCER_INTERVAL`
unfoldable pub slice : ℤ → ℤ
slice t = quot (t -ℤ genesis) interval *ℕ interval

-- The test that a time's slot is not after another time: both checkers refuse then.
unfoldable pub slot_taken : ℤ → ℤ → Bool
unfolding slice
slot_taken t last = leb_ℤ (slice t) (last -ℤ genesis)

-- From the genesis on, a position is one of the seven turns of a round.
pub position_bound : (t : ℤ) → genesis ≤ℤ t → position t < 7
unfolding position
position_bound (pos n) h = ground arith
position_bound (negsuc n) h = absurd (omega arith)

-- The slot of a time, counted from the genesis.
abbrev pub slot : ℕ → ℕ
slot n = (n - 1538352000000) / 2000

-- For two times from the genesis on, the test refuses exactly a time whose slot is not after the
-- other's.
pub slot_taken_iff :
    (n last : ℕ)
    → 1538352000000 ≤ n
    → 1538352000000 ≤ last
    → slot_taken (pos n) (pos last) ≡ leb (slot n) (slot last)
unfolding slot_taken
slot_taken_iff n last h k = ground arith
