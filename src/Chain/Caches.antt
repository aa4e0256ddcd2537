-- ===== src/Chain/Caches.antt =====
-- chain/BlockChain.cpp: the caches of transactions and blocks that wait, and what is taken from them.
pub mod Order
pub mod Select
mod Examples
use gsenetwork.Prelude.{
  ℕ, ◌+◌, List, [], ◌∷◌, Bool, true, false, Option, none, some, leb, ltb, ◌==◌, if◌then◌else◌,
}
use gsenetwork.Prelude.Int.{ℤ, ltb_ℤ, ◌==ℤ◌}
use gsenetwork.Core.Transaction.{Transaction}
use gsenetwork.Core.Block.{Block}

-- `m_txCache.insert`: unique by timestamp, so a second transaction of one time is not taken.
abbrev pub insert_tx : Transaction → List Transaction → List Transaction
insert_tx t [] = t ∷ []
insert_tx t (u ∷ us) =
    if ltb_ℤ t.timestamp u.timestamp
    then t ∷ u ∷ us
    else if ltb_ℤ u.timestamp t.timestamp
    then u ∷ insert_tx t us
    else u ∷ us

-- `getTransactionFromCache`
abbrev pub get_transaction_from_cache : List Transaction → Option Transaction × List Transaction
get_transaction_from_cache [] = (none, [])
get_transaction_from_cache (t ∷ ts) = (some t, ts)

abbrev pub erase_tx : ℕ → List Transaction → List Transaction
erase_tx h [] = []
erase_tx h (u ∷ us) = if u.hash == h then us else u ∷ erase_tx h us

-- `eraseSolicitedTx`
abbrev pub erase_solicited_tx : List Transaction → List Transaction → List Transaction
erase_solicited_tx [] cache = cache
erase_solicited_tx (t ∷ ts) cache = erase_solicited_tx ts (erase_tx t.hash cache)

-- `m_blockCache.insert`: unique by number.
abbrev pub insert_block : Block → List Block → List Block
insert_block b [] = b ∷ []
insert_block b (c ∷ cs) =
    if ltb b.number c.number
    then b ∷ c ∷ cs
    else if ltb c.number b.number
    then c ∷ insert_block b cs
    else c ∷ cs

-- `processProducerBlock`, with the height of the last solidified block
abbrev pub process_producer_block : ℕ → Block → List Block → Bool × List Block
process_producer_block solidified b cache =
    if leb b.number solidified then (false, cache) else (true, insert_block b cache)

-- `doWork`, up to `processBlock`: the block that is taken, and the cache after it. The numbers are those
-- of the last block and of the last solidified one.
unfoldable pub select : ℕ → ℕ → List Block → Option Block × List Block
select last solidified [] = (none, [])
select last solidified (b ∷ rest) =
    if b.number == last + 1
    then (some b, rest)
    else if leb b.number last
    then if leb b.number solidified then (none, rest) else (some b, rest)
    else (none, b ∷ rest)

-- The window of `processBlockMessage` on a block's number.
abbrev pub in_window : ℕ → ℕ → ℕ → Bool
in_window last solidified number =
    if ltb (last + 1000) number then false else if leb number solidified then false else true
