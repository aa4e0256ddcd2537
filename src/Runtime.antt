-- ===== src/Runtime.antt =====
-- runtime/action and runtime/common/Runtime.cpp: what a transaction does.
pub mod Stable
pub mod Frame
pub mod Supply
pub mod Replay
pub mod Fees
mod Examples
use gsenetwork.Prelude.{
  ℕ, List, [], ◌∷◌, Bool, true, false, Option, none, some, ◌==◌, if◌then◌else◌,
}
use gsenetwork.Prelude.Action.{
  Error, bad_ballot, Result, ok, err, Action, ◌>>=◌, ◌>>◌, pure, raise_if,
}
use gsenetwork.Core.Producer.{Producer, new_producer}
use gsenetwork.Core.Transaction.{Transaction, Candidate}
use gsenetwork.Core.Block.{Block}
use gsenetwork.Storage.Repository.{
  Repository, burn, transfer, get_producer, put_producer, put_transaction, clear_vote,
  vote_increase, no_such, block_time,
}

-- config/include/config/Constant.h
abbrev pub transaction_fee : ℕ
transaction_fee = 500000

abbrev pub producer_cost : ℕ
producer_cost = 1024000000

-- `Transaction::Type`
abbrev pub vote_type : ℕ
vote_type = 0

abbrev pub transfer_type : ℕ
transfer_type = 1

abbrev pub been_producer_type : ℕ
been_producer_type = 2

-- `Transfer::execute`
unfoldable pub execute_transfer : Transaction → Action Repository (Unit {0})
execute_transfer t = burn t.sender transaction_fee >> transfer t.sender t.recipient t.value

-- `BeenProducer::execute`
unfoldable pub execute_been_producer : Transaction → Action Repository (Unit {0})
execute_been_producer t = do
  burn t.sender transaction_fee
  target ← get_producer t.sender
  now ← block_time
  if no_such target
      then (burn t.sender producer_cost >> put_producer (new_producer t.sender now))
      else pure tt

-- The loop of `Vote::execute` over the ballot.
unfoldable pub cast_votes : ℕ → List Candidate → Action Repository (Unit {0})
cast_votes sender [] = pure tt
cast_votes sender (c ∷ cs) =
    let rest = cast_votes sender cs in vote_increase sender c.address c.value >> rest

abbrev pub or_raise : {A : Type 0} → Option A → Error → Action Repository A
or_raise none e r = (err e, r)
or_raise (some a) e r = (ok a, r)

-- `ballot_of` is the RLP decoding of a ballot (core/Ballot.cpp), `none` where it throws.
module _ (ballot_of : List ℕ → Option (List Candidate)) where
  -- `Vote::execute`
  unfoldable pub execute_vote : Transaction → Action Repository (Unit {0})
  execute_vote t = do
    clear_vote t.sender
    burn t.sender transaction_fee
    ballot ← or_raise (ballot_of t.content) bad_ballot
    cast_votes t.sender ballot

  -- `ActionFactory`: the handler by the transaction's type; none for any other type.
  unfoldable pub execute_action : Transaction → Action Repository (Unit {0})
  execute_action t =
      if t.tx_type == vote_type
      then execute_vote t
      else if t.tx_type == transfer_type
      then execute_transfer t
      else if t.tx_type == been_producer_type
      then execute_been_producer t
      else pure tt

  -- `Runtime::excute`
  unfoldable pub excute : Transaction → Action Repository (Unit {0})
  excute t = execute_action t >> put_transaction t

  -- `CorrelatorFilter::run`
  unfoldable pub run : List Transaction → Action Repository (Unit {0})
  run [] = pure tt
  run (t ∷ ts) = let rest = run ts in excute t >> rest
