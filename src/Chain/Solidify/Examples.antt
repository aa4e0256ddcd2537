-- ===== src/Chain/Solidify/Examples.antt =====
-- The theorems on `onSolidifiable` at two processed blocks, the first of which is solidified.
use gsenetwork.Prelude.{ℕ, [], ◌∷◌, List, true, false, ◌≡◌, ◌⊎◌, refl, arith, some, none}
use gsenetwork.Prelude.Int.{pos}
use gsenetwork.Core.Account.{Account, new_account, account_eq}
use gsenetwork.Core.Producer.{empty_producer}
use gsenetwork.Core.Transaction.{empty_transaction}
use gsenetwork.Core.Block.{Block, empty_block}
use gsenetwork.Chain.BlockState.{BlockState, new_block_state}
use gsenetwork.Storage.Repository.Branch.{but_code}
use gsenetwork.Wire.Model.{plain, plain_laws}
use gsenetwork.Wire.Accounts.{write_account, read_account}
use gsenetwork.Chain.Solidify.{MemoryItem, ChainStore, solidify}
use gsenetwork.Chain.Solidify.Shown.{
  account_at, producer_at, transaction_at, Waits, solidify-SameShown, solidify-Waits,
}

abbrev block : ℕ → ℕ → ℕ → Block
block id parent number = record empty_block { hash = id; parent_hash = parent; number = number }

abbrev entry : ℕ → ℕ → ℕ → BlockState
entry id parent number =
    new_block_state 0 (record { timestamp = pos 0; producers = [] }) (block id parent number)

abbrev items : List MemoryItem
items =
    record {
      block = block 10 9 5;
      accounts = (4, new_account 4 70 (pos 3)) ∷ [];
      producers = [];
      transactions = [];
    }
    ∷ record {
      block = block 11 10 6;
      accounts = (4, new_account 4 20 (pos 3)) ∷ (6, new_account 6 50 (pos 3)) ∷ [];
      producers = [];
      transactions = [];
    }
    ∷ []

abbrev store : ChainStore
store = record {
  memory_queue = items;
  db = record { accounts = []; producers = []; transactions = []; blocks = []; block_index = [] };
  rollback = record {
    index = entry 11 10 6 ∷ entry 10 9 5 ∷ [];
    head = some (entry 11 10 6);
    solidify_number = 4;
  };
  killed = false;
  dirty = false;
  height = 4;
  active_list = none;
  block_states = [];
}

solidify-SameShown_example :
    let l' = (solidify plain 5 items store).1 in
    (but_code (account_at 4 l'.memory_queue l'.db) ≡ but_code (new_account 4 20 (pos 3)))
    × (producer_at 4 l'.memory_queue l'.db ≡ empty_producer)
    × (transaction_at 4 l'.memory_queue l'.db ≡ empty_transaction)
    × ((b : Account) × (read_account plain (write_account plain (new_account 4 20 (pos 3)))
          ≡ some b)
        × (but_code b ≡ but_code (new_account 4 20 (pos 3))))
unfolding account_eq
solidify-SameShown_example =
    solidify-SameShown plain plain_laws 5 items store 4
      (
        (((omega arith, tt), ((refl, refl), tt)), (tt, tt), (tt, tt)),
        (
          (
            ((omega arith, (omega arith, tt)), ((refl, refl), ((refl, refl), tt))),
            (tt, tt),
            (tt, tt),
          ),
          tt,
        ),
      )
      (omega arith)

solidify-Waits_example :
    let (thrown, l') = solidify plain 5 items store in
    (l'.dirty ≡ thrown) × ((thrown ≡ true) ⊎ Waits 5 l'.memory_queue)
solidify-Waits_example = solidify-Waits plain 5 items store refl refl
