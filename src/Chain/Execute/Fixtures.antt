-- ===== src/Chain/Execute/Fixtures.antt =====
-- A block of one transfer, and a database of three accounts.
use gsenetwork.Prelude.{ℕ, [], ◌∷◌, List, true, false, ◌≡◌, refl, Option, none}
use gsenetwork.Prelude.Int.{pos}
use gsenetwork.Core.Account.{new_account, account_eq}
use gsenetwork.Core.Transaction.{Transaction, Candidate, empty_transaction, transaction_eq}
use gsenetwork.Core.Block.{Block, empty_block}
use gsenetwork.Storage.Database.{Database}
use gsenetwork.Storage.Cache.{read, read_parent, read_db, put}
use gsenetwork.Storage.Repository.{
  burn, transfer, bonus, get_account, put_account, found_account, after_account, store_account,
  store_transaction, put_transaction,
}
use gsenetwork.Storage.Repository.Record.{is_none}
use gsenetwork.Runtime.{execute_transfer, execute_action, excute, run}
use gsenetwork.Chain.Execute.{no_item, any_exists, is_exist_in_repo, do_process_block, block_bonus}
use gsenetwork.Chain.Execute.Once.{BackOrderly}

abbrev pub paid : Transaction
paid = record empty_transaction { hash = 77; tx_type = 1; sender = 1; recipient = 2; value = 500 }

abbrev pub db : Database
db = record {
  accounts =
      (1, new_account 1 2_000_000 (pos 3))
      ∷ (2, new_account 2 700_000 (pos 3))
      ∷ (9, new_account 9 10 (pos 3))
      ∷ [];
  producers = [];
  transactions = [];
  blocks = [];
  block_index = [];
}

abbrev pub no_ballot : List ℕ → Option (List Candidate)
no_ballot _ = none

abbrev pub at : ℕ → Block
at n = record empty_block {
  hash = n;
  number = n;
  producer = 9;
  timestamp = pos 1538352002000;
  transactions = paid ∷ [];
}

pub done : (do_process_block no_ballot (at 5) (no_item db)).0 ≡ true
unfolding do_process_block any_exists is_exist_in_repo block_bonus run excute execute_action
    execute_transfer put_transaction burn transfer bonus get_account put_account found_account
    after_account store_account store_transaction read read_parent read_db put account_eq
    transaction_eq
done = refl

pub db-BackOrderly : BackOrderly (no_item db)
unfolding transaction_eq
db-BackOrderly k full = absurd (cc full)

pub paid_full : is_none paid ≡ false
unfolding transaction_eq
paid_full = refl
