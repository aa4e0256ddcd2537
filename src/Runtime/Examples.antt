-- ===== src/Runtime/Examples.antt =====
-- The theorems on runtime/action and runtime/common/Runtime.cpp at one transfer.
use gsenetwork.Prelude.{ℕ, ◌+◌, [], ◌∷◌, ◌≡◌, ◌≢◌, refl, arith}
use gsenetwork.Prelude.Action.{ok}
use gsenetwork.Prelude.Int.{pos}
use gsenetwork.Core.Account.{new_account, account_eq}
use gsenetwork.Core.Transaction.{Transaction, empty_transaction}
use gsenetwork.Core.Block.{empty_block}
use gsenetwork.Storage.Cache.{read, read_parent, read_db, put}
use gsenetwork.Storage.Repository.{
  Repository, burn, transfer, store_account, found_account, after_account, get_account, put_account,
}
use gsenetwork.Storage.Repository.Ledger.{Shows, shown}
use gsenetwork.Runtime.{execute_transfer}
use gsenetwork.Runtime.Fees.{execute_transfer_pays}

abbrev paid : Transaction
paid = record empty_transaction { hash = 77; tx_type = 1; sender = 1; recipient = 2; value = 500 }

abbrev repo : Repository
repo = record {
  accounts = record {
    cache = (1, new_account 1 2_000_000 (pos 3)) ∷ (2, new_account 2 700_000 (pos 3)) ∷ [];
    parents = [];
  };
  producers = record { cache = []; parents = [] };
  transactions = record { cache = []; parents = [] };
  block = record empty_block { number = 5; timestamp = pos 9 };
  db = record { accounts = []; producers = []; transactions = []; blocks = []; block_index = [] };
}

done : (execute_transfer paid repo).0 ≡ ok tt
unfolding execute_transfer burn transfer get_account put_account found_account after_account
    store_account read read_parent read_db put account_eq
done = refl

repo-Shows : Shows repo (shown repo)
unfolding account_eq
repo-Shows = record {
  sound = (((omega arith, (omega arith, tt)), ((refl, refl), ((refl, refl), tt))), tt);
  keyed = λ k full. absurd (cc full);
  shows = λ j. refl;
  lives = λ j full. ground arith;
}

execute_transfer_pays_example :
    let s = (execute_transfer paid repo).1 in
    ((shown s 1).balance + 500 + 500_000 ≡ 2_000_000)
    × ((shown s 2).balance ≡ 700_500)
    × ((j : ℕ) → j ≢ 1 → j ≢ 2 → shown s j ≡ shown repo j)
execute_transfer_pays_example =
    execute_transfer_pays paid repo (shown repo) repo-Shows (omega arith) (omega arith)
      (omega arith) (λ e. absurd (omega arith)) done
