-- ===== src/Storage/Repository/Examples.antt =====
-- The theorems on runtime/storage/Repository.cpp at a small repository.
use gsenetwork.Prelude.{some, ℕ, ◌+◌, ◌≡◌, ◌≢◌, sym, ◌∙◌, arith}
use gsenetwork.Prelude.Action.{ok}
use gsenetwork.Prelude.Int.{pos}
use gsenetwork.Core.Account.{account_eq}
use gsenetwork.Core.Producer.{producer_eq}
use gsenetwork.Storage.Repository.{
  transfer, vote_increase, clear_vote, store_account, store_producer,
}
use gsenetwork.Storage.Repository.Ledger.{shown}
use gsenetwork.Storage.Repository.Book.{Refines, spec_transfer}
use gsenetwork.Storage.Repository.Balance.{transfer-Refines}
use gsenetwork.Storage.Repository.Money.{transfer_moves}
use gsenetwork.Storage.Repository.Votes
use gsenetwork.Storage.Repository.Votes.{vote_increase-Refines, spec_vote}
use gsenetwork.Storage.Repository.Clear.{clear_vote-Refines, spec_clear}
use gsenetwork.Storage.Repository.Mirror.{
  VotesAgree, vote_increase-VotesAgree, clear_vote-VotesAgree,
}
use gsenetwork.Storage.Cache.View.{norm, view}
use gsenetwork.Storage.Database.{
  account_entity, producer_entity, transaction_entity, db_account, db_producer, db_transaction,
}
use gsenetwork.Storage.Repository.{to_list}
use gsenetwork.Storage.Repository.Branch.{commit, but_code, commit-shown}
use gsenetwork.Wire.Model.{plain, plain_laws}
use gsenetwork.Wire.Accounts.{write_account, read_account}
use gsenetwork.Core.Account.{Account}
use gsenetwork.Storage.Repository.Fixtures.{
  repo, book, roster, repo-IsOrderly, repo-Shows, repo-Lists, repo-VotesAgree,
}

transfer_example : Refines (transfer 1 2 50 repo) (spec_transfer 1 2 50 (pos 1538352010000) book)
unfolding account_eq store_account store_producer
transfer_example =
    transfer-Refines 1 2 50 repo book repo-Shows (omega arith) (omega arith) (omega arith)

transfer_done : (transfer 1 2 50 repo).0 ≡ ok tt
unfolding account_eq
transfer_done = transfer_example.0

transfer_moves_example :
    let r' = (transfer 1 2 50 repo).1 in
    ((shown r' 1).balance + 50 ≡ 5_000_000_000)
    × ((shown r' 2).balance ≡ 350)
    × ((j : ℕ) → j ≢ 1 → j ≢ 2 → shown r' j ≡ book j)
transfer_moves_example =
    transfer_moves 1 2 50 repo book repo-Shows (omega arith) (omega arith) (omega arith)
      (λ e. absurd (omega arith)) transfer_done

too_much : Refines (transfer 2 1 50_000 repo) (spec_transfer 2 1 50_000 (pos 1538352010000) book)
unfolding account_eq store_account store_producer
too_much =
    transfer-Refines 2 1 50_000 repo book repo-Shows (omega arith) (omega arith) (omega arith)

transfer_refused : (transfer 2 1 50_000 repo).0 ≢ ok tt
unfolding account_eq
transfer_refused done = absurd (cc (sym too_much.0 ∙ done))

vote_increase_example : Votes.Refines (vote_increase 1 7 100 repo) (spec_vote 1 7 100 book roster)
vote_increase_example = vote_increase-Refines 1 7 100 repo book roster repo-Shows repo-Lists

clear_vote_example : Votes.Refines (clear_vote 1 repo) (spec_clear 1 book roster)
clear_vote_example = clear_vote-Refines 1 repo book roster repo-Shows repo-Lists

voted : (vote_increase 1 7 100 repo).0 ≡ ok tt
unfolding account_eq producer_eq
voted = vote_increase_example.0

voted-VotesAgree : VotesAgree (vote_increase 1 7 100 repo).1
voted-VotesAgree = vote_increase-VotesAgree 1 7 100 repo repo-VotesAgree voted

cleared_example : (clear_vote 1 repo).0 ≡ ok tt
unfolding account_eq producer_eq
cleared_example = clear_vote_example.0

clear_vote-VotesAgree_example : VotesAgree (clear_vote 1 repo).1
clear_vote-VotesAgree_example = clear_vote-VotesAgree 1 repo repo-VotesAgree cleared_example

commit-shown_example :
    let s = commit plain repo in
    (norm (view (db_account s.db) 2 s.accounts.parents) ≡ book 2)
    × (view (db_producer s.db) 2 s.producers.parents ≡ roster 2)
    × (view (db_transaction s.db) 2 s.transactions.parents
        ≡ view (db_transaction repo.db) 2 (to_list repo.transactions))
    × ((b : Account) × (read_account plain (write_account plain (book 2)) ≡ some b)
        × (but_code b ≡ but_code (book 2)))
unfolding store_producer store_account
commit-shown_example =
    commit-shown plain plain_laws repo book roster 2 repo-Shows repo-Lists repo-IsOrderly
      (omega arith)
