-- ===== src/Chain/Queue/Examples.antt =====
-- The theorems on the memory queue, at small queues.
use gsenetwork.Prelude.{ℕ, [], ◌∷◌, List, ◌≡◌, ◌≤◌, ◌+◌, refl, arith}
use gsenetwork.Core.Account.{account_eq}
use gsenetwork.Storage.Repository.Total.{total}
use gsenetwork.Chain.Queue.Supply.{Holds, bonuses, book_of, process_all-total}
use gsenetwork.Core.Block.{Block, empty_block}
use gsenetwork.Storage.Cache.{put}
use gsenetwork.Storage.Repository.{store_account, store_producer}
use gsenetwork.Storage.Repository.Fixtures.{
  first, second, chosen, blank, repo-Shows, repo-Lists, repo-IsOrderly,
}
use gsenetwork.Chain.Execute.Fixtures.{no_ballot, at, db}
use gsenetwork.Chain.Execute.Shown.{BackSound, account_of, producer_of, transaction_of}
use gsenetwork.Chain.Queue.{Queue, back_of, cancel_all, process_all}
use gsenetwork.Chain.Queue.Undone.{blocks_of, process_all-undone}

abbrev queue : Queue
queue = record {
  items =
      record {
        block = blank.block;
        accounts = (1, first) ∷ (2, second) ∷ [];
        producers = (7, chosen) ∷ [];
        transactions = [];
      }
      ∷ record {
        block = record empty_block { number = 4 };
        accounts = [];
        producers = [];
        transactions = [];
      }
      ∷ [];
  db = blank.db;
}

queue-BackSound : BackSound (back_of queue.items queue.db)
unfolding store_account store_producer put
queue-BackSound = record {
  accounts = repo-Shows.sound;
  producers = repo-Lists.sound;
  transactions = repo-IsOrderly.sound;
  accounts_keyed = repo-Shows.keyed;
  producers_keyed = repo-Lists.keyed;
  transactions_keyed = repo-IsOrderly.keyed;
}

-- A block, and one with the same transaction.
abbrev blocks : List Block
blocks = at 6 ∷ at 7 ∷ []

process_all-undone_example :
    let (count, q') = process_all no_ballot blocks queue in
    let u = cancel_all count q' in
    let before = back_of queue.items queue.db in
    let after = back_of u.items u.db in
    (blocks_of u.items ≡ blocks_of queue.items)
    × BackSound after
    × (account_of 1 after ≡ account_of 1 before)
    × (producer_of 1 after ≡ producer_of 1 before)
    × (transaction_of 1 after ≡ transaction_of 1 before)
process_all-undone_example = process_all-undone no_ballot blocks queue 1 queue-BackSound

-- A queue without items over a database of three accounts.
abbrev short : Queue
short = record { items = []; db = db }

short-Holds : Holds db [] (book_of short)
unfolding account_eq
short-Holds = record {
  sound = tt;
  keyed = λ k full. ground arith;
  shows = λ j. refl;
  lives = λ j full. ground arith;
  bounded = λ j. ground arith;
}

-- The first block is executed; the second one has the same transaction.
process_all-total_example :
    let xs : List ℕ = 1 ∷ 2 ∷ 9 ∷ [] in
    total xs (book_of (process_all no_ballot (at 5 ∷ at 6 ∷ []) short).1)
    ≤ total xs (book_of short) + bonuses (at 5 ∷ at 6 ∷ [])
process_all-total_example =
    process_all-total no_ballot (1 ∷ 2 ∷ 9 ∷ []) (at 5 ∷ at 6 ∷ []) short (refl, (refl, (refl, tt)))
      (
        ((λ _. (refl, λ e. absurd (omega (arith, e)), omega arith)), tt),
        (((λ _. (refl, λ e. absurd (omega (arith, e)), omega arith)), tt), tt),
      )
      short-Holds
