-- ===== src/Storage/Repository/Fixtures.antt =====
-- A small repository for the tests: two accounts and a producer over an empty database and a parent.
use gsenetwork.Prelude.{[], ◌∷◌, false, ◌≡◌, refl, arith}
use gsenetwork.Prelude.Int.{pos}
use gsenetwork.Core.Account.{Account, empty_account, new_account, account_eq}
use gsenetwork.Core.Producer.{Producer, empty_producer, new_producer, producer_eq}
use gsenetwork.Core.Transaction.{transaction_eq}
use gsenetwork.Core.Block.{empty_block}
use gsenetwork.Storage.Database.{Database}
use gsenetwork.Storage.Repository.{Repository, store_account, store_producer}
use gsenetwork.Storage.Repository.Ledger.{Shows, update, store_account-Shows, store_producer-Shows}
use gsenetwork.Storage.Repository.Book.{Book}
use gsenetwork.Storage.Repository.Roster.{Lists, enlist, store_account-Lists, store_producer-Lists}
use gsenetwork.Storage.Repository.Record.{IsOrderly}
use gsenetwork.Storage.Repository.Votes.{Roster}
use gsenetwork.Storage.Repository.Mirror.{VotesAgree, agree}

abbrev no_data : Database
no_data = record { accounts = []; producers = []; transactions = []; blocks = []; block_index = [] }

abbrev pub blank : Repository
blank = record {
  accounts = record { cache = []; parents = [] ∷ [] };
  producers = record { cache = []; parents = [] ∷ [] };
  transactions = record { cache = []; parents = [] ∷ [] };
  block = record empty_block { number = 5; timestamp = pos 1538352010000 };
  db = no_data;
}

-- An address is 1 for the first account and 2 for the second; the producer's is 7.
abbrev pub first : Account
first = new_account 1 5_000_000_000 (pos 1538352000000)

abbrev pub second : Account
second = new_account 2 300 (pos 1538352000000)

abbrev pub chosen : Producer
chosen = new_producer 7 (pos 1538352000000)

abbrev pub repo : Repository
repo = store_producer chosen (store_account second (store_account first blank))

abbrev pub book : Book
book = update (update (λ _. empty_account) 1 first) 2 second

abbrev pub roster : Roster
roster = enlist (λ _. empty_producer) 7 chosen

blank-Shows : Shows blank (λ _. empty_account)
unfolding account_eq
blank-Shows = record {
  sound = ((tt, tt), ((tt, tt), tt));
  keyed = λ k full. absurd (cc full);
  shows = λ j. refl;
  lives = λ j full. absurd (cc full);
}

blank-Lists : Lists blank (λ _. empty_producer)
unfolding producer_eq
blank-Lists = record {
  sound = ((tt, tt), ((tt, tt), tt));
  keyed = λ k full. absurd (cc full);
  lists = λ j. refl;
}

pub repo-Shows : Shows repo book
repo-Shows = store_producer-Shows chosen (store_account second (store_account first blank)) book (
    store_account-Shows second (store_account first blank) (update (λ _. empty_account) 1 first)
      refl (store_account-Shows first blank (λ _. empty_account) refl blank-Shows))

chosen-full : producer_eq chosen empty_producer ≡ false
unfolding producer_eq
chosen-full = refl

pub repo-Lists : Lists repo roster
repo-Lists =
    store_producer-Lists chosen (store_account second (store_account first blank))
      (λ _. empty_producer) chosen-full
      (store_account-Lists 1 (store_account first blank) (λ _. empty_producer)
        (store_account-Lists 1 blank (λ _. empty_producer) blank-Lists first) second)

pub repo-VotesAgree : VotesAgree repo
repo-VotesAgree =
    agree repo book roster repo-Shows repo-Lists (λ c. ground arith) (λ a c. ground arith)

pub repo-IsOrderly : IsOrderly repo
unfolding transaction_eq store_account store_producer
repo-IsOrderly = record { sound = ((tt, tt), ((tt, tt), tt)); keyed = λ k full. absurd (cc full) }
