-- ===== src/Storage/Database.antt =====
-- database/DatabaseController.cpp: one store for each kind of object, by the object's key. The source keeps
-- bytes; a store here holds what a read makes of them, which for an account is another code than was put
-- (Branch.reread_account). A read of a missing key gives the empty object.
use gsenetwork.Prelude.{ℕ, true, ◌≡◌, refl}
use gsenetwork.Prelude.Map.{Map, insert}
use gsenetwork.Core.Account.{Account, empty_account, account_eq, assign}
use gsenetwork.Core.Producer.{Producer, empty_producer, producer_eq}
use gsenetwork.Core.Transaction.{Transaction, empty_transaction, transaction_eq}
use gsenetwork.Core.Block.{Block}
use gsenetwork.Storage.Cache.{Entity, fetch}

pub empty_account-eq : account_eq empty_account empty_account ≡ true
unfolding account_eq
empty_account-eq = refl

pub assign-eq : (u v : Account) → account_eq (assign u v) empty_account ≡ account_eq v empty_account
unfolding account_eq
assign-eq u v = refl

pub empty_producer-eq : producer_eq empty_producer empty_producer ≡ true
unfolding producer_eq
empty_producer-eq = refl

instance abbrev pub account_entity : Entity Account
account_entity = record {
  key = λ a. a.address;
  empty = empty_account;
  is_empty = λ a. account_eq a empty_account;
  assign = assign;
  on_miss = λ a. a;
  is_empty-empty = empty_account-eq;
  is_empty-on_miss = λ v h. h;
  key-assign = λ u v. refl;
  is_empty-assign = assign-eq;
  assign-assign = λ t u v. refl;
}

instance abbrev pub producer_entity : Entity Producer
producer_entity = record {
  key = λ p. p.address;
  empty = empty_producer;
  is_empty = λ p. producer_eq p empty_producer;
  assign = λ _ p. p;
  on_miss = λ _. empty_producer;
  is_empty-empty = empty_producer-eq;
  is_empty-on_miss = λ v h. empty_producer-eq;
  key-assign = λ u v. refl;
  is_empty-assign = λ u v. refl;
  assign-assign = λ t u v. refl;
}

pub empty_transaction-eq : transaction_eq empty_transaction empty_transaction ≡ true
unfolding transaction_eq
empty_transaction-eq = refl

instance abbrev pub transaction_entity : Entity Transaction
transaction_entity = record {
  key = λ t. t.hash;
  empty = empty_transaction;
  is_empty = λ t. transaction_eq t empty_transaction;
  assign = λ _ t. t;
  on_miss = λ _. empty_transaction;
  is_empty-empty = empty_transaction-eq;
  is_empty-on_miss = λ v h. empty_transaction-eq;
  key-assign = λ u v. refl;
  is_empty-assign = λ u v. refl;
  assign-assign = λ t u v. refl;
}

pub record Database : Type 0 where
  pub accounts : Map Account
  pub producers : Map Producer
  pub transactions : Map Transaction
  pub blocks : Map Block
  pub block_index : Map Block

-- `getAccount` and `getProducer`
abbrev pub db_account : Database → ℕ → Account
db_account db = fetch db.accounts

abbrev pub db_producer : Database → ℕ → Producer
db_producer db = fetch db.producers

abbrev pub db_transaction : Database → ℕ → Transaction
db_transaction db = fetch db.transactions

-- `put(Block&)`: by identifier and by number.
abbrev pub db_put_block : Block → Database → Database
db_put_block b db = record db {
  blocks = insert b.hash b db.blocks;
  block_index = insert b.number b db.block_index;
}
