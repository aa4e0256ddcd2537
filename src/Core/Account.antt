-- ===== src/Core/Account.antt =====
-- core/Account.cpp and core/include/core/Account.h. Addresses are numbers below 2 ^ 160, timestamps
-- integers, balances and votes numbers below 2 ^ 64.
use gsenetwork.Prelude.{ℕ, List, [], Bool, true, false, ◌&&◌, ◌==◌, add64, bool_eq}
use gsenetwork.Prelude.Int.{ℤ, pos, ◌==ℤ◌}
use gsenetwork.Prelude.Map.{Map, insert}

pub data AccountType : Type 0 where
  external contract : AccountType

abbrev pub type_eq : AccountType → AccountType → Bool
type_eq external external = true
type_eq contract contract = true
type_eq _ _ = false

pub record Account : Type 0 where
  pub address : ℕ
  pub account_type : AccountType
  pub code : List ℕ
  pub alive : Bool
  pub balance : ℕ
  pub timestamp : ℤ
  pub contract_addresses : List ℕ
  pub votes : ℕ
  pub candidates : Map ℕ

-- The global `EmptyAccount`: static storage, so its numbers are zero.
abbrev pub empty_account : Account
empty_account = record {
  address = 0;
  account_type = external;
  code = [];
  alive = false;
  balance = 0;
  timestamp = pos 0;
  contract_addresses = [];
  votes = 0;
  candidates = [];
}

-- `Account(Address, uint64_t balance, int64_t timestamp)`
abbrev pub new_account : ℕ → ℕ → ℤ → Account
new_account a b t = record empty_account { address = a; balance = b; timestamp = t; alive = true }

-- `operator==`: the code, the votes and the candidates are not compared.
unfoldable pub account_eq : Account → Account → Bool
account_eq a b =
    a.address == b.address
    && type_eq a.account_type b.account_type
    && bool_eq a.alive b.alive
    && a.balance == b.balance
    && a.timestamp ==ℤ b.timestamp

-- `operator=`: the contract addresses of the left side stay.
abbrev pub assign : Account → Account → Account
assign a b = record b { contract_addresses = a.contract_addresses }

abbrev pub set_balance : ℕ → Account → Account
set_balance b a = record a { balance = b }

abbrev pub add_voter : ℕ → ℕ → Account → Account
add_voter candidate value a = record a {
  candidates = insert candidate value a.candidates;
  votes = add64 a.votes value;
}

abbrev pub clear_vote : Account → Account
clear_vote a = record a { candidates = []; votes = 0 }
