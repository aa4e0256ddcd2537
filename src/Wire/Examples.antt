-- ===== src/Wire/Examples.antt =====
-- The theorems on the streams at small objects, over the code of `Model`.
use gsenetwork.Prelude.{ℕ, [], ◌∷◌, true, false, some, ◌≡◌, refl, arith}
use gsenetwork.Prelude.Int.{pos}
use gsenetwork.Core.Account.{Account, empty_account}
use gsenetwork.Core.Transaction.{Transaction, empty_transaction}
use gsenetwork.Wire.Rlp.{Bytes}
use gsenetwork.Wire.Model.{plain, plain_laws}
use gsenetwork.Wire.Accounts.{write_account, read_account}
use gsenetwork.Wire.Accounts.RoundTrip.{read_account-write_account}
use gsenetwork.Wire.Transactions.{write_transaction, read_transaction, hash_transaction}
use gsenetwork.Wire.Transactions.RoundTrip.{TransactionFits, read_transaction-write_transaction}
use gsenetwork.Wire.Blocks.{Header, Packet, write_packet, read_packet}
use gsenetwork.Wire.Blocks.RoundTrip.{read_packet-write_packet}

-- An account with code, two votes and a contract.
abbrev voter : Account
voter = record empty_account {
  address = 7;
  code = 5 ∷ [];
  balance = 900;
  timestamp = pos 12;
  contract_addresses = 3 ∷ [];
  votes = 50;
  candidates = (4, 20) ∷ (9, 30) ∷ [];
}

read_account-write_account_example :
    read_account plain (write_account plain voter) ≡ some (record voter { code = 2 ∷ 3 ∷ 5 ∷ [] })
read_account-write_account_example =
    read_account-write_account plain plain_laws voter
      (omega arith, omega arith, omega arith, omega arith, omega arith, omega arith, omega arith)

abbrev sha : Bytes → ℕ
sha _ = 77

abbrev payment : Transaction
payment = record empty_transaction {
  hash = 77;
  sender = 7;
  recipient = 8;
  value = 30;
  signature = 1;
}

abbrev payment_fits : TransactionFits payment
payment_fits =
    (omega arith, omega arith, omega arith, omega arith, omega arith, omega arith, omega arith)

read_transaction-write_transaction_example :
    read_transaction plain sha (write_transaction plain payment) ≡ some payment
unfolding hash_transaction
read_transaction-write_transaction_example =
    read_transaction-write_transaction plain plain_laws sha payment payment_fits refl

abbrev header : Header
header = record {
  chain_id = 16;
  producer = 4;
  parent_hash = 100;
  mkl_root = 1;
  transactions_root = 2;
  receipt_root = 3;
  number = 12;
  timestamp = pos 1000;
  extra = [];
  v = 27;
  r = 5;
  s = 6;
}

abbrev packet : Packet
packet = record { header = header; transactions = payment ∷ []; receipts = []; sync_block = true }

read_packet-write_packet_example :
    read_packet plain sha header (write_packet plain packet)
    ≡ some (record packet { sync_block = false })
unfolding hash_transaction
read_packet-write_packet_example =
    read_packet-write_packet plain plain_laws sha header packet
      (
        omega arith,
        omega arith,
        omega arith,
        omega arith,
        omega arith,
        omega arith,
        omega arith,
        omega arith,
        omega arith,
        omega arith,
        omega arith,
      )
      ((payment_fits, refl), tt)
