-- ===== src/Wire/Blocks.antt =====
-- The streams of core/Block.cpp and core/TransactionReceipt.cpp.
pub mod RoundTrip
use gsenetwork.Prelude.{
  ℕ, ◌%◌, ◌^◌, List, [], ◌∷◌, Bool, false, Option, none, some, ◌==◌, if◌then◌else◌,
}
use gsenetwork.Prelude.Int.{ℤ}
use gsenetwork.Core.Transaction.{Transaction}
use gsenetwork.Core.Block.{Block}
use gsenetwork.Wire.Rlp.{Bytes, Parsed, broken, text, items, Rlp, ◌>>=◌, write_all, read_all}
use gsenetwork.Wire.Transactions.{write_transaction, read_transaction}

-- `BlockHeader`; the signature is r, s and v.
pub record Header : Type 0 where
  pub chain_id : ℕ
  pub producer : ℕ
  pub parent_hash : ℕ
  pub mkl_root : ℕ
  pub transactions_root : ℕ
  pub receipt_root : ℕ
  pub number : ℕ
  pub timestamp : ℤ
  pub extra : List ℕ
  pub v : ℕ
  pub r : ℕ
  pub s : ℕ

-- `TransactionReceipt`: a status or a root of the state.
pub data Receipt : Type 0 where
  status root : ℕ → Receipt

-- A `Block` as it is stored and sent.
pub record Packet : Type 0 where
  pub header : Header
  pub transactions : List Transaction
  pub receipts : List Receipt
  pub sync_block : Bool

module _ (r : Rlp) where
  -- `BlockHeader::streamRLPContent`: what is hashed and signed.
  unfoldable pub write_header_content : Header → Bytes
  write_header_content h = r.put_list (
      r.put_number h.chain_id
      ∷ r.put_hash 160 h.producer
      ∷ r.put_hash 256 h.parent_hash
      ∷ r.put_hash 256 h.mkl_root
      ∷ r.put_hash 256 h.transactions_root
      ∷ r.put_hash 256 h.receipt_root
      ∷ r.put_number h.number
      ∷ r.put_int64 h.timestamp
      ∷ r.put_bytes h.extra
      ∷ [])

  -- `BlockHeader::streamRLP`
  unfoldable pub write_header : Header → Bytes
  write_header h = r.put_list (
      r.put_number h.chain_id
      ∷ r.put_hash 160 h.producer
      ∷ r.put_hash 256 h.parent_hash
      ∷ r.put_hash 256 h.mkl_root
      ∷ r.put_hash 256 h.transactions_root
      ∷ r.put_hash 256 h.receipt_root
      ∷ r.put_number h.number
      ∷ r.put_int64 h.timestamp
      ∷ r.put_bytes h.extra
      ∷ r.put_number h.v
      ∷ r.put_number h.r
      ∷ r.put_number h.s
      ∷ [])

  -- `BlockHeader::populate`, on the items: a list of another length leaves the header as it was. What an
  -- exception leaves behind is not read, since the block is not constructed then.
  unfoldable pub header_of_items : List Bytes → Header → Option Header
  header_of_items (x0 ∷ x1 ∷ x2 ∷ x3 ∷ x4 ∷ x5 ∷ x6 ∷ x7 ∷ x8 ∷ x9 ∷ x10 ∷ x11 ∷ []) old = do
    chain_id ← r.get_number 64 x0
    producer ← r.get_hash 160 x1
    parent_hash ← r.get_hash 256 x2
    mkl_root ← r.get_hash 256 x3
    transactions_root ← r.get_hash 256 x4
    receipt_root ← r.get_hash 256 x5
    number ← r.get_positive x6
    timestamp ← r.get_int64 x7
    v ← r.get_number 32 x9
    sig_r ← r.get_number 256 x10
    sig_s ← r.get_number 256 x11
    some (record {
      chain_id = chain_id;
      producer = producer;
      parent_hash = parent_hash;
      mkl_root = mkl_root;
      transactions_root = transactions_root;
      receipt_root = receipt_root;
      number = number;
      timestamp = timestamp;
      extra = r.get_bytes x8;
      v = v % 256;
      r = sig_r;
      s = sig_s;
    })
  header_of_items _ old = some old

  -- `BlockHeader::populate`
  unfoldable pub populate_header : Bytes → Header → Option Header
  populate_header b old = elim (r.parse b) [
    | broken ↦ none
    | text ↦ some old
    | items xs ↦ header_of_items xs old
  ]

  -- `TransactionReceipt::streamRLP`
  unfoldable pub write_receipt : Receipt → Bytes
  write_receipt (status n) = r.put_list (r.put_number n ∷ [])
  write_receipt (root h) = r.put_list (r.put_hash 256 h ∷ [])

  -- `TransactionReceipt(bytesConstRef)`: the root is looked for behind the one item that the list has, where
  -- `toHash` throws.
  unfoldable pub receipt_of_items : List Bytes → Option Receipt
  receipt_of_items (x ∷ []) =
      if r.get_size x == 4 then (do n ← r.get_number 32 x; some (status n)) else none
  receipt_of_items _ = none

  unfoldable pub read_receipt : Bytes → Option Receipt
  read_receipt b = elim (r.parse b) [ items xs ↦ receipt_of_items xs | _ ↦ none ]

  -- `Block::streamRLP`
  unfoldable pub write_packet : Packet → Bytes
  write_packet p = r.put_list (
      write_header p.header
      ∷ r.put_list (write_all (write_transaction r) p.transactions)
      ∷ r.put_list (write_all write_receipt p.receipts)
      ∷ [])

  -- The loops of `Block(bytesConstRef)` over a list, which is left out where there is none.
  unfoldable pub read_list : {A : Type 0} → (Bytes → Option A) → Parsed → Option (List A)
  read_list read broken = none
  read_list read text = some []
  read_list read (items xs) = read_all read xs

  -- `Block(bytesConstRef)`, on the items; `fresh` is the header of a new block.
  unfoldable pub packet_of_items : (Bytes → ℕ) → Header → List Bytes → Option Packet
  packet_of_items sha3 fresh (x0 ∷ x1 ∷ x2 ∷ []) = do
    header ← populate_header x0 fresh
    transactions ← read_list (read_transaction r sha3) (r.parse x1)
    receipts ← read_list read_receipt (r.parse x2)
    some (record {
      header = header;
      transactions = transactions;
      receipts = receipts;
      sync_block = false;
    })
  packet_of_items sha3 fresh _ = none

  unfoldable pub read_packet : (Bytes → ℕ) → Header → Bytes → Option Packet
  read_packet sha3 fresh b = elim (r.parse b) [
    | items xs ↦ packet_of_items sha3 fresh xs
    | _ ↦ none
  ]

  -- What the chain reads of a block, with `getHash` of the header.
  unfoldable pub block_of_packet : (Bytes → ℕ) → Packet → Block
  block_of_packet sha3 p = record {
    hash = sha3 (write_header_content p.header);
    chain_id = p.header.chain_id;
    producer = p.header.producer;
    parent_hash = p.header.parent_hash;
    number = p.header.number;
    timestamp = p.header.timestamp;
    transactions = p.transactions;
    sync_block = p.sync_block;
  }
