-- ===== src/Wire/Blocks/RoundTrip.antt =====
-- On core/Block.cpp and core/TransactionReceipt.cpp: what was written is read back, receipts but seldom.
use gsenetwork.Prelude.{
  ℕ, ◌^◌, ◌<◌, List, [], ◌∷◌, false, Option, none, some, ◌≡◌, ap, All, arith, leb, if◌then◌else◌,
}
use gsenetwork.Wire.Rlp.{
  Bytes, items, Rlp, IsRlp, IsTime, ◌>>=◌, write_all, read_all-write_all, All-write_all,
}
use gsenetwork.Wire.Transactions.{write_transaction, read_transaction, hash_transaction}
use gsenetwork.Wire.Transactions.RoundTrip.{
  TransactionFits, transaction_item, read_transaction-write_transaction,
}
use gsenetwork.Wire.Blocks.{
  Header, Receipt, status, root, Packet, write_header, header_of_items, populate_header,
  write_receipt, receipt_of_items, read_receipt, write_packet, read_list, packet_of_items,
  read_packet,
}

-- The values that the streams keep; the number is read by `toPositiveInt64`.
abbrev pub HeaderFits : Header → Type 0
HeaderFits h =
    (h.chain_id < 2 ^ 64)
    × (h.producer < 2 ^ 160)
    × (h.parent_hash < 2 ^ 256)
    × (h.mkl_root < 2 ^ 256)
    × (h.transactions_root < 2 ^ 256)
    × (h.receipt_root < 2 ^ 256)
    × (h.number < 2 ^ 63)
    × IsTime h.timestamp
    × (h.v < 256)
    × (h.r < 2 ^ 256)
    × (h.s < 2 ^ 256)

module _ (r : Rlp) (laws : IsRlp r) where
  header_items :
      (h : Header)
      → All laws.IsItem (
          r.put_number h.chain_id
          ∷ r.put_hash 160 h.producer
          ∷ r.put_hash 256 h.parent_hash
          ∷ r.put_hash 256 h.mkl_root
          ∷ r.put_hash 256 h.transactions_root
          ∷ r.put_hash 256 h.receipt_root
          ∷ r.put_number h.number
          ∷ r.put_int64 h.timestamp
          ∷ r.put_bytes h.extra
          ∷ r.put_number h.v
          ∷ r.put_number h.r
          ∷ r.put_number h.s
          ∷ [])
  header_items h = (
    laws.number_item _,
    (
      laws.hash_item _ _,
      (
        laws.hash_item _ _,
        (
          laws.hash_item _ _,
          (
            laws.hash_item _ _,
            (
              laws.hash_item _ _,
              (
                laws.number_item _,
                (
                  laws.int64_item _,
                  (
                    laws.bytes_item _,
                    (laws.number_item _, (laws.number_item _, (laws.number_item _, tt))),
                  ),
                ),
              ),
            ),
          ),
        ),
      ),
    ),
  )

  pub header_back :
      (h old : Header) → HeaderFits h → populate_header r (write_header r h) old ≡ some h
  unfolding populate_header write_header header_of_items
  header_back h old fits =
      rw
        (
          laws.parse_list _ (header_items h),
          populate_header,
          header_of_items,
          laws.number 64 _ fits.0,
          laws.hash 160 _ fits.1,
          laws.hash 256 _ fits.2,
          laws.hash 256 _ fits.3,
          laws.hash 256 _ fits.4,
          laws.hash 256 _ fits.5,
          laws.positive _ fits.6,
          laws.int64 _ fits.7,
          laws.number 32 h.v (omega (arith, fits.8)),
          laws.number 256 _ fits.9,
          laws.number 256 _ fits.10,
          laws.bytes h.extra,
          ◌>>=◌,
        )
        (ap (λ v. some (record h { v = v })) (omega (arith, fits.8)))

  receipt_item : (x : Receipt) → laws.IsItem (write_receipt r x)
  unfolding write_receipt
  receipt_item (status n) = laws.list_item _ (laws.number_item n, tt)
  receipt_item (root h) = laws.list_item _ (laws.hash_item 256 h, tt)

  parse_one : (x : Bytes) → laws.IsItem x → r.parse (r.put_list (x ∷ [])) ≡ items (x ∷ [])
  parse_one x h = laws.parse_list (x ∷ []) (h, tt)

  -- A receipt that is written is read again only if it has a status of exactly four bytes; at a smaller
  -- status, and at every root, the constructor throws.
  pub read_receipt-write_receipt :
      ((n : ℕ)
        → n < 2 ^ 32
        → read_receipt r (write_receipt r (status n))
          ≡ (if leb (2 ^ 24) n then some (status n) else none))
      × ((h : ℕ) → read_receipt r (write_receipt r (root h)) ≡ none)
  unfolding read_receipt write_receipt receipt_of_items
  read_receipt-write_receipt = (
    λ n h.
        rw (parse_one (r.put_number n) (laws.number_item n), read_receipt, receipt_of_items)
          (ground (arith, laws.small_size n, laws.four_size n, laws.number 32 n h)),
    λ h.
        rw (parse_one (r.put_hash 256 h) (laws.hash_item 256 h), read_receipt, receipt_of_items)
          (ground (arith, laws.hash_size h)),
  )

  header_item : (h : Header) → laws.IsItem (write_header r h)
  unfolding write_header
  header_item h = laws.list_item _ (header_items h)

  list_back :
      {A : Type 0} (write : A → Bytes) (read : Bytes → Option A) (Fits : A → Type 0)
      → ((a : A) → Fits a → read (write a) ≡ some a)
      → ((a : A) → laws.IsItem (write a))
      → (xs : List A) → All Fits xs
      → read_list r read (r.parse (r.put_list (write_all write xs))) ≡ some xs
  unfolding read_list
  list_back write read Fits back is_item xs h =
      rw (laws.parse_list _ (All-write_all write laws.IsItem is_item xs))
        (read_all-write_all write read Fits back xs h)

  pub packet_item : (p : Packet) → laws.IsItem (write_packet r p)
  unfolding write_packet
  packet_item p = laws.list_item _ (
    header_item p.header,
    (
      laws.list_item _
          (All-write_all (write_transaction r) laws.IsItem (transaction_item r laws) _),
      (laws.list_item _ (All-write_all (write_receipt r) laws.IsItem receipt_item _), tt),
    ),
  )

  -- A block without receipts that is written and read again has the header and the transactions that it
  -- had, and is no block of a synchronisation. Numbers are to be in range, the block's number below 2 ^ 63,
  -- and the hash of each transaction the SHA-3 of its content.
  pub read_packet-write_packet :
      (sha3 : Bytes → ℕ) (fresh : Header) (p : Packet)
      → HeaderFits p.header
      → All (λ t. TransactionFits t × (t.hash ≡ hash_transaction r sha3 t)) p.transactions
      → read_packet r sha3 fresh (write_packet r (record p { receipts = [] }))
        ≡ some (record p { receipts = []; sync_block = false })
  unfolding read_packet write_packet packet_of_items
  read_packet-write_packet sha3 fresh p fits ts = rw (
    laws.parse_list
        (write_header r p.header
          ∷ r.put_list (write_all (write_transaction r) p.transactions)
          ∷ r.put_list []
          ∷ [])
        (
          header_item p.header,
          (
            laws.list_item _
                (All-write_all (write_transaction r) laws.IsItem (transaction_item r laws) _),
            (laws.list_item _ tt, tt),
          ),
        ),
    read_packet,
    packet_of_items,
    header_back p.header fresh fits,
    list_back (write_transaction r) (read_transaction r sha3)
        (λ t. TransactionFits t × (t.hash ≡ hash_transaction r sha3 t))
        (λ t h. read_transaction-write_transaction r laws sha3 t h.0 h.1) (transaction_item r laws)
        p.transactions ts,
    list_back (write_receipt r) (read_receipt r) (λ _. ⊥) (λ _ h. absurd h) receipt_item [] tt,
    ◌>>=◌,
  )
