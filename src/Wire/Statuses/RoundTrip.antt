-- ===== src/Wire/Statuses/RoundTrip.antt =====
-- On core/Status.cpp and core/AttributeState.cpp: what was written is read back.
use gsenetwork.Prelude.{ℕ, ◌^◌, ◌<◌, List, [], ◌∷◌, false, some, ◌≡◌, sym, ap, ◌∙◌, All, arith}
use gsenetwork.Core.Snapshot.{ProducerSnapshot}
use gsenetwork.Wire.Rlp.{
  Bytes, Rlp, IsRlp, IsTime, ◌>>=◌, write_all, read_until-write_all, All-write_all,
}
use gsenetwork.Wire.Accounts.{write_snapshot, populate}
use gsenetwork.Wire.Accounts.RoundTrip.{ProducerFits, snapshot_item, populate-write_snapshot}
use gsenetwork.Wire.Transactions.{hash_transaction}
use gsenetwork.Wire.Transactions.RoundTrip.{TransactionFits}
use gsenetwork.Wire.Blocks.{Header, Packet, write_packet, read_packet}
use gsenetwork.Wire.Blocks.RoundTrip.{HeaderFits, packet_item, read_packet-write_packet}
use gsenetwork.Wire.Statuses.{
  StatusType, unknown_type, get_height, reply_height, sync_blocks, reply_blocks, Status,
  write_status, number_at, status_fields, status_of_items, populate_status, new_attribute,
  set_content, write_attribute, attribute_of_items, read_attribute,
}

-- What a message of the status's type carries over into another status.
abbrev pub carried : Status → Status → Status
carried s old = elim s.status_type [
  | unknown_type ↦ old
  | get_height ↦ record old { status_type = get_height }
  | reply_height ↦ record old { status_type = reply_height; height = s.height }
  | sync_blocks ↦ record old { status_type = sync_blocks; start = s.start; end = s.end }
  | reply_blocks ↦ record old { status_type = reply_blocks; blocks = s.blocks }
]

module _ (r : Rlp) (laws : IsRlp r) (sha3 : Bytes → ℕ) (fresh : Header) where
  -- A block of a status that the stream keeps: it has no receipts, and no mark of a synchronisation.
  abbrev pub PacketFits : Packet → Type 0
  PacketFits p =
      HeaderFits p.header
      × All (λ t. TransactionFits t × (t.hash ≡ hash_transaction r sha3 t)) p.transactions
      × (p.receipts ≡ [])
      × (p.sync_block ≡ false)

  pub packet_back :
      (p : Packet) → PacketFits p → read_packet r sha3 fresh (write_packet r p) ≡ some p
  packet_back p h =
      ap (λ q. read_packet r sha3 fresh (write_packet r q))
        (ap (λ x. record p { receipts = x }) h.2)
      ∙ read_packet-write_packet r laws sha3 fresh p h.0 h.1
      ∙ ap (λ x. some (record p { receipts = x; sync_block = false })) (sym h.2)
      ∙ ap (λ x. some (record p { sync_block = x })) (sym h.3)

  abbrev pub StatusFits : Status → Type 0
  StatusFits s =
      (s.height < 2 ^ 64) × (s.start < 2 ^ 64) × (s.end < 2 ^ 64) × All PacketFits s.blocks

  blocks_back :
      (s old : Status)
      → StatusFits s
      → old.blocks ≡ []
      → populate_status r
          (read_packet r sha3 fresh)
          (r.put_list (r.put_number 4 ∷ write_all (write_packet r) s.blocks))
          old
        ≡ record old { status_type = reply_blocks; blocks = s.blocks }
  unfolding populate_status status_of_items status_fields
  blocks_back s old h empty = rw (
    laws.parse_list (r.put_number 4 ∷ write_all (write_packet r) s.blocks) (
      laws.number_item _,
      All-write_all (write_packet r) laws.IsItem (packet_item r laws) s.blocks,
    ),
    populate_status,
    status_of_items,
    laws.number 8 4 (omega arith),
    status_fields,
    empty,
    read_until-write_all (write_packet r) (read_packet r sha3 fresh) PacketFits packet_back s.blocks
        [] h.3,
  )

  numbers_back :
      (t : StatusType) (height start end : ℕ) (blocks : List Packet) (old : Status)
      → let s : Status = record {
        status_type = t;
        height = height;
        start = start;
        end = end;
        blocks = blocks;
      } in
        StatusFits s
        → old.blocks ≡ []
        → populate_status r (read_packet r sha3 fresh) (write_status r s) old ≡ carried s old
  unfolding write_status populate_status status_of_items status_fields number_at
  numbers_back unknown_type height start end blocks old h empty = rw (laws.null, populate_status)
  numbers_back get_height height start end blocks old h empty = rw (
    laws.parse_list (r.put_number 1 ∷ []) (laws.number_item _, tt),
    populate_status,
    status_of_items,
    laws.number 8 1 (omega arith),
  )
  numbers_back reply_height height start end blocks old h empty = rw (
    laws.parse_list (r.put_number 2 ∷ r.put_number height ∷ [])
        (laws.number_item _, (laws.number_item _, tt)),
    populate_status,
    status_of_items,
    laws.number 8 2 (omega arith),
    status_fields,
    number_at,
    laws.number 64 _ h.0,
  )
  numbers_back sync_blocks height start end blocks old h empty = rw (
    laws.parse_list (r.put_number 3 ∷ r.put_number start ∷ r.put_number end ∷ [])
        (laws.number_item _, (laws.number_item _, (laws.number_item _, tt))),
    populate_status,
    status_of_items,
    laws.number 8 3 (omega arith),
    status_fields,
    number_at,
    laws.number 64 _ h.1,
    laws.number 64 _ h.2,
  )
  numbers_back reply_blocks height start end blocks old h empty =
      blocks_back
        (record {
          status_type = reply_blocks;
          height = height;
          start = start;
          end = end;
          blocks = blocks;
        })
        old h empty

  -- A status that is written, and read into one without blocks, carries its type over with what belongs to
  -- it: the height, both ends of the range, or all blocks in their order. A status of unknown type changes
  -- nothing. Numbers are to be in range, and the blocks without receipts and without the mark of a
  -- synchronisation.
  pub populate_status-write_status :
      (s old : Status)
      → StatusFits s
      → old.blocks ≡ []
      → populate_status r (read_packet r sha3 fresh) (write_status r s) old ≡ carried s old
  populate_status-write_status s old h empty =
      numbers_back s.status_type s.height s.start s.end s.blocks old h empty

-- A snapshot of producers that is set as the data of an attribute, and written and read with it, can be
-- read from the data into any other snapshot: a list of producers survives a restart. The snapshot's
-- numbers are to be in range.
pub read_attribute-write_attribute :
    (r : Rlp) (laws : IsRlp r) (key : Bytes) (ps old : ProducerSnapshot)
    → IsTime ps.timestamp
    → All ProducerFits ps.producers
    → (do
      b ← write_attribute r (set_content (write_snapshot r ps) (new_attribute key))
      a ← read_attribute r key b
      some (populate r a.content old))
      ≡ some ps
unfolding write_attribute read_attribute attribute_of_items
read_attribute-write_attribute r laws key ps old ht hs = rw (
  laws.parse_list (r.put_number 1 ∷ write_snapshot r ps ∷ [])
      (laws.number_item _, (snapshot_item r laws ps, tt)),
  read_attribute,
  attribute_of_items,
  laws.number 32 1 (omega arith),
  ◌>>=◌,
  populate-write_snapshot r laws ps old ht hs,
)
