-- ===== src/Wire/Statuses.antt =====
-- The streams of core/Status.cpp and core/AttributeState.cpp.
pub mod RoundTrip
use gsenetwork.Prelude.{ℕ, List, [], ◌∷◌, Option, none, some, ◌==◌, if◌then◌else◌}
use gsenetwork.Wire.Rlp.{Bytes, items, Rlp, ◌>>=◌, write_all, read_until}
use gsenetwork.Wire.Blocks.{Header, Packet, write_packet, read_packet}

-- `StatusPacketType`; numbers that are no enumerators are `unknown_type` as well.
pub data StatusType : Type 0 where
  unknown_type get_height reply_height sync_blocks reply_blocks : StatusType

pub record Status : Type 0 where
  pub status_type : StatusType
  pub height : ℕ
  pub start : ℕ
  pub end : ℕ
  pub blocks : List Packet

abbrev pub number_of_status : StatusType → ℕ
number_of_status get_height = 1
number_of_status reply_height = 2
number_of_status sync_blocks = 3
number_of_status reply_blocks = 4
number_of_status unknown_type = 255

-- `static_cast<StatusPacketType>`
abbrev pub status_of_number : ℕ → StatusType
status_of_number n =
    if n == 1
    then get_height
    else if n == 2
    then reply_height
    else if n == 3
    then sync_blocks
    else if n == 4
    then reply_blocks
    else unknown_type

-- `AttributeState::Type`
pub data AttributeType : Type 0 where
  uint64_type bytes_type unknown_attribute : AttributeType

pub record AttributeState : Type 0 where
  pub key : Bytes
  pub attribute_type : AttributeType
  pub value : ℕ
  pub content : Bytes

-- `AttributeState(bytes const& key)`
abbrev pub new_attribute : Bytes → AttributeState
new_attribute key = record { key = key; attribute_type = bytes_type; value = 0; content = [] }

-- `setData`
abbrev pub set_content : Bytes → AttributeState → AttributeState
set_content content a = record a { content = content }

-- `(Type)rlp[0].toInt<uint32_t>()`
abbrev pub attribute_of_number : ℕ → AttributeType
attribute_of_number n =
    if n == 0 then uint64_type else if n == 1 then bytes_type else unknown_attribute

module _ (r : Rlp) where
  -- `Status::streamRLP`; a status of unknown type writes nothing.
  unfoldable pub write_status : Status → Bytes
  write_status s = elim s.status_type [
    | get_height ↦ r.put_list (r.put_number 1 ∷ [])
    | reply_height ↦ r.put_list (r.put_number 2 ∷ r.put_number s.height ∷ [])
    | sync_blocks ↦ r.put_list (r.put_number 3 ∷ r.put_number s.start ∷ r.put_number s.end ∷ [])
    | reply_blocks ↦ r.put_list (r.put_number 4 ∷ write_all (write_packet r) s.blocks)
    | unknown_type ↦ []
  ]

  -- `rlp[i].toInt<uint64_t>()`, which throws where the list has no such item.
  unfoldable pub number_at : List Bytes → Option ℕ
  number_at [] = none
  number_at (x ∷ xs) = r.get_number 64 x

  -- The fields behind the type. An exception ends the reading, and what was read stays.
  unfoldable pub status_fields : (Bytes → Option Packet) → StatusType → List Bytes → Status → Status
  status_fields read reply_height xs s = elim (number_at xs) [
    | none ↦ s
    | some h ↦ record s { height = h }
  ]
  status_fields read sync_blocks [] s = s
  status_fields read sync_blocks (x ∷ xs) s = elim (r.get_number 64 x) [
    | none ↦ s
    | some a ↦ elim (number_at xs) [
      | none ↦ record s { start = a }
      | some b ↦ record s { start = a; end = b }
    ]
  ]
  status_fields read reply_blocks xs s = record s { blocks = read_until read xs s.blocks }
  status_fields read _ xs s = s

  unfoldable pub status_of_items : (Bytes → Option Packet) → List Bytes → Status → Status
  status_of_items read [] s = s
  status_of_items read (x ∷ xs) s = elim (r.get_number 8 x) [
    | none ↦ s
    | some n ↦
        status_fields read (status_of_number n) xs (record s { status_type = status_of_number n })
  ]

  -- `Status::populate`; `read` is the constructor of a block.
  unfoldable pub populate_status : (Bytes → Option Packet) → Bytes → Status → Status
  populate_status read b s = elim (r.parse b) [ items xs ↦ status_of_items read xs s | _ ↦ s ]

  -- `AttributeState::streamRLP` and `out()`, which throws if the list is not complete.
  unfoldable pub write_attribute : AttributeState → Option Bytes
  write_attribute a = elim a.attribute_type [
    | uint64_type ↦ some (r.put_list (r.put_number 0 ∷ r.put_number a.value ∷ []))
    | bytes_type ↦ some (r.put_list (r.put_number 1 ∷ a.content ∷ []))
    | unknown_attribute ↦ none
  ]

  -- `AttributeState(bytes const& key, bytesConstRef data)`, on the items.
  unfoldable pub attribute_of_items : Bytes → List Bytes → Option AttributeState
  attribute_of_items key (x0 ∷ x1 ∷ []) = do
    n ← r.get_number 32 x0
    let fresh : AttributeState = record {
      key = key;
      attribute_type = attribute_of_number n;
      value = 0;
      content = [];
    }
    elim (attribute_of_number n) [
      | uint64_type ↦ elim (r.get_number 64 x1) [
        | none ↦ none
        | some v ↦ some (record fresh { value = v })
      ]
      | bytes_type ↦ some (record fresh { content = x1 })
      | unknown_attribute ↦ some fresh
    ]
  attribute_of_items key _ = none

  unfoldable pub read_attribute : Bytes → Bytes → Option AttributeState
  read_attribute key b = elim (r.parse b) [ items xs ↦ attribute_of_items key xs | _ ↦ none ]
