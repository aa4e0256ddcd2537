-- ===== src/Storage/Attributes.antt =====
-- The attributes in the database (core/AttributeState.cpp), and how database/DatabaseController.cpp starts:
-- from the stores of an earlier run, or from the genesis.
pub mod Restored
mod Examples
use Prim.Native.Char.{code}
use Prim.Native.String
use Prim.Native.String.{String}
use gsenetwork.Prelude.{
  ℕ, List, [], ◌∷◌, Bool, false, not, Option, none, some, ltb, ◌==◌, if◌then◌else◌, add64, sub64,
}
use gsenetwork.Prelude.Map.{Map, insert}
use gsenetwork.Core.Account.{Account}
use gsenetwork.Core.Producer.{Producer}
use gsenetwork.Core.Snapshot.{ProducerSnapshot}
use gsenetwork.Core.Block.{Block}
use gsenetwork.Storage.Database.{Database, db_put_block}
use gsenetwork.Wire.Rlp.{Bytes, Rlp, ◌>>=◌}
use gsenetwork.Wire.Accounts.{write_snapshot}
use gsenetwork.Wire.Statuses.{
  AttributeState, uint64_type, bytes_type, unknown_attribute, new_attribute, set_content,
  write_attribute, read_attribute,
}

-- The global attributes.
pub data Name : Type 0 where
  genesis_inited db_dirty block_height prev_list current_list active_list : Name

abbrev codes : String → Bytes
codes String.[] = []
codes (String.◌∷◌ c s) = code c ∷ codes s

-- `toBytes(ATTRIBUTE_..._KEY)`
abbrev pub key_of : Name → Bytes
key_of genesis_inited = codes "attribute_genesis_inited_key"
key_of db_dirty = codes "attribute_db_dirty_key"
key_of block_height = codes "attribute_current_block_height"
key_of prev_list = codes "attribute_prev_producer_list"
key_of current_list = codes "attribute_current_producer_list"
key_of active_list = codes "attribute_solidify_active_producer_list"

abbrev number_of_name : Name → ℕ
number_of_name genesis_inited = 0
number_of_name db_dirty = 1
number_of_name block_height = 2
number_of_name prev_list = 3
number_of_name current_list = 4
number_of_name active_list = 5

abbrev pub update : {A : Type 0} → Name → A → (Name → A) → Name → A
update n a f m = if number_of_name n == number_of_name m then a else f m

-- `AttributeState(bytes const& key, uint64_t value)`
abbrev pub new_counter : Bytes → ℕ → AttributeState
new_counter key value = record {
  key = key;
  attribute_type = uint64_type;
  value = value;
  content = [];
}

-- `setValue`
abbrev pub set_value : ℕ → AttributeState → AttributeState
set_value value a = record a { value = value }

-- `operator=`, which leaves the value or the content of another type as they were.
abbrev pub assign_attribute : AttributeState → AttributeState → AttributeState
assign_attribute old a =
    let typed = record old { key = a.key; attribute_type = a.attribute_type } in
    elim a.attribute_type [
      | uint64_type ↦ record typed { value = a.value }
      | bytes_type ↦ record typed { content = a.content }
      | unknown_attribute ↦ typed
    ]

-- The globals when the program starts.
abbrev pub first_globals : Name → AttributeState
first_globals genesis_inited = new_counter (key_of genesis_inited) 1
first_globals db_dirty = new_counter (key_of db_dirty) 0
first_globals block_height = new_counter (key_of block_height) 0
first_globals prev_list = new_attribute (key_of prev_list)
first_globals current_list = new_attribute (key_of current_list)
first_globals active_list = new_attribute (key_of active_list)

-- The database controller: the stores, that of the attributes by the name behind the key, and the
-- globals. A missing key has no bytes.
pub record Controller : Type 0 where
  pub db : Database
  pub attributes : Name → Bytes
  pub globals : Name → AttributeState

-- `Genesis`
pub record Genesis : Type 0 where
  -- as a read of their bytes gives them
  pub init_accounts : List Account
  pub init_producers : List Producer
  pub snapshot : ProducerSnapshot
  pub block : Block

-- The loops of `initGenesis` that put the accounts and the producers.
abbrev pub put_accounts : List Account → Map Account → Map Account
put_accounts [] m = m
put_accounts (a ∷ rest) m = put_accounts rest (insert a.address a m)

abbrev pub put_producers : List Producer → Map Producer → Map Producer
put_producers [] m = m
put_producers (p ∷ rest) m = put_producers rest (insert p.address p m)

abbrev pub put_genesis : Genesis → Database → Database
put_genesis g db = db_put_block g.block (record db {
  accounts = put_accounts g.init_accounts db.accounts;
  producers = put_producers g.init_producers db.producers;
})

-- A change of a global.
abbrev pub with_global : Name → (AttributeState → AttributeState) → Controller → Controller
with_global n f c = record c { globals = update n (f (c.globals n)) c.globals }

module _ (r : Rlp) where
  -- `getAttribute`; `none` where the constructor throws.
  unfoldable pub get_attribute : Name → Controller → Option AttributeState
  get_attribute n c = read_attribute r (key_of n) (c.attributes n)

  -- `putAttribute` of a global; `none` where the stream throws.
  unfoldable pub put_attribute : Name → Controller → Option Controller
  put_attribute n c = elim (write_attribute r (c.globals n)) [
    | none ↦ none
    | some b ↦ some (record c { attributes = update n b c.attributes })
  ]

  -- `checkGenesisExisted`
  unfoldable pub check_genesis_existed : Controller → Bool
  check_genesis_existed c = elim (get_attribute genesis_inited c) [
    | none ↦ false
    | some a ↦ not (a.value == 0)
  ]

  -- The assignments of `init` in their order: the first that throws ends them.
  unfoldable pub load : List Name → Controller → Controller
  load [] c = c
  load (n ∷ ns) c = elim (get_attribute n c) [
    | none ↦ c
    | some a ↦ load ns (with_global n (λ old. assign_attribute old a) c)
  ]

  -- `initGenesis`
  unfoldable pub init_genesis : Genesis → Controller → Option Controller
  init_genesis g c = do
    c1 ←
        put_attribute block_height
          (with_global block_height (set_value 0) (record c { db = put_genesis g c.db }))
    c2 ← put_attribute genesis_inited c1
    c3 ← put_attribute db_dirty c2
    let listed = set_content (write_snapshot r g.snapshot)
    c4 ← put_attribute prev_list (with_global current_list listed (with_global prev_list listed c3))
    put_attribute current_list c4

  -- `init`; `none` where an exception leaves it.
  unfoldable pub init : Genesis → Controller → Option Controller
  init g c =
      if check_genesis_existed c
      then some (load (block_height ∷ prev_list ∷ current_list ∷ active_list ∷ []) c)
      else init_genesis g c

  -- `incrementBlockHeight` and `decrementBlockHeight`
  unfoldable pub increment_block_height : ℕ → Controller → Option Controller
  increment_block_height incr c =
      let height = (c.globals block_height).value in
      if ltb (add64 height incr) incr
      then none
      else put_attribute block_height (with_global block_height (set_value (add64 height incr)) c)

  unfoldable pub decrement_block_height : ℕ → Controller → Option Controller
  decrement_block_height decr c =
      let height = (c.globals block_height).value in
      if ltb height decr
      then none
      else put_attribute block_height (with_global block_height (set_value (sub64 height decr)) c)

-- A program that starts over the stores.
abbrev pub opened : Database → (Name → Bytes) → Controller
opened db attributes = record { db = db; attributes = attributes; globals = first_globals }
