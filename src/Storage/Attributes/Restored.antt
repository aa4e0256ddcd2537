-- ===== src/Storage/Attributes/Restored.antt =====
-- On `init` of database/DatabaseController.cpp: the second start finds what the first one made.
use mathlib.Core.Path.{fun_ext}
use gsenetwork.Prelude.{
  ℕ, List, [], ◌∷◌, none, some, ◌<◌, ◌^◌, ◌≡◌, refl, sym, ap, ◌∙◌, ◌⊎◌, inl, inr, arith,
}
use gsenetwork.Storage.Database.{Database}
use gsenetwork.Wire.Rlp.{Bytes, Rlp, IsRlp, ◌>>=◌}
use gsenetwork.Wire.Accounts.{write_snapshot}
use gsenetwork.Wire.Accounts.RoundTrip.{snapshot_item}
use gsenetwork.Wire.Statuses.{
  AttributeState, new_attribute, set_content, write_attribute, attribute_of_items, read_attribute,
}
use gsenetwork.Storage.Attributes.{
  Name, genesis_inited, db_dirty, block_height, prev_list, current_list, active_list, first_globals,
  Controller, Genesis, put_genesis, key_of, new_counter, get_attribute, put_attribute,
  check_genesis_existed, load, init_genesis, init, opened, with_global, assign_attribute,
}

-- The globals with the lists and the height of an earlier run; the list of active producers is empty
-- where none was stored.
abbrev pub lists_globals : Bytes → Bytes → Bytes → ℕ → Name → AttributeState
lists_globals prev current active height block_height = new_counter (key_of block_height) height
lists_globals prev current active height prev_list = set_content prev (first_globals prev_list)
lists_globals prev current active height current_list =
    set_content current (first_globals current_list)
lists_globals prev current active height active_list =
    set_content active (first_globals active_list)
lists_globals prev current active height n = first_globals n

module _ (r : Rlp) where
  -- What the store holds of a number, and of bytes.
  abbrev pub counter_bytes : ℕ → Bytes
  counter_bytes n = r.put_list (r.put_number 0 ∷ r.put_number n ∷ [])

  abbrev pub content_bytes : Bytes → Bytes
  content_bytes b = r.put_list (r.put_number 1 ∷ b ∷ [])

  abbrev pub genesis_store : Genesis → Name → Bytes
  genesis_store g genesis_inited = counter_bytes 1
  genesis_store g db_dirty = counter_bytes 0
  genesis_store g block_height = counter_bytes 0
  genesis_store g prev_list = content_bytes (write_snapshot r g.snapshot)
  genesis_store g current_list = content_bytes (write_snapshot r g.snapshot)
  genesis_store g active_list = []

  -- The genesis in the database, the height 0, and its producers as both lists.
  abbrev pub founded : Genesis → Database → Controller
  founded g db = record {
    db = put_genesis g db;
    attributes = genesis_store g;
    globals = lists_globals (write_snapshot r g.snapshot) (write_snapshot r g.snapshot) [] 0;
  }

by_name :
    {A : Type 0} (s t : Name → A)
    → s genesis_inited ≡ t genesis_inited
    → s db_dirty ≡ t db_dirty
    → s block_height ≡ t block_height
    → s prev_list ≡ t prev_list
    → s current_list ≡ t current_list
    → s active_list ≡ t active_list
    → s ≡ t
by_name s t h0 h1 h2 h3 h4 h5 = fun_ext pointwise
  where
    pointwise : (n : Name) → s n ≡ t n
    pointwise genesis_inited = h0
    pointwise db_dirty = h1
    pointwise block_height = h2
    pointwise prev_list = h3
    pointwise current_list = h4
    pointwise active_list = h5

Controller-eq :
    (db : Database) {s t : Name → Bytes} {f g : Name → AttributeState}
    → s ≡ t
    → f ≡ g
    → record { db = db; attributes = s; globals = f }
      ≡ (let c : Controller = record { db = db; attributes = t; globals = g } in c)
Controller-eq db h k i = record { db = db; attributes = h i; globals = k i }

abbrev some_controller : Database → (Name → Bytes) → (Name → AttributeState) → Controller
some_controller db a g = record { db = db; attributes = a; globals = g }

load-nil : (r : Rlp) (c : Controller) → load r [] c ≡ c
unfolding load
load-nil r c = refl

pub load-some :
    (r : Rlp) (n : Name) (ns : List Name) (c : Controller) (a : AttributeState)
    → get_attribute r n c ≡ some a
    → load r (n ∷ ns) c ≡ load r ns (with_global n (λ old. assign_attribute old a) c)
unfolding load
load-some r n ns c a h = rw (h, load)

pub load-none :
    (r : Rlp) (n : Name) (ns : List Name) (c : Controller)
    → get_attribute r n c ≡ none
    → load r (n ∷ ns) c ≡ c
unfolding load
load-none r n ns c h = rw (h, load)

module _ (r : Rlp) (laws : IsRlp r) where
  pub read_counter :
      (n : Name) (v : ℕ) (c : Controller)
      → c.attributes n ≡ counter_bytes r v
      → v < 2 ^ 64
      → get_attribute r n c ≡ some (new_counter (key_of n) v)
  unfolding get_attribute read_attribute attribute_of_items
  read_counter n v c h fits = rw (
    h,
    laws.parse_list (r.put_number 0 ∷ r.put_number v ∷ [])
        (laws.number_item _, (laws.number_item _, tt)),
    read_attribute,
    attribute_of_items,
    laws.number 32 0 (omega arith),
    ◌>>=◌,
    laws.number 64 v fits,
  )

  pub read_content :
      (n : Name) (b : Bytes) (c : Controller)
      → c.attributes n ≡ content_bytes r b
      → laws.IsItem b
      → get_attribute r n c ≡ some (set_content b (new_attribute (key_of n)))
  unfolding get_attribute read_attribute attribute_of_items
  read_content n b c h item = rw (
    h,
    laws.parse_list (r.put_number 1 ∷ b ∷ []) (laws.number_item _, (item, tt)),
    read_attribute,
    attribute_of_items,
    laws.number 32 1 (omega arith),
    ◌>>=◌,
  )

  pub read_missing : (n : Name) (c : Controller) → c.attributes n ≡ [] → get_attribute r n c ≡ none
  unfolding get_attribute read_attribute
  read_missing n c h = rw (h, laws.null, read_attribute)

  pub first_start :
      (g : Genesis) (db : Database) → init r g (opened db (λ _. [])) ≡ some (founded r g db)
  unfolding init check_genesis_existed init_genesis put_attribute write_attribute
  first_start g db =
      rw (read_missing genesis_inited (opened db (λ _. [])) refl, check_genesis_existed)
        (ap some (
          Controller-eq (put_genesis g db) (by_name _ _ refl refl refl refl refl refl)
            (by_name _ _ refl refl refl refl refl refl)))

  -- What the store holds for the list of active producers: nothing yet, or its bytes.
  abbrev pub HoldsActive : Bytes → Bytes → Type 0
  HoldsActive stored active =
      ((stored ≡ []) × (active ≡ [])) ⊎ ((stored ≡ content_bytes r active) × laws.IsItem active)

  -- The lists and the height as they are read again.
  pub reloaded :
      (prev current active : Bytes) (height : ℕ) (c : Controller)
      → height < 2 ^ 64
      → laws.IsItem prev
      → laws.IsItem current
      → c.attributes block_height ≡ counter_bytes r height
      → c.attributes prev_list ≡ content_bytes r prev
      → c.attributes current_list ≡ content_bytes r current
      → HoldsActive (c.attributes active_list) active
      → c.globals ≡ first_globals
      → load r (block_height ∷ prev_list ∷ current_list ∷ active_list ∷ []) c ≡ record {
        db = c.db;
        attributes = c.attributes;
        globals = lists_globals prev current active height;
      }
  reloaded prev current active height c fits p q h0 h1 h2 (inl (h3, e)) h4 =
      let found : load r (block_height ∷ prev_list ∷ current_list ∷ active_list ∷ []) c
          ≡ some_controller c.db c.attributes (lists_globals prev current [] height) =
        load-some r block_height _ c _ (read_counter block_height height c h0 fits)
        ∙ load-some r prev_list _ _ _ (read_content prev_list prev _ h1 p)
        ∙ load-some r current_list _ _ _ (read_content current_list current _ h2 q)
        ∙ load-none r active_list _ _ (read_missing active_list _ h3)
        ∙ Controller-eq c.db refl (rw h4 (by_name _ _ refl refl refl refl refl refl)) in
      found
      ∙ ap (λ (a : Bytes). some_controller c.db c.attributes (lists_globals prev current a height))
          (sym e)
  reloaded prev current active height c fits p q h0 h1 h2 (inr (h3, k)) h4 =
      load-some r block_height _ c _ (read_counter block_height height c h0 fits)
      ∙ load-some r prev_list _ _ _ (read_content prev_list prev _ h1 p)
      ∙ load-some r current_list _ _ _ (read_content current_list current _ h2 q)
      ∙ load-some r active_list _ _ _ (read_content active_list active _ h3 k)
      ∙ load-nil r _
      ∙ Controller-eq c.db refl (rw h4 (by_name _ _ refl refl refl refl refl refl))

  next_start :
      (g h : Genesis) (db : Database)
      → let c = founded r g db in init r h (opened c.db c.attributes) ≡ some c
  unfolding init check_genesis_existed
  next_start g h db =
      let c = opened (put_genesis g db) (genesis_store r g) in
      rw (read_counter genesis_inited 1 c refl (omega arith), check_genesis_existed)
        (ap some (
          reloaded _ _ [] 0 c (omega arith) (snapshot_item r laws _) (snapshot_item r laws _) refl
            refl refl (inl (refl, refl)) refl))
