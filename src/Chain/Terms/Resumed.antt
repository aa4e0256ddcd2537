-- ===== src/Chain/Terms/Resumed.antt =====
-- On `init` of chain/BlockChain.cpp and database/DatabaseController.cpp: the node that a start gives.
use gsenetwork.Prelude.{
  ℕ, ◌<◌, ◌^◌, [], ◌∷◌, Bool, true, false, Option, none, some, inl, inr, ◌≡◌, refl, arith,
  if◌then◌else◌,
}
use gsenetwork.Prelude.Int.{ltb_ℤ}
use gsenetwork.Core.Snapshot.{ProducerSnapshot}
use gsenetwork.Schedule.{Schedule}
use gsenetwork.Storage.Attributes.{
  Name, Controller, update, with_global, genesis_inited, db_dirty, block_height, prev_list,
  current_list, active_list, Genesis, opened, key_of, new_counter, check_genesis_existed,
  put_attribute,
}
use gsenetwork.Storage.Attributes
use gsenetwork.Storage.Attributes.Restored.{
  counter_bytes, content_bytes, lists_globals, read_counter, HoldsActive, reloaded,
}
use gsenetwork.Wire.Rlp.{Bytes, Rlp, IsRlp, ◌>>=◌}
use gsenetwork.Wire.Accounts.{write_snapshot, populate}
use gsenetwork.Wire.Accounts.RoundTrip.{snapshot_item, populate-write_snapshot}
use gsenetwork.Server.{sync_status, producer_status}
use gsenetwork.Storage.Database.{Database}
use gsenetwork.Chain.BlockState.{new_block_state}
use gsenetwork.Chain.Rollback.{set}
use gsenetwork.Chain.Serve.{db_block_at}
use gsenetwork.Chain.Terms.{
  Terms, load_terms, push_schedule, Boot, initialize_rollback_state, check_dirty, init, start,
  first_boot,
}
use gsenetwork.Storage.Attributes.{put_genesis}
use gsenetwork.Chain.Terms.Running.{
  SnapshotFits, schedule_current, active_bytes, ActiveFits, IsRunning,
}

fits_either :
    (b : Bool) (x y : ProducerSnapshot)
    → SnapshotFits x
    → SnapshotFits y
    → SnapshotFits (if b then x else y)
fits_either true x y h k = h
fits_either false x y h k = k

pub either_same : (b : Bool) (x : ProducerSnapshot) → (if b then x else x) ≡ x
either_same true x = refl
either_same false x = refl

-- The bytes that the list of active producers is read from.
abbrev pub active_content : Rlp → Option ProducerSnapshot → Bytes
active_content r none = []
active_content r (some ps) = write_snapshot r ps

active_held :
    (r : Rlp) (laws : IsRlp r) (solid : Option ProducerSnapshot) (stored : Bytes)
    → stored ≡ active_bytes r solid
    → HoldsActive r laws stored (active_content r solid)
active_held r laws none stored h = inl (h, refl)
active_held r laws (some ps) stored h = inr (h, snapshot_item r laws ps)

-- The active producers that a start reads: those of the last solidified block, or none over a new list.
pub active_read :
    (r : Rlp) (laws : IsRlp r) (solid : Option ProducerSnapshot) (ps : ProducerSnapshot)
    → ActiveFits solid
    → populate r (active_content r solid) ps ≡ elim solid [ none ↦ populate r [] ps | some q ↦ q ]
active_read r laws none ps h = refl
active_read r laws (some q) ps h = populate-write_snapshot r laws q ps h.0 h.1

module _ (r : Rlp) (laws : IsRlp r) (db : Database) (attributes : Name → Bytes)
    (p q : ProducerSnapshot) (solid : Option ProducerSnapshot) (height count : ℕ)
    (ps : ProducerSnapshot) (waiting : Schedule) (sync : Bool) where
  -- The terms that the stores lead to before they are pushed.
  abbrev pub resumed_terms : Terms
  resumed_terms = record {
    prev_ps = p;
    current_ps = if ltb_ℤ (db_block_at height db).timestamp q.timestamp then p else q;
    schedule = waiting;
    controller = record {
      db = db;
      attributes = attributes;
      globals =
          update db_dirty (new_counter (key_of db_dirty) 0) (
            lists_globals (write_snapshot r p) (write_snapshot r q) (active_content r solid)
              height);
    };
  }

  abbrev pub resumed_boot : Boot
  resumed_boot =
      let block = db_block_at height db in
      let head = record (new_block_state count ps block) {
        bft_solidify_block_number = block.number;
      } in
      record {
        terms = resumed_terms;
        active = populate r (active_content r solid) ps;
        rollback = record { index = head ∷ []; head = some head; solidify_number = 0 };
        head = some head;
        latest_block = block;
        latest_number = block.number;
        status = if sync then sync_status else producer_status;
      }

  abbrev pub resumed : Boot
  resumed = record resumed_boot { terms = push_schedule resumed_terms }

  pub init-resumed :
      attributes db_dirty ≡ counter_bytes r 0
      → SnapshotFits p
      → SnapshotFits q
      → init r sync count ps (
          first_boot ps waiting (record {
            db = db;
            attributes = attributes;
            globals =
                lists_globals
                  (write_snapshot r p)
                  (write_snapshot r q)
                  (active_content r solid)
                  height;
          }))
        ≡ some resumed_boot
  unfolding init initialize_rollback_state check_dirty load_terms set
  init-resumed clean fp fq =
      let c : Controller = record {
        db = db;
        attributes = attributes;
        globals =
            lists_globals (write_snapshot r p) (write_snapshot r q) (active_content r solid) height;
      } in
      rw (
        ◌>>=◌,
        read_counter r laws db_dirty 0 c clean (omega arith),
        populate-write_snapshot r laws p ps fp.0 fp.1,
        populate-write_snapshot r laws q ps fq.0 fq.1,
        populate-write_snapshot r laws p q fp.0 fp.1,
      )

  pub start-resumed :
      (g : Genesis)
      → attributes genesis_inited ≡ counter_bytes r 1
      → attributes db_dirty ≡ counter_bytes r 0
      → attributes block_height ≡ counter_bytes r height
      → attributes prev_list ≡ content_bytes r (write_snapshot r p)
      → attributes current_list ≡ content_bytes r (write_snapshot r q)
      → attributes active_list ≡ active_bytes r solid
      → height < 2 ^ 64
      → SnapshotFits p
      → SnapshotFits q
      → start r g sync count ps (first_boot ps waiting (opened db attributes)) ≡ some resumed
  unfolding start gsenetwork.Storage.Attributes.init check_genesis_existed
  start-resumed g h0 h1 h2 h3 h4 h5 small fp fq =
      let c = opened db attributes in
      rw (
        read_counter r laws genesis_inited 1 c h0 (omega arith),
        check_genesis_existed,
        reloaded r laws (write_snapshot r p) (write_snapshot r q) (active_content r solid) height c
            small (snapshot_item r laws p) (snapshot_item r laws q) h2 h3 h4
            (active_held r laws solid (attributes active_list) h5) refl,
        ◌>>=◌,
        init-resumed h1 fp fq,
      )

  pub resumed-IsRunning :
      attributes genesis_inited ≡ counter_bytes r 1
      → attributes db_dirty ≡ counter_bytes r 0
      → attributes block_height ≡ counter_bytes r height
      → attributes active_list ≡ active_bytes r solid
      → ActiveFits solid
      → SnapshotFits p
      → SnapshotFits q
      → IsRunning r height (push_schedule resumed_terms)
  unfolding push_schedule
  resumed-IsRunning h0 h1 h2 h3 h4 fp fq = record {
    inited = h0;
    clean = h1;
    counted = h2;
    solid = solid;
    active = h3;
    active_fits = h4;
    dirty_type = refl;
    height_type = refl;
    active_type = refl;
    prev_type = refl;
    current_type = refl;
    turns = schedule_current _ _ _;
    fits = fits_either _ p q fp fq;
  }
