-- ===== src/Chain/Terms/Settled.antt =====
-- On `onSolidifiable` of chain/BlockChain.cpp: the attributes of a solidified block, and a start after it.
use gsenetwork.Prelude.{ℕ, ◌<◌, ◌^◌, Bool, some, List, ◌≡◌, refl, All, if◌then◌else◌}
use gsenetwork.Prelude.Int.{ℤ, ltb_ℤ}
use gsenetwork.Core.Producer.{Producer}
use gsenetwork.Core.Snapshot.{ProducerSnapshot}
use gsenetwork.Schedule.{Schedule}
use gsenetwork.Storage.Database.{Database}
use gsenetwork.Storage.Attributes.{
  Name, Controller, Genesis, opened, update, with_global, db_dirty, block_height, active_list,
  set_value, put_attribute,
}
use gsenetwork.Storage.Attributes.Restored.{counter_bytes, content_bytes}
use gsenetwork.Wire.Rlp.{Rlp, IsRlp, IsTime, ◌>>=◌}
use gsenetwork.Wire.Accounts.{write_snapshot}
use gsenetwork.Wire.Accounts.RoundTrip.{ProducerFits}
use gsenetwork.Wire.Statuses.{uint64_type, bytes_type, set_content, write_attribute}
use gsenetwork.Chain.BlockState.{BlockState}
use gsenetwork.Chain.Serve.{db_block_at}
use gsenetwork.Chain.Terms.{Terms, schedule, put_settled, Boot, start, first_boot}
use gsenetwork.Chain.Terms.Running.{
  SnapshotFits, IsRunning, put_content, begun, in_term, schedule_lem, in_term-IsRunning,
}
use gsenetwork.Chain.Terms.Restart.{pushed_kept}
use gsenetwork.Chain.Terms.Resumed.{
  active_read, resumed_terms, resumed, start-resumed, resumed-IsRunning,
}

put_counter :
    (r : Rlp) (n : Name) (c : Controller)
    → (c.globals n).attribute_type ≡ uint64_type
    → put_attribute r n c
      ≡ some (record c { attributes = update n (counter_bytes r (c.globals n).value) c.attributes })
unfolding put_attribute write_attribute
put_counter r n c h = rw (put_attribute, write_attribute, h)

module _ (r : Rlp) (b : BlockState) (c : Controller) where
  abbrev list_bytes : List ℕ
  list_bytes = write_snapshot r b.active_producers

  -- The stores and globals behind the four attributes.
  abbrev settled_as : Controller
  settled_as = record {
    db = c.db;
    attributes = update db_dirty (counter_bytes r 0) (
        update active_list (content_bytes r list_bytes) (
          update block_height (counter_bytes r b.block_number)
            (update db_dirty (counter_bytes r 1) c.attributes)));
    globals =
        (with_global db_dirty (set_value 0) (
          with_global active_list (set_content list_bytes) (
            with_global block_height (set_value b.block_number)
              (with_global db_dirty (set_value 1) c)))).globals;
  }

  put_settled_lem :
      (c.globals db_dirty).attribute_type ≡ uint64_type
      → (c.globals block_height).attribute_type ≡ uint64_type
      → (c.globals active_list).attribute_type ≡ bytes_type
      → put_settled r b c ≡ some settled_as
  unfolding put_settled
  put_settled_lem h k l =
      let c0 = with_global db_dirty (set_value 1) c in
      let c1 = record c0 { attributes = update db_dirty (counter_bytes r 1) c0.attributes } in
      let d1 = with_global block_height (set_value b.block_number) c1 in
      let c2 = record d1 {
        attributes = update block_height (counter_bytes r b.block_number) d1.attributes;
      } in
      let d2 = with_global active_list (set_content list_bytes) c2 in
      let c3 = record d2 {
        attributes = update active_list (content_bytes r list_bytes) d2.attributes;
      } in
      let d3 = with_global db_dirty (set_value 0) c3 in
      rw (
        put_counter r db_dirty c0 h,
        put_counter r block_height d1 k,
        put_content r active_list d2 l,
        put_counter r db_dirty d3 h,
        ◌>>=◌,
      )

-- A running node begins a term, solidifies a block over whatever its commit left in the database, and
-- the program ends and is started over its stores. Both steps and the start succeed and give a running
-- node at the height of the block: the block with this number is the latest block, the active producers
-- are those of the block state, the former term is the previous one, and the current term is the new one
-- if the block is not older than its beginning, and the former one otherwise. The numbers of the block
-- state, the time and the listed producers are to be in range.
pub start_settled :
    (r : Rlp) (laws : IsRlp r) (listed : List Producer) (t : ℤ) (s : Terms) (b : BlockState)
    (db : Database) (g : Genesis) (sync : Bool) (height count : ℕ) (ps : ProducerSnapshot)
    (waiting : Schedule)
    → b.block_number < 2 ^ 64
    → SnapshotFits b.active_producers
    → IsTime t
    → All ProducerFits listed
    → IsRunning r height s
    → (s' : Terms) × (c : Controller) × (z : Boot) × (schedule r listed t s ≡ some s')
      × (put_settled r b (record s'.controller { db = db }) ≡ some c)
      × IsRunning r b.block_number (record s' { controller = c })
      × (start r g sync count ps (first_boot ps waiting (opened c.db c.attributes)) ≡ some z)
      × IsRunning r b.block_number z.terms
      × (z.latest_block ≡ db_block_at b.block_number db)
      × (z.active ≡ b.active_producers)
      × (z.terms.prev_ps ≡ s.current_ps)
      × (z.terms.current_ps ≡ (
          if ltb_ℤ (db_block_at b.block_number db).timestamp t
          then s.current_ps
          else s'.current_ps))
start_settled r laws listed t s b db g sync height count ps waiting small active_fits time fit v =
    let s' = in_term r listed t s in
    let v' = in_term-IsRunning r listed t s height time fit v in
    let q = begun r listed t s in
    let base = record s'.controller { db = db } in
    let c = settled_as r b base in
    let solid = some b.active_producers in
    let n = b.block_number in
    let w = resumed_terms r laws db c.attributes s.current_ps q solid n count ps waiting sync in
    (
      s',
      c,
      resumed r laws db c.attributes s.current_ps q solid n count ps waiting sync,
      schedule_lem r listed t s v.prev_type v.current_type,
      put_settled_lem r b base v'.dirty_type v'.height_type v'.active_type,
      record {
        inited = v'.inited;
        clean = refl;
        counted = refl;
        solid = solid;
        active = refl;
        active_fits = active_fits;
        dirty_type = v'.dirty_type;
        height_type = v'.height_type;
        active_type = v'.active_type;
        prev_type = v'.prev_type;
        current_type = v'.current_type;
        turns = v'.turns;
        fits = v'.fits;
      },
      start-resumed r laws db c.attributes s.current_ps q solid n count ps waiting sync g v'.inited
          refl refl refl refl refl small v.fits v'.fits,
      resumed-IsRunning r laws db c.attributes s.current_ps q solid n count ps waiting sync
          v'.inited refl refl refl active_fits v.fits v'.fits,
      refl,
      active_read r laws solid ps active_fits,
      (pushed_kept w).0,
      (pushed_kept w).1,
    )
