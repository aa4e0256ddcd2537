-- ===== src/Chain/Terms/Running.antt =====
-- On `schedule` of chain/BlockChain.cpp: what a running node has in its attributes, and a term that begins.
use gsenetwork.Prelude.{
  ℕ, List, [], ◌∷◌, ◌++◌, Option, none, some, ◌≡◌, ap, ◌∙◌, All, All-append, inl, inr, Bool-cases,
}
use gsenetwork.Prelude.Int.{ℤ}
use gsenetwork.Core.Producer.{Producer}
use gsenetwork.Core.Snapshot.{ProducerSnapshot, is_exist, add_producer, clear}
use gsenetwork.Schedule.{Schedule, sort, retire, enter, producer_sort}
use gsenetwork.Schedule
use gsenetwork.Schedule.Order.{enter_current, enter_prev, retire_current, retire_prev}
use gsenetwork.Storage.Attributes.{
  Name, Controller, update, with_global, genesis_inited, db_dirty, block_height, prev_list,
  current_list, active_list, put_attribute,
}
use gsenetwork.Storage.Attributes.Restored.{counter_bytes, content_bytes}
use gsenetwork.Wire.Rlp.{Bytes, Rlp, IsTime, ◌>>=◌}
use gsenetwork.Wire.Accounts.{write_snapshot}
use gsenetwork.Wire.Accounts.RoundTrip.{ProducerFits}
use gsenetwork.Wire.Statuses.{uint64_type, bytes_type, set_content, write_attribute}
use gsenetwork.Chain.Terms.{Terms, add_all, schedule}

-- A snapshot that the streams keep.
abbrev pub SnapshotFits : ProducerSnapshot → Type 0
SnapshotFits s = IsTime s.timestamp × All ProducerFits s.producers

add_producer-Fits :
    (p : Producer) (s : ProducerSnapshot)
    → ProducerFits p
    → All ProducerFits s.producers
    → All ProducerFits (add_producer p s).producers
unfolding add_producer
add_producer-Fits p s h k = elim (Bool-cases (is_exist p.address s)) [
  | inl there ↦ rw there k
  | inr new ↦ rw new (All-append ProducerFits s.producers p k h)
]

add_all-Fits :
    (ps : List Producer) (s : ProducerSnapshot)
    → All ProducerFits ps
    → All ProducerFits s.producers
    → All ProducerFits (add_all ps s).producers
add_all-Fits [] s h k = k
add_all-Fits (p ∷ ps) s (h, hs) k =
    add_all-Fits ps (add_producer p s) hs (add_producer-Fits p s h k)

pub schedule_current :
    (ps : List Producer) (t : ℤ) (s : Schedule)
    → (gsenetwork.Schedule.schedule ps t s).current_producers ≡ sort ps
unfolding gsenetwork.Schedule.schedule producer_sort
schedule_current ps t s =
    ap sort (enter_current ps t (retire s) ∙ ap (λ qs. qs ++ ps) (retire_current s))

pub schedule_prev :
    (ps : List Producer) (t : ℤ) (s : Schedule)
    → (gsenetwork.Schedule.schedule ps t s).prev_producers ≡ sort s.current_producers
unfolding gsenetwork.Schedule.schedule producer_sort
schedule_prev ps t s = ap sort (enter_prev ps t (retire s) ∙ retire_prev s)

pub put_content :
    (r : Rlp) (n : Name) (c : Controller)
    → (c.globals n).attribute_type ≡ bytes_type
    → put_attribute r n c
      ≡ some
          (record c { attributes = update n (content_bytes r (c.globals n).content) c.attributes })
unfolding put_attribute write_attribute
put_content r n c h = rw (put_attribute, write_attribute, h)

-- What the store holds of the active producers at the last solidified block, if a block was solidified.
abbrev pub active_bytes : Rlp → Option ProducerSnapshot → Bytes
active_bytes r none = []
active_bytes r (some ps) = content_bytes r (write_snapshot r ps)

abbrev pub ActiveFits : Option ProducerSnapshot → Type 0
ActiveFits none = Unit
ActiveFits (some ps) = SnapshotFits ps

-- A running node: what stands in the attributes, and the turns of the current term.
pub record IsRunning (r : Rlp) (height : ℕ) (s : Terms) : Type 0 where
  pub inited : s.controller.attributes genesis_inited ≡ counter_bytes r 1
  pub clean : s.controller.attributes db_dirty ≡ counter_bytes r 0
  pub counted : s.controller.attributes block_height ≡ counter_bytes r height
  -- the active producers at the last solidified block
  pub solid : Option ProducerSnapshot
  pub active : s.controller.attributes active_list ≡ active_bytes r solid
  pub active_fits : ActiveFits solid
  pub dirty_type : (s.controller.globals db_dirty).attribute_type ≡ uint64_type
  pub height_type : (s.controller.globals block_height).attribute_type ≡ uint64_type
  pub active_type : (s.controller.globals active_list).attribute_type ≡ bytes_type
  pub prev_type : (s.controller.globals prev_list).attribute_type ≡ bytes_type
  pub current_type : (s.controller.globals current_list).attribute_type ≡ bytes_type
  pub turns : s.schedule.current_producers ≡ sort s.current_ps.producers
  pub fits : SnapshotFits s.current_ps

module _ (r : Rlp) (listed : List Producer) (t : ℤ) (s : Terms) where
  -- The snapshot of a new term.
  abbrev pub begun : ProducerSnapshot
  begun = record (add_all listed (clear s.current_ps)) { timestamp = t }

  -- The node behind `schedule`.
  abbrev pub in_term : Terms
  in_term = record {
    prev_ps = s.current_ps;
    current_ps = begun;
    schedule = gsenetwork.Schedule.schedule begun.producers t s.schedule;
    controller = record {
      db = s.controller.db;
      attributes = update current_list (content_bytes r (write_snapshot r begun)) (
          update prev_list (content_bytes r (write_snapshot r s.current_ps))
            s.controller.attributes);
      globals =
          update current_list
            (set_content (write_snapshot r begun) (s.controller.globals current_list))
            (update prev_list
              (set_content (write_snapshot r s.current_ps) (s.controller.globals prev_list))
              s.controller.globals);
    };
  }

  pub schedule_lem :
      (s.controller.globals prev_list).attribute_type ≡ bytes_type
      → (s.controller.globals current_list).attribute_type ≡ bytes_type
      → schedule r listed t s ≡ some in_term
  unfolding schedule
  schedule_lem h k =
      let c = with_global prev_list (set_content (write_snapshot r s.current_ps)) s.controller in
      let c1 = record c {
        attributes =
            update prev_list (content_bytes r (write_snapshot r s.current_ps)) c.attributes;
      } in
      let c2 = with_global current_list (set_content (write_snapshot r begun)) c1 in
      rw (put_content r prev_list c h, put_content r current_list c2 k, ◌>>=◌)

  pub in_term-IsRunning :
      (height : ℕ)
      → IsTime t
      → All ProducerFits listed
      → IsRunning r height s
      → IsRunning r height in_term
  in_term-IsRunning height time fit v = record {
    inited = v.inited;
    clean = v.clean;
    counted = v.counted;
    solid = v.solid;
    active = v.active;
    active_fits = v.active_fits;
    dirty_type = v.dirty_type;
    height_type = v.height_type;
    active_type = v.active_type;
    prev_type = v.prev_type;
    current_type = v.current_type;
    turns = schedule_current begun.producers t s.schedule;
    fits = (time, add_all-Fits listed (clear s.current_ps) fit tt);
  }
