-- ===== src/Chain/Terms.antt =====
-- chain/BlockChain.cpp: the terms of the producers. `schedule` begins one, `init` takes the terms of an
-- earlier run from the database, and `pushSchedule` gives them to the producer server.
pub mod Running
pub mod Resumed
pub mod Restart
pub mod Settled
mod Examples
use gsenetwork.Prelude.{
  ℕ, List, [], ◌∷◌, Bool, true, false, Option, none, some, ◌==◌, if◌then◌else◌,
}
use gsenetwork.Prelude.Int.{ℤ, ltb_ℤ}
use gsenetwork.Prelude.Map.{Map}
use gsenetwork.Core.Producer.{Producer}
use gsenetwork.Core.Snapshot.{ProducerSnapshot, add_producer, clear}
use gsenetwork.Core.Block.{Block, empty_block}
use gsenetwork.Schedule.{Schedule}
use gsenetwork.Schedule
use gsenetwork.Server.{ChainStatus, sync_status, producer_status}
use gsenetwork.Storage.Repository.Branch.{get_producer_list}
use gsenetwork.Storage.Attributes.{
  Name, db_dirty, block_height, prev_list, current_list, active_list, Controller, Genesis,
  set_value, assign_attribute, with_global, get_attribute, put_attribute,
}
use gsenetwork.Storage.Attributes
use gsenetwork.Wire.Rlp.{Rlp, ◌>>=◌}
use gsenetwork.Wire.Accounts.{write_snapshot, populate}
use gsenetwork.Wire.Statuses.{set_content}
use gsenetwork.Chain.BlockState.{BlockState, new_block_state}
use gsenetwork.Chain.Rollback.{RollbackState, set}
use gsenetwork.Chain.Execute.{Back, no_item, item}
use gsenetwork.Chain.Serve.{db_block_at}

-- The fields of `BlockChain` that hold the terms, the schedule behind `m_messageFace`, and `m_dbc`.
pub record Terms : Type 0 where
  pub prev_ps : ProducerSnapshot
  pub current_ps : ProducerSnapshot
  pub schedule : Schedule
  pub controller : Controller

abbrev pub values : Map Producer → List Producer
values [] = []
values ((_, p) ∷ m) = p ∷ values m

-- `getProducerListFromRepo`
unfoldable pub get_producer_list_from_repo : Back → List Producer
get_producer_list_from_repo (item r) = values (get_producer_list r)
get_producer_list_from_repo (no_item db) = values db.producers

-- The loop of `schedule`.
abbrev pub add_all : List Producer → ProducerSnapshot → ProducerSnapshot
add_all [] s = s
add_all (p ∷ ps) s = add_all ps (add_producer p s)

-- `pushSchedule`
unfoldable pub push_schedule : Terms → Terms
push_schedule s =
    let before = gsenetwork.Schedule.schedule s.prev_ps.producers s.prev_ps.timestamp s.schedule in
    record s {
      schedule = gsenetwork.Schedule.schedule s.current_ps.producers s.current_ps.timestamp before;
    }

-- What `init` sets.
pub record Boot : Type 0 where
  pub terms : Terms
  pub active : ProducerSnapshot
  pub rollback : RollbackState
  pub head : Option BlockState
  pub latest_block : Block
  pub latest_number : ℕ
  pub status : ChainStatus

-- A `BlockChain` as it is constructed. `ps` is a new snapshot, `waiting` the schedule that the producer
-- server has then.
abbrev pub first_boot : ProducerSnapshot → Schedule → Controller → Boot
first_boot ps waiting c = record {
  terms = record { prev_ps = ps; current_ps = ps; schedule = waiting; controller = c };
  active = ps;
  rollback = record { index = []; head = none; solidify_number = 0 };
  head = none;
  latest_block = empty_block;
  latest_number = 0;
  status = producer_status;
}

module _ (r : Rlp) where
  -- The attributes that `onSolidifiable` puts for the block state of a committed item.
  unfoldable pub put_settled : BlockState → Controller → Option Controller
  put_settled b c = do
    c1 ← put_attribute r db_dirty (with_global db_dirty (set_value 1) c)
    c2 ← put_attribute r block_height (with_global block_height (set_value b.block_number) c1)
    c3 ←
        put_attribute r active_list
          (with_global active_list (set_content (write_snapshot r b.active_producers)) c2)
    put_attribute r db_dirty (with_global db_dirty (set_value 0) c3)

  -- `schedule`, on the list of `getProducerListFromRepo`; `none` where `putAttribute` throws.
  unfoldable pub schedule : List Producer → ℤ → Terms → Option Terms
  schedule listed t s =
      let current = record (add_all listed (clear s.current_ps)) { timestamp = t } in
      do
        let c = s.controller
        c1 ←
            put_attribute r prev_list
              (with_global prev_list (set_content (write_snapshot r s.current_ps)) c)
        c2 ←
            put_attribute r current_list
              (with_global current_list (set_content (write_snapshot r current)) c1)
        some (record {
          prev_ps = s.current_ps;
          current_ps = current;
          schedule = gsenetwork.Schedule.schedule current.producers t s.schedule;
          controller = c2;
        })

  -- The lists that `init` reads, where the last solidified block has the time `solid`.
  unfoldable pub load_terms : ℤ → Terms → Terms
  load_terms solid s =
      let prev = populate r (s.controller.globals prev_list).content s.prev_ps in
      let current = populate r (s.controller.globals current_list).content s.current_ps in
      record s {
        prev_ps = prev;
        current_ps =
            if ltb_ℤ solid current.timestamp
            then populate r (s.controller.globals prev_list).content current
            else current;
      }

  -- `initializeRollbackState`; `count` and `ps` are those of a new block state. `none` where `set` throws.
  unfoldable pub initialize_rollback_state : ℕ → ProducerSnapshot → Boot → Option Boot
  initialize_rollback_state count ps b =
      let c = b.terms.controller in
      let block = db_block_at (c.globals block_height).value c.db in
      let head = record (new_block_state count ps block) {
        bft_solidify_block_number = block.number;
      } in
      let (error, rollback) = set head b.rollback in
      elim error [
        | some _ ↦ none
        | none ↦ some (record b { head = some head; rollback = rollback })
      ]

  -- `init` behind that, up to the lists: the dirty mark. `none` where it throws.
  unfoldable pub check_dirty : Boot → Option Boot
  check_dirty b = do
    a ← get_attribute r db_dirty b.terms.controller
    let c = with_global db_dirty (λ old. assign_attribute old a) b.terms.controller
    if (c.globals db_dirty).value == 1
        then none
        else some (record b { terms = record b.terms { controller = c } })

  -- `init`; `sync` is ARGs.m_syncFlag.
  unfoldable pub init : Bool → ℕ → ProducerSnapshot → Boot → Option Boot
  init sync count ps b = do
    b1 ← elim b.head as (λ _. Option Boot) [
      | some _ ↦ some b
      | none ↦ initialize_rollback_state count ps b
    ]
    b2 ← check_dirty b1
    let c = b2.terms.controller
    let solid = db_block_at (c.globals block_height).value c.db
    some (record b2 {
      active = populate r (c.globals active_list).content b2.active;
      terms = load_terms solid.timestamp b2.terms;
      latest_number = solid.number;
      latest_block = solid;
      status = if sync then sync_status else producer_status;
    })

  -- The program's start over the stores that an earlier run left.
  unfoldable pub start : Genesis → Bool → ℕ → ProducerSnapshot → Boot → Option Boot
  start g sync count ps b = do
    c ← gsenetwork.Storage.Attributes.init r g b.terms.controller
    b1 ← init sync count ps (record b { terms = record b.terms { controller = c } })
    some (record b1 { terms = push_schedule b1.terms })
