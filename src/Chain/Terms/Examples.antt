-- ===== src/Chain/Terms/Examples.antt =====
-- A node that starts from a genesis with one producer, begins a term with two others, and starts again.
use gsenetwork.Prelude.{ℕ, List, [], ◌∷◌, false, some, ◌≡◌, refl, arith}
use gsenetwork.Prelude.Int.{pos}
use gsenetwork.Core.Producer.{Producer}
use gsenetwork.Core.Snapshot.{ProducerSnapshot}
use gsenetwork.Core.Block.{empty_block}
use gsenetwork.Schedule.{Schedule, sort}
use gsenetwork.Storage.Database.{Database}
use gsenetwork.Storage.Attributes.Restored.{founded, content_bytes}
use gsenetwork.Storage.Attributes.{Controller, Genesis, opened, update, active_list}
use gsenetwork.Wire.Accounts.{write_snapshot}
use gsenetwork.Wire.Model.{plain, plain_laws}
use gsenetwork.Chain.BlockState.{BlockState, new_block_state}
use gsenetwork.Chain.Terms.Settled.{start_settled}
use gsenetwork.Chain.Terms.{put_settled, Terms, Boot, schedule, start, first_boot}
use gsenetwork.Chain.Terms.Running.{IsRunning, SnapshotFits}
use gsenetwork.Chain.Terms.Restart.{start_terms}

abbrev db : Database
db = record { accounts = []; producers = []; transactions = []; blocks = []; block_index = [] }

abbrev producer : ℕ → ℕ → Producer
producer a votes = record { address = a; timestamp = pos 5; votes = votes; voters = [] }

abbrev genesis : Genesis
genesis = record {
  init_accounts = [];
  init_producers = producer 7 50 ∷ [];
  snapshot = record { timestamp = pos 5; producers = producer 7 50 ∷ [] };
  block = record empty_block { hash = 3; timestamp = pos 5 };
}

abbrev new_snapshot : ProducerSnapshot
new_snapshot = record { timestamp = pos 0; producers = [] }

abbrev waiting : Schedule
waiting = record {
  prev_timestamp = pos 0;
  prev_producers = [];
  current_timestamp = pos 0;
  current_producers = [];
}

abbrev genesis_fits : SnapshotFits genesis.snapshot
genesis_fits = omega arith

-- The active producers when a block was solidified.
abbrev active : ProducerSnapshot
active = record { producers = producer 7 60 ∷ []; timestamp = pos 30 }

-- A node that has solidified a block since its first start.
abbrev running : Terms
running = record {
  prev_ps = genesis.snapshot;
  current_ps = genesis.snapshot;
  schedule = record waiting { current_producers = producer 7 50 ∷ [] };
  controller = record (founded plain genesis db) {
    attributes =
        update active_list (content_bytes plain (write_snapshot plain active))
          (founded plain genesis db).attributes;
  };
}

running-IsRunning : IsRunning plain 0 running
unfolding sort
running-IsRunning = record {
  inited = refl;
  clean = refl;
  counted = refl;
  solid = some active;
  active = refl;
  active_fits = omega arith;
  dirty_type = refl;
  height_type = refl;
  active_type = refl;
  prev_type = refl;
  current_type = refl;
  turns = refl;
  fits = genesis_fits;
}

abbrev listed : List Producer
listed = producer 8 20 ∷ producer 9 90 ∷ []

start_terms_example :
    let s = running in
    (s' : Terms) × (z : Boot) × (schedule plain listed (pos 40) s ≡ some s')
    × IsRunning plain 0 s'
    × (start plain genesis false 0 new_snapshot
          (first_boot new_snapshot waiting (opened s'.controller.db s'.controller.attributes))
        ≡ some z)
    × (IsRunning plain 0 z.terms
        × (z.latest_block ≡ genesis.block)
        × (z.active ≡ active)
        × (z.terms.prev_ps ≡ s.current_ps)
        × (z.terms.current_ps ≡ s.current_ps)
        × (z.terms.schedule.prev_producers ≡ s'.schedule.prev_producers)
        × (z.terms.schedule.current_producers ≡ s.schedule.current_producers))
unfolding running-IsRunning
start_terms_example =
    start_terms plain plain_laws listed (pos 40) running genesis false 0 0 new_snapshot waiting
      (omega arith) (omega arith) (omega arith) running-IsRunning

-- The state of block 12, which is older than the term.
abbrev solidified : BlockState
solidified = new_block_state 0 active (record empty_block { number = 12; timestamp = pos 35 })

abbrev committed : Database
committed = record db { block_index = (12, solidified.block) ∷ [] }

start_settled_example :
    let s = running in
    (s' : Terms) × (c : Controller) × (z : Boot) × (schedule plain listed (pos 40) s ≡ some s')
    × (put_settled plain solidified (record s'.controller { db = committed }) ≡ some c)
    × IsRunning plain 12 (record s' { controller = c })
    × (start plain genesis false 0 new_snapshot
          (first_boot new_snapshot waiting (opened c.db c.attributes))
        ≡ some z)
    × IsRunning plain 12 z.terms
    × (z.latest_block ≡ solidified.block)
    × (z.active ≡ active)
    × (z.terms.prev_ps ≡ s.current_ps)
    × (z.terms.current_ps ≡ s.current_ps)
start_settled_example =
    start_settled plain plain_laws listed (pos 40) running solidified committed genesis false 0 0
      new_snapshot waiting (omega arith) (omega arith) (omega arith) (omega arith) running-IsRunning
