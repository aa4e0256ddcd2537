-- ===== src/Chain/Terms/Restart.antt =====
-- On `init` and `pushSchedule` of chain/BlockChain.cpp: a node that starts again is in the term of its last
-- solidified block.
use gsenetwork.Prelude.{
  ℕ, ◌<◌, ◌^◌, List, [], Bool, true, false, none, some, ◌≡◌, refl, sym, ap, ◌∙◌, All, if◌then◌else◌,
}
use gsenetwork.Prelude.Int.{ℤ, ltb_ℤ}
use gsenetwork.Core.Producer.{Producer}
use gsenetwork.Core.Snapshot.{ProducerSnapshot}
use gsenetwork.Schedule.{Schedule, sort}
use gsenetwork.Storage.Attributes.{Genesis, opened}
use gsenetwork.Wire.Rlp.{Rlp, IsRlp, IsTime}
use gsenetwork.Wire.Accounts.{populate}
use gsenetwork.Wire.Accounts.RoundTrip.{ProducerFits}
use gsenetwork.Storage.Database.{Database}
use gsenetwork.Chain.Serve.{db_block_at}
use gsenetwork.Chain.Terms.{Terms, schedule, push_schedule, Boot, start, first_boot}
use gsenetwork.Chain.Terms.Running.{
  schedule_current, schedule_prev, IsRunning, begun, in_term, schedule_lem, in_term-IsRunning,
}
use gsenetwork.Chain.Terms.Resumed.{
  active_read, resumed_terms, resumed, start-resumed, resumed-IsRunning,
}

pushed_current :
    (s : Terms) → (push_schedule s).schedule.current_producers ≡ sort s.current_ps.producers
unfolding push_schedule
pushed_current s = schedule_current s.current_ps.producers s.current_ps.timestamp _

pushed_prev :
    (s : Terms) → (push_schedule s).schedule.prev_producers ≡ sort (sort s.prev_ps.producers)
unfolding push_schedule
pushed_prev s =
    schedule_prev s.current_ps.producers s.current_ps.timestamp _
    ∙ ap sort (schedule_current s.prev_ps.producers s.prev_ps.timestamp s.schedule)

pub pushed_kept :
    (s : Terms)
    → ((push_schedule s).prev_ps ≡ s.prev_ps) × ((push_schedule s).current_ps ≡ s.current_ps)
unfolding push_schedule
pushed_kept s = (refl, refl)

sort_either :
    (b : Bool) (x y : ProducerSnapshot) {l m : List Producer}
    → l ≡ sort x.producers
    → m ≡ sort y.producers
    → sort (if b then x else y).producers ≡ (if b then l else m)
sort_either true x y h k = sym h
sort_either false x y h k = sym k

-- A running node that begins a term goes on running, and when it ends then and the program is started over
-- its stores, the start succeeds and gives a running node again: the last solidified block is the latest block,
-- the active producers are those that were stored with it, if a block was solidified at all, the former term is the
-- previous one, and the current term is the new one if that block is not older than its beginning, and
-- the former one otherwise; the turns of the producers are those of that term. The height, the time and
-- the numbers of the listed producers are to be in range.
pub start_terms :
    (r : Rlp) (laws : IsRlp r) (listed : List Producer) (t : ℤ) (s : Terms) (g : Genesis)
    (sync : Bool) (height count : ℕ) (ps : ProducerSnapshot) (waiting : Schedule)
    → height < 2 ^ 64
    → IsTime t
    → All ProducerFits listed
    → (v : IsRunning r height s)
    → (s' : Terms) × (z : Boot) × (schedule r listed t s ≡ some s')
      × IsRunning r height s'
      × (start r g sync count ps
            (first_boot ps waiting (opened s'.controller.db s'.controller.attributes))
          ≡ some z)
      × (let solid = db_block_at height s.controller.db in
          let former = ltb_ℤ solid.timestamp t in
          IsRunning r height z.terms
          × (z.latest_block ≡ solid)
          × (z.active ≡ elim v.solid [ none ↦ populate r [] ps | some q ↦ q ])
          × (z.terms.prev_ps ≡ s.current_ps)
          × (z.terms.current_ps ≡ (if former then s.current_ps else s'.current_ps))
          × (z.terms.schedule.prev_producers ≡ s'.schedule.prev_producers)
          × (z.terms.schedule.current_producers
              ≡ (if former then s.schedule.current_producers else s'.schedule.current_producers)))
start_terms r laws listed t s g sync height count ps waiting small time fit v =
    let s' = in_term r listed t s in
    let v' = in_term-IsRunning r listed t s height time fit v in
    let q = begun r listed t s in
    let store = s'.controller.attributes in
    let w =
      resumed_terms r laws s.controller.db store s.current_ps q v.solid height count ps waiting
        sync in
    let z =
      resumed r laws s.controller.db store s.current_ps q v.solid height count ps waiting sync in
    (
      s',
      z,
      schedule_lem r listed t s v.prev_type v.current_type,
      v',
      start-resumed r laws s.controller.db store s.current_ps q v.solid height count ps waiting sync
          g v'.inited v'.clean v'.counted refl refl v.active small v.fits v'.fits,
      (
        resumed-IsRunning r laws s.controller.db store s.current_ps q v.solid height count ps
            waiting sync v'.inited v'.clean v'.counted v.active v.active_fits v.fits v'.fits,
        refl,
        active_read r laws v.solid ps v.active_fits,
        (pushed_kept w).0,
        (pushed_kept w).1,
        pushed_prev w ∙ sym (schedule_prev q.producers t s.schedule ∙ ap sort v.turns),
        pushed_current w ∙ sort_either _ s.current_ps q v.turns v'.turns,
      ),
    )
