-- ===== src/Server/Control.antt =====
-- On `start`, `suspend` and `stop` of producer/ProducerServer.cpp: the states that calls can reach.
use gsenetwork.Prelude.{◌≡◌}
use gsenetwork.Server.{
  ProducerState, ready, running, suspended, stopped, undefined, Server, start, suspend, stop,
}

-- A call of a control function, as a step.
pub data Control : Server → Server → Type 0 where
  started : (s : Server) → Control s (start s)
  suspending : (s : Server) → Control s (suspend s)
  stopping : (s : Server) → Control s (stop s)

-- The servers that calls reach from a server.
pub data Reach (s : Server) : Server → Type 0 where
  here : Reach s s
  step : (t u : Server) → Reach s t → Control t u → Reach s u

-- The states of a server that was made by the constructor.
abbrev IsIdle : ProducerState → Type 0
IsIdle ready = Unit
IsIdle stopped = Unit
IsIdle _ = ⊥

suspend-IsIdle :
    (s : Server) (x : ProducerState) → IsIdle x → IsIdle (suspend (record s { state = x })).state
unfolding suspend
suspend-IsIdle s ready i = tt
suspend-IsIdle s running i = absurd i
suspend-IsIdle s suspended i = absurd i
suspend-IsIdle s stopped i = tt
suspend-IsIdle s undefined i = absurd i

Control-IsIdle : (s t : Server) → Control s t → IsIdle s.state → IsIdle t.state
unfolding start suspend stop
Control-IsIdle s _ (started _) i = i
Control-IsIdle s _ (suspending _) i = suspend-IsIdle s s.state i
Control-IsIdle s _ (stopping _) i = tt

Reach-IsIdle : (s t : Server) → Reach s t → IsIdle s.state → IsIdle t.state
Reach-IsIdle s _ here i = i
Reach-IsIdle s _ (step t u r c) i = Control-IsIdle t u c (Reach-IsIdle s t r i)

-- From the ready state, no sequence of calls of start, suspend and stop makes the server running or
-- suspended.
pub never_runs :
    (s t : Server)
    → s.state ≡ ready
    → Reach s t
    → (¬ (t.state ≡ running)) × (¬ (t.state ≡ suspended))
never_runs s t e r =
    let idle : IsIdle t.state = Reach-IsIdle s t r (rw e tt) in
    ((λ run. rw run at idle), λ sus. rw sus at idle)
