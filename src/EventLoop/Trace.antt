-- ===== src/EventLoop/Trace.antt =====
-- spx_core/src/state_machine/mod.rs: which events a run of the loop processes, and in what order.
use spanner_paxos.EventLoop
use spanner_paxos.StateMachine
use spanner_paxos.Base.{List, Option, [], ok, some, ◌++◌, ◌∷◌, ◌≡◌}
use spanner_paxos.Context.{PaxosSharedContext}
use spanner_paxos.EventLoop.{Branch, Loop, Moment, fires}
use spanner_paxos.EventLoop.Queue.{arrivals}
use spanner_paxos.EventLoop.Runs.{SameData}
use spanner_paxos.Messages.{
  PaxosEvent, accept_timeout_check_fired, heartbeat_timer_fired, leader_lease_expired,
  write_flush_timer_fired,
}
use spanner_paxos.Roles.{Outcome}

-- The events that the loop makes itself.
abbrev pub IsTimer : PaxosEvent → Type 0
IsTimer leader_lease_expired = Unit {0}
IsTimer heartbeat_timer_fired = Unit {0}
IsTimer accept_timeout_check_fired = Unit {0}
IsTimer write_flush_timer_fired = Unit {0}
IsTimer _ = ⊥

-- The member processes the event, from one loop to the next: its role handles it, in the context that
-- it has but for the signals and the end of the lease, and its role and context become what comes out.
pub record Processes (m : Moment) (event : PaxosEvent) (s s' : Loop) : Type 0 where
  pub ctx : PaxosSharedContext
  pub same : SameData s.ctx ctx
  pub outcome : Outcome
  pub processed : StateMachine.process_event m.clock event s.state ctx ≡ ok outcome
  pub state : s'.state ≡ outcome.state
  pub context : s'.ctx ≡ outcome.ctx

-- One turn: there is nothing to do; a timer's event is processed; or the first event of those that
-- wait, with those that have just come in behind them, is taken and processed.
pub data Step (m : Moment) (s s' : Loop) : List PaxosEvent → Type 0 where
  idles : s'.state ≡ s.state → s'.queue ≡ s.queue ++ m.arrived → Step m s s' []
  times :
      (event : PaxosEvent)
      → IsTimer event
      → Processes m event s s'
      → s'.queue ≡ s.queue ++ m.arrived
      → Step m s s' []
  takes :
      (event : PaxosEvent)
      → Processes m event s s'
      → s.queue ++ m.arrived ≡ event ∷ s'.queue
      → Step m s s' (event ∷ [])

-- The turns of a run, and the events that it has taken and processed, first to last.
pub data Trace : List Moment → Loop → List PaxosEvent → Loop → Type 0 where
  stays : {s : Loop} → Trace [] s [] s
  turns :
      {m : Moment} {ms : List Moment} {s t s' : Loop} {taken later : List PaxosEvent}
      → Step m s t taken
      → Trace ms t later s'
      → Trace (m ∷ ms) s (taken ++ later) s'

abbrev BranchTimer : Option Branch → Type 0
BranchTimer (some (fires event)) = IsTimer event
BranchTimer _ = Unit {0}

-- The events that have been processed, and those that still wait, are those that were there and those
-- that have come in.
abbrev pub IsInOrder : List PaxosEvent → List Moment → Loop → Loop → Type 0
IsInOrder processed ms s s' = processed ++ s'.queue ≡ s.queue ++ arrivals ms
