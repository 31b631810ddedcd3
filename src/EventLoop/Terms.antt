-- ===== src/EventLoop/Terms.antt =====
-- spx_core/src/state_machine/mod.rs: the terms that a run of the loop meets.
use spanner_paxos.StateMachine
use spanner_paxos.Base.{
  All, Bool, List, Option, [], arith, false, length, none, some, true, ℕ, ◌+◌, ◌<◌, ◌∷◌, ◌≤◌,
}
use spanner_paxos.Context.{PaxosSharedContext}
use spanner_paxos.EventLoop.{Branch, Loop, Moment, fires, receives, recv, select, stops}
use spanner_paxos.EventLoop.Queue.{arrivals}
use spanner_paxos.Messages.{PaxosEvent, event_term}
use spanner_paxos.Roles.{PaxosState}

-- What an event brings as its term is at most a bound.
abbrev pub AtMost : ℕ → Option ℕ → Type 0
AtMost b none = Unit {0}
AtMost b (some term) = term ≤ b

abbrev pub IsAtMost : ℕ → PaxosEvent → Type 0
IsAtMost b event = AtMost b (event_term event)

-- No term, that of the member, of an event in the queue or of one that arrives, is above a bound, and
-- the bound leaves room for one more term a turn below the highest `u32`.
pub record TermsFit (ms : List Moment) (s : Loop) : Type 0 where
  pub bound : ℕ
  pub own : s.ctx.term ≤ bound
  pub queued : All (IsAtMost bound) s.queue
  pub arriving : All (IsAtMost bound) (arrivals ms)
  pub room : bound + length ms < 4294967295

pub IsAtMost-up :
    (b : ℕ) (events : List PaxosEvent) → All (IsAtMost b) events → All (IsAtMost (b + 1)) events
IsAtMost-up b [] h = tt
IsAtMost-up b (e ∷ es) h = (go (event_term e) h.0, IsAtMost-up b es h.1)
  where
    go : (term : Option ℕ) → AtMost b term → AtMost (b + 1) term
    go none h = tt
    go (some term) h = omega arith

-- So is the event of a branch, if it has one.
abbrev pub BranchFits : ℕ → Option Branch → Type 0
BranchFits b none = Unit {0}
BranchFits b (some stops) = Unit {0}
BranchFits b (some (fires event)) = IsAtMost b event
BranchFits b (some (receives none)) = Unit {0}
BranchFits b (some (receives (some event))) = IsAtMost b event

recv-BranchFits :
    (b : ℕ) (closed : Bool) (queue : List PaxosEvent)
    → All (IsAtMost b) queue
    → BranchFits b (recv closed queue).0
unfolding recv
recv-BranchFits b true [] h = tt
recv-BranchFits b false [] h = tt
recv-BranchFits b closed (e ∷ es) h = h.0

pub select-BranchFits :
    (b : ℕ) (m : Moment) (s : Loop) → All (IsAtMost b) s.queue → BranchFits b (select m s).0
unfolding select event_term
select-BranchFits b m s h = ground (arith, recv-BranchFits b m.closed s.queue h)

pub adopt_term-AtMost :
    (b : ℕ) (term : Option ℕ) (state : PaxosState) (ctx : PaxosSharedContext)
    → ctx.term ≤ b
    → AtMost b term
    → (StateMachine.adopt_term term state ctx).1.term ≤ b
unfolding StateMachine.adopt_term
adopt_term-AtMost b none state ctx h k = h
adopt_term-AtMost b (some term) state ctx h k = ground arith
