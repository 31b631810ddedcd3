-- ===== src/EventLoop/Queue.antt =====
-- spx_core/src/state_machine/mod.rs: the events of the channel, in the order of the loop.
use spanner_paxos.EventLoop
use spanner_paxos.Base.{
  >>=-eq-ok, Bool, List, Option, Option-cases, Result, [], arith, err, false, inl, inr, none, ok,
  panic, refl, some, true, ◌++◌, ◌∷◌, ◌≡◌,
}
use spanner_paxos.EventLoop.{
  Branch, Loop, Moment, arrive, fires, next_state, process, receives, recv, select, stops,
  take_branch, turn,
}
use spanner_paxos.Messages.{PaxosEvent}
use spanner_paxos.Roles.{Outcome}

-- The event that a branch takes from the queue.
abbrev pub event_of : Option Branch → List PaxosEvent
event_of none = []
event_of (some stops) = []
event_of (some (fires event)) = []
event_of (some (receives none)) = []
event_of (some (receives (some event))) = event ∷ []

abbrev pub arrivals : List Moment → List PaxosEvent
arrivals [] = []
arrivals (m ∷ ms) = m.arrived ++ arrivals ms

recv-queue :
    (closed : Bool) (queue : List PaxosEvent)
    → event_of (recv closed queue).0 ++ (recv closed queue).1 ≡ queue
unfolding recv
recv-queue true [] = refl
recv-queue false [] = refl
recv-queue closed (event ∷ rest) = refl

pub select-queue :
    (m : Moment) (s : Loop) → event_of (select m s).0 ++ (select m s).1.queue ≡ s.queue
unfolding select
select-queue m s = ground (arith, recv-queue m.closed s.queue)

next_state-queue :
    (s s' : Loop) (result : Result Outcome)
    → next_state s result ≡ ok (some s')
    → s'.queue ≡ s.queue
unfolding next_state
next_state-queue s s' panic e = cc
next_state-queue s s' (err why) e = cc
next_state-queue s s' (ok o) e = ground arith

pub process-queue :
    (m : Moment) (event : PaxosEvent) (s s' : Loop)
    → process m event s ≡ ok (some s')
    → s'.queue ≡ s.queue
unfolding process
process-queue m event s s' e = next_state-queue s s' _ e

take_branch-queue :
    (m : Moment) (branch : Option Branch) (s s' : Loop)
    → take_branch m branch s ≡ ok (some s')
    → s'.queue ≡ s.queue
unfolding take_branch
take_branch-queue m none s s' e = ground arith
take_branch-queue m (some stops) s s' e = cc
take_branch-queue m (some (fires event)) s s' e = process-queue m event s s' e
take_branch-queue m (some (receives none)) s s' e = cc
take_branch-queue m (some (receives (some event))) s s' e = process-queue m event s s' e

pub turn-queue :
    (m : Moment) (s s' : Loop)
    → turn m s ≡ ok (some s')
    → event_of (select m (arrive m s)).0 ++ s'.queue ≡ s.queue ++ m.arrived
unfolding turn
turn-queue m s s' e =
    let (branch, t) = select m (arrive m s) in
    rw (take_branch-queue m branch t s' e) (select-queue m (arrive m s))

-- The turn and the rest of a run that goes on.
pub run-turn :
    (m : Moment) (ms : List Moment) (s s' : Loop)
    → EventLoop.run (m ∷ ms) s ≡ ok (some s')
    → (t : Loop) × (turn m s ≡ ok (some t)) × (EventLoop.run ms t ≡ ok (some s'))
unfolding EventLoop.run
run-turn m ms s s' e =
    let (reached, turned, rest) = >>=-eq-ok (turn m s) _ e in
    elim (Option-cases reached) [
      | inl over ↦ let ended = rw over at rest in cc ended
      | inr (t, goes) ↦ (t, rw goes at turned, rw goes at rest)
    ]
