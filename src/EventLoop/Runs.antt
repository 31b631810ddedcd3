-- ===== src/EventLoop/Runs.antt =====
-- spx_core/src/state_machine/mod.rs: what a run of the loop keeps.
use spanner_paxos.StateMachine
use spanner_paxos.EventLoop
use spanner_paxos.Base.{
  All, All-append, All-split, Bool, List, Option, Result, [], arith, err, none, ok, panic, refl,
  some, ℕ, ◌++◌, ◌+◌, ◌<◌, ◌∙◌, ◌∷◌, ◌≡◌, ◌≤◌,
}
use spanner_paxos.Context.{PaxosSharedContext}
use spanner_paxos.Context.Progress.{Advances, Advances-refl, Advances-trans, IsLater-refl}
use spanner_paxos.EventLoop.{
  Branch, Loop, Moment, arrive, fires, next_state, process, receives, select, stops, take_branch,
  turn,
}
use spanner_paxos.EventLoop.Queue.{arrivals, event_of, run-turn, turn-queue}
use spanner_paxos.EventLoop.Terms.{
  BranchFits, IsAtMost, IsAtMost-up, TermsFit, adopt_term-AtMost, select-BranchFits,
}
use spanner_paxos.Messages.{PaxosEvent, event_term}
use spanner_paxos.Roles.{Outcome, done}
use spanner_paxos.StateMachine.Climbs.{IsWellState}
use spanner_paxos.StateMachine.Collected.{process_event-IsWellState}
use spanner_paxos.StateMachine.Progress.{process_event-Advances, process_event-term}
use spanner_paxos.TrueTime.{after}
use spanner_paxos.Watchers.{wait_for_check, wait_for_flush, wait_for_heartbeat}

-- The fields that the watchers and the signals leave alone.
pub record SameData (old new : PaxosSharedContext) : Type 0 where
  pub term : new.term ≡ old.term
  pub committed : new.committed_slot ≡ old.committed_slot
  pub safe : new.t_safe ≡ old.t_safe
  pub member : new.member_id ≡ old.member_id
  pub peers : new.peer_ids ≡ old.peer_ids
  pub lease_length : new.lease_length ≡ old.lease_length
  pub wal : new.wal ≡ old.wal
  pub uncommitted : new.uncommitted_logs ≡ old.uncommitted_logs

SameData-Advances : (old new : PaxosSharedContext) → SameData old new → Advances old new
SameData-Advances old new h = record {
  term = omega (arith, h.term);
  committed = omega (arith, h.committed);
  safe = rw h.safe (IsLater-refl old.t_safe);
  member = h.member;
  peers = h.peers;
  lease_length = h.lease_length;
  logs =
      λ logs. record { wal = rw h.wal logs.wal; uncommitted = rw h.uncommitted logs.uncommitted };
}

pub select-SameData : (m : Moment) (s : Loop) → SameData s.ctx (select m s).1.ctx
unfolding select wait_for_heartbeat wait_for_check wait_for_flush
select-SameData m s = ground arith

pub select-state : (m : Moment) (s : Loop) → (select m s).1.state ≡ s.state
unfolding select
select-state m s = ground arith

pub arrive-SameData : (m : Moment) (s : Loop) → SameData s.ctx (arrive m s).ctx
unfolding arrive
arrive-SameData m s = ground arith

pub arrive-state : (m : Moment) (s : Loop) → (arrive m s).state ≡ s.state
unfolding arrive
arrive-state m s = refl

-- What a run keeps, from one loop to a later one.
abbrev pub Keeps : Loop → Loop → Type 0
Keeps s s' = Advances s.ctx s'.ctx × IsWellState s'.state

-- A step keeps them, and takes the term one past the bound at most.
abbrev Steps : ℕ → Loop → Loop → Type 0
Steps b s s' = Keeps s s' × (s'.ctx.term ≤ b + 1)

Advances-cancelled :
    (ctx : PaxosSharedContext) (cancelled : Bool)
    → Advances ctx (record ctx { cancelled = cancelled })
Advances-cancelled ctx cancelled = SameData-Advances ctx _ (ground arith)

pub next_state-ok :
    (s s' : Loop) (result : Result Outcome)
    → next_state s result ≡ ok (some s')
    → (o : Outcome) × (result ≡ ok o) × (s'.state ≡ o.state) × (s'.ctx ≡ o.ctx)
unfolding next_state
next_state-ok s s' panic e = cc
next_state-ok s s' (err why) e = cc
next_state-ok s s' (ok o) e = (o, refl, ground arith, ground arith)

process-Steps :
    (b : ℕ) (m : Moment) (event : PaxosEvent) (s s' : Loop)
    → b < 4294967295
    → s.ctx.term ≤ b
    → IsAtMost b event
    → IsWellState s.state
    → process m event s ≡ ok (some s')
    → Steps b s s'
unfolding process
process-Steps b m event s s' small own fits well e =
    let ctx = record s.ctx { cancelled = m.token 6 } in
    let (o, done, state, after) =
      next_state-ok s s' (StateMachine.process_event m.clock event s.state ctx) e in
    let term = adopt_term-AtMost b (event_term event) s.state ctx own fits in
    let below : (StateMachine.adopt_term (event_term event) s.state ctx).1.term < 4294967295 =
      omega arith in
    let bound = process_event-term m.clock event s.state ctx o below well done in
    (
      (
        rw after (
            Advances-trans s.ctx ctx o.ctx (Advances-cancelled s.ctx (m.token 6))
              (process_event-Advances m.clock event s.state ctx o below well done)),
        rw state (process_event-IsWellState m.clock event s.state ctx o well done),
      ),
      rw after (omega arith),
    )

take_branch-Steps :
    (b : ℕ) (m : Moment) (branch : Option Branch) (s s' : Loop)
    → b < 4294967295
    → s.ctx.term ≤ b
    → BranchFits b branch
    → IsWellState s.state
    → take_branch m branch s ≡ ok (some s')
    → Steps b s s'
unfolding take_branch
take_branch-Steps b m none s s' small own fits well e =
    let same : s'.ctx ≡ s.ctx = ground arith in
    let role : s'.state ≡ s.state = ground arith in
    ((rw same (Advances-refl s.ctx), rw role well), rw same (omega arith))
take_branch-Steps b m (some stops) s s' small own fits well e = cc
take_branch-Steps b m (some (fires event)) s s' small own fits well e =
    process-Steps b m event s s' small own fits well e
take_branch-Steps b m (some (receives none)) s s' small own fits well e = cc
take_branch-Steps b m (some (receives (some event))) s s' small own fits well e =
    process-Steps b m event s s' small own fits well e

-- A turn that goes on keeps them, from the loop as it was before the poll.
turn-Steps :
    (b : ℕ) (m : Moment) (s s' : Loop)
    → b < 4294967295
    → s.ctx.term ≤ b
    → All (IsAtMost b) (s.queue ++ m.arrived)
    → IsWellState s.state
    → turn m s ≡ ok (some s')
    → Steps b s s'
unfolding turn
turn-Steps b m s s' small own fits well e =
    let came = arrive-SameData m s in
    let polled = select-SameData m (arrive m s) in
    let (branch, t) = select m (arrive m s) in
    let role : t.state ≡ s.state = select-state m (arrive m s) ∙ arrive-state m s in
    let term : t.ctx.term ≡ s.ctx.term = polled.term ∙ came.term in
    let ((advances, well'), bound) =
      take_branch-Steps b m branch t s' small (rw term own)
        (select-BranchFits b m (arrive m s) fits) (rw role well) e in
    (
      (
        Advances-trans s.ctx (arrive m s).ctx s'.ctx (SameData-Advances s.ctx _ came) (
            Advances-trans (arrive m s).ctx t.ctx s'.ctx (SameData-Advances _ t.ctx polled)
              advances),
        well',
      ),
      bound,
    )

-- After a turn the rest of the run starts as the run did.
pub turn-Keeps :
    (m : Moment) (ms : List Moment) (s t : Loop)
    → TermsFit (m ∷ ms) s
    → IsWellState s.state
    → turn m s ≡ ok (some t)
    → Keeps s t × TermsFit ms t
turn-Keeps m ms s t fit well e =
    let (first, later) = All-split (IsAtMost fit.bound) m.arrived (arrivals ms) fit.arriving in
    let all_now = All-append (IsAtMost fit.bound) s.queue m.arrived fit.queued first in
    let room = fit.room in
    let (step, bound) = turn-Steps fit.bound m s t (omega arith) fit.own all_now well e in
    let split : All (IsAtMost fit.bound) (event_of (select m (arrive m s)).0 ++ t.queue) =
      rw (turn-queue m s t e) all_now in
    let left = All-split (IsAtMost fit.bound) _ t.queue split in
    (
      step,
      record {
        bound = fit.bound + 1;
        own = bound;
        queued = IsAtMost-up fit.bound t.queue left.1;
        arriving = IsAtMost-up fit.bound (arrivals ms) later;
        room = omega arith;
      },
    )

-- Over a run that has not ended, neither the term nor the committed slot nor the safe time is taken
-- back, the member, its peers and the lease's length stay, and the log, the uncommitted entries and
-- what a candidate has collected are well formed if they were, as long as no term, that of the
-- member or of an event, is so high that one more a turn could reach the highest `u32`.
pub run-Keeps :
    (ms : List Moment) (s s' : Loop)
    → TermsFit ms s
    → IsWellState s.state
    → EventLoop.run ms s ≡ ok (some s')
    → Keeps s s'
unfolding EventLoop.run
run-Keeps [] s s' fit well e =
    let same : s ≡ s' = ground arith in rw (← same) (Advances-refl s.ctx, well)
run-Keeps (m ∷ ms) s s' fit well e =
    let (t, turned, rest) = run-turn m ms s s' e in
    let ((advances, well'), fit') = turn-Keeps m ms s t fit well turned in
    let (advances', well'') = run-Keeps ms t s' fit' well' rest in
    (Advances-trans s.ctx t.ctx s'.ctx advances advances', well'')
