-- ===== src/EventLoop.antt =====
-- spx_core/src/state_machine/mod.rs: the loop of `PaxosStateMachine::start`. A turn is one poll of its
-- `select!`, with what the world has brought by then.
pub mod Turns
pub mod Queue
pub mod Trace
pub mod Terms
pub mod Runs
pub mod Boards
pub mod Panics
use spanner_paxos.Follower
use spanner_paxos.StateMachine
use spanner_paxos.Base.{
  Bool, List, Option, Result, [], err, false, if◌then◌else◌, none, ok, panic, some, true, ℕ, ◌++◌,
  ◌+◌, ◌>>=◌, ◌||◌, ◌∷◌,
}
use spanner_paxos.Context.{PaxosSharedContext, context_new}
use spanner_paxos.Follower.{Follower}
use spanner_paxos.Messages.{
  PaxosDispatcher, PaxosEvent, Uuid, accept_timeout_check_fired, heartbeat_timer_fired,
  leader_lease_expired, write_flush_timer_fired,
}
use spanner_paxos.Roles.{Outcome, PaxosState, follower}
use spanner_paxos.TrueTime.{Clock, DateTime}
use spanner_paxos.Watchers.{
  signal_check, signal_flush, signal_heartbeat, wait_for_check, wait_for_flush, wait_for_heartbeat,
  wait_until_expired,
}

-- What there is at a poll: the events that have come in, the timers that have fired, whether every
-- sender of events is gone, the readings of the token in the order in which they are made, whether
-- the sleep of `commit_wait` is over, its reading of the clock, and those of the handler.
pub record Moment : Type 0 where
  pub arrived : List PaxosEvent
  pub closed : Bool
  pub heartbeat_fired : Bool
  pub check_fired : Bool
  pub flush_fired : Bool
  pub token : ℕ → Bool
  pub slept : Bool
  pub reading : DateTime
  pub clock : Clock

-- The locals of `start`. `fresh` says that the next poll is the first one of a `select!`.
pub record Loop : Type 0 where
  pub state : PaxosState
  pub ctx : PaxosSharedContext
  pub queue : List PaxosEvent
  pub fresh : Bool

-- `PaxosStateMachine::start`, up to the loop.
unfoldable pub loop_new : Uuid → List Uuid → PaxosDispatcher → Loop
unfolding Follower.new
loop_new member_id peer_ids dispatcher = record {
  state = follower (Follower.new none);
  ctx = context_new member_id peer_ids dispatcher;
  queue = [];
  fresh = true;
}

-- The branches of the `select!`, those of the watchers with their event.
pub data Branch : Type 0 where
  stops : Branch
  fires : PaxosEvent → Branch
  receives : Option PaxosEvent → Branch

-- The last branch: `event_rx.recv()`.
unfoldable pub recv : Bool → List PaxosEvent → Option Branch × List PaxosEvent
recv closed (event ∷ rest) = (some (receives (some event)), rest)
recv closed [] = (if closed then some (receives none) else none, [])

-- The biased `select!`: the first branch that is ready, if any, and what the polls of the branches
-- up to it leave.
unfoldable pub select : Moment → Loop → Option Branch × Loop
unfolding recv
select m s =
    let reads = s.fresh || m.slept in
    let (over, lease) = wait_until_expired (λ i. m.token (i + 1)) reads m.reading s.ctx.lease in
    let leased = record s { ctx = record s.ctx { lease = lease } } in
    let (beat, beaten) = wait_for_heartbeat (m.token 3) leased.ctx in
    let (check, checked) = wait_for_check (m.token 4) beaten in
    let (flush, flushed) = wait_for_flush (m.token 5) checked in
    let (received, rest) = recv m.closed s.queue in
    if m.token 0
    then (some stops, s)
    else if over
    then (some (fires leader_lease_expired), leased)
    else if beat
    then (some (fires heartbeat_timer_fired), record s { ctx = beaten })
    else if check
    then (some (fires accept_timeout_check_fired), record s { ctx = checked })
    else if flush
    then (some (fires write_flush_timer_fired), record s { ctx = flushed })
    else (received, record s { ctx = flushed; queue = rest })

-- `.expect(…)` on the outcome.
unfoldable pub next_state : Loop → Result Outcome → Result (Option Loop)
next_state s (ok o) = ok (some (record s { state = o.state; ctx = o.ctx; fresh = true }))
next_state s (err why) = panic
next_state s panic = panic

unfoldable pub process : Moment → PaxosEvent → Loop → Result (Option Loop)
unfolding next_state
process m event s =
    next_state s
      (StateMachine.process_event m.clock event s.state (record s.ctx { cancelled = m.token 6 }))

-- The body of the branch, `none` if it breaks the loop.
unfoldable pub take_branch : Moment → Option Branch → Loop → Result (Option Loop)
unfolding process
take_branch m none s = ok (some (record s { fresh = false }))
take_branch m (some stops) s = ok none
take_branch m (some (fires event)) s = process m event s
take_branch m (some (receives (some event))) s = process m event s
take_branch m (some (receives none)) s = ok none

-- What has happened before the poll.
unfoldable pub arrive : Moment → Loop → Loop
unfolding signal_heartbeat signal_check signal_flush
arrive m s = record s {
  ctx =
      signal_heartbeat m.heartbeat_fired
        (signal_check m.check_fired (signal_flush m.flush_fired s.ctx));
  queue = s.queue ++ m.arrived;
}

unfoldable pub turn : Moment → Loop → Result (Option Loop)
unfolding arrive take_branch
turn m s = let (branch, s') = select m (arrive m s) in take_branch m branch s'

-- A number of polls: the loop as it goes on, or `none` once it has ended.
unfoldable pub run : List Moment → Loop → Result (Option Loop)
run [] s = ok (some s)
run (m ∷ ms) s = do reached ← turn m s; elim reached [ none ↦ ok none | some s' ↦ run ms s' ]

-- `on_stop` of the state machine as a worker: `todo!()`.
unfoldable pub machine_on_stop : Result (Unit {0})
machine_on_stop = panic
