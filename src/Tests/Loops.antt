-- ===== src/Tests/Loops.antt =====
-- The loop of a member at concrete moments.
use spanner_paxos.EventLoop
use spanner_paxos.StateMachine
use spanner_paxos.Roles
use spanner_paxos.Base.{Bool, [], arith, false, ltb, none, ok, panic, refl, some, true, ◌∷◌, ◌≡◌}
use spanner_paxos.EventLoop.{Loop, Moment, arrive, receives, select, turn}
use spanner_paxos.EventLoop.Panics.{turn-abandoned, turn-cancelled}
use spanner_paxos.EventLoop.Runs.{Keeps, run-Keeps}
use spanner_paxos.EventLoop.Terms.{TermsFit}
use spanner_paxos.EventLoop.Trace.{Trace}
use spanner_paxos.Messages.{PaxosEvent, event_term, pre_vote_request_received}
use spanner_paxos.Roles.{follower}
use spanner_paxos.Tests.{member_with, noon, ticking}
use spanner_paxos.TrueTime.{unix_epoch}
use spanner_paxos.Watchers.{wait_for_check, wait_for_flush, wait_for_heartbeat, wait_until_expired}

-- A member that has just been started, and one that leads with the lease that it starts with.
abbrev begun : Loop
begun = record {
  state = follower (record {
    current_leader_id = none;
    vote_record = none;
    election_cd_clock = record {
      reset_notify = false;
      token_cancelled = false;
      is_running = false;
      task = none;
    };
  });
  ctx = member_with 1 0 unix_epoch [] 0 0;
  queue = [];
  fresh = true;
}

abbrev asking : Bool → PaxosEvent
asking alive = pre_vote_request_received (record {
  request = record { member_id = 2; next_term = 1; last_log_term = 0; last_log_slot = 0 };
  response_tx = 21;
  receiver_alive = alive;
})

-- At noon, with an event that has come in.
abbrev noon_with : PaxosEvent → Moment
noon_with event = record {
  arrived = event ∷ [];
  closed = false;
  heartbeat_fired = false;
  check_fired = false;
  flush_fired = false;
  token = λ i. false;
  slept = false;
  reading = noon;
  clock = ticking;
}

-- The loop that reaches a second moment, with the end of the lease reported and the event waiting.
abbrev waiting : Loop
waiting = record begun {
  ctx = record (member_with 1 0 unix_epoch [] 0 0) {
    lease = record { expiry = none; notify = false };
  };
  queue = asking true ∷ [];
}

-- It answers the request that waits, and keeps the one that comes in.
answers_one : EventLoop.run (noon_with (asking true) ∷ []) waiting ≡ ok (some waiting)
unfolding EventLoop.run turn EventLoop.select wait_until_expired wait_for_heartbeat wait_for_check
    wait_for_flush StateMachine.process_event StateMachine.handle_event StateMachine.adopt_term
    event_term Roles.FollowerEvents.handle_event
answers_one = refl

fits : TermsFit (noon_with (asking true) ∷ []) waiting
unfolding event_term
fits = record {
  bound = 0;
  own = omega arith;
  queued = (tt, tt);
  arriving = (tt, tt);
  room = omega arith;
}

run-Keeps_example : Keeps waiting waiting
run-Keeps_example = run-Keeps (noon_with (asking true) ∷ []) waiting waiting fits tt answers_one

-- The sender of the request that comes in has gone.
abbrev empty : Loop
empty = record waiting { queue = [] }

takes_it :
    select (noon_with (asking false)) (arrive (noon_with (asking false)) empty)
    ≡ (some (receives (some (asking false))), empty)
unfolding select arrive wait_until_expired wait_for_heartbeat wait_for_check wait_for_flush
takes_it = refl

turn-abandoned_example : turn (noon_with (asking false)) empty ≡ panic
turn-abandoned_example =
    turn-abandoned (noon_with (asking false)) empty empty (asking false) refl takes_it

-- The token is cancelled right after the loop has looked at it.
abbrev cut : Moment
cut = record (noon_with (asking true)) { token = λ i. ltb 0 i }

turn-cancelled_example : turn cut empty ≡ panic
turn-cancelled_example = turn-cancelled cut empty refl refl
