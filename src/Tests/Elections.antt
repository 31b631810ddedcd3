-- ===== src/Tests/Elections.antt =====
-- A member that is started, wins its first campaign and leads.
use spanner_paxos.TrueTime
use spanner_paxos.EventLoop
use spanner_paxos.Watchers
use spanner_paxos.Map
use spanner_paxos.Wal
use spanner_paxos.StateMachine
use spanner_paxos.Roles
use spanner_paxos.Leader
use spanner_paxos.Candidate
use spanner_paxos.PreCandidate
use spanner_paxos.Follower
use spanner_paxos.Base.{List, Option, [], arith, false, none, ok, refl, some, true, ◌∷◌, ◌≡◌}
use spanner_paxos.Candidate.{Candidate}
use spanner_paxos.Context.{
  context_new, increment_current_term, is_leader_lease_expired, update_leader_lease_expiry_time,
}
use spanner_paxos.EventLoop.{Loop, Moment}
use spanner_paxos.EventLoop.Boards.{run-HasBoards}
use spanner_paxos.EventLoop.Terms.{TermsFit}
use spanner_paxos.Follower.{Follower}
use spanner_paxos.Leader.{Leader}
use spanner_paxos.Leader.Boards.{HasBoards}
use spanner_paxos.Leader.Quorum.{HasBoard}
use spanner_paxos.Map.{Map}
use spanner_paxos.Messages.{
  PaxosEvent, election_countdown_expired, event_term, is_promise, pre_vote_response_received,
  promise, vote_response_received,
}
use spanner_paxos.PreCandidate.{PreCandidate}
use spanner_paxos.Roles.{candidate, follower, leader, pre_candidate}
use spanner_paxos.Tests.{network, noon, ticking, unwrap}
use spanner_paxos.TrueTime.{before}

-- At noon, with some events that have come in.
abbrev moment : List PaxosEvent → Moment
moment events = record {
  arrived = events;
  closed = false;
  heartbeat_fired = false;
  check_fired = false;
  flush_fired = false;
  token = λ i. false;
  slept = false;
  reading = noon;
  clock = ticking;
}

abbrev granted : PaxosEvent
granted = pre_vote_response_received (record {
  member_id = 2;
  term = 0;
  vote_granted = true;
  current_leader_id = none;
  member_last_log_term = none;
  member_last_log_slot = none;
})

abbrev promised : PaxosEvent
promised = vote_response_received (record {
  member_id = 2;
  term = 1;
  outcome = promise (record { last_log_term = 0; last_log_slot = 0; uncommitted_entries = [] });
})

-- The first moment brings the events of the campaign and reports the end of the lease.
abbrev campaign : List Moment
campaign =
    moment (election_countdown_expired ∷ granted ∷ promised ∷ [])
    ∷ moment []
    ∷ moment []
    ∷ moment []
    ∷ []

abbrev started : Loop
started = EventLoop.loop_new 1 (2 ∷ 3 ∷ []) network

abbrev reached : Option Loop
reached = unwrap none (EventLoop.run campaign started)

abbrev last_loop : Loop
last_loop = elim reached [ none ↦ started | some s ↦ s ]

abbrev elected : Leader
elected = elim last_loop.state [
  | follower f ↦ Leader.new []
  | pre_candidate p ↦ Leader.new []
  | candidate c ↦ Leader.new []
  | leader l ↦ l
]

-- The run, and the leader that it ends with.
runs : (EventLoop.run campaign started ≡ ok (some last_loop)) × (last_loop.state ≡ leader elected)
unfolding EventLoop.run EventLoop.turn EventLoop.select Watchers.wait_until_expired
    EventLoop.loop_new context_new StateMachine.process_event StateMachine.handle_event
    StateMachine.adopt_term event_term Roles.FollowerEvents.handle_event Watchers.wait_for_heartbeat
    Watchers.wait_for_check Watchers.wait_for_flush is_leader_lease_expired
    Roles.PreCandidateEvents.handle_event PreCandidate.handle_pre_vote_response
    PreCandidate.start_campaign Candidate.handle_vote_response Candidate.take_lead Candidate.lead
    Candidate.record_response Roles.CandidateEvents.handle_event Leader.process_uncommitted_logs
    Leader.dispatch_accept_request PreCandidate.has_pre_vote_quorum Follower.is_quorum
    PreCandidate.update_pre_vote_board Map.insert Follower.for_peers Follower.count_votes
    Candidate.dispatch_vote increment_current_term Candidate.record_promise Candidate.seed_score
    Map.lookup Candidate.new Candidate.has_vote_quorum is_promise
    Candidate.compute_leader_lease_expiry before Leader.dispatch_to_members
    Leader.dispatch_accept_request_to_follower Leader.anchor_slot Leader.anchor_term
    Leader.note_sent Leader.advance_log Leader.new Candidate.flush_uncommitted_logs
    Candidate.flush_logs Wal.get_entries_from Candidate.merge_logs update_leader_lease_expiry_time
    Leader.follower_state_new Leader.with_next_slot TrueTime.add_time
runs = (refl, refl)

-- No term is above 1.
fits : TermsFit campaign started
unfolding EventLoop.loop_new context_new event_term
fits = record {
  bound = 1;
  own = omega arith;
  queued = tt;
  arriving = (tt, (omega arith, (omega arith, tt)));
  room = omega arith;
}

run-HasBoards_example : HasBoards (2 ∷ 3 ∷ []) elected × HasBoard elected last_loop.ctx
run-HasBoards_example =
    run-HasBoards 1 (2 ∷ 3 ∷ []) network campaign last_loop elected
      ((λ e. omega arith, tt), (tt, tt)) (omega arith) (omega arith) fits runs.0 runs.1
