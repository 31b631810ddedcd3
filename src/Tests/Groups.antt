-- ===== src/Tests/Groups.antt =====
-- The state machine and a group at concrete inputs.
use spanner_paxos.Context
use spanner_paxos.Follower
use spanner_paxos.Roles
use spanner_paxos.StateMachine
use spanner_paxos.Base.{All, [], arith, false, none, ok, panic, refl, true, ◌++◌, ◌≡◌, ◌≢◌}
use spanner_paxos.Cluster.{Cluster, next, processes, sent_votes, set_node, start, stay}
use spanner_paxos.Cluster.Leadership.{start-never-leads}
use spanner_paxos.Context.{PaxosSharedContext}
use spanner_paxos.Context.Progress.{Advances, HasLogs}
use spanner_paxos.CountDownClock.{clock_new}
use spanner_paxos.Follower.{Follower}
use spanner_paxos.Leader.{Leader}
use spanner_paxos.Messages.{
  PaxosCommand, PaxosEvent, Uuid, VoteRequest, event_term, is_promise, vote_request_received,
}
use spanner_paxos.Roles.{Outcome, PaxosState, follower, leader}
use spanner_paxos.StateMachine.Elections.{RefusesVote, process_event-RefusesVote}
use spanner_paxos.StateMachine.Panics.{process_event-≢-panic}
use spanner_paxos.StateMachine.Progress.{process_event-Advances}
use spanner_paxos.Tests.{member_with, ticking, unwrap}
use spanner_paxos.TrueTime.{unix_epoch}

-- A member that starts, with the lease that it starts with.
abbrev fresh : PaxosSharedContext
fresh = member_with 1 0 unix_epoch [] 0 0

abbrev idle : PaxosState
idle = follower (record {
  current_leader_id = none;
  vote_record = none;
  election_cd_clock = record {
    reset_notify = false;
    token_cancelled = false;
    is_running = false;
    task = none;
  };
})

abbrev asked : PaxosCommand VoteRequest
asked = record {
  request = record { member_id = 2; term = 1; last_log_term = 0; last_log_slot = 0 };
  response_tx = 21;
  receiver_alive = true;
}

abbrev nothing : Outcome
nothing = record { state = idle; ctx = fresh; actions = [] }

-- What processing an event comes to, at noon.
abbrev after_event : PaxosEvent → PaxosState → PaxosSharedContext → Outcome
after_event event state ctx = unwrap nothing (StateMachine.process_event ticking event state ctx)

abbrev refusal : Outcome
refusal = after_event (vote_request_received asked) idle fresh

processes_vote :
    StateMachine.process_event ticking (vote_request_received asked) idle fresh ≡ ok refusal
unfolding StateMachine.process_event StateMachine.handle_event StateMachine.adopt_term event_term
    Roles.FollowerEvents.handle_event Follower.handle_vote_request Follower.binding_vote
    Follower.weigh_vote_request Context.is_leader_lease_expired
processes_vote = refl

process_event-RefusesVote_example : RefusesVote 21 refusal
process_event-RefusesVote_example =
    process_event-RefusesVote ticking idle asked fresh refusal processes_vote

process_event-Advances_example : Advances fresh refusal.ctx
unfolding StateMachine.adopt_term event_term
process_event-Advances_example =
    process_event-Advances ticking (vote_request_received asked) idle fresh refusal (omega arith) tt
      processes_vote

fresh-HasLogs : HasLogs fresh
fresh-HasLogs = record {
  wal = record { rises = tt; keyed = tt };
  uncommitted = record { rises = tt; keyed = tt };
}

process_event-≢-panic_example :
    StateMachine.process_event ticking (vote_request_received asked) idle fresh ≢ panic
process_event-≢-panic_example =
    process_event-≢-panic ticking (vote_request_received asked) idle fresh tt fresh-HasLogs tt
      (omega arith)

-- Member 1 is asked for its vote in a group that has just started.
abbrev group : Cluster
group = start (λ id. fresh)

abbrev asked_group : Cluster
asked_group = record {
  nodes = set_node 1 (record { state = refusal.state; ctx = refusal.ctx }) group.nodes;
  vote_responses = sent_votes refusal.actions ++ group.vote_responses;
}

start-never-leads_example :
    ((id : Uuid) (l : Leader) → (asked_group.nodes id).state ≢ leader l)
    × All (λ r. is_promise r ≡ false) asked_group.vote_responses
unfolding start clock_new
start-never-leads_example =
    start-never-leads (λ id. fresh)
      (next stay (processes 1 ticking (vote_request_received asked) refusal tt processes_vote refl))
