-- ===== src/Tests/Calls.antt =====
-- Calls between members, and tasks, at concrete inputs.
use mathlib.Core.List.{Perm}
use spanner_paxos.Base.{
  List, Option, [], false, if◌then◌else◌, none, refl, some, true, ℕ, ◌+◌, ◌==◌, ◌∷◌, ◌≡◌,
}
use spanner_paxos.GrpcDispatcher.{
  GrpcPaxosDispatcher, MemberConfig, PaxosClient, dispatch_request, dispatcher_new,
}
use spanner_paxos.GrpcDispatcher.Calls.{client_of}
use spanner_paxos.GrpcDispatcher.Reach.{Reached, dispatch_request-Reached}
use spanner_paxos.GrpcService.{Answers}
use spanner_paxos.Map.{insert}
use spanner_paxos.Messages.{AcceptRequest, PreVoteRequest, VoteRequest}
use spanner_paxos.TaskDispatcher.{
  Move, dispatches, move, moves, pick, polls, sends, task_dispatcher_new,
}
use spanner_paxos.TaskDispatcher.Outputs.{all_outputs, moves-all_outputs}
use spanner_paxos.Tests.{noon}
use spanner_paxos.Tests.Tallies.{tally_codec}

abbrev config : ℕ → MemberConfig
config id = record { member_id = id; server = record { host_address = "host"; port = 7000 + id } }

-- A member that answers pre-votes and accept requests, and nothing else.
abbrev half_silent : Answers
half_silent = record {
  client_write = λ r. none;
  pre_vote = λ r. some (record {
    member_id = 2;
    term = 4;
    vote_granted = true;
    current_leader_id = none;
    member_last_log_term = none;
    member_last_log_slot = none;
  });
  request_vote = λ r. none;
  accept = λ r. some (record {
    member_id = 2;
    term = 4;
    success = true;
    last_written_slot = 2;
    conflict_hint = none;
    echoed_t_send = r.t_send;
  });
}

abbrev prevote : PreVoteRequest
prevote = record { member_id = 1; next_term = 4; last_log_term = 2; last_log_slot = 3 }

abbrev vote : VoteRequest
vote = record { member_id = 1; term = 4; last_log_term = 2; last_log_slot = 3 }

-- A heartbeat that is sent 7 nanoseconds after noon.
abbrev heartbeat : AcceptRequest
heartbeat = record {
  term = 4;
  leader_id = 1;
  prev_log_slot = 3;
  prev_log_term = 2;
  entries = [];
  leader_commit_slot = 1;
  t_send = noon + 7;
  min_next_ts = none;
}

-- Member 2 can be connected to, member 3 cannot.
abbrev connect : MemberConfig → Option PaxosClient
connect c = if c.member_id == 2 then some (client_of tally_codec 5 half_silent) else none

abbrev three : GrpcPaxosDispatcher
three = record {
  paxos_clients = (2, (config 2, none)) ∷ (3, (config 3, none)) ∷ (4, (config 4, none)) ∷ [];
}

new_test : dispatcher_new (config 3 ∷ config 2 ∷ config 4 ∷ []) ≡ three
unfolding dispatcher_new insert
new_test = refl

dispatch_request-Reached_example :
    Reached connect three.paxos_clients (2 ∷ 3 ∷ 4 ∷ []) (dispatch_request connect three)
dispatch_request-Reached_example = dispatch_request-Reached connect three

-- Tasks that double a number.
abbrev double : ℕ → ℕ
double n = n + n

abbrev orders : List (Move ℕ)
orders = dispatches 3 ∷ dispatches 5 ∷ sends 1 ∷ polls false false ∷ polls true false ∷ sends 0 ∷ []

moves_test :
    moves double orders (task_dispatcher_new double)
    ≡ record { running = []; output = 6 ∷ []; handled = 10 ∷ []; ended = true }
unfolding moves task_dispatcher_new move pick
moves_test = refl

moves-all_outputs_example :
    Perm (all_outputs double (moves double orders (task_dispatcher_new double))) (6 ∷ 10 ∷ [])
moves-all_outputs_example = moves-all_outputs double orders
