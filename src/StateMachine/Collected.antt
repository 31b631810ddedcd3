-- ===== src/StateMachine/Collected.antt =====
-- spx_core/src/state_machine/state.rs: the entries that a candidate collects stay well formed.
use spanner_paxos.PreCandidate
use spanner_paxos.Candidate
use spanner_paxos.Leader
use spanner_paxos.Roles
use spanner_paxos.StateMachine
use spanner_paxos.Base.{>>=-eq-ok, Option, arith, none, ok, some, ◌≡◌}
use spanner_paxos.Candidate.{Candidate}
use spanner_paxos.Candidate.Pending.{HasPending}
use spanner_paxos.Candidate.Progress.{KeepsPending, handle_vote_response-KeepsPending}
use spanner_paxos.Context.{PaxosSharedContext}
use spanner_paxos.Follower.{Campaign, Follower, lost, undecided, won}
use spanner_paxos.Leader.{Leader}
use spanner_paxos.Messages.{
  AcceptRequest, PaxosCommand, PaxosEvent, accept_request_received, event_term,
  leader_lease_expired, pre_vote_response_received, send, vote_response_received,
}
use spanner_paxos.PreCandidate.{PreCandidate}
use spanner_paxos.PreCandidate.Progress.{MakesFresh, handle_pre_vote_response-MakesFresh}
use spanner_paxos.Roles.{Outcome, PaxosState, candidate, follower, leader, pre_candidate}
use spanner_paxos.StateMachine.Climbs.{IsWellState}
use spanner_paxos.StateMachine.Progress.{adopt_term-IsWellState}
use spanner_paxos.StateMachine.Steps.{process_event-handle_event}
use spanner_paxos.TrueTime.{Clock}

follower_or-IsWellState :
    (l : Leader) (stepped : Option Follower)
    → IsWellState (Roles.LeaderEvents.follower_or l stepped)
unfolding Roles.LeaderEvents.follower_or
follower_or-IsWellState l none = tt
follower_or-IsWellState l (some f) = tt

module _ (clock : Clock) (ctx : PaxosSharedContext) (o : Outcome) where
  join_leader-IsWellState :
      (self : PaxosState) (cmd : PaxosCommand AcceptRequest)
      → IsWellState self
      → Roles.join_leader clock self cmd ctx ≡ ok o
      → IsWellState o.state
  unfolding Roles.join_leader send
  join_leader-IsWellState self cmd h e = ground arith

  follower-IsWellState :
      (f : Follower) (event : PaxosEvent)
      → Roles.FollowerEvents.handle_event clock f event ctx ≡ ok o
      → IsWellState o.state
  unfolding Roles.FollowerEvents.handle_event
  follower-IsWellState f leader_lease_expired e = ground arith
  follower-IsWellState f _ e = ground arith

  pre_candidate-IsWellState :
      (p : PreCandidate) (event : PaxosEvent)
      → Roles.PreCandidateEvents.handle_event clock p event ctx ≡ ok o
      → IsWellState o.state
  unfolding Roles.PreCandidateEvents.handle_event Roles.settle
  pre_candidate-IsWellState p (accept_request_received cmd) e =
      join_leader-IsWellState (pre_candidate p) cmd tt e
  pre_candidate-IsWellState p (pre_vote_response_received r) e =
      let ((campaign, ctx', actions), decided, rest) =
        >>=-eq-ok (PreCandidate.handle_pre_vote_response (clock 0) r p ctx) _ e in
      let q : o.state ≡ Roles.settle pre_candidate candidate campaign = ground (arith, rest) in
      rw q (
        go campaign
          (handle_pre_vote_response-MakesFresh (clock 0) r p ctx (campaign, ctx', actions) decided))
    where
      go :
          (campaign : Campaign PreCandidate Candidate)
          → MakesFresh campaign
          → IsWellState (Roles.settle pre_candidate candidate campaign)
      go (undecided p) h = tt
      go (won c) h = rw h (record { rises = tt; keyed = tt })
      go (lost f) h = tt
  pre_candidate-IsWellState p _ e = ground arith

  candidate-IsWellState :
      (c : Candidate) (event : PaxosEvent)
      → HasPending c
      → Roles.CandidateEvents.handle_event clock c event ctx ≡ ok o
      → IsWellState o.state
  unfolding Roles.CandidateEvents.handle_event Roles.settle
  candidate-IsWellState c (accept_request_received cmd) h e =
      join_leader-IsWellState (candidate c) cmd h e
  candidate-IsWellState c (vote_response_received r) h e =
      let ((campaign, ctx', actions), decided, rest) =
        >>=-eq-ok (Candidate.handle_vote_response clock r c ctx) _ e in
      let q : o.state ≡ Roles.settle candidate leader campaign = ground (arith, rest) in
      rw q (
        go campaign
          (handle_vote_response-KeepsPending clock r c ctx (campaign, ctx', actions) h decided))
    where
      go :
          (campaign : Campaign Candidate Leader)
          → KeepsPending campaign
          → IsWellState (Roles.settle candidate leader campaign)
      go (undecided c) k = k
      go (won l) k = tt
      go (lost f) k = tt
  candidate-IsWellState c _ h e = ground arith

  leader-IsWellState :
      (l : Leader) (event : PaxosEvent)
      → Roles.LeaderEvents.handle_event clock l event ctx ≡ ok o
      → IsWellState o.state
  unfolding Roles.LeaderEvents.handle_event Roles.LeaderEvents.answer_vote_request
      Roles.LeaderEvents.answer_accept_request Roles.LeaderEvents.answer_pre_vote_request
  leader-IsWellState l (pre_vote_response_received r) e =
      let stepped = Leader.handle_pre_vote_response (clock 0) r ctx in
      let q : o.state ≡ Roles.LeaderEvents.follower_or l stepped = ground (arith, e) in
      rw q (follower_or-IsWellState l stepped)
  leader-IsWellState l (vote_response_received r) e =
      let stepped = Leader.handle_vote_response (clock 0) r ctx in
      let q : o.state ≡ Roles.LeaderEvents.follower_or l stepped = ground (arith, e) in
      rw q (follower_or-IsWellState l stepped)
  leader-IsWellState l _ e = ground arith

  handle_event-IsWellState :
      (state : PaxosState) (event : PaxosEvent)
      → IsWellState state
      → StateMachine.handle_event clock state event ctx ≡ ok o
      → IsWellState o.state
  unfolding StateMachine.handle_event
  handle_event-IsWellState (follower f) event h e = follower-IsWellState f event e
  handle_event-IsWellState (pre_candidate p) event h e = pre_candidate-IsWellState p event e
  handle_event-IsWellState (candidate c) event h e = candidate-IsWellState c event h e
  handle_event-IsWellState (leader l) event h e = leader-IsWellState l event e

-- Whatever the role and the event, the entries that a candidate has collected are a map from slots
-- to the entries of those slots after a processed event, if they were before.
pub process_event-IsWellState :
    (clock : Clock) (event : PaxosEvent) (state : PaxosState) (ctx : PaxosSharedContext)
    (o : Outcome)
    → IsWellState state
    → StateMachine.process_event clock event state ctx ≡ ok o
    → IsWellState o.state
process_event-IsWellState clock event state ctx o h e =
    let (state', ctx') = StateMachine.adopt_term (event_term event) state ctx in
    handle_event-IsWellState clock ctx' o state' event
      (adopt_term-IsWellState (event_term event) state ctx h)
      (process_event-handle_event clock event state ctx o e)
