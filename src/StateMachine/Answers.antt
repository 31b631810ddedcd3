-- ===== src/StateMachine/Answers.antt =====
-- spx_core/src/state_machine/state.rs: the vote responses that an event sends out.
use spanner_paxos.Follower
use spanner_paxos.PreCandidate
use spanner_paxos.Candidate
use spanner_paxos.Roles
use spanner_paxos.StateMachine
use spanner_paxos.Base.{>>=-eq-ok, All, arith, false, inl, inr, ok, refl, ℕ, ◌≡◌, ◌⊎◌}
use spanner_paxos.Candidate.{Candidate}
use spanner_paxos.Context.{PaxosSharedContext}
use spanner_paxos.Follower.{Follower, count_votes}
use spanner_paxos.Messages.{
  AcceptRequest, Action, PaxosCommand, PaxosEvent, VoteRequest, accept_request_received,
  answered_vote, event_term, is_promise, send, send_ignoring, vote_request_received,
  vote_response_received,
}
use spanner_paxos.PreCandidate.{PreCandidate}
use spanner_paxos.Roles.{Outcome, PaxosState, candidate, follower, leader, pre_candidate}
use spanner_paxos.StateMachine.Elections.{RefusesVote, process_event-RefusesVote}
use spanner_paxos.StateMachine.Leaders.{
  BringsNoPromise, IsLeaderless, adopt_term-IsLeaderless, handle_vote_response-NotWon,
}
use spanner_paxos.StateMachine.Steps.{process_event-handle_event}
use spanner_paxos.TrueTime.{Clock}

-- The action is no promise to a candidate.
abbrev pub IsNoPromise : Action → Type 0
IsNoPromise (answered_vote tx r) = is_promise r ≡ false
IsNoPromise _ = Unit {0}

module _ (clock : Clock) (ctx : PaxosSharedContext) (o : Outcome) where
  join_leader-IsNoPromise :
      (self : PaxosState) (cmd : PaxosCommand AcceptRequest)
      → Roles.join_leader clock self cmd ctx ≡ ok o
      → All IsNoPromise o.actions
  unfolding Roles.join_leader send
  join_leader-IsNoPromise self cmd e = ground arith

  follower-IsNoPromise :
      (f : Follower) (event : PaxosEvent)
      → ((cmd : PaxosCommand VoteRequest) → event ≡ vote_request_received cmd → ⊥)
      → Roles.FollowerEvents.handle_event clock f event ctx ≡ ok o
      → All IsNoPromise o.actions
  unfolding Roles.FollowerEvents.handle_event PreCandidate.dispatch_pre_vote
      Follower.handle_client_write send_ignoring
  follower-IsNoPromise f (vote_request_received cmd) h e = absurd (h cmd refl)
  follower-IsNoPromise f _ h e = ground arith

  pre_candidate-IsNoPromise :
      (p : PreCandidate) (event : PaxosEvent)
      → ((cmd : PaxosCommand VoteRequest) → event ≡ vote_request_received cmd → ⊥)
      → Roles.PreCandidateEvents.handle_event clock p event ctx ≡ ok o
      → All IsNoPromise o.actions
  unfolding Roles.PreCandidateEvents.handle_event PreCandidate.handle_pre_vote_response
      PreCandidate.start_campaign Candidate.dispatch_vote
  pre_candidate-IsNoPromise p (vote_request_received cmd) h e = absurd (h cmd refl)
  pre_candidate-IsNoPromise p (accept_request_received cmd) h e =
      join_leader-IsNoPromise (pre_candidate p) cmd e
  pre_candidate-IsNoPromise p _ h e = ground arith

  candidate-IsNoPromise :
      (c : Candidate) (event : PaxosEvent)
      → count_votes is_promise c.vote_board ≡ 0
      → BringsNoPromise event
      → Roles.CandidateEvents.handle_event clock c event ctx ≡ ok o
      → All IsNoPromise o.actions
  unfolding Roles.CandidateEvents.handle_event Candidate.handle_vote_request is_promise
  candidate-IsNoPromise c (accept_request_received cmd) h b e =
      join_leader-IsNoPromise (candidate c) cmd e
  candidate-IsNoPromise c (vote_response_received r) h b e =
      let ((campaign, ctx', actions), decided, rest) =
        >>=-eq-ok (Candidate.handle_vote_response clock r c ctx) _ e in
      let silent = (handle_vote_response-NotWon clock r c ctx b h decided).1 in
      ground (arith, silent)
  candidate-IsNoPromise c _ h b e = ground arith

not_vote_request :
    (event : PaxosEvent)
    → ((cmd : PaxosCommand VoteRequest) × (event ≡ vote_request_received cmd))
      ⊎ ((cmd : PaxosCommand VoteRequest) → event ≡ vote_request_received cmd → ⊥)
not_vote_request (vote_request_received cmd) = inl (cmd, refl)
not_vote_request _ = inr (λ cmd e. cc)

handle_event-IsNoPromise :
    (clock : Clock) (ctx : PaxosSharedContext) (o : Outcome) (state : PaxosState)
    (event : PaxosEvent)
    → IsLeaderless state
    → BringsNoPromise event
    → ((cmd : PaxosCommand VoteRequest) → event ≡ vote_request_received cmd → ⊥)
    → StateMachine.handle_event clock state event ctx ≡ ok o
    → All IsNoPromise o.actions
unfolding StateMachine.handle_event
handle_event-IsNoPromise clock ctx o (follower f) event h b q e =
    follower-IsNoPromise clock ctx o f event q e
handle_event-IsNoPromise clock ctx o (pre_candidate p) event h b q e =
    pre_candidate-IsNoPromise clock ctx o p event q e
handle_event-IsNoPromise clock ctx o (candidate c) event h b q e =
    candidate-IsNoPromise clock ctx o c event h b e
handle_event-IsNoPromise clock ctx o (leader l) event h b q e = absurd h

RefusesVote-IsNoPromise : (tx : ℕ) (o : Outcome) → RefusesVote tx o → All IsNoPromise o.actions
RefusesVote-IsNoPromise tx o (response, sent, refused) = rw sent (refused, tt)

-- A member that does not lead and holds no promise answers no vote request with a promise, in any
-- event that brings none.
pub process_event-IsNoPromise :
    (clock : Clock) (event : PaxosEvent) (state : PaxosState) (ctx : PaxosSharedContext)
    (o : Outcome)
    → IsLeaderless state
    → BringsNoPromise event
    → StateMachine.process_event clock event state ctx ≡ ok o
    → All IsNoPromise o.actions
process_event-IsNoPromise clock event state ctx o h b e = elim (not_vote_request event) [
  | inl (cmd, asked) ↦
      RefusesVote-IsNoPromise cmd.response_tx o
        (process_event-RefusesVote clock state cmd ctx o (rw asked at e))
  | inr other ↦
      let (state', ctx') = StateMachine.adopt_term (event_term event) state ctx in
      handle_event-IsNoPromise clock ctx' o state' event
        (adopt_term-IsLeaderless (event_term event) state ctx h) b other
        (process_event-handle_event clock event state ctx o e)
]
