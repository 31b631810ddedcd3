-- ===== src/StateMachine/Panics.antt =====
-- spx_core/src/state_machine/state.rs: events that cannot panic.
use spanner_paxos.Follower
use spanner_paxos.PreCandidate
use spanner_paxos.Candidate
use spanner_paxos.Roles
use spanner_paxos.StateMachine
use spanner_paxos.Base.{
  Bool, Bool-cases, List, Option, Result, arith, err, false, if◌then◌else◌, inl, inr, ltb,
  machine_cancelled, none, ok, panic, refl, some, true, ℕ, ◌+◌, ◌>>=◌, ◌≢◌, ◌≤◌,
}
use spanner_paxos.Candidate.{Candidate}
use spanner_paxos.Context.{PaxosSharedContext}
use spanner_paxos.Context.Progress.{HasLogs}
use spanner_paxos.CountDownClock.{start_random}
use spanner_paxos.Follower.{Follower}
use spanner_paxos.Follower.Anchors.{HasTime, handle_accept_request-Returns}
use spanner_paxos.Follower.Votes.{is_promise-handle_vote_request}
use spanner_paxos.Messages.{
  AcceptRequest, Action, PaxosCommand, PaxosEvent, accept_request_received, answered_accept,
  answered_vote, client_write_request_received, election_countdown_expired, event_term,
  leader_lease_expired, pre_vote_request_received, pre_vote_response_received, send,
  vote_request_received,
}
use spanner_paxos.PreCandidate.{PreCandidate}
use spanner_paxos.Roles.{Outcome, PaxosState, candidate, follower, leader, pre_candidate, reply}
use spanner_paxos.StateMachine.Progress.{adopt_term-Advances}
use spanner_paxos.TrueTime.{Clock, DateTime, max_utc, uncertainty}

-- A member that has not asked for votes.
abbrev pub IsPassive : PaxosState → Type 0
IsPassive (follower f) = Unit {0}
IsPassive (pre_candidate p) = Unit {0}
IsPassive (candidate c) = ⊥
IsPassive (leader l) = ⊥

-- A millisecond before the promise of an accept request is a time that chrono has.
abbrev pub PromiseFits : PaxosEvent → Type 0
PromiseFits (accept_request_received cmd) = HasTime cmd.request.min_next_ts
PromiseFits _ = Unit {0}

-- So is the end of a lease that is extended at the reading.
abbrev pub LeaseFits : DateTime → PaxosSharedContext → Type 0
LeaseFits t ctx = t + uncertainty + ctx.lease_length ≤ max_utc

send-≢-panic :
    {T : Type 0} (cmd : PaxosCommand T) (answered : ℕ → Action) → send cmd answered ≢ panic
unfolding send
send-≢-panic cmd answered e = ground arith

reply-≢-panic :
    (sent : Result (List Action)) (state : PaxosState) (ctx : PaxosSharedContext)
    → sent ≢ panic
    → reply sent state ctx ≢ panic
reply-≢-panic (ok actions) state ctx h e = cc
reply-≢-panic (err why) state ctx h e = cc
reply-≢-panic panic state ctx h e = h refl

module _ (clock : Clock) (ctx : PaxosSharedContext) (h : HasLogs ctx)
    (fits : LeaseFits (clock 1) ctx) where
  accepted-≢-panic :
      (f : Follower) (cmd : PaxosCommand AcceptRequest) (state : PaxosState)
      → HasTime cmd.request.min_next_ts
      → (do
        (response, ctx') ← Follower.handle_accept_request clock f cmd.request ctx
        reply (send cmd (λ tx. answered_accept tx response)) state ctx')
        ≢ panic
  accepted-≢-panic f cmd state k =
      let ((response, ctx'), accepted) =
        handle_accept_request-Returns clock f cmd.request ctx h.wal k fits in
      rw accepted (reply-≢-panic _ state ctx' (send-≢-panic cmd _))

  join_leader-≢-panic :
      (self : PaxosState) (cmd : PaxosCommand AcceptRequest)
      → HasTime cmd.request.min_next_ts
      → Roles.join_leader clock self cmd ctx ≢ panic
  unfolding Roles.join_leader
  join_leader-≢-panic self cmd k = elim (Bool-cases (ltb cmd.request.term ctx.term)) [
    | inl stale ↦ rw stale (reply-≢-panic _ self ctx (send-≢-panic cmd _))
    | inr current ↦ rw current (accepted-≢-panic _ cmd _ k)
  ]

  follower-≢-panic :
      (f : Follower) (event : PaxosEvent)
      → PromiseFits event
      → Roles.FollowerEvents.handle_event clock f event ctx ≢ panic
  unfolding Roles.FollowerEvents.handle_event Roles.FollowerEvents.start_election_countdown
      Roles.FollowerEvents.handle_election_countdown_expired Follower.handle_client_write
      start_random PreCandidate.dispatch_pre_vote send
  follower-≢-panic f (accept_request_received cmd) k = accepted-≢-panic f cmd (follower f) k
  follower-≢-panic f leader_lease_expired k = λ e. ground arith
  follower-≢-panic f election_countdown_expired k = λ e. ground arith
  follower-≢-panic f (client_write_request_received cmd) k = λ e. ground arith
  follower-≢-panic f (pre_vote_request_received cmd) k = λ e. ground arith
  follower-≢-panic f (vote_request_received cmd) k =
      let ((response, f', ctx'), answered, may) =
        is_promise-handle_vote_request clock f cmd.request ctx fits in
      rw answered
        (reply-≢-panic _ (follower f') ctx' (send-≢-panic cmd (λ tx. answered_vote tx response)))
  follower-≢-panic f _ k = λ e. ground arith

  pre_candidate-≢-panic :
      (p : PreCandidate) (event : PaxosEvent)
      → PromiseFits event
      → Roles.PreCandidateEvents.handle_event clock p event ctx ≢ panic
  unfolding Roles.PreCandidateEvents.handle_event PreCandidate.handle_pre_vote_response
      PreCandidate.start_campaign Candidate.dispatch_vote send
  pre_candidate-≢-panic p (accept_request_received cmd) k =
      join_leader-≢-panic (pre_candidate p) cmd k
  pre_candidate-≢-panic p (pre_vote_request_received cmd) k = λ e. ground arith
  pre_candidate-≢-panic p (vote_request_received cmd) k = λ e. ground arith
  pre_candidate-≢-panic p (pre_vote_response_received response) k = λ e. ground arith
  pre_candidate-≢-panic p _ k = λ e. ground arith

  handle_event-≢-panic :
      (state : PaxosState) (event : PaxosEvent)
      → PromiseFits event
      → IsPassive state
      → StateMachine.handle_event clock state event ctx ≢ panic
  unfolding StateMachine.handle_event
  handle_event-≢-panic (follower f) event p k = follower-≢-panic f event p
  handle_event-≢-panic (pre_candidate q) event p k = pre_candidate-≢-panic q event p
  handle_event-≢-panic (candidate c) event p k = absurd k
  handle_event-≢-panic (leader l) event p k = absurd k

adopt_term-IsPassive :
    (term : Option ℕ) (state : PaxosState) (ctx : PaxosSharedContext)
    → IsPassive state
    → IsPassive (StateMachine.adopt_term term state ctx).0
unfolding StateMachine.adopt_term
adopt_term-IsPassive none state ctx h = h
adopt_term-IsPassive (some term) state ctx h = elim (Bool-cases (ltb ctx.term term)) [
  | inl higher ↦ rw higher tt
  | inr lower ↦ rw lower h
]

cancelled-≢-panic :
    (cancelled : Bool) (m : Result Outcome)
    → m ≢ panic
    → (if cancelled then err machine_cancelled else m) ≢ panic
cancelled-≢-panic true m h e = cc
cancelled-≢-panic false m h e = h e

-- A follower and a pre-candidate whose log is well formed cannot be made to panic, by any event and
-- at any clock reading: processing it ends with a state or with an `Err`, if a millisecond before the
-- promise of an accept request, and the end of a lease that is extended then, are times that chrono
-- has.
pub process_event-≢-panic :
    (clock : Clock) (event : PaxosEvent) (state : PaxosState) (ctx : PaxosSharedContext)
    → IsPassive state
    → HasLogs ctx
    → PromiseFits event
    → LeaseFits (clock 1) ctx
    → StateMachine.process_event clock event state ctx ≢ panic
unfolding StateMachine.process_event
process_event-≢-panic clock event state ctx k h p fits =
    let term = event_term event in
    let (state', ctx') = StateMachine.adopt_term term state ctx in
    let adopted = adopt_term-Advances term state ctx in
    cancelled-≢-panic ctx.cancelled (StateMachine.handle_event clock state' event ctx') (
      handle_event-≢-panic clock ctx' (adopted.logs h) (rw adopted.lease_length fits) state' event p
        (adopt_term-IsPassive term state ctx k))
