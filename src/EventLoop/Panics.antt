-- ===== src/EventLoop/Panics.antt =====
-- spx_core/src/state_machine/mod.rs: an error of a role ends the member in a panic.
use spanner_paxos.Roles
use spanner_paxos.Follower
use spanner_paxos.StateMachine
use spanner_paxos.Base.{
  Bool, Bool-cases, Failure, Result, arith, err, false, if◌then◌else◌, inl, inr, machine_cancelled,
  none, ok, panic, receiver_dropped, refl, some, suc, true, ℕ, ◌+◌, ◌>>=◌, ◌≡◌, ◌⊎◌,
}
use spanner_paxos.Context.{LeaseState, PaxosSharedContext, is_leader_lease_expired}
use spanner_paxos.EventLoop.{Loop, Moment, arrive, next_state, process, receives, select, turn}
use spanner_paxos.Follower.{Follower}
use spanner_paxos.Follower.Votes.{granted, handle_vote_request-Voted, overflows, refused}
use spanner_paxos.Messages.{
  PaxosCommand, PaxosEvent, PreVoteRequest, VoteRequest, answered_vote, event_term,
  leader_lease_expired, pre_vote_request_received, send, vote_request_received,
}
use spanner_paxos.Roles.{Outcome, PaxosState, candidate, follower, leader, pre_candidate, reply}
use spanner_paxos.TrueTime.{Clock, DateTime}
use spanner_paxos.Watchers.{wait_until_expired}

-- A request that asks for a vote or a pre-vote, and whose sender no longer waits for the answer.
abbrev pub IsAbandoned : PaxosEvent → Type 0
IsAbandoned (pre_vote_request_received cmd) = cmd.receiver_alive ≡ false
IsAbandoned (vote_request_received cmd) = cmd.receiver_alive ≡ false
IsAbandoned _ = ⊥

-- The outcome is an error, or a panic.
abbrev Fails : Result Outcome → Type 0
Fails result = ((why : Failure) × (result ≡ err why)) ⊎ (result ≡ panic)

module _ (clock : Clock) (ctx : PaxosSharedContext) where
  pre_vote-Fails :
      (state : PaxosState) (cmd : PaxosCommand PreVoteRequest)
      → cmd.receiver_alive ≡ false
      → Fails (StateMachine.handle_event clock state (pre_vote_request_received cmd) ctx)
  unfolding StateMachine.handle_event Roles.FollowerEvents.handle_event
      Roles.PreCandidateEvents.handle_event Roles.CandidateEvents.handle_event
      Roles.LeaderEvents.handle_event
  pre_vote-Fails (follower f) cmd gone = inl (receiver_dropped, rw gone refl)
  pre_vote-Fails (pre_candidate p) cmd gone = inl (receiver_dropped, rw gone refl)
  pre_vote-Fails (candidate c) cmd gone = inl (receiver_dropped, rw gone refl)
  pre_vote-Fails (leader l) cmd gone = inl (receiver_dropped, ground arith)

  -- A follower weighs the request, which may panic, and then cannot answer.
  unanswered-Fails :
      (readings : Clock) (f : Follower) (cmd : PaxosCommand VoteRequest)
      → cmd.receiver_alive ≡ false
      → Fails (do
        (response, f', ctx') ← Follower.handle_vote_request readings f cmd.request ctx
        reply (send cmd (λ tx. answered_vote tx response)) (follower f') ctx')
  unfolding send
  unanswered-Fails readings f cmd gone =
      elim (handle_vote_request-Voted readings f cmd.request ctx) [
        | granted may within ctx' e same holds ↦ inl (receiver_dropped, rw (e, gone) refl)
        | refused may_not response e nay ↦ inl (receiver_dropped, rw (e, gone) refl)
        | overflows may over e ↦ inr (rw e refl)
      ]

  vote-Fails :
      (state : PaxosState) (cmd : PaxosCommand VoteRequest)
      → cmd.receiver_alive ≡ false
      → Fails (StateMachine.handle_event clock state (vote_request_received cmd) ctx)
  unfolding StateMachine.handle_event Roles.FollowerEvents.handle_event
      Roles.PreCandidateEvents.handle_event Roles.CandidateEvents.handle_event
      Roles.LeaderEvents.handle_event
  vote-Fails (follower f) cmd gone = unanswered-Fails clock f cmd gone
  vote-Fails (pre_candidate p) cmd gone = inl (receiver_dropped, rw gone refl)
  vote-Fails (candidate c) cmd gone = inl (receiver_dropped, rw gone refl)
  vote-Fails (leader l) cmd gone = elim (Bool-cases (is_leader_lease_expired (clock 0) ctx)) [
    | inl over ↦
        rw (over, Roles.LeaderEvents.answer_vote_request)
          (unanswered-Fails (λ i. clock (suc i)) (Follower.new none) cmd gone)
    | inr holds ↦
        rw (holds, Roles.LeaderEvents.answer_vote_request) (inl (receiver_dropped, rw gone refl))
  ]

next_state-Fails : (s : Loop) (result : Result Outcome) → Fails result → next_state s result ≡ panic
unfolding next_state
next_state-Fails s result (inl (why, e)) = rw e refl
next_state-Fails s result (inr e) = rw e refl

guarded-Fails :
    (cancelled : Bool) (result : Result Outcome)
    → Fails result
    → Fails (if cancelled then err machine_cancelled else result)
guarded-Fails true result h = inl (machine_cancelled, refl)
guarded-Fails false result h = h

process_event-Fails :
    (clock : Clock) (event : PaxosEvent) (state : PaxosState) (ctx : PaxosSharedContext)
    → IsAbandoned event
    → Fails (StateMachine.process_event clock event state ctx)
unfolding StateMachine.process_event
process_event-Fails clock (pre_vote_request_received cmd) state ctx gone =
    let (state', ctx') =
      StateMachine.adopt_term (event_term (pre_vote_request_received cmd)) state ctx in
    guarded-Fails ctx.cancelled _ (pre_vote-Fails clock ctx' state' cmd gone)
process_event-Fails clock (vote_request_received cmd) state ctx gone =
    let (state', ctx') =
      StateMachine.adopt_term (event_term (vote_request_received cmd)) state ctx in
    guarded-Fails ctx.cancelled _ (vote-Fails clock ctx' state' cmd gone)
process_event-Fails clock _ state ctx gone = absurd gone

process-cancelled :
    (m : Moment) (event : PaxosEvent) (s : Loop) → m.token 6 ≡ true → process m event s ≡ panic
unfolding process StateMachine.process_event next_state
process-cancelled m event s cancelled = rw cancelled refl

-- A turn that takes a request for a vote or a pre-vote whose sender has gone panics, whatever the
-- member's role: the answer cannot be sent, the role returns the error (or has panicked before), and
-- the loop expects none.
pub turn-abandoned :
    (m : Moment) (s t : Loop) (event : PaxosEvent)
    → IsAbandoned event
    → select m (arrive m s) ≡ (some (receives (some event)), t)
    → turn m s ≡ panic
unfolding turn
turn-abandoned m s t event gone chosen = rw chosen (
    next_state-Fails t _
      (process_event-Fails m.clock event t.state (record t.ctx { cancelled = m.token 6 }) gone))

wait_until_expired-cancelled :
    (token : ℕ → Bool) (reads : Bool) (t : DateTime) (lease : LeaseState)
    → token 0 ≡ true
    → wait_until_expired token reads t lease ≡ (true, lease)
unfolding wait_until_expired
wait_until_expired-cancelled token reads t lease seen = rw seen refl

-- If the token is not cancelled at the loop's own reading but is at the next one, by the watcher of
-- the lease, and stays so, then the turn panics; had the loop seen it, it would have ended well.
pub turn-cancelled :
    (m : Moment) (s : Loop)
    → m.token 1 ≡ true
    → m.token 6 ≡ true
    → turn m s ≡ (if m.token 0 then ok none else panic)
unfolding turn select
turn-cancelled m s watched processed = elim (Bool-cases (m.token 0)) [
  | inl seen ↦ rw seen refl
  | inr missed ↦
      rw (missed, wait_until_expired-cancelled (λ i. m.token (i + 1)) _ m.reading _ watched)
        (process-cancelled m leader_lease_expired (arrive m s) processed)
]
