-- ===== src/StateMachine/Elections.antt =====
-- spx_core/src/state_machine/state.rs: what `process_event` makes of vote requests. It has taken
-- over the request's term by the time that a role compares it with its own.
use spanner_paxos.Follower
use spanner_paxos.PreCandidate
use spanner_paxos.Candidate
use spanner_paxos.Roles
use spanner_paxos.StateMachine
use spanner_paxos.Base.{
  Bool-cases, [], arith, false, inl, inr, none, ok, refl, some, suc, ℕ, ◌∷◌, ◌≡◌, ◌≤◌,
}
use spanner_paxos.Candidate.{Candidate}
use spanner_paxos.Context.{PaxosSharedContext, is_leader_lease_expired}
use spanner_paxos.Follower.{Follower}
use spanner_paxos.Follower.Votes.{refused_by_term}
use spanner_paxos.Leader.{Leader}
use spanner_paxos.Messages.{
  PaxosCommand, VoteRequest, VoteResponse, answered_vote, event_term, is_promise, send,
  vote_request_received,
}
use spanner_paxos.PreCandidate.{PreCandidate}
use spanner_paxos.Roles.{Outcome, PaxosState, candidate, follower, leader, pre_candidate, reply}
use spanner_paxos.StateMachine.Steps.{process_event-handle_event}
use spanner_paxos.TrueTime.{Clock}

-- The one thing that goes out is an answer on the request's channel, and it is no promise.
abbrev pub RefusesVote : ℕ → Outcome → Type 0
RefusesVote tx o =
    (response : VoteResponse) × (o.actions ≡ answered_vote tx response ∷ [])
    × (is_promise response ≡ false)

send-RefusesVote :
    {T : Type 0} (cmd : PaxosCommand T) (response : VoteResponse) (state : PaxosState)
    (ctx : PaxosSharedContext) (o : Outcome)
    → is_promise response ≡ false
    → reply (send cmd (λ tx. answered_vote tx response)) state ctx ≡ ok o
    → RefusesVote cmd.response_tx o
unfolding send
send-RefusesVote cmd response state ctx o h e = (response, ground arith, h)

follower-RefusesVote :
    (clock : Clock) (f : Follower) (cmd : PaxosCommand VoteRequest) (ctx : PaxosSharedContext)
    (o : Outcome)
    → cmd.request.term ≤ ctx.term
    → Roles.FollowerEvents.handle_event clock f (vote_request_received cmd) ctx ≡ ok o
    → RefusesVote cmd.response_tx o
unfolding Roles.FollowerEvents.handle_event
follower-RefusesVote clock f cmd ctx o h e =
    let (response, answered, nay) = refused_by_term clock f cmd.request ctx h in
    send-RefusesVote cmd response _ _ o nay (rw answered at e)

pre_candidate-RefusesVote :
    (clock : Clock) (p : PreCandidate) (cmd : PaxosCommand VoteRequest) (ctx : PaxosSharedContext)
    (o : Outcome)
    → cmd.request.term ≤ ctx.term
    → Roles.PreCandidateEvents.handle_event clock p (vote_request_received cmd) ctx ≡ ok o
    → RefusesVote cmd.response_tx o
unfolding Roles.PreCandidateEvents.handle_event PreCandidate.handle_vote_request
    PreCandidate.weigh_vote_request is_promise
pre_candidate-RefusesVote clock p cmd ctx o h e = send-RefusesVote cmd _ _ _ o (ground arith) e

candidate-RefusesVote :
    (clock : Clock) (c : Candidate) (cmd : PaxosCommand VoteRequest) (ctx : PaxosSharedContext)
    (o : Outcome)
    → Roles.CandidateEvents.handle_event clock c (vote_request_received cmd) ctx ≡ ok o
    → RefusesVote cmd.response_tx o
unfolding Roles.CandidateEvents.handle_event Candidate.handle_vote_request is_promise
candidate-RefusesVote clock c cmd ctx o e = send-RefusesVote cmd _ _ _ o refl e

leader-RefusesVote :
    (clock : Clock) (l : Leader) (cmd : PaxosCommand VoteRequest) (ctx : PaxosSharedContext)
    (o : Outcome)
    → cmd.request.term ≤ ctx.term
    → Roles.LeaderEvents.handle_event clock l (vote_request_received cmd) ctx ≡ ok o
    → RefusesVote cmd.response_tx o
unfolding Roles.LeaderEvents.handle_event is_promise
leader-RefusesVote clock l cmd ctx o h e =
    elim (Bool-cases (is_leader_lease_expired (clock 0) ctx)) [
      | inl over ↦
          let (response, answered, nay) =
            refused_by_term (λ i. clock (suc i)) (Follower.new none) cmd.request ctx h in
          send-RefusesVote cmd response _ _ o nay
            (rw answered at rw (over, Roles.LeaderEvents.answer_vote_request) at e)
      | inr holds ↦
          send-RefusesVote cmd _ _ _ o refl
            (rw (holds, Roles.LeaderEvents.answer_vote_request) at e)
    ]

handle_event-RefusesVote :
    (clock : Clock) (state : PaxosState) (cmd : PaxosCommand VoteRequest) (ctx : PaxosSharedContext)
    (o : Outcome)
    → cmd.request.term ≤ ctx.term
    → StateMachine.handle_event clock state (vote_request_received cmd) ctx ≡ ok o
    → RefusesVote cmd.response_tx o
unfolding StateMachine.handle_event
handle_event-RefusesVote clock (follower f) cmd ctx o h e =
    follower-RefusesVote clock f cmd ctx o h e
handle_event-RefusesVote clock (pre_candidate p) cmd ctx o h e =
    pre_candidate-RefusesVote clock p cmd ctx o h e
handle_event-RefusesVote clock (candidate c) cmd ctx o h e =
    candidate-RefusesVote clock c cmd ctx o e
handle_event-RefusesVote clock (leader l) cmd ctx o h e = leader-RefusesVote clock l cmd ctx o h e

adopt_term-le :
    (term : ℕ) (state : PaxosState) (ctx : PaxosSharedContext)
    → term ≤ (StateMachine.adopt_term (some term) state ctx).1.term
unfolding StateMachine.adopt_term
adopt_term-le term state ctx = ground arith

-- Whatever the role, the context and the request, a vote request that is processed is refused.
pub process_event-RefusesVote :
    (clock : Clock) (state : PaxosState) (cmd : PaxosCommand VoteRequest) (ctx : PaxosSharedContext)
    (o : Outcome)
    → StateMachine.process_event clock (vote_request_received cmd) state ctx ≡ ok o
    → RefusesVote cmd.response_tx o
unfolding event_term
process_event-RefusesVote clock state cmd ctx o e =
    let adopted = StateMachine.adopt_term (some cmd.request.term) state ctx in
    handle_event-RefusesVote clock adopted.0 cmd adopted.1 o
      (adopt_term-le cmd.request.term state ctx) (process_event-handle_event clock _ state ctx o e)
