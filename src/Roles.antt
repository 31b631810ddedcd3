-- ===== src/Roles.antt =====
-- spx_core/src/state_machine/state.rs and the `handle_event` of the four roles, in the children.
pub mod FollowerEvents
pub mod PreCandidateEvents
pub mod CandidateEvents
pub mod LeaderEvents
use spanner_paxos.Follower
use spanner_paxos.Base.{List, Result, if◌then◌else◌, ltb, none, ok, some, ◌>>=◌}
use spanner_paxos.Candidate.{Candidate}
use spanner_paxos.Context.{PaxosSharedContext}
use spanner_paxos.Follower.{Campaign, Follower, accept_failed, lost, undecided, won}
use spanner_paxos.Leader.{Leader}
use spanner_paxos.Messages.{AcceptRequest, Action, PaxosCommand, answered_accept, send}
use spanner_paxos.PreCandidate.{PreCandidate}
use spanner_paxos.TrueTime.{Clock}

pub data PaxosState : Type 0 where
  follower : Follower → PaxosState
  pre_candidate : PreCandidate → PaxosState
  candidate : Candidate → PaxosState
  leader : Leader → PaxosState

-- What is left after an event: the role, the context, and what went out.
pub record Outcome : Type 0 where
  pub state : PaxosState
  pub ctx : PaxosSharedContext
  pub actions : List Action

abbrev pub done : PaxosState → PaxosSharedContext → List Action → Result Outcome
done state ctx actions = ok (record { state = state; ctx = ctx; actions = actions })

-- `command.send(response)?`, then the state.
abbrev pub reply : Result (List Action) → PaxosState → PaxosSharedContext → Result Outcome
reply sent state ctx = do actions ← sent; done state ctx actions

-- `Ok(PaxosState::…(…))` for what a campaign came to.
unfoldable pub settle :
    {S W : Type 0} → (S → PaxosState) → (W → PaxosState) → Campaign S W → PaxosState
settle stay win (undecided s) = stay s
settle stay win (won w) = win w
settle stay win (lost f) = follower f

-- How a pre-candidate and a candidate take an accept request: a stale one is refused, any other
-- makes them a follower of the sender.
unfoldable pub join_leader :
    Clock → PaxosState → PaxosCommand AcceptRequest → PaxosSharedContext → Result Outcome
join_leader clock self cmd ctx =
    let f = Follower.new (some cmd.request.leader_id) in
    if ltb cmd.request.term ctx.term
    then reply (send cmd (λ tx. answered_accept tx (accept_failed cmd.request ctx none))) self ctx
    else (do
      (response, ctx') ← Follower.handle_accept_request clock f cmd.request ctx
      reply (send cmd (λ tx. answered_accept tx response)) (follower f) ctx')
