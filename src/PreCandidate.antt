-- ===== src/PreCandidate.antt =====
-- spx_core/src/roles/precandidate.rs, without the event dispatch.
pub mod Progress
pub mod Boards
use spanner_paxos.Follower
use spanner_paxos.Candidate
use spanner_paxos.Base.{
  Bool, List, Option, Result, [], if◌then◌else◌, leb, length, ltb, none, ok, some, ◌>>=◌,
}
use spanner_paxos.Candidate.{Candidate}
use spanner_paxos.Context.{PaxosSharedContext, create_pre_vote, increment_current_term}
use spanner_paxos.CountDownClock.{CountDownClock, clock_new, start_fixed}
use spanner_paxos.Follower.{
  Campaign, Follower, VoteRecord, all_responded, binding_vote, count_votes, for_peers, is_quorum,
  lost, undecided, vote_promised, vote_rejected, won,
}
use spanner_paxos.Map.{Map, insert}
use spanner_paxos.Messages.{
  Action, PaxosEvent, PreVoteResponse, VoteRequest, VoteResponse, dispatch, dispatched_prevote,
  pre_vote_campaign_expired,
}
use spanner_paxos.TrueTime.{DateTime}

pub record PreCandidate : Type 0 where
  pub pre_vote_board : Map (Option PreVoteResponse)
  pub voted_for_id : Option VoteRecord
  pub prevote_cd_clock : CountDownClock PaxosEvent

unfoldable pub new : PaxosSharedContext → PreCandidate
new ctx = record {
  pre_vote_board = for_peers none ctx.peer_ids;
  voted_for_id = none;
  prevote_cd_clock = clock_new;
}

unfoldable pub dispatch_pre_vote :
    PreCandidate → PaxosSharedContext → Result (PreCandidate × List Action)
dispatch_pre_vote p ctx = do
  actions ←
      dispatch (ctx.dispatcher.dispatch_prevote_request (create_pre_vote ctx))
        (dispatched_prevote (create_pre_vote ctx))
  ok (
    record p { prevote_cd_clock = start_fixed 3000 pre_vote_campaign_expired p.prevote_cd_clock },
    actions,
  )

unfoldable pub has_all_pre_vote_responses : PreCandidate → Bool
has_all_pre_vote_responses p = all_responded p.pre_vote_board

unfoldable pub has_pre_vote_quorum : PreCandidate → Bool
has_pre_vote_quorum p =
    is_quorum (count_votes (λ r. r.vote_granted) p.pre_vote_board) (length p.pre_vote_board)

unfoldable pub update_pre_vote_board : PreVoteResponse → PreCandidate → PreCandidate
update_pre_vote_board response p = record p {
  pre_vote_board = insert response.member_id (some response) p.pre_vote_board;
}

-- On a quorum: a candidate made before the term rises, and its vote requests, at the reading `t`.
unfoldable pub start_campaign :
    DateTime
    → PaxosSharedContext
    → Result (Campaign PreCandidate Candidate × PaxosSharedContext × List Action)
start_campaign t ctx = do
  let ctx' = increment_current_term ctx
  (c, actions) ← Candidate.dispatch_vote t (Candidate.new ctx) ctx'
  ok (won c, ctx', actions)

unfoldable pub handle_pre_vote_response :
    DateTime
    → PreVoteResponse
    → PreCandidate
    → PaxosSharedContext
    → Result (Campaign PreCandidate Candidate × PaxosSharedContext × List Action)
handle_pre_vote_response t response p ctx =
    let p' = update_pre_vote_board response p in
    if has_pre_vote_quorum p'
    then start_campaign t ctx
    else if has_all_pre_vote_responses p'
    then ok (lost (Follower.new none), ctx, [])
    else ok (undecided p', ctx, [])

-- The tests after that of the vote that binds this pre-candidate.
unfoldable pub weigh_vote_request :
    PreCandidate → VoteRequest → PaxosSharedContext → VoteResponse × PreCandidate
weigh_vote_request p request ctx =
    if leb request.term ctx.term
    then (vote_rejected ctx none none none none, p)
    else if ltb request.last_log_term ctx.last_log_term
    then (vote_rejected ctx none (some ctx.last_log_term) none none, p)
    else if ltb request.last_log_slot ctx.last_log_slot
    then (vote_rejected ctx none (some ctx.last_log_term) (some ctx.last_log_slot) none, p)
    else (
      vote_promised ctx,
      record p {
        voted_for_id = some (record { term = request.term; candidate_id = request.member_id });
      },
    )

unfoldable pub handle_vote_request :
    PreCandidate → VoteRequest → PaxosSharedContext → VoteResponse × PreCandidate
handle_vote_request p request ctx = elim (binding_vote request.term p.voted_for_id) [
  | some candidate ↦ (vote_rejected ctx none none none (some candidate), p)
  | none ↦ weigh_vote_request p request ctx
]
