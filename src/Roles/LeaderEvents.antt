-- ===== src/Roles/LeaderEvents.antt =====
-- spx_core/src/roles/leader.rs: `handle_event`.
use spanner_paxos.Follower
use spanner_paxos.Leader
use spanner_paxos.Base.{Option, Result, [], false, if◌then◌else◌, none, not, some, suc, ◌>>=◌}
use spanner_paxos.Context.{PaxosSharedContext, is_leader_lease_expired}
use spanner_paxos.Follower.{Follower, vote_rejected}
use spanner_paxos.Leader.{Leader}
use spanner_paxos.Messages.{
  AcceptRequest, PaxosCommand, PaxosEvent, PreVoteRequest, PreVoteResponse, VoteRequest,
  accept_request_received, accept_response_received, accept_timeout_check_fired, answered_accept,
  answered_prevote, answered_vote, client_write_request_received, election_countdown_expired,
  heartbeat_timer_fired, leader_lease_expired, pre_vote_campaign_expired, pre_vote_request_received,
  pre_vote_response_received, send, vote_campaign_expired, vote_request_received,
  vote_response_received, write_flush_timer_fired,
}
use spanner_paxos.Roles.{Outcome, PaxosState, done, follower, leader, reply}
use spanner_paxos.TrueTime.{Clock}

abbrev leader_prevote_refused : PaxosSharedContext → PreVoteResponse
leader_prevote_refused ctx = record {
  term = ctx.term;
  member_id = ctx.member_id;
  vote_granted = false;
  current_leader_id = some ctx.member_id;
  member_last_log_term = none;
  member_last_log_slot = none;
}

-- The test is for a lease that has not expired.
unfoldable pub answer_pre_vote_request :
    Clock → Leader → PaxosCommand PreVoteRequest → PaxosSharedContext → Result Outcome
unfolding send Follower.new
answer_pre_vote_request clock l cmd ctx =
    let f = Follower.new none in
    if not (is_leader_lease_expired (clock 0) ctx)
    then reply
        (send cmd (λ tx.
          answered_prevote tx (Follower.handle_pre_vote_request (clock 1) f cmd.request ctx)))
        (follower f) ctx
    else reply (send cmd (λ tx. answered_prevote tx (leader_prevote_refused ctx))) (leader l) ctx

unfoldable pub answer_vote_request :
    Clock → Leader → PaxosCommand VoteRequest → PaxosSharedContext → Result Outcome
unfolding send Follower.new
answer_vote_request clock l cmd ctx =
    if is_leader_lease_expired (clock 0) ctx
    then (do
      (response, f, ctx') ←
          Follower.handle_vote_request (λ i. clock (suc i)) (Follower.new none) cmd.request ctx
      reply (send cmd (λ tx. answered_vote tx response)) (follower f) ctx')
    else reply
        (send cmd (λ tx. answered_vote tx (vote_rejected ctx (some ctx.member_id) none none none)))
        (leader l) ctx

-- An accept request that comes while the lease holds gets no answer.
unfoldable pub answer_accept_request :
    Clock → Leader → PaxosCommand AcceptRequest → PaxosSharedContext → Result Outcome
unfolding send Follower.new
answer_accept_request clock l cmd ctx =
    let f = Follower.new (some cmd.request.leader_id) in
    if is_leader_lease_expired (clock 0) ctx
    then (do
      (response, ctx') ← Follower.handle_accept_request (λ i. clock (suc i)) f cmd.request ctx
      reply (send cmd (λ tx. answered_accept tx response)) (follower f) ctx')
    else done (leader l) ctx []

-- `if let Some(follower) = … { return … }`
unfoldable pub follower_or : Leader → Option Follower → PaxosState
follower_or l none = leader l
follower_or l (some f) = follower f

unfoldable pub handle_event : Clock → Leader → PaxosEvent → PaxosSharedContext → Result Outcome
unfolding follower_or answer_pre_vote_request answer_vote_request answer_accept_request
handle_event clock l election_countdown_expired ctx = done (leader l) ctx []
handle_event clock l pre_vote_campaign_expired ctx = done (leader l) ctx []
handle_event clock l vote_campaign_expired ctx = done (leader l) ctx []
handle_event clock l (accept_response_received response) ctx = do
  (l', ctx', actions) ← Leader.handle_accept_response (clock 0) response l ctx
  done (leader l') ctx' actions
handle_event clock l (client_write_request_received cmd) ctx =
    let (l', ctx') = Leader.handle_client_write (clock 0) cmd l ctx in done (leader l') ctx' []
handle_event clock l write_flush_timer_fired ctx = do
  (l', actions) ← Leader.handle_write_flush clock l ctx
  done (leader l') ctx actions
handle_event clock l accept_timeout_check_fired ctx =
    done (leader (Leader.handle_accept_timeout_check (clock 0) l)) ctx []
handle_event clock l heartbeat_timer_fired ctx = do
  (l', ctx', actions) ← Leader.handle_heartbeat_timer clock l ctx
  done (leader l') ctx' actions
handle_event clock l leader_lease_expired ctx = done (follower (Follower.new none)) ctx []
handle_event clock l (pre_vote_request_received cmd) ctx = answer_pre_vote_request clock l cmd ctx
handle_event clock l (pre_vote_response_received response) ctx =
    done (follower_or l (Leader.handle_pre_vote_response (clock 0) response ctx)) ctx []
handle_event clock l (vote_request_received cmd) ctx = answer_vote_request clock l cmd ctx
handle_event clock l (vote_response_received response) ctx =
    done (follower_or l (Leader.handle_vote_response (clock 0) response ctx)) ctx []
handle_event clock l (accept_request_received cmd) ctx = answer_accept_request clock l cmd ctx
