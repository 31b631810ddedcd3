-- ===== src/Roles/PreCandidateEvents.antt =====
-- spx_core/src/roles/precandidate.rs: `handle_event`.
use spanner_paxos.Follower
use spanner_paxos.PreCandidate
use spanner_paxos.Base.{Result, [], none, ◌>>=◌}
use spanner_paxos.Context.{PaxosSharedContext}
use spanner_paxos.Follower.{Follower, no_leader, util_handle_pre_vote_request}
use spanner_paxos.Messages.{
  PaxosEvent, accept_request_received, accept_response_received, accept_timeout_check_fired,
  answered_prevote, answered_vote, answered_write, client_write_request_received,
  election_countdown_expired, heartbeat_timer_fired, leader_lease_expired,
  pre_vote_campaign_expired, pre_vote_request_received, pre_vote_response_received, send,
  send_ignoring, vote_campaign_expired, vote_request_received, vote_response_received,
  write_flush_timer_fired,
}
use spanner_paxos.PreCandidate.{PreCandidate}
use spanner_paxos.Roles.{
  Outcome, candidate, done, follower, join_leader, pre_candidate, reply, settle,
}
use spanner_paxos.TrueTime.{Clock}

unfoldable pub handle_event :
    Clock → PreCandidate → PaxosEvent → PaxosSharedContext → Result Outcome
unfolding send send_ignoring settle join_leader
handle_event clock p leader_lease_expired ctx = done (pre_candidate p) ctx []
handle_event clock p election_countdown_expired ctx = done (pre_candidate p) ctx []
handle_event clock p vote_campaign_expired ctx = done (pre_candidate p) ctx []
handle_event clock p write_flush_timer_fired ctx = done (pre_candidate p) ctx []
handle_event clock p accept_timeout_check_fired ctx = done (pre_candidate p) ctx []
handle_event clock p heartbeat_timer_fired ctx = done (pre_candidate p) ctx []
handle_event clock p (accept_request_received cmd) ctx = join_leader clock (pre_candidate p) cmd ctx
handle_event clock p (accept_response_received response) ctx = done (pre_candidate p) ctx []
handle_event clock p pre_vote_campaign_expired ctx = done (follower (Follower.new none)) ctx []
handle_event clock p (pre_vote_request_received cmd) ctx =
    reply (send cmd (λ tx. answered_prevote tx (util_handle_pre_vote_request cmd.request ctx)))
      (pre_candidate p) ctx
handle_event clock p (pre_vote_response_received response) ctx = do
  (campaign, ctx', actions) ← PreCandidate.handle_pre_vote_response (clock 0) response p ctx
  done (settle pre_candidate candidate campaign) ctx' actions
handle_event clock p (vote_request_received cmd) ctx =
    let (response, p') = PreCandidate.handle_vote_request p cmd.request ctx in
    reply (send cmd (λ tx. answered_vote tx response)) (pre_candidate p') ctx
handle_event clock p (vote_response_received response) ctx = done (pre_candidate p) ctx []
handle_event clock p (client_write_request_received cmd) ctx =
    done (pre_candidate p) ctx (send_ignoring cmd (λ tx. answered_write tx no_leader))
