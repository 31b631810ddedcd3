-- ===== src/Roles/CandidateEvents.antt =====
-- spx_core/src/roles/candidate.rs: `handle_event`.
use spanner_paxos.Follower
use spanner_paxos.Candidate
use spanner_paxos.Base.{Result, [], none, ◌>>=◌}
use spanner_paxos.Candidate.{Candidate}
use spanner_paxos.Context.{PaxosSharedContext}
use spanner_paxos.Follower.{Follower, no_leader, util_handle_pre_vote_request}
use spanner_paxos.Messages.{
  PaxosEvent, accept_request_received, accept_response_received, accept_timeout_check_fired,
  answered_prevote, answered_vote, answered_write, client_write_request_received,
  election_countdown_expired, heartbeat_timer_fired, leader_lease_expired,
  pre_vote_campaign_expired, pre_vote_request_received, pre_vote_response_received, send,
  send_ignoring, vote_campaign_expired, vote_request_received, vote_response_received,
  write_flush_timer_fired,
}
use spanner_paxos.Roles.{Outcome, candidate, done, follower, join_leader, leader, reply, settle}
use spanner_paxos.TrueTime.{Clock}

unfoldable pub handle_event : Clock → Candidate → PaxosEvent → PaxosSharedContext → Result Outcome
unfolding send send_ignoring settle join_leader
handle_event clock c leader_lease_expired ctx = done (candidate c) ctx []
handle_event clock c election_countdown_expired ctx = done (candidate c) ctx []
handle_event clock c pre_vote_campaign_expired ctx = done (candidate c) ctx []
handle_event clock c write_flush_timer_fired ctx = done (candidate c) ctx []
handle_event clock c accept_timeout_check_fired ctx = done (candidate c) ctx []
handle_event clock c heartbeat_timer_fired ctx = done (candidate c) ctx []
handle_event clock c (accept_request_received cmd) ctx = join_leader clock (candidate c) cmd ctx
handle_event clock c (accept_response_received response) ctx = done (candidate c) ctx []
handle_event clock c vote_campaign_expired ctx = done (follower (Follower.new none)) ctx []
handle_event clock c (pre_vote_request_received cmd) ctx =
    reply (send cmd (λ tx. answered_prevote tx (util_handle_pre_vote_request cmd.request ctx)))
      (candidate c) ctx
handle_event clock c (pre_vote_response_received response) ctx = done (candidate c) ctx []
handle_event clock c (vote_request_received cmd) ctx =
    reply (send cmd (λ tx. answered_vote tx (Candidate.handle_vote_request ctx))) (candidate c) ctx
handle_event clock c (vote_response_received response) ctx = do
  (campaign, ctx', actions) ← Candidate.handle_vote_response clock response c ctx
  done (settle candidate leader campaign) ctx' actions
handle_event clock c (client_write_request_received cmd) ctx =
    done (candidate c) ctx (send_ignoring cmd (λ tx. answered_write tx no_leader))
