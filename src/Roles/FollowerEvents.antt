-- ===== src/Roles/FollowerEvents.antt =====
-- spx_core/src/roles/follower.rs: `handle_event`.
use spanner_paxos.Follower
use spanner_paxos.PreCandidate
use spanner_paxos.Base.{Result, [], if◌then◌else◌, not, ◌>>=◌}
use spanner_paxos.Context.{PaxosSharedContext, is_leader_lease_expired}
use spanner_paxos.CountDownClock.{start_random}
use spanner_paxos.Follower.{Follower}
use spanner_paxos.Messages.{
  PaxosEvent, accept_request_received, accept_response_received, accept_timeout_check_fired,
  answered_accept, answered_prevote, answered_vote, client_write_request_received,
  election_countdown_expired, heartbeat_timer_fired, leader_lease_expired,
  pre_vote_campaign_expired, pre_vote_request_received, pre_vote_response_received, send,
  vote_campaign_expired, vote_request_received, vote_response_received, write_flush_timer_fired,
}
use spanner_paxos.PreCandidate.{PreCandidate}
use spanner_paxos.Roles.{Outcome, done, follower, pre_candidate, reply}
use spanner_paxos.TrueTime.{Clock}

-- The promotion, unless the lease is still active.
unfoldable pub handle_election_countdown_expired :
    Clock → Follower → PaxosSharedContext → Result Outcome
unfolding PreCandidate.new PreCandidate.dispatch_pre_vote
handle_election_countdown_expired clock f ctx =
    if not (is_leader_lease_expired (clock 0) ctx) then done (follower f) ctx [] else (do
      (p, actions) ← PreCandidate.dispatch_pre_vote (PreCandidate.new ctx) ctx
      done (pre_candidate p) ctx actions)

unfoldable pub start_election_countdown : Follower → PaxosSharedContext → Result Outcome
unfolding start_random
start_election_countdown f ctx = do
  countdown ← start_random 1000 election_countdown_expired f.election_cd_clock
  done (follower (record f { election_cd_clock = countdown })) ctx []

unfoldable pub handle_event : Clock → Follower → PaxosEvent → PaxosSharedContext → Result Outcome
unfolding send start_election_countdown handle_election_countdown_expired
handle_event clock f pre_vote_campaign_expired ctx = done (follower f) ctx []
handle_event clock f vote_campaign_expired ctx = done (follower f) ctx []
handle_event clock f write_flush_timer_fired ctx = done (follower f) ctx []
handle_event clock f accept_timeout_check_fired ctx = done (follower f) ctx []
handle_event clock f heartbeat_timer_fired ctx = done (follower f) ctx []
handle_event clock f leader_lease_expired ctx = start_election_countdown f ctx
handle_event clock f election_countdown_expired ctx = handle_election_countdown_expired clock f ctx
handle_event clock f (pre_vote_request_received cmd) ctx =
    reply
      (send cmd
        (λ tx. answered_prevote tx (Follower.handle_pre_vote_request (clock 0) f cmd.request ctx)))
      (follower f) ctx
handle_event clock f (pre_vote_response_received response) ctx =
    done (follower (Follower.handle_pre_vote_response (clock 0) f response ctx)) ctx []
handle_event clock f (vote_request_received cmd) ctx = do
  (response, f', ctx') ← Follower.handle_vote_request clock f cmd.request ctx
  reply (send cmd (λ tx. answered_vote tx response)) (follower f') ctx'
handle_event clock f (vote_response_received response) ctx =
    done (follower (Follower.handle_vote_response (clock 0) f response ctx)) ctx []
handle_event clock f (accept_request_received cmd) ctx = do
  (response, ctx') ← Follower.handle_accept_request clock f cmd.request ctx
  reply (send cmd (λ tx. answered_accept tx response)) (follower f) ctx'
handle_event clock f (accept_response_received response) ctx = done (follower f) ctx []
handle_event clock f (client_write_request_received cmd) ctx =
    reply (Follower.handle_client_write f cmd ctx) (follower f) ctx
