-- ===== src/Tests/Leases.antt =====
-- The leases of a leader and its followers at concrete inputs.
use spanner_paxos.Context
use spanner_paxos.Map
use spanner_paxos.Follower
use spanner_paxos.Candidate
use spanner_paxos.Leader
use spanner_paxos.Base.{List, [], arith, inl, none, ok, refl, some, ◌+◌, ◌∷◌, ◌≡◌}
use spanner_paxos.Candidate.{Candidate}
use spanner_paxos.Candidate.Terms.{IsWon, sent}
use spanner_paxos.Context.{PaxosSharedContext}
use spanner_paxos.Follower.{Campaign, Follower, undecided}
use spanner_paxos.Leader.{Leader}
use spanner_paxos.Leases.{LeaseCovers, Precedes, accept-LeaseCovers, vote-LeaseCovers}
use spanner_paxos.Map.{Map}
use spanner_paxos.Messages.{Action, VoteResponse, is_promise, promise}
use spanner_paxos.Tests.{log_3, member_with, noon, ticking, unwrap}
use spanner_paxos.Tests.Members.{
  accepts_2, answer_2, behind, campaign_5, follows_1, free_member, idle_clock, probe_2, succeeds_2,
  vote_5, votes_5,
}
use spanner_paxos.TrueTime.{DateTime, add_time, before, unix_epoch}

-- Member 2 campaigns in term 5, and sends its vote requests at noon.
abbrev campaigner : PaxosSharedContext
campaigner = member_with 2 5 unix_epoch log_3 2 3

abbrev asking : Candidate
asking = record {
  vote_board = (3, none) ∷ (4, none) ∷ [];
  score_board = [];
  vote_dispatch_time = none;
  vote_cd_clock = idle_clock;
  pending_uncommitted_logs = [];
}

abbrev asked : Candidate × List Action
asked = unwrap (asking, []) (Candidate.dispatch_vote noon asking campaigner)

noon-Precedes : Precedes noon (ticking 1)
noon-Precedes = record {
  true_time = noon;
  true_time' = noon;
  close = omega arith;
  order = omega arith;
  close' = omega arith;
}

-- Member 4's promise decides the campaign.
abbrev promised : VoteResponse
promised = record {
  member_id = 4;
  term = 5;
  outcome = promise (record { last_log_term = 1; last_log_slot = 1; uncommitted_entries = [] });
}

abbrev elected : Campaign Candidate Leader × PaxosSharedContext × List Action
elected =
    unwrap (undecided asking, campaigner, [])
      (Candidate.handle_vote_response ticking promised asked.0 campaigner)

asks : Candidate.dispatch_vote noon asking campaigner ≡ ok (asked.0, asked.1)
unfolding Candidate.dispatch_vote
asks = refl

wins :
    (Candidate.handle_vote_response ticking promised asked.0 campaigner ≡ ok elected)
    × IsWon elected.0
unfolding Candidate.dispatch_vote Candidate.handle_vote_response Candidate.record_response
    Candidate.record_promise Candidate.has_vote_quorum Candidate.take_lead
    Candidate.compute_leader_lease_expiry Candidate.lead add_time before is_promise
    Follower.is_quorum Map.insert Follower.count_votes Leader.process_uncommitted_logs
    Leader.dispatch_accept_request Leader.dispatch_to_members Leader.advance_log
    Candidate.flush_uncommitted_logs Candidate.flush_logs Candidate.merge_logs
    Context.update_leader_lease_expiry_time Leader.new
wins = (refl, tt)

vote-LeaseCovers_example :
    (expiry : DateTime) × (elected.1.lease.expiry ≡ some expiry) × LeaseCovers expiry vote_5.2
vote-LeaseCovers_example =
    vote-LeaseCovers noon asking asked.0 asked.0 campaigner campaigner asked.1 ticking promised
      elected ticking follows_1 campaign_5 free_member vote_5 asks sent wins.0 wins.1 refl votes_5.0
      votes_5.1 noon-Precedes

accept-LeaseCovers_example :
    (answer_2.0.echoed_t_send ≡ probe_2.t_send)
    × LeaseCovers (answer_2.0.echoed_t_send + behind.lease_length) answer_2.1
unfolding Leader.accept_request
accept-LeaseCovers_example =
    accept-LeaseCovers noon ticking follows_1 probe_2 behind answer_2 refl noon-Precedes accepts_2
      (inl succeeds_2)
