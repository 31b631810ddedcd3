-- ===== src/Tests/Leaders.antt =====
-- A leader of a group of three at concrete inputs.
use spanner_paxos.TrueTime
use spanner_paxos.Leader
use spanner_paxos.Wal
use spanner_paxos.Base.{
  List, [], arith, false, min?, none, refl, some, sort_desc, true, ℕ, ◌*◌, ◌+◌, ◌∷◌, ◌≡◌, ◌≤◌,
}
use spanner_paxos.Context.{
  PaxosSharedContext, advance_t_safe, commit_up_to, get_quorum_size,
  update_leader_lease_expiry_time,
}
use spanner_paxos.CountDownClock.{fixed}
use spanner_paxos.Leader.{FollowerState, Leader}
use spanner_paxos.Leader.Promises.{IsPromised, handle_heartbeat_timer-IsPromised}
use spanner_paxos.Leader.Quorum.{
  HasBoard, OnQuorum, RenewsTo, min_quorum_slot-OnQuorum, renew_lease-RenewsTo,
}
use spanner_paxos.Leader.Responses.{Commits, handle_accept_response-Commits, realign-anchor_slot}
use spanner_paxos.Leader.Timeouts.{Checked, handle_accept_timeout_check-Checked}
use spanner_paxos.Map.{insert, lookup}
use spanner_paxos.Messages.{AcceptResponse, Action, ClientWriteRequest, ConflictHint, PaxosCommand}
use spanner_paxos.Tests.{log_3, member_with, noon, ticking, unwrap}
use spanner_paxos.TrueTime.{DateTime, millisecond, unix_epoch}

abbrev position : ℕ → ℕ → ℕ → FollowerState
position match_slot next_slot sent_slot = record {
  log_position = record { match_slot = match_slot; next_slot = next_slot; sent_slot = sent_slot };
  in_flight_batches = record { sent_at = noon; highest_slot = 3 } ∷ [];
}

abbrev client : ℕ → PaxosCommand ClientWriteRequest
client tx = record { request = record { value = "put" }; response_tx = tx; receiver_alive = true }

abbrev leads : Leader
leads = record {
  score_board = (2, position 1 4 3) ∷ (3, position 0 4 3) ∷ [];
  last_contact = (2, noon) ∷ (3, unix_epoch) ∷ [];
  in_flight_writes = (2, (noon, client 12)) ∷ (3, (noon, client 13)) ∷ [];
  pending_write_count = 0;
  write_batch_size = 1000;
  heartbeat_cd_clock = record {
    reset_notify = false;
    token_cancelled = false;
    is_running = true;
    task = some (fixed 8000, tt);
  };
}

abbrev leading : PaxosSharedContext
leading = member_with 1 2 (noon + 5000 * millisecond) log_3 2 3

leads-HasBoard : HasBoard leads leading
leads-HasBoard = record {
  complete = refl;
  inhabited = omega arith;
  countable = omega arith;
  rises = omega arith;
}

min_quorum_slot_example : OnQuorum 1 leads leading × ((s : ℕ) → OnQuorum s leads leading → s ≤ 1)
unfolding Leader.min_quorum_slot get_quorum_size min? sort_desc
min_quorum_slot_example = min_quorum_slot-OnQuorum leads leading leads-HasBoard

renew_lease_example : RenewsTo leads leading (Leader.renew_lease leads leading)
renew_lease_example = renew_lease-RenewsTo leads leading leads-HasBoard

-- Member 2 has written up to slot 2, which commits it.
abbrev written_2 : AcceptResponse
written_2 = record {
  member_id = 2;
  term = 2;
  success = true;
  last_written_slot = 2;
  conflict_hint = none;
  echoed_t_send = noon + millisecond;
}

abbrev commits_2 : Leader × PaxosSharedContext × List Action
commits_2 = unwrap (leads, leading, []) (Leader.handle_accept_response noon written_2 leads leading)

handle_accept_response_example : Commits leads.in_flight_writes leading commits_2
unfolding Leader.handle_accept_response Leader.use_response Leader.record_success lookup
    Leader.note_contact Leader.renew_lease sort_desc insert get_quorum_size TrueTime.add_time
handle_accept_response_example =
    handle_accept_response-Commits noon written_2 leads leading commits_2 leads-HasBoard refl

commits_2_test : commits_2.1.committed_slot ≡ 2
unfolding Leader.handle_accept_response Leader.use_response Leader.record_success lookup
    Leader.note_contact Leader.commit_quorum Leader.renew_lease sort_desc insert get_quorum_size
    Leader.propose_expiry update_leader_lease_expiry_time Leader.min_quorum_slot min?
    Leader.advance_match Leader.ack_batches_up_to commit_up_to TrueTime.add_time
commits_2_test = refl

-- Member 3 has nothing from slot 2 on: the first request after its rejection has the anchor 3, right
-- before the former next slot 4; the one after the second has anchor 1.
abbrev short_2 : ConflictHint
short_2 = record { conflict_term = 0; conflict_first_slot = 2 }

realign-anchor_slot_example :
    (Leader.anchor_slot (Leader.realign short_2 (position 0 4 3) leading).log_position ≡ 3)
    × ((Leader.realign short_2 (position 0 4 3) leading).in_flight_batches ≡ [])
    × (((position 0 4 3).log_position.next_slot ≡ 2)
        → Leader.anchor_slot (Leader.realign short_2 (position 0 4 3) leading).log_position ≡ 1)
unfolding Leader.next_probe
realign-anchor_slot_example = realign-anchor_slot short_2 (position 0 4 3) leading

-- Its rejection leads to the anchor 3, which the leader's log has.
abbrev refuses_2 : AcceptResponse
refuses_2 = record {
  member_id = 3;
  term = 2;
  success = false;
  last_written_slot = 0;
  conflict_hint = some short_2;
  echoed_t_send = noon + millisecond;
}

abbrev beats : Leader × PaxosSharedContext × List Action
beats = unwrap (leads, leading, []) (Leader.handle_heartbeat_timer ticking leads leading)

handle_heartbeat_timer_example :
    IsPromised
      (Leader.heartbeat_ts noon leading)
      (noon + millisecond)
      leading
      beats.1
      leading
      beats.2
unfolding Leader.handle_heartbeat_timer Leader.dispatch_accept_request Leader.dispatch_to_members
    Leader.dispatch_accept_request_to_follower lookup Leader.anchor_term Leader.anchor_slot
    Wal.get_term advance_t_safe insert TrueTime.sub_time Leader.heartbeat_ts
handle_heartbeat_timer_example =
    handle_heartbeat_timer-IsPromised ticking leads leading beats (noon + millisecond) leading refl
      (omega arith) tt tt

-- A minute and a millisecond after the batches have been sent.
abbrev minute_on : DateTime
minute_on = noon + 60001 * millisecond

handle_accept_timeout_check_example :
    (fs : FollowerState) × (lookup 2
        (Leader.handle_accept_timeout_check minute_on leads).score_board
      ≡ some fs)
    × Checked minute_on (position 1 4 3) fs
handle_accept_timeout_check_example =
    handle_accept_timeout_check-Checked minute_on leads 2 (position 1 4 3) (unfold lookup in refl)
      (tt, tt)
