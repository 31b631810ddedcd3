-- ===== src/Tests/Members.antt =====
-- The members' handlers at concrete inputs.
use spanner_paxos.Follower
use spanner_paxos.Wal
use spanner_paxos.Leader
use spanner_paxos.Base.{
  List, Returns, [], arith, false, none, ok, refl, some, true, ℕ, ◌*◌, ◌+◌, ◌↔◌, ◌∷◌, ◌≡◌, ◌≤◌,
}
use spanner_paxos.Context.{
  PaxosSharedContext, extend_leader_lease_expiry_time, is_leader_lease_expired,
}
use spanner_paxos.CountDownClock.{CountDownClock}
use spanner_paxos.Follower.{Follower, vote_rejected}
use spanner_paxos.Follower.Anchors.{Anchored, check_anchor-Anchored, handle_accept_request-Returns}
use spanner_paxos.Follower.Replication.{accept_entries-get}
use spanner_paxos.Follower.Votes.{
  MayVote, Voted, handle_vote_request-Voted, handle_vote_request_once,
  is_promise-handle_vote_request,
}
use spanner_paxos.Leader.{Leader}
use spanner_paxos.Map.{from, lookup}
use spanner_paxos.Messages.{
  AcceptRequest, AcceptResponse, PaxosEvent, VoteRequest, VoteResponse, is_promise,
}
use spanner_paxos.Replication.{get-accept_request, handle_accept_request-agrees}
use spanner_paxos.Tests.{entry_at, log_3, member_with, noon, ticking, unwrap, wal_3-IsLog}
use spanner_paxos.TrueTime.{add_time, millisecond, unix_epoch}
use spanner_paxos.Wal.{LogEntry}
use spanner_paxos.Wal.Writes.{IsLog}

-- A follower of member 1 whose lease has run out.
abbrev pub free_member : PaxosSharedContext
free_member = member_with 4 2 unix_epoch log_3 2 3

abbrev pub idle_clock : CountDownClock PaxosEvent
idle_clock = record {
  reset_notify = false;
  token_cancelled = false;
  is_running = false;
  task = none;
}

abbrev pub follows_1 : Follower
follows_1 = record {
  current_leader_id = some 1;
  vote_record = none;
  election_cd_clock = idle_clock;
}

abbrev pub campaign_5 : VoteRequest
campaign_5 = record { member_id = 2; term = 5; last_log_term = 2; last_log_slot = 3 }

abbrev pub vote_5 : VoteResponse × Follower × PaxosSharedContext
vote_5 =
    unwrap (vote_rejected free_member none none none none, follows_1, free_member)
      (Follower.handle_vote_request ticking follows_1 campaign_5 free_member)

pub votes_5 :
    (Follower.handle_vote_request ticking follows_1 campaign_5 free_member ≡ ok vote_5)
    × (is_promise vote_5.0 ≡ true)
unfolding Follower.handle_vote_request is_promise Follower.binding_vote Follower.weigh_vote_request
    is_leader_lease_expired extend_leader_lease_expiry_time add_time
votes_5 = (refl, refl)

is_promise-handle_vote_request_example :
    (r : VoteResponse × Follower × PaxosSharedContext) × (Follower.handle_vote_request ticking
        follows_1 campaign_5 free_member
      ≡ ok r)
    × ((is_promise r.0 ≡ true) ↔ MayVote noon follows_1 campaign_5 free_member)
is_promise-handle_vote_request_example =
    is_promise-handle_vote_request ticking follows_1 campaign_5 free_member (omega arith)

handle_vote_request-Voted_example : Voted ticking follows_1 campaign_5 free_member
handle_vote_request-Voted_example =
    handle_vote_request-Voted ticking follows_1 campaign_5 free_member

-- Member 3 asks for the same term, once the voter's lease has run out.
handle_vote_request_once_example :
    Follower.handle_vote_request ticking vote_5.1
      (record { member_id = 3; term = 5; last_log_term = 9; last_log_slot = 9 })
      free_member
    ≡ ok (vote_rejected free_member (some 1) none none (some 2), vote_5.1, free_member)
handle_vote_request_once_example =
    handle_vote_request_once ticking follows_1 campaign_5 free_member vote_5 votes_5.0 votes_5.1
      ticking (record { member_id = 3; term = 5; last_log_term = 9; last_log_slot = 9 }) free_member
      (omega arith)

-- The leader's log and the one of a follower that agrees with it up to slot 2 only.
abbrev pub leading : PaxosSharedContext
leading = member_with 1 2 (noon + 10000 * millisecond) log_3 2 3

abbrev pub behind_log : List LogEntry
behind_log = entry_at 1 1 ∷ entry_at 1 2 ∷ entry_at 1 3 ∷ entry_at 1 4 ∷ []

abbrev pub behind : PaxosSharedContext
behind = member_with 4 2 (noon + 10000 * millisecond) behind_log 1 4

abbrev pub probe_2 : AcceptRequest
probe_2 = Leader.accept_request noon 2 1 none leading

abbrev no_answer : AcceptResponse × PaxosSharedContext
no_answer = (Follower.accept_failed probe_2 behind none, behind)

abbrev taken_2 : AcceptResponse × PaxosSharedContext
taken_2 = unwrap no_answer (Follower.accept_entries probe_2 behind)

takes_2 : Follower.accept_entries probe_2 behind ≡ ok taken_2
unfolding Follower.accept_entries Follower.commit_request Leader.accept_request
    Follower.write_request Follower.promise_t_safe Follower.set_log_position Wal.get_entries_from
    from Follower.write_entries Leader.accept_entry
takes_2 = refl

get-accept_request_example : Wal.get 4 taken_2.1.wal ≡ Wal.get 4 leading.wal
get-accept_request_example =
    get-accept_request noon 2 1 none leading behind taken_2 4 wal_3-IsLog (omega arith) takes_2

accept_entries-get_example : Wal.get 4 taken_2.1.wal ≡ none
unfolding Leader.accept_request Wal.get_entries_from from Follower.log_entry Leader.accept_entry
accept_entries-get_example = accept_entries-get probe_2 behind taken_2 4 (omega arith) takes_2

abbrev pub answer_2 : AcceptResponse × PaxosSharedContext
answer_2 = unwrap no_answer (Follower.handle_accept_request ticking follows_1 probe_2 behind)

pub accepts_2 : Follower.handle_accept_request ticking follows_1 probe_2 behind ≡ ok answer_2
unfolding Follower.handle_accept_request Leader.accept_request is_leader_lease_expired
    Follower.is_leader Follower.extend_after Follower.check_anchor Wal.has_entry lookup Wal.get_term
    Follower.accept_entries Follower.commit_request Follower.write_request Follower.promise_t_safe
    extend_leader_lease_expiry_time add_time Follower.set_log_position Wal.get_entries_from from
    Follower.write_entries Leader.accept_entry
accepts_2 = refl

pub succeeds_2 : answer_2.0.success ≡ true
unfolding Follower.handle_accept_request Leader.accept_request is_leader_lease_expired
    Follower.is_leader Follower.extend_after Follower.check_anchor Wal.has_entry lookup Wal.get_term
    Follower.accept_entries Follower.commit_request Follower.write_request Follower.promise_t_safe
    extend_leader_lease_expiry_time add_time Follower.set_log_position Wal.get_entries_from from
    Follower.write_entries Leader.accept_entry
succeeds_2 = refl

agree_to_2 : (j : ℕ) → j ≤ 2 → Wal.get j behind.wal ≡ Wal.get j leading.wal
unfolding Wal.get lookup
agree_to_2 j h = ground arith

handle_accept_request-agrees_example : Wal.get 3 answer_2.1.wal ≡ Wal.get 3 leading.wal
handle_accept_request-agrees_example =
    handle_accept_request-agrees ticking follows_1 noon 2 1 none leading behind answer_2 wal_3-IsLog
      (omega arith) agree_to_2 accepts_2 succeeds_2 3

-- The anchor at slot 4, which the follower has in another term than the leader says.
abbrev probe_4 : AcceptRequest
probe_4 = Leader.accept_request noon 4 2 none leading

behind-IsLog : IsLog behind.wal
behind-IsLog = record { rises = omega arith; keyed = (refl, (refl, (refl, (refl, tt)))) }

check_anchor_example : Anchored probe_4 behind
check_anchor_example = check_anchor-Anchored probe_4 behind behind-IsLog

handle_accept_request-Returns_example :
    Returns (Follower.handle_accept_request ticking follows_1 probe_4 behind)
unfolding Leader.accept_request
handle_accept_request-Returns_example =
    handle_accept_request-Returns ticking follows_1 probe_4 behind behind-IsLog tt (omega arith)
