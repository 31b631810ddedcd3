-- ===== src/Candidate.antt =====
-- spx_core/src/roles/candidate.rs, without the event dispatch.
pub mod Recovery
pub mod Pending
pub mod Progress
pub mod Boards
pub mod Terms
use spanner_paxos.Follower
use spanner_paxos.Leader
use spanner_paxos.Base.{
  Bool, List, Option, Result, [], add_u32, expect, if◌then◌else◌, leb, length, ltb, min, none, ok,
  some, true, ℕ, ◌+◌, ◌==◌, ◌>>=◌, ◌∷◌,
}
use spanner_paxos.Context.{PaxosSharedContext, create_vote, update_leader_lease_expiry_time}
use spanner_paxos.CountDownClock.{CountDownClock, clock_new, start_fixed}
use spanner_paxos.Follower.{
  Campaign, Follower, all_responded, count_votes, for_peers, is_quorum, lost, undecided,
  vote_rejected, won,
}
use spanner_paxos.Leader.{Leader, LogPosition, with_next_slot}
use spanner_paxos.Map.{Map, insert, lookup}
use spanner_paxos.Messages.{
  Action, PaxosEvent, Uuid, VotePromise, VoteResponse, dispatch, dispatched_vote, is_promise,
  promise, rejection, vote_campaign_expired,
}
use spanner_paxos.TrueTime.{Clock, DateTime, add_time, before, now}
use spanner_paxos.Wal.{LogEntry}

pub record Candidate : Type 0 where
  pub vote_board : Map (Option VoteResponse)
  pub score_board : Map LogPosition
  pub vote_dispatch_time : Option DateTime
  pub vote_cd_clock : CountDownClock PaxosEvent
  pub pending_uncommitted_logs : Map LogEntry

unfoldable pub new : PaxosSharedContext → Candidate
new ctx = record {
  vote_board = for_peers none ctx.peer_ids;
  score_board = for_peers (with_next_slot (add_u32 ctx.last_log_slot 1)) ctx.peer_ids;
  vote_dispatch_time = none;
  vote_cd_clock = clock_new;
  pending_uncommitted_logs = [];
}

-- At the reading `t`.
unfoldable pub dispatch_vote :
    DateTime → Candidate → PaxosSharedContext → Result (Candidate × List Action)
dispatch_vote t c ctx = do
  actions ←
      dispatch (ctx.dispatcher.dispatch_vote_request (create_vote ctx))
        (dispatched_vote (create_vote ctx))
  ok (
    record c {
      vote_dispatch_time = some (now t).earliest;
      vote_cd_clock = start_fixed 3000 vote_campaign_expired c.vote_cd_clock;
    },
    actions,
  )

unfoldable pub handle_vote_request : PaxosSharedContext → VoteResponse
handle_vote_request ctx = vote_rejected ctx none none none (some ctx.member_id)

unfoldable pub has_all_vote_responses : Candidate → Bool
has_all_vote_responses c = all_responded c.vote_board

unfoldable pub has_vote_quorum : Candidate → Bool
has_vote_quorum c = is_quorum (count_votes is_promise c.vote_board) (length c.vote_board)

-- `map_or(true, |existing| entry.term > existing.term)`
unfoldable pub should_insert : LogEntry → Option LogEntry → Bool
should_insert e none = true
should_insert e (some existing) = ltb existing.term e.term

-- The loop of `merge_uncommitted_logs`.
unfoldable pub merge_logs : List LogEntry → Map LogEntry → Map LogEntry
merge_logs [] logs = logs
merge_logs (e ∷ es) logs =
    merge_logs es (if should_insert e (lookup e.slot logs) then insert e.slot e logs else logs)

-- The loop of `flush_uncommitted_logs`.
unfoldable pub flush_logs : ℕ → Map LogEntry → Map LogEntry → Map LogEntry
flush_logs committed [] logs = logs
flush_logs committed ((slot, e) ∷ pending) logs = flush_logs committed pending (
    if leb slot committed
    then logs
    else if should_insert e (lookup slot logs)
    then insert slot e logs
    else logs)

unfoldable pub flush_uncommitted_logs : Candidate → PaxosSharedContext → PaxosSharedContext
flush_uncommitted_logs c ctx = record ctx {
  uncommitted_logs = flush_logs ctx.committed_slot c.pending_uncommitted_logs ctx.uncommitted_logs;
}

-- The panics are those of an unset dispatch time and of the sum.
unfoldable pub compute_leader_lease_expiry : Candidate → PaxosSharedContext → Result DateTime
compute_leader_lease_expiry c ctx = do t ← expect c.vote_dispatch_time; add_time t ctx.lease_length

unfoldable pub seed_score : Uuid → ℕ → Candidate → Result Candidate
seed_score member match_slot c = do
  pos ← expect (lookup member c.score_board)
  ok (record c {
    score_board = insert member (record pos { match_slot = match_slot }) c.score_board;
  })

-- A promise seeds the score board, if it ends in the same term, and brings its entries.
unfoldable pub record_promise :
    Uuid → VotePromise → Candidate → PaxosSharedContext → Result Candidate
record_promise member p c ctx =
    let logs = merge_logs p.uncommitted_entries c.pending_uncommitted_logs in
    if p.last_log_term == ctx.last_log_term
    then seed_score member (min p.last_log_slot ctx.last_log_slot)
        (record c { pending_uncommitted_logs = logs })
    else ok (record c { pending_uncommitted_logs = logs })

unfoldable pub record_response : VoteResponse → Candidate → PaxosSharedContext → Result Candidate
record_response response c ctx =
    let c' = record c { vote_board = insert response.member_id (some response) c.vote_board } in
    elim response.outcome [
      | promise p ↦ record_promise response.member_id p c' ctx
      | rejection j ↦ ok c'
    ]

unfoldable pub lead :
    Clock
    → Candidate
    → PaxosSharedContext
    → Result (Campaign Candidate Leader × PaxosSharedContext × List Action)
lead clock c ctx = do
  (l, ctx', actions) ←
      Leader.process_uncommitted_logs clock 1 (Leader.new c.score_board)
        (flush_uncommitted_logs c ctx)
  ok (won l, ctx', actions)

-- Quorum reached: the lease, and the transition to a leader unless the lease has already run out.
-- The readings are that of the test of the lease, and those of the dispatch.
unfoldable pub take_lead :
    Clock
    → Candidate
    → PaxosSharedContext
    → Result (Campaign Candidate Leader × PaxosSharedContext × List Action)
take_lead clock c ctx = do
  expiry ← compute_leader_lease_expiry c ctx
  let ctx' = update_leader_lease_expiry_time expiry ctx
  if before expiry (clock 0) then lead clock c ctx' else ok (lost (Follower.new none), ctx', [])

unfoldable pub handle_vote_response :
    Clock
    → VoteResponse
    → Candidate
    → PaxosSharedContext
    → Result (Campaign Candidate Leader × PaxosSharedContext × List Action)
handle_vote_response clock response c ctx = do
  c' ← record_response response c ctx
  if has_vote_quorum c'
      then take_lead clock c' ctx
      else if has_all_vote_responses c'
      then ok (lost (Follower.new none), ctx, [])
      else ok (undecided c', ctx, [])
