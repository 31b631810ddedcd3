-- ===== src/Leader/Answers.antt =====
-- spx_core/src/roles/leader.rs: what a leader makes of the responses that it gets.
use spanner_paxos.Wal
use spanner_paxos.Follower
use spanner_paxos.Base.{
  Bool, List, Option, Result, [], add_u32, expect, false, get_elem?, if◌then◌else◌, ltb, max, min?,
  none, not, ok, some, sort_desc, sub_usize, take, true, ℕ, ◌&&◌, ◌++◌, ◌==◌, ◌>>=◌, ◌∷◌,
}
use spanner_paxos.Context.{
  PaxosSharedContext, commit_up_to, get_quorum_size, is_leader_lease_expired,
  update_leader_lease_expiry_time,
}
use spanner_paxos.Follower.{Follower}
use spanner_paxos.Map.{insert, lookup, map_values, values}
use spanner_paxos.Messages.{
  AcceptResponse, Action, ConflictHint, PreVoteResponse, Uuid, VoteResponse, prevote_leader,
  vote_leader,
}
use spanner_paxos.TrueTime.{DateTime, add_time}
use spanner_paxos.Wal.{LogEntry, WriteAheadLog}
use spanner_paxos.Leader.State.{FollowerState, ack_batches_up_to, clear_in_flight_batches, Leader}
use spanner_paxos.Leader.Requests.{dispatch_accept_request_to_follower}
use spanner_paxos.Leader.Writes.{resolve_in_flight_writes}

-- The latest `t_send` that the follower has echoed.
unfoldable pub note_contact : AcceptResponse → Leader → Leader
note_contact response l = record l {
  last_contact =
      insert response.member_id
        (elim (lookup response.member_id l.last_contact) [
          | none ↦ response.echoed_t_send
          | some t ↦ max t response.echoed_t_send
        ])
        l.last_contact;
}

-- `if current_expiry.map_or(true, |current| proposed_expiry > current)`
unfoldable pub propose_expiry : DateTime → Option DateTime → PaxosSharedContext → PaxosSharedContext
propose_expiry proposed none ctx = update_leader_lease_expiry_time proposed ctx
propose_expiry proposed (some current) ctx =
    if ltb current proposed then update_leader_lease_expiry_time proposed ctx else ctx

-- Extend the lease if a quorum of followers has been in contact.
unfoldable pub renew_lease : Leader → PaxosSharedContext → Result PaxosSharedContext
renew_lease l ctx =
    elim (get_elem? (sort_desc (values l.last_contact)) (sub_usize (get_quorum_size ctx) 2)) [
      | none ↦ ok ctx
      | some t_quorum ↦ (do
        proposed ← add_time t_quorum ctx.lease_length
        ok (propose_expiry proposed ctx.lease.expiry ctx))
    ]

-- The highest slot that is guaranteed on a quorum.
unfoldable pub min_quorum_slot : Leader → PaxosSharedContext → ℕ
min_quorum_slot l ctx =
    let slots =
      sort_desc
        (values (map_values (λ (fs : FollowerState). fs.log_position.match_slot) l.score_board)) in
    elim (min? (take (sub_usize (get_quorum_size ctx) 1) slots ++ ctx.last_log_slot ∷ [])) [
      | none ↦ 0
      | some slot ↦ slot
    ]

unfoldable pub advance_match : ℕ → FollowerState → FollowerState
advance_match written fs = ack_batches_up_to written (record fs {
  log_position = record {
    match_slot = written;
    next_slot = add_u32 written 1;
    sent_slot =
        if ltb fs.log_position.sent_slot written then written else fs.log_position.sent_slot;
  };
})

unfoldable pub commit_quorum :
    Leader → PaxosSharedContext → Leader × PaxosSharedContext × List Action
commit_quorum l ctx =
    let slot = min_quorum_slot l ctx in
    if ltb ctx.committed_slot slot
    then (let (l', actions) = resolve_in_flight_writes slot l in
        (l', commit_up_to slot ctx, actions))
    else (l, ctx, [])

-- A response with `success`.
unfoldable pub record_success :
    AcceptResponse
    → Leader
    → PaxosSharedContext
    → Result (Leader × PaxosSharedContext × List Action)
record_success response l ctx = do
  fs ← expect (lookup response.member_id l.score_board)
  ok (
      if ltb fs.log_position.match_slot response.last_written_slot
      then commit_quorum
          (record l {
            score_board =
                insert response.member_id (advance_match response.last_written_slot fs)
                  l.score_board;
          })
          ctx
      else (l, ctx, []))

-- Where to probe the follower's log next.
unfoldable pub next_probe : ConflictHint → PaxosSharedContext → ℕ
next_probe hint ctx =
    if hint.conflict_term == 0
    then hint.conflict_first_slot
    else elim (Wal.find_highest_slot_for_term hint.conflict_term ctx.wal) [
      | some last ↦ add_u32 last 1
      | none ↦ hint.conflict_first_slot
    ]

unfoldable pub realign : ConflictHint → FollowerState → PaxosSharedContext → FollowerState
realign hint fs ctx =
    let cleared = clear_in_flight_batches fs in
    record cleared {
      log_position = record cleared.log_position { next_slot = next_probe hint ctx };
    }

-- A rejection with a hint.
unfoldable pub follow_hint :
    DateTime
    → AcceptResponse
    → ConflictHint
    → Leader
    → PaxosSharedContext
    → Result (Leader × PaxosSharedContext × List Action)
follow_hint t response hint l ctx = do
  fs ← expect (lookup response.member_id l.score_board)
  (l', actions) ←
      dispatch_accept_request_to_follower t response.member_id none
        (record l { score_board = insert response.member_id (realign hint fs ctx) l.score_board })
        ctx
  ok (l', ctx, actions)

unfoldable pub use_response :
    DateTime
    → AcceptResponse
    → Leader
    → PaxosSharedContext
    → Result (Leader × PaxosSharedContext × List Action)
use_response t response l ctx = do
  let l' = note_contact response l
  ctx' ← renew_lease l' ctx
  if response.success then record_success response l' ctx' else elim response.conflict_hint [
    | none ↦ ok (l', ctx', [])
    | some hint ↦ follow_hint t response hint l' ctx'
  ]

unfoldable pub is_some : {A : Type 0} → Option A → Bool
is_some none = false
is_some (some a) = true

unfoldable pub handle_accept_response :
    DateTime
    → AcceptResponse
    → Leader
    → PaxosSharedContext
    → Result (Leader × PaxosSharedContext × List Action)
handle_accept_response t response l ctx =
    if ltb response.term ctx.term
    then ok (l, ctx, [])
    else if not response.success && not (is_some response.conflict_hint)
    then ok (l, ctx, [])
    else use_response t response l ctx

-- The follower that a leader becomes on a response, if its lease has expired.
unfoldable pub step_down : DateTime → ℕ → Option Uuid → PaxosSharedContext → Option Follower
step_down t term leader ctx =
    if ltb term ctx.term
    then none
    else if not (is_leader_lease_expired t ctx)
    then none
    else some (Follower.new leader)

unfoldable pub handle_pre_vote_response :
    DateTime → PreVoteResponse → PaxosSharedContext → Option Follower
handle_pre_vote_response t response ctx =
    step_down t response.term (prevote_leader response (λ term. true)) ctx

unfoldable pub handle_vote_response : DateTime → VoteResponse → PaxosSharedContext → Option Follower
handle_vote_response t response ctx =
    step_down t response.term (vote_leader response (λ term. true)) ctx
