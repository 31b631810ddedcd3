-- ===== src/Follower/Entries.antt =====
-- spx_core/src/roles/follower.rs: accept requests.
use spanner_paxos.Wal
use spanner_paxos.Base.{
  Bool, List, Option, Result, [], add_u32, expect, false, if◌then◌else◌, last?, ltb, min, none, not,
  ok, some, true, ℕ, ◌==◌, ◌>>=◌, ◌||◌, ◌∷◌,
}
use spanner_paxos.Context.{
  PaxosSharedContext, advance_t_safe, commit_up_to, extend_leader_lease_expiry_time,
  is_leader_lease_expired,
}
use spanner_paxos.Map.{Map, insert}
use spanner_paxos.Messages.{AcceptLogEntry, AcceptRequest, AcceptResponse, ConflictHint, Uuid}
use spanner_paxos.TrueTime.{Clock, DateTime, millisecond, sub_time}
use spanner_paxos.Wal.{LogEntry, WriteAheadLog}
use spanner_paxos.Follower.Ballots.{Follower}

abbrev pub accept_failed : AcceptRequest → PaxosSharedContext → Option ConflictHint → AcceptResponse
accept_failed request ctx hint = record {
  member_id = ctx.member_id;
  term = ctx.term;
  success = false;
  last_written_slot = 0;
  conflict_hint = hint;
  echoed_t_send = request.t_send;
}

unfoldable pub log_entry : AcceptLogEntry → LogEntry
log_entry e = record { term = e.term; slot = e.slot; entry = e.entry; timestamp = e.timestamp }

-- The loop over the request's entries: the log, the uncommitted entries and `last_written_slot`.
unfoldable pub write_entries :
    List AcceptLogEntry → WriteAheadLog → Map LogEntry → ℕ → WriteAheadLog × Map LogEntry × ℕ
write_entries [] wal logs last_written = (wal, logs, last_written)
write_entries (e ∷ es) wal logs last_written =
    write_entries es (Wal.append (log_entry e) wal) (insert e.slot (log_entry e) logs) e.slot

-- `if let Some(last) = request.entries.last()`
unfoldable pub set_log_position : Option AcceptLogEntry → PaxosSharedContext → PaxosSharedContext
set_log_position none ctx = ctx
set_log_position (some last) ctx = record ctx {
  last_log_slot = last.slot;
  last_log_term = last.term;
}

-- The anchor matches: truncate, and append the entries.
unfoldable pub write_request : AcceptRequest → PaxosSharedContext → PaxosSharedContext × ℕ
write_request request ctx =
    let wal = Wal.truncate_from (add_u32 request.prev_log_slot 1) ctx.wal in
    let (wal', logs, last_written) =
      write_entries request.entries wal ctx.uncommitted_logs request.prev_log_slot in
    (
      set_log_position (last? request.entries) (record ctx { wal = wal'; uncommitted_logs = logs }),
      last_written,
    )

-- `else if let Some(min_next_ts) = request.min_next_ts`
unfoldable pub promise_t_safe : Option DateTime → PaxosSharedContext → Result PaxosSharedContext
promise_t_safe none ctx = ok ctx
promise_t_safe (some min_next_ts) ctx = do
  ts ← sub_time min_next_ts millisecond
  ok (advance_t_safe ts ctx)

unfoldable pub commit_request : AcceptRequest → ℕ → PaxosSharedContext → Result PaxosSharedContext
commit_request request last_written ctx =
    let slot = min request.leader_commit_slot last_written in
    if ltb ctx.committed_slot slot
    then ok (commit_up_to slot ctx)
    else promise_t_safe request.min_next_ts ctx

unfoldable pub accept_entries :
    AcceptRequest → PaxosSharedContext → Result (AcceptResponse × PaxosSharedContext)
accept_entries request ctx = do
  let (ctx', last_written) = write_request request ctx
  ctx'' ← commit_request request last_written ctx'
  ok (
    record {
      member_id = ctx.member_id;
      term = ctx.term;
      success = true;
      last_written_slot = last_written;
      conflict_hint = none;
      echoed_t_send = request.t_send;
    },
    ctx'',
  )

abbrev pub short_log : PaxosSharedContext → ConflictHint
short_log ctx = record { conflict_term = 0; conflict_first_slot = add_u32 ctx.last_log_slot 1 }

-- The term that the log holds at the anchor differs. The `expect` panics if the log has no slot of
-- that term.
unfoldable pub mismatch_hint : ℕ → PaxosSharedContext → Result ConflictHint
mismatch_hint local_term ctx = do
  slot ← expect (Wal.find_lowest_slot_for_term local_term ctx.wal)
  ok (record { conflict_term = local_term; conflict_first_slot = slot })

-- The three-way test of the anchor.
unfoldable pub check_anchor :
    AcceptRequest → PaxosSharedContext → Result (AcceptResponse × PaxosSharedContext)
check_anchor request ctx =
    if request.prev_log_slot == 0
    then accept_entries request ctx
    else if not (Wal.has_entry request.prev_log_slot ctx.wal)
    then ok (accept_failed request ctx (some (short_log ctx)), ctx)
    else do
      local_term ← expect (Wal.get_term request.prev_log_slot ctx.wal)
      if local_term == request.prev_log_term then accept_entries request ctx else do
        hint ← mismatch_hint local_term ctx
        ok (accept_failed request ctx (some hint), ctx)

-- `self.current_leader_id != Some(request.leader_id)`
unfoldable pub is_leader : Option Uuid → Uuid → Bool
is_leader none id = false
is_leader (some leader) id = leader == id

-- The lease is extended whatever the anchor's test came to.
unfoldable pub extend_after :
    DateTime
    → Result (AcceptResponse × PaxosSharedContext)
    → Result (AcceptResponse × PaxosSharedContext)
extend_after t m = do
  (response, ctx) ← m
  ctx' ← extend_leader_lease_expiry_time t ctx
  ok (response, ctx')

-- The readings are those of the test of the lease and of its extension. The follower itself does
-- not change.
unfoldable pub handle_accept_request :
    Clock
    → Follower
    → AcceptRequest
    → PaxosSharedContext
    → Result (AcceptResponse × PaxosSharedContext)
handle_accept_request clock f request ctx =
    if ltb request.term ctx.term
    then ok (accept_failed request ctx none, ctx)
    else if is_leader_lease_expired (clock 0) ctx
        || not (is_leader f.current_leader_id request.leader_id)
    then ok (accept_failed request ctx none, ctx)
    else extend_after (clock 1) (check_anchor request ctx)
