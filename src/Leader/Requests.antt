-- ===== src/Leader/Requests.antt =====
-- spx_core/src/roles/leader.rs: the accept requests that a leader sends.
use spanner_paxos.Wal
use spanner_paxos.Base.{
  List, Option, Result, [], add_u32, expect, if◌then◌else◌, last?, ltb, map, none, ok, some, suc, ℕ,
  ◌++◌, ◌-◌, ◌==◌, ◌>>=◌, ◌∷◌,
}
use spanner_paxos.Context.{PaxosSharedContext}
use spanner_paxos.Map.{insert, keys, lookup, map_values, values}
use spanner_paxos.Messages.{
  AcceptLogEntry, AcceptRequest, Action, Uuid, dispatch, dispatched_accept,
}
use spanner_paxos.TrueTime.{Clock, DateTime, now}
use spanner_paxos.Wal.{LogEntry, WriteAheadLog}
use spanner_paxos.Leader.State.{LogPosition, FollowerState, push_batch, Leader}

-- The slot that must immediately precede the entries of the next request.
unfoldable pub anchor_slot : LogPosition → ℕ
anchor_slot pos = if ltb pos.next_slot pos.sent_slot then pos.sent_slot else pos.next_slot - 1

unfoldable pub accept_entry : LogEntry → AcceptLogEntry
accept_entry e = record { term = e.term; slot = e.slot; entry = e.entry; timestamp = e.timestamp }

-- The term at the anchor: 0 at slot 0, and a panic if the log has no such slot.
unfoldable pub anchor_term : ℕ → PaxosSharedContext → Result ℕ
anchor_term prev_log_slot ctx =
    if prev_log_slot == 0 then ok 0 else expect (Wal.get_term prev_log_slot ctx.wal)

unfoldable pub accept_request :
    DateTime → ℕ → ℕ → Option DateTime → PaxosSharedContext → AcceptRequest
accept_request t prev_log_slot prev_log_term min_next_ts ctx = record {
  term = ctx.term;
  leader_id = ctx.member_id;
  prev_log_slot = prev_log_slot;
  prev_log_term = prev_log_term;
  entries = map accept_entry (Wal.get_entries_from (add_u32 prev_log_slot 1) ctx.wal);
  leader_commit_slot = ctx.committed_slot;
  t_send = (now t).earliest;
  min_next_ts = min_next_ts;
}

-- `if let Some(log) = last_sent_log`
unfoldable pub note_sent : Option AcceptLogEntry → DateTime → FollowerState → FollowerState
note_sent none t_send fs = fs
note_sent (some log) t_send fs =
    push_batch log.slot t_send
      (record fs { log_position = record fs.log_position { sent_slot = log.slot } })

-- At the reading `t`.
unfoldable pub dispatch_accept_request_to_follower :
    DateTime → Uuid → Option DateTime → Leader → PaxosSharedContext → Result (Leader × List Action)
dispatch_accept_request_to_follower t member min_next_ts l ctx = do
  fs ← expect (lookup member l.score_board)
  prev_log_term ← anchor_term (anchor_slot fs.log_position) ctx
  let request = accept_request t (anchor_slot fs.log_position) prev_log_term min_next_ts ctx
  actions ←
      dispatch (ctx.dispatcher.dispatch_accept_request member request)
        (dispatched_accept member request)
  ok (
    record l {
      score_board =
          insert member (note_sent (last? request.entries) request.t_send fs) l.score_board;
    },
    actions,
  )

-- The loop of `dispatch_accept_request`, from the reading numbered `i` on.
unfoldable pub dispatch_to_members :
    Clock
    → ℕ
    → List Uuid
    → Option DateTime
    → Leader
    → PaxosSharedContext
    → Result (Leader × List Action)
dispatch_to_members clock i [] min_next_ts l ctx = ok (l, [])
dispatch_to_members clock i (member ∷ members) min_next_ts l ctx = do
  (l', actions) ← dispatch_accept_request_to_follower (clock i) member min_next_ts l ctx
  (l'', more) ← dispatch_to_members clock (suc i) members min_next_ts l' ctx
  ok (l'', actions ++ more)

unfoldable pub dispatch_accept_request :
    Clock → ℕ → Option DateTime → Leader → PaxosSharedContext → Result (Leader × List Action)
dispatch_accept_request clock i min_next_ts l ctx =
    dispatch_to_members clock i (keys l.score_board) min_next_ts l ctx

unfoldable pub append_all : List LogEntry → WriteAheadLog → WriteAheadLog
append_all [] wal = wal
append_all (e ∷ es) wal = append_all es (Wal.append e wal)

-- `if let Some(last) = entries.last()`: the log position, and every peer's `next_slot`.
unfoldable pub advance_log :
    Option LogEntry → Leader → PaxosSharedContext → Leader × PaxosSharedContext
advance_log none l ctx = (l, ctx)
advance_log (some last) l ctx = (
  record l {
    score_board =
        map_values
          (λ (fs : FollowerState). record fs {
            log_position = record fs.log_position { next_slot = add_u32 last.slot 1 };
          })
          l.score_board;
  },
  record ctx { last_log_slot = last.slot; last_log_term = ctx.term },
)

unfoldable pub process_uncommitted_logs :
    Clock → ℕ → Leader → PaxosSharedContext → Result (Leader × PaxosSharedContext × List Action)
process_uncommitted_logs clock i l ctx = do
  let logs = map_values (λ (e : LogEntry). record e { term = ctx.term }) ctx.uncommitted_logs
  let (l', ctx') =
      advance_log (last? (values logs)) l
        (record ctx { uncommitted_logs = logs; wal = append_all (values logs) ctx.wal })
  (l'', actions) ← dispatch_accept_request clock i none l' ctx'
  ok (l'', ctx', actions)
