-- ===== src/Leader/Writes.antt =====
-- spx_core/src/roles/leader.rs: client writes, heartbeats and the checks on timers.
use spanner_paxos.Wal
use spanner_paxos.Base.{
  Bool, List, Result, String, [], add_u32, add_usize, false, if◌then◌else◌, leb, ltb, min, none, ok,
  some, true, ℕ, ◌++◌, ◌-◌, ◌==◌, ◌>>=◌, ◌∷◌,
}
use spanner_paxos.Context.{PaxosSharedContext, advance_t_safe, signal_write_flush}
use spanner_paxos.CountDownClock.{reset}
use spanner_paxos.Map.{Map, below, from, insert, map_values}
use spanner_paxos.Messages.{
  Action, ClientWriteRequest, ClientWriteResponse, PaxosCommand, answered_write, send_ignoring,
  waited_past,
}
use spanner_paxos.TrueTime.{Clock, DateTime, millisecond, now, sub_time}
use spanner_paxos.Wal.{LogEntry, WriteAheadLog}
use spanner_paxos.Leader.State.{
  InFlightBatch, FollowerState, clear_in_flight_batches, Leader, accept_request_timeout,
  start_heartbeat_countdown,
}
use spanner_paxos.Leader.Requests.{dispatch_accept_request}

abbrev write_done : ClientWriteResponse
write_done = record { success = true; error = none }

-- The loop over the committed writes: each waits out its timestamp, then answers its client.
unfoldable pub answer_writes : Map (DateTime × PaxosCommand ClientWriteRequest) → List Action
answer_writes [] = []
answer_writes ((slot, (timestamp, cmd)) ∷ m) =
    waited_past timestamp ∷ send_ignoring cmd (λ tx. answered_write tx write_done)
    ++ answer_writes m

unfoldable pub resolve_in_flight_writes : ℕ → Leader → Leader × List Action
resolve_in_flight_writes committed l = (
  record l { in_flight_writes = from (add_u32 committed 1) l.in_flight_writes },
  answer_writes (below (add_u32 committed 1) l.in_flight_writes),
)

-- The entry that a client write becomes, at the reading `t`.
unfoldable pub client_entry : DateTime → String → PaxosSharedContext → LogEntry
client_entry t value ctx = record {
  term = ctx.term;
  slot = add_u32 ctx.last_log_slot 1;
  entry = value;
  timestamp = (now t).latest;
}

unfoldable pub append_client_entry : LogEntry → PaxosSharedContext → PaxosSharedContext
append_client_entry e ctx = record ctx {
  wal = Wal.append e ctx.wal;
  last_log_slot = e.slot;
  last_log_term = ctx.term;
  uncommitted_logs = insert e.slot e ctx.uncommitted_logs;
}

unfoldable pub handle_client_write :
    DateTime
    → PaxosCommand ClientWriteRequest
    → Leader
    → PaxosSharedContext
    → Leader × PaxosSharedContext
handle_client_write t command l ctx =
    let e = client_entry t command.request.value ctx in
    let count = add_usize l.pending_write_count 1 in
    let ctx' = append_client_entry e ctx in
    (
      record l {
        in_flight_writes = insert e.slot (e.timestamp, command) l.in_flight_writes;
        pending_write_count = count;
        heartbeat_cd_clock = reset l.heartbeat_cd_clock;
      },
      if leb l.write_batch_size count then signal_write_flush ctx' else ctx',
    )

-- `min_next_ts`: the latest time, but no later than the lease.
unfoldable pub heartbeat_ts : DateTime → PaxosSharedContext → DateTime
heartbeat_ts t ctx = elim ctx.lease.expiry [
  | none ↦ (now t).latest
  | some expiry ↦ min (now t).latest expiry
]

unfoldable pub handle_heartbeat_timer :
    Clock → Leader → PaxosSharedContext → Result (Leader × PaxosSharedContext × List Action)
unfolding start_heartbeat_countdown
handle_heartbeat_timer clock l ctx = do
  let ts = heartbeat_ts (clock 0) ctx
  safe ← sub_time ts millisecond
  let ctx' = advance_t_safe safe ctx
  (l', actions) ← dispatch_accept_request clock 1 (some ts) l ctx'
  ok (
    record l' { heartbeat_cd_clock = start_heartbeat_countdown l'.heartbeat_cd_clock },
    ctx',
    actions,
  )

unfoldable pub handle_write_flush :
    Clock → Leader → PaxosSharedContext → Result (Leader × List Action)
handle_write_flush clock l ctx = if l.pending_write_count == 0 then ok (l, []) else do
  (l', actions) ← dispatch_accept_request clock 0 none l ctx
  ok (record l' { pending_write_count = 0 }, actions)

-- `front().is_some_and(|b| now - b.sent_at > timeout)`; a batch sent after `now` is no older than it.
unfoldable pub is_timed_out : DateTime → List InFlightBatch → Bool
is_timed_out t [] = false
is_timed_out t (b ∷ bs) = ltb accept_request_timeout (t - b.sent_at)

unfoldable pub expire_batches : DateTime → FollowerState → FollowerState
expire_batches t fs = if is_timed_out t fs.in_flight_batches then clear_in_flight_batches fs else fs

unfoldable pub handle_accept_timeout_check : DateTime → Leader → Leader
handle_accept_timeout_check t l = record l {
  score_board = map_values (expire_batches t) l.score_board;
}
