-- ===== src/Context.antt =====
-- spx_core/src/context: the state that the roles of one member share. `u32` sums wrap as in a
-- release build. A `Notify` is the permit that it may hold.
pub mod Progress
use spanner_paxos.Wal
use spanner_paxos.Base.{
  Bool, List, Option, Result, [], add_u32, false, if◌then◌else◌, length, ltb, none, ok, some, suc,
  true, ℕ, ◌*◌, ◌+◌, ◌/◌, ◌>>=◌,
}
use spanner_paxos.Map.{Map, from, lookup}
use spanner_paxos.Messages.{PaxosDispatcher, PreVoteRequest, Uuid, VoteRequest}
use spanner_paxos.TrueTime.{DateTime, add_time, after, millisecond, now, unix_epoch}
use spanner_paxos.Wal.{LogEntry, WriteAheadLog}

pub record LeaseState : Type 0 where
  pub expiry : Option DateTime
  pub notify : Bool

-- `LeaseState::new_expired`
unfoldable pub new_expired : LeaseState
new_expired = record { expiry = some unix_epoch; notify = false }

pub record PaxosSharedContext : Type 0 where
  pub member_id : Uuid
  pub peer_ids : List Uuid
  pub term : ℕ
  pub t_safe : Option DateTime
  pub lease : LeaseState
  pub lease_length : ℕ
  pub dispatcher : PaxosDispatcher
  pub last_log_term : ℕ
  pub last_log_slot : ℕ
  pub committed_slot : ℕ
  pub uncommitted_logs : Map LogEntry
  pub wal : WriteAheadLog
  pub write_flush : Bool
  pub accept_timeout_check : Bool
  pub heartbeat : Bool
  pub cancelled : Bool

-- `PaxosSharedContext::new`, with a lease of ten seconds.
unfoldable pub context_new : Uuid → List Uuid → PaxosDispatcher → PaxosSharedContext
unfolding new_expired Wal.new
context_new member_id peer_ids dispatcher = record {
  member_id = member_id;
  peer_ids = peer_ids;
  term = 0;
  t_safe = none;
  lease = new_expired;
  lease_length = 10000 * millisecond;
  dispatcher = dispatcher;
  last_log_term = 0;
  last_log_slot = 0;
  committed_slot = 0;
  uncommitted_logs = [];
  wal = Wal.new;
  write_flush = false;
  accept_timeout_check = false;
  heartbeat = false;
  cancelled = false;
}

unfoldable pub signal_write_flush : PaxosSharedContext → PaxosSharedContext
signal_write_flush ctx = record ctx { write_flush = true }

unfoldable pub get_next_term : PaxosSharedContext → ℕ
get_next_term ctx = add_u32 ctx.term 1

unfoldable pub increment_current_term : PaxosSharedContext → PaxosSharedContext
increment_current_term ctx = record ctx { term = add_u32 ctx.term 1 }

unfoldable pub get_quorum_size : PaxosSharedContext → ℕ
get_quorum_size ctx = (length ctx.peer_ids + 1) / 2 + 1

unfoldable pub update_leader_lease_expiry_time : DateTime → PaxosSharedContext → PaxosSharedContext
update_leader_lease_expiry_time expiry ctx = record ctx {
  lease = record { expiry = some expiry; notify = true };
}

-- At the clock reading `t`.
unfoldable pub extend_leader_lease_expiry_time :
    DateTime → PaxosSharedContext → Result PaxosSharedContext
unfolding update_leader_lease_expiry_time
extend_leader_lease_expiry_time t ctx = do
  expiry ← add_time (now t).latest ctx.lease_length
  ok (update_leader_lease_expiry_time expiry ctx)

unfoldable pub is_leader_lease_expired : DateTime → PaxosSharedContext → Bool
unfolding after
is_leader_lease_expired t ctx = elim ctx.lease.expiry [ none ↦ true | some expiry ↦ after expiry t ]

unfoldable pub create_pre_vote : PaxosSharedContext → PreVoteRequest
create_pre_vote ctx = record {
  member_id = ctx.member_id;
  next_term = add_u32 ctx.term 1;
  last_log_term = ctx.last_log_term;
  last_log_slot = ctx.last_log_slot;
}

unfoldable pub create_vote : PaxosSharedContext → VoteRequest
create_vote ctx = record {
  member_id = ctx.member_id;
  term = ctx.term;
  last_log_term = ctx.last_log_term;
  last_log_slot = ctx.last_log_slot;
}

-- `advance_t_safe`, on the field.
unfoldable pub later_t_safe : Option DateTime → DateTime → Option DateTime
later_t_safe none ts = some ts
later_t_safe (some current) ts = if ltb current ts then some ts else some current

unfoldable pub advance_t_safe : DateTime → PaxosSharedContext → PaxosSharedContext
unfolding later_t_safe
advance_t_safe ts ctx = record ctx { t_safe = later_t_safe ctx.t_safe ts }

-- `uncommitted_logs.retain(|&slot, _| slot > committed)`
unfoldable pub retain_above : ℕ → Map LogEntry → Map LogEntry
retain_above committed m = from (suc committed) m

-- `if let Some(entry) = … { ctx.advance_t_safe(entry.timestamp) }`
unfoldable pub advance_to_entry : Option LogEntry → PaxosSharedContext → PaxosSharedContext
unfolding advance_t_safe
advance_to_entry none ctx = ctx
advance_to_entry (some e) ctx = advance_t_safe e.timestamp ctx

-- What the leader and the follower do when a higher slot turns out committed: `set_committed_slot`,
-- `advance_t_safe` to the entry's timestamp if the entry is there, and the `retain`.
unfoldable pub commit_up_to : ℕ → PaxosSharedContext → PaxosSharedContext
unfolding advance_to_entry retain_above
commit_up_to slot ctx =
    let ctx' =
      advance_to_entry (lookup slot ctx.uncommitted_logs) (record ctx { committed_slot = slot }) in
    record ctx' { uncommitted_logs = retain_above slot ctx'.uncommitted_logs }
