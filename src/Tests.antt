-- ===== src/Tests.antt =====
-- Concrete inputs on which the theorems apply: a group of members 1, 2 and 3.
mod Logs
pub mod Members
mod Leaders
mod Leases
mod Groups
mod Tallies
mod Sent
mod Runners
mod Loops
mod Calls
mod Elections
use spanner_paxos.Base.{
  List, Result, [], arith, err, false, none, ok, panic, refl, some, true, ℕ, ◌*◌, ◌+◌, ◌∷◌,
}
use spanner_paxos.Context.{PaxosSharedContext}
use spanner_paxos.Map.{Map}
use spanner_paxos.Messages.{PaxosDispatcher}
use spanner_paxos.TrueTime.{Clock, DateTime, millisecond, unix_epoch}
use spanner_paxos.Wal.{LogEntry, WriteAheadLog}
use spanner_paxos.Wal.Writes.{IsLog}

-- What a handler returned, or the first value if it did not.
abbrev pub unwrap {ℓ} : {A : Type ℓ} → A → Result A → A
unwrap a (ok b) = b
unwrap a (err e) = a
unwrap a panic = a

abbrev pub network : PaxosDispatcher
network = record {
  dispatch_prevote_request = λ r. true;
  dispatch_vote_request = λ r. true;
  dispatch_accept_request = λ id r. true;
  dispatch_client_write = λ id r. true;
}

abbrev pub entry_at : ℕ → ℕ → LogEntry
entry_at term slot = record {
  term = term;
  slot = slot;
  entry = "put";
  timestamp = unix_epoch + slot * millisecond;
}

abbrev pub keyed : List LogEntry → Map LogEntry
keyed [] = []
keyed (e ∷ es) = (e.slot, e) ∷ keyed es

-- A member in a term, with a lease up to a time, a log and its uncommitted entries.
abbrev pub member_with : ℕ → ℕ → DateTime → List LogEntry → ℕ → ℕ → PaxosSharedContext
member_with id term lease log last_term last_slot = record {
  member_id = id;
  peer_ids = 2 ∷ 3 ∷ [];
  term = term;
  t_safe = none;
  lease = record { expiry = some lease; notify = false };
  lease_length = 10000 * millisecond;
  dispatcher = network;
  last_log_term = last_term;
  last_log_slot = last_slot;
  committed_slot = 0;
  uncommitted_logs = keyed log;
  wal = record { entries = keyed log };
  write_flush = false;
  accept_timeout_check = false;
  heartbeat = false;
  cancelled = false;
}

-- Some time after the epoch, and readings a millisecond apart.
abbrev pub noon : DateTime
noon = unix_epoch + 1000000000000

abbrev pub ticking : Clock
ticking i = noon + i * millisecond

abbrev pub log_3 : List LogEntry
log_3 = entry_at 1 1 ∷ entry_at 1 2 ∷ entry_at 2 3 ∷ []

abbrev pub wal_3 : WriteAheadLog
wal_3 = record { entries = keyed log_3 }

pub wal_3-IsLog : IsLog wal_3
wal_3-IsLog = record { rises = omega arith; keyed = (refl, (refl, (refl, tt))) }
