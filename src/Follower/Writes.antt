-- ===== src/Follower/Writes.antt =====
-- spx_core/src/roles/follower.rs: the writes and the commit of an accept request.
use spanner_paxos.Follower
use spanner_paxos.Wal
use spanner_paxos.Base.{
  >>=-eq-ok, Bool-cases, List, Option, [], arith, false, if◌then◌else◌, inl, inr, last?, leb, ltb,
  map, max, min, none, ok, ok-inj, refl, some, sym, tests, ℕ, ◌&&◌, ◌∙◌, ◌∷◌, ◌≡◌,
}
use spanner_paxos.Context.{PaxosSharedContext, advance_t_safe, advance_to_entry, commit_up_to}
use spanner_paxos.Context.Progress.{commit_up_to_lem}
use spanner_paxos.Follower.{Follower}
use spanner_paxos.Map.{Map, insert, lookup}
use spanner_paxos.Map.Laws.{lookup-insert}
use spanner_paxos.Messages.{AcceptLogEntry, AcceptRequest}
use spanner_paxos.TrueTime.{DateTime, millisecond, sub_time}
use spanner_paxos.Wal.{LogEntry, WriteAheadLog}
use spanner_paxos.Wal.Writes.{IsLog, append-IsLog, get-append, last_at}

-- The loop writes the entries in order, to the log and to the uncommitted entries alike; the last
-- entry of each slot stays.
pub write_entries-get :
    (es : List AcceptLogEntry) (wal : WriteAheadLog) (logs : Map LogEntry) (n j : ℕ)
    → Wal.get j (Follower.write_entries es wal logs n).0
      ≡ elim (last_at j (map Follower.log_entry es)) [ some x ↦ some x | none ↦ Wal.get j wal ]
unfolding Follower.write_entries Follower.log_entry
write_entries-get [] wal logs n j = refl
write_entries-get (e ∷ es) wal logs n j = ground (
  arith,
  write_entries-get es (Wal.append (Follower.log_entry e) wal)
      (insert e.slot (Follower.log_entry e) logs) e.slot j,
  get-append (Follower.log_entry e) wal j,
)

pub write_entries-logs :
    (es : List AcceptLogEntry) (wal : WriteAheadLog) (logs : Map LogEntry) (n j : ℕ)
    → lookup j (Follower.write_entries es wal logs n).1
      ≡ elim (last_at j (map Follower.log_entry es)) [ some x ↦ some x | none ↦ lookup j logs ]
unfolding Follower.write_entries Follower.log_entry
write_entries-logs [] wal logs n j = refl
write_entries-logs (e ∷ es) wal logs n j = ground (
  arith,
  write_entries-logs es (Wal.append (Follower.log_entry e) wal)
      (insert e.slot (Follower.log_entry e) logs) e.slot j,
  lookup-insert e.slot j (Follower.log_entry e) logs,
)

pub write_entries-IsLog :
    (es : List AcceptLogEntry) (wal : WriteAheadLog) (logs : Map LogEntry) (n : ℕ)
    → IsLog wal
    → IsLog (Follower.write_entries es wal logs n).0
unfolding Follower.write_entries
write_entries-IsLog [] wal logs n h = h
write_entries-IsLog (e ∷ es) wal logs n h =
    write_entries-IsLog es _ _ e.slot (append-IsLog (Follower.log_entry e) wal h)

pub write_entries-IsLog_uncommitted :
    (es : List AcceptLogEntry) (wal : WriteAheadLog) (logs : Map LogEntry) (n : ℕ)
    → IsLog (record { entries = logs })
    → IsLog (record { entries = (Follower.write_entries es wal logs n).1 })
unfolding Follower.write_entries Wal.append Follower.log_entry
write_entries-IsLog_uncommitted [] wal logs n h = h
write_entries-IsLog_uncommitted (e ∷ es) wal logs n h =
    write_entries-IsLog_uncommitted es _ (insert e.slot (Follower.log_entry e) logs) e.slot
      (append-IsLog (Follower.log_entry e) (record { entries = logs }) h)

pub set_log_position-wal :
    (last : Option AcceptLogEntry) (ctx : PaxosSharedContext)
    → (Follower.set_log_position last ctx).wal ≡ ctx.wal
unfolding Follower.set_log_position
set_log_position-wal none ctx = refl
set_log_position-wal (some last) ctx = refl

-- The slot of the last entry, or that of the anchor if there is none.
abbrev pub last_slot : AcceptRequest → ℕ
last_slot request = elim (last? request.entries) [ none ↦ request.prev_log_slot | some e ↦ e.slot ]

-- How far the request lets a follower with these entries commit.
abbrev pub commit_slot : AcceptRequest → ℕ
commit_slot request = min request.leader_commit_slot (last_slot request)

-- A list that is not empty has a last entry.
last_entry :
    (e : AcceptLogEntry) (es : List AcceptLogEntry) (n : ℕ)
    → elim (last? (e ∷ es)) [ none ↦ n | some x ↦ x.slot ]
      ≡ elim (last? es) [ none ↦ e.slot | some x ↦ x.slot ]
last_entry e [] n = refl
last_entry e (x ∷ es) n = last_entry x es n ∙ sym (last_entry x es e.slot)

pub write_entries-last_slot :
    (es : List AcceptLogEntry) (wal : WriteAheadLog) (logs : Map LogEntry) (n : ℕ)
    → (Follower.write_entries es wal logs n).2 ≡ elim (last? es) [ none ↦ n | some e ↦ e.slot ]
unfolding Follower.write_entries
write_entries-last_slot [] wal logs n = refl
write_entries-last_slot (e ∷ es) wal logs n =
    write_entries-last_slot es (Wal.append (Follower.log_entry e) wal)
      (insert e.slot (Follower.log_entry e) logs) e.slot
    ∙ sym (last_entry e es n)

pub set_log_position-keeps :
    (last : Option AcceptLogEntry) (ctx : PaxosSharedContext)
    → let ctx' = Follower.set_log_position last ctx in
      (ctx'.uncommitted_logs ≡ ctx.uncommitted_logs)
      × (ctx'.committed_slot ≡ ctx.committed_slot)
      × (ctx'.last_log_slot ≡ elim last [ none ↦ ctx.last_log_slot | some e ↦ e.slot ])
unfolding Follower.set_log_position
set_log_position-keeps none ctx = (refl, refl, refl)
set_log_position-keeps (some last) ctx = (refl, refl, refl)

-- What a commit that returns leaves, for the slot `j`.
pub record Committed (slot j : ℕ) (old new : PaxosSharedContext) : Type 0 where
  pub wal : new.wal ≡ old.wal
  pub end : new.last_log_slot ≡ old.last_log_slot
  pub committed : new.committed_slot ≡ max old.committed_slot slot
  pub uncommitted :
      lookup j new.uncommitted_logs
      ≡ (if ltb old.committed_slot slot && leb j slot then none else lookup j old.uncommitted_logs)

commit_up_to-end :
    (slot : ℕ) (ctx : PaxosSharedContext)
    → (commit_up_to slot ctx).last_log_slot ≡ ctx.last_log_slot
unfolding commit_up_to advance_to_entry advance_t_safe
commit_up_to-end slot ctx = ground arith

promise_t_safe-Committed :
    (ts : Option DateTime) (slot j : ℕ) (ctx ctx' : PaxosSharedContext)
    → ltb ctx.committed_slot slot ≡ false
    → Follower.promise_t_safe ts ctx ≡ ok ctx'
    → Committed slot j ctx ctx'
unfolding Follower.promise_t_safe advance_t_safe
promise_t_safe-Committed none slot j ctx ctx' low e =
    rw (← ok-inj e)
      (record { wal = refl; end = refl; committed = omega (tests, low); uncommitted = rw low refl })
promise_t_safe-Committed (some ts) slot j ctx ctx' low e =
    let (t, less, last) = >>=-eq-ok (sub_time ts millisecond) _ e in
    rw (← ok-inj last)
      (record { wal = refl; end = refl; committed = omega (tests, low); uncommitted = rw low refl })

pub commit_request-Committed :
    (request : AcceptRequest) (written j : ℕ) (ctx ctx' : PaxosSharedContext)
    → Follower.commit_request request written ctx ≡ ok ctx'
    → Committed (min request.leader_commit_slot written) j ctx ctx'
unfolding Follower.commit_request
commit_request-Committed request written j ctx ctx' e =
    let slot = min request.leader_commit_slot written in
    let (set, rest, log) = commit_up_to_lem slot ctx j in
    elim (Bool-cases (ltb ctx.committed_slot slot)) [
      | inl higher ↦ rw (← ok-inj (rw higher at e)) (record {
        wal = log;
        end = commit_up_to-end slot ctx;
        committed = omega (tests, higher, set);
        uncommitted = ground (arith, higher, rest);
      })
      | inr lower ↦
          promise_t_safe-Committed request.min_next_ts slot j ctx ctx' lower (rw lower at e)
    ]
