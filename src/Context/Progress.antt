-- ===== src/Context/Progress.antt =====
-- spx_core/src/context/mod.rs: what only ever grows in the context of a member.
use spanner_paxos.Base.{
  Bool, Option, arith, if◌then◌else◌, ltb, none, ok, panic, refl, some, suc, true, ℕ, ◌+◌, ◌<◌, ◌∙◌,
  ◌≡◌, ◌≤◌,
}
use spanner_paxos.Context.{
  LeaseState, PaxosSharedContext, advance_t_safe, advance_to_entry, commit_up_to,
  extend_leader_lease_expiry_time, later_t_safe, retain_above, update_leader_lease_expiry_time,
}
use spanner_paxos.Map.{Map, from, lookup}
use spanner_paxos.Map.Laws.{lookup-from}
use spanner_paxos.TrueTime.{DateTime, add_time, max_utc, uncertainty}
use spanner_paxos.TrueTime.Range.{add_time-ok, add_time-panic}
use spanner_paxos.Wal.{LogEntry, WriteAheadLog}
use spanner_paxos.Wal.Writes.{IsLog, from-IsLog}

abbrev pub IsLater : Option DateTime → Option DateTime → Type 0
IsLater none new = Unit {0}
IsLater (some old) none = ⊥
IsLater (some old) (some new) = old ≤ new

-- The log and the uncommitted entries are maps from slots to the entries of those slots.
pub record HasLogs (ctx : PaxosSharedContext) : Type 0 where
  pub wal : IsLog ctx.wal
  pub uncommitted : IsLog (record { entries = ctx.uncommitted_logs })

-- Only the commits, the safe time and the logs move, and they only ahead.
pub record Extends (old new : PaxosSharedContext) : Type 0 where
  pub term : new.term ≡ old.term
  pub committed : old.committed_slot ≤ new.committed_slot
  pub safe : IsLater old.t_safe new.t_safe
  pub member : new.member_id ≡ old.member_id
  pub peers : new.peer_ids ≡ old.peer_ids
  pub lease_length : new.lease_length ≡ old.lease_length
  pub logs : HasLogs old → HasLogs new

-- The term may go up as well.
pub record Advances (old new : PaxosSharedContext) : Type 0 where
  pub term : old.term ≤ new.term
  pub committed : old.committed_slot ≤ new.committed_slot
  pub safe : IsLater old.t_safe new.t_safe
  pub member : new.member_id ≡ old.member_id
  pub peers : new.peer_ids ≡ old.peer_ids
  pub lease_length : new.lease_length ≡ old.lease_length
  pub logs : HasLogs old → HasLogs new

pub Extends-Advances : (old new : PaxosSharedContext) → Extends old new → Advances old new
Extends-Advances old new h = record {
  term = omega (arith, h.term);
  committed = h.committed;
  safe = h.safe;
  member = h.member;
  peers = h.peers;
  lease_length = h.lease_length;
  logs = h.logs;
}

pub IsLater-refl : (t : Option DateTime) → IsLater t t
IsLater-refl none = tt
IsLater-refl (some t) = omega arith

IsLater-trans : (a b c : Option DateTime) → IsLater a b → IsLater b c → IsLater a c
IsLater-trans none b c h k = tt
IsLater-trans (some a) none c h k = absurd h
IsLater-trans (some a) (some b) none h k = absurd k
IsLater-trans (some a) (some b) (some c) h k = omega arith

IsLater-later_t_safe : (t : Option DateTime) (ts : DateTime) → IsLater t (later_t_safe t ts)
unfolding later_t_safe
IsLater-later_t_safe none ts = tt
IsLater-later_t_safe (some t) ts = ground arith

pub Extends-refl : (ctx : PaxosSharedContext) → Extends ctx ctx
Extends-refl ctx = record {
  term = refl;
  committed = omega arith;
  safe = IsLater-refl ctx.t_safe;
  member = refl;
  peers = refl;
  lease_length = refl;
  logs = λ h. h;
}

pub Extends-trans : (a b c : PaxosSharedContext) → Extends a b → Extends b c → Extends a c
Extends-trans a b c h k = record {
  term = k.term ∙ h.term;
  committed = omega (arith, h.committed, k.committed);
  safe = IsLater-trans a.t_safe b.t_safe c.t_safe h.safe k.safe;
  member = k.member ∙ h.member;
  peers = k.peers ∙ h.peers;
  lease_length = k.lease_length ∙ h.lease_length;
  logs = λ logs. k.logs (h.logs logs);
}

pub Advances-refl : (ctx : PaxosSharedContext) → Advances ctx ctx
Advances-refl ctx = Extends-Advances ctx ctx (Extends-refl ctx)

pub Advances-trans : (a b c : PaxosSharedContext) → Advances a b → Advances b c → Advances a c
Advances-trans a b c h k = record {
  term = omega (arith, h.term, k.term);
  committed = omega (arith, h.committed, k.committed);
  safe = IsLater-trans a.t_safe b.t_safe c.t_safe h.safe k.safe;
  member = k.member ∙ h.member;
  peers = k.peers ∙ h.peers;
  lease_length = k.lease_length ∙ h.lease_length;
  logs = λ logs. k.logs (h.logs logs);
}

pub Advances-term :
    (ctx : PaxosSharedContext) (term : ℕ)
    → ctx.term ≤ term
    → Advances ctx (record ctx { term = term })
Advances-term ctx term le = record {
  term = le;
  committed = omega arith;
  safe = IsLater-refl ctx.t_safe;
  member = refl;
  peers = refl;
  lease_length = refl;
  logs = λ h. record { wal = h.wal; uncommitted = h.uncommitted };
}

-- Fields that the relation does not speak of may change.
pub Extends-lease :
    (ctx : PaxosSharedContext) (lease : LeaseState) → Extends ctx (record ctx { lease = lease })
Extends-lease ctx lease = record {
  term = refl;
  committed = omega arith;
  safe = IsLater-refl ctx.t_safe;
  member = refl;
  peers = refl;
  lease_length = refl;
  logs = λ h. record { wal = h.wal; uncommitted = h.uncommitted };
}

pub Extends-write_flush :
    (ctx : PaxosSharedContext) (signal : Bool) → Extends ctx (record ctx { write_flush = signal })
Extends-write_flush ctx signal = record {
  term = refl;
  committed = omega arith;
  safe = IsLater-refl ctx.t_safe;
  member = refl;
  peers = refl;
  lease_length = refl;
  logs = λ h. record { wal = h.wal; uncommitted = h.uncommitted };
}

-- The logs may change in any way that keeps them well formed.
pub Extends-logs :
    (ctx : PaxosSharedContext) (wal : WriteAheadLog) (logs : Map LogEntry) (slot term : ℕ)
    → (IsLog ctx.wal → IsLog (record { entries = ctx.uncommitted_logs }) → IsLog wal)
    → (IsLog (record { entries = ctx.uncommitted_logs }) → IsLog (record { entries = logs }))
    → Extends ctx (record ctx {
      wal = wal;
      uncommitted_logs = logs;
      last_log_slot = slot;
      last_log_term = term;
    })
Extends-logs ctx wal logs slot term w u = record {
  term = refl;
  committed = omega arith;
  safe = IsLater-refl ctx.t_safe;
  member = refl;
  peers = refl;
  lease_length = refl;
  logs = λ h. record { wal = w h.wal h.uncommitted; uncommitted = u h.uncommitted };
}

pub advance_t_safe-Extends :
    (ts : DateTime) (ctx : PaxosSharedContext) → Extends ctx (advance_t_safe ts ctx)
unfolding advance_t_safe
advance_t_safe-Extends ts ctx = record {
  term = refl;
  committed = omega arith;
  safe = IsLater-later_t_safe ctx.t_safe ts;
  member = refl;
  peers = refl;
  lease_length = refl;
  logs = λ h. record { wal = h.wal; uncommitted = h.uncommitted };
}

advance_to_entry-Extends :
    (entry : Option LogEntry) (ctx : PaxosSharedContext) → Extends ctx (advance_to_entry entry ctx)
unfolding advance_to_entry
advance_to_entry-Extends none ctx = Extends-refl ctx
advance_to_entry-Extends (some e) ctx = advance_t_safe-Extends e.timestamp ctx

Extends-committed_slot :
    (slot : ℕ) (ctx : PaxosSharedContext)
    → ctx.committed_slot ≤ slot
    → Extends ctx (record ctx { committed_slot = slot })
Extends-committed_slot slot ctx le = record {
  term = refl;
  committed = le;
  safe = IsLater-refl ctx.t_safe;
  member = refl;
  peers = refl;
  lease_length = refl;
  logs = λ h. record { wal = h.wal; uncommitted = h.uncommitted };
}

Extends-retain_above :
    (slot : ℕ) (ctx : PaxosSharedContext)
    → Extends ctx (record ctx { uncommitted_logs = retain_above slot ctx.uncommitted_logs })
unfolding retain_above
Extends-retain_above slot ctx =
    Extends-logs ctx ctx.wal (from (suc slot) ctx.uncommitted_logs) ctx.last_log_slot
      ctx.last_log_term (λ w u. w) (from-IsLog (suc slot) ctx.uncommitted_logs)

pub commit_up_to-Extends :
    (slot : ℕ) (ctx : PaxosSharedContext)
    → ctx.committed_slot ≤ slot
    → Extends ctx (commit_up_to slot ctx)
unfolding commit_up_to
commit_up_to-Extends slot ctx le = Extends-trans ctx _ _ (Extends-committed_slot slot ctx le) (
    Extends-trans _ _ _ (advance_to_entry-Extends (lookup slot ctx.uncommitted_logs) _)
      (Extends-retain_above slot _))

-- A commit sets the committed slot, keeps exactly the higher entries as uncommitted, and leaves the
-- log as it is.
pub commit_up_to_lem :
    (slot : ℕ) (ctx : PaxosSharedContext) (j : ℕ)
    → let ctx' = commit_up_to slot ctx in
      (ctx'.committed_slot ≡ slot)
      × (lookup j ctx'.uncommitted_logs
          ≡ (if ltb j (suc slot) then none else lookup j ctx.uncommitted_logs))
      × (ctx'.wal ≡ ctx.wal)
unfolding commit_up_to
commit_up_to_lem slot ctx j = ground (arith, lookup-from (suc slot) j ctx.uncommitted_logs)

-- An extension that returns sets the lease, and nothing else.
abbrev pub extended : DateTime → PaxosSharedContext → PaxosSharedContext
extended t ctx = record ctx {
  lease = record { expiry = some (t + uncertainty + ctx.lease_length); notify = true };
}

pub extend_lease-ok :
    (t : DateTime) (ctx : PaxosSharedContext)
    → t + uncertainty + ctx.lease_length ≤ max_utc
    → extend_leader_lease_expiry_time t ctx ≡ ok (extended t ctx)
unfolding extend_leader_lease_expiry_time update_leader_lease_expiry_time
extend_lease-ok t ctx h = rw (add_time-ok (t + uncertainty) ctx.lease_length h) refl

pub extend_lease-panic :
    (t : DateTime) (ctx : PaxosSharedContext)
    → max_utc < t + uncertainty + ctx.lease_length
    → extend_leader_lease_expiry_time t ctx ≡ panic
unfolding extend_leader_lease_expiry_time
extend_lease-panic t ctx h = rw (add_time-panic (t + uncertainty) ctx.lease_length h) refl

pub extend_lease-eq-ok :
    (t : DateTime) (ctx ctx' : PaxosSharedContext)
    → extend_leader_lease_expiry_time t ctx ≡ ok ctx'
    → ctx' ≡ extended t ctx
unfolding extend_leader_lease_expiry_time update_leader_lease_expiry_time add_time
extend_lease-eq-ok t ctx ctx' e = ground arith

pub extend_lease-Extends :
    (t : DateTime) (ctx ctx' : PaxosSharedContext)
    → extend_leader_lease_expiry_time t ctx ≡ ok ctx'
    → Extends ctx ctx'
extend_lease-Extends t ctx ctx' e = rw (extend_lease-eq-ok t ctx ctx' e) (Extends-lease ctx _)
