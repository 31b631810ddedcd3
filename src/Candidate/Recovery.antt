-- ===== src/Candidate/Recovery.antt =====
-- spx_core/src/roles/candidate.rs: the entries that a new leader recovers from the promises.
use spanner_paxos.Candidate
use spanner_paxos.Base.{
  ==→eq, Bool-cases, List, Member, Member-cons, Option, [], arith, here, if◌then◌else◌, inl, inr,
  leb, ltb, none, not, refl, some, suc, sym, there, ℕ, ◌&&◌, ◌==◌, ◌∙◌, ◌∷◌, ◌≡◌, ◌≤◌, ◌⊎◌,
}
use spanner_paxos.Candidate.{Candidate}
use spanner_paxos.Context.{PaxosSharedContext}
use spanner_paxos.Map.{IsMap, Map, Rises, insert, lookup}
use spanner_paxos.Map.Laws.{lookup-insert, lookup_below_bound}
use spanner_paxos.Wal.{LogEntry}

-- A map's answer that holds an entry of a term no lower.
abbrev pub Covers : LogEntry → Option LogEntry → Type 0
Covers e none = ⊥
Covers e (some x) = e.term ≤ x.term

-- Where an entry of the merged map is from.
abbrev pub From : ℕ → List LogEntry → Map LogEntry → Option LogEntry → Type 0
From j es logs none = Unit {0}
From j es logs (some x) = (lookup j logs ≡ some x) ⊎ (Member x es × (x.slot ≡ j))

abbrev pub merge_one : LogEntry → Map LogEntry → Map LogEntry
merge_one e logs =
    if Candidate.should_insert e (lookup e.slot logs) then insert e.slot e logs else logs

lookup-merge_one :
    (e : LogEntry) (logs : Map LogEntry) (j : ℕ)
    → lookup j (merge_one e logs) ≡ (
        if (e.slot == j) && Candidate.should_insert e (lookup j logs)
        then some e
        else lookup j logs)
lookup-merge_one e logs j = ground (arith, lookup-insert e.slot j e logs)

Covers-refl : (e : LogEntry) → Covers e (some e)
Covers-refl e = omega arith

merge_one-Covers :
    (e y : LogEntry) (logs : Map LogEntry) (j : ℕ)
    → Covers y (lookup j logs)
    → Covers y (lookup j (merge_one e logs))
unfolding Candidate.should_insert
merge_one-Covers e y logs j h = rw (lookup-merge_one e logs j) (go (lookup j logs) h)
  where
    go :
        (o : Option LogEntry)
        → Covers y o
        → Covers y (if (e.slot == j) && Candidate.should_insert e o then some e else o)
    go none h = absurd h
    go (some x) h = ground arith

merge_one-Covers_new :
    (e : LogEntry) (logs : Map LogEntry) → Covers e (lookup e.slot (merge_one e logs))
unfolding Candidate.should_insert
merge_one-Covers_new e logs = rw (lookup-merge_one e logs e.slot) (go (lookup e.slot logs))
  where
    go :
        (o : Option LogEntry)
        → Covers e (if (e.slot == e.slot) && Candidate.should_insert e o then some e else o)
    go none = ground arith
    go (some x) = ground arith

merge_logs-Covers :
    (es : List LogEntry) (y : LogEntry) (logs : Map LogEntry) (j : ℕ)
    → Covers y (lookup j logs)
    → Covers y (lookup j (Candidate.merge_logs es logs))
unfolding Candidate.merge_logs
merge_logs-Covers [] y logs j h = h
merge_logs-Covers (e ∷ es) y logs j h =
    merge_logs-Covers es y (merge_one e logs) j (merge_one-Covers e y logs j h)

merge_logs-Covers_new :
    (es : List LogEntry) (y : LogEntry) (logs : Map LogEntry)
    → Member y es
    → Covers y (lookup y.slot (Candidate.merge_logs es logs))
unfolding Candidate.merge_logs
merge_logs-Covers_new [] y logs m = elim m [ ]
merge_logs-Covers_new (e ∷ es) y logs m = elim (Member-cons m) [
  | inl first ↦
      rw first (merge_logs-Covers es e (merge_one e logs) e.slot (merge_one-Covers_new e logs))
  | inr later ↦ merge_logs-Covers_new es y (merge_one e logs) later
]

From-weaken :
    (j : ℕ) (e : LogEntry) (es : List LogEntry) (logs : Map LogEntry) (o : Option LogEntry)
    → From j es (merge_one e logs) o
    → From j (e ∷ es) logs o
From-weaken j e es logs none h = tt
From-weaken j e es logs (some x) (inr (m, s)) = inr (there m, s)
From-weaken j e es logs (some x) (inl h) =
    let split = sym (lookup-merge_one e logs j) ∙ h in
    elim (Bool-cases ((e.slot == j) && Candidate.should_insert e (lookup j logs))) [
      | inl put ↦
          let same : e ≡ x = cc (rw put at split) in
          inr (rw (← same) here, rw (← same) (==→eq e.slot j (ground (arith, put))))
      | inr left ↦ inl (rw left at split)
    ]

merge_logs-From :
    (es : List LogEntry) (logs : Map LogEntry) (j : ℕ)
    → From j es logs (lookup j (Candidate.merge_logs es logs))
unfolding Candidate.merge_logs
merge_logs-From [] logs j = found (lookup j logs) refl
  where
    found : (o : Option LogEntry) → lookup j logs ≡ o → From j [] logs o
    found none h = tt
    found (some x) h = inl h
merge_logs-From (e ∷ es) logs j =
    From-weaken j e es logs _ (merge_logs-From es (merge_one e logs) j)

-- Of an entry from the promises and the candidate's own: its own, unless the other's term is higher.
abbrev pub prefer : Option LogEntry → Option LogEntry → Option LogEntry
prefer none own = own
prefer (some e) none = some e
prefer (some e) (some own) = if ltb own.term e.term then some e else some own

abbrev pub flush_one : ℕ → ℕ → LogEntry → Map LogEntry → Map LogEntry
flush_one committed slot e logs =
    if leb slot committed
    then logs
    else if Candidate.should_insert e (lookup slot logs)
    then insert slot e logs
    else logs

prefer-should_insert :
    (e : LogEntry) (own : Option LogEntry)
    → (if Candidate.should_insert e own then some e else own) ≡ prefer (some e) own
unfolding Candidate.should_insert
prefer-should_insert e none = refl
prefer-should_insert e (some own) = refl

lookup-flush_one :
    (committed slot : ℕ) (e : LogEntry) (logs : Map LogEntry) (j : ℕ)
    → lookup j (flush_one committed slot e logs) ≡ (
        if (slot == j) && not (leb slot committed)
        then prefer (some e) (lookup j logs)
        else lookup j logs)
lookup-flush_one committed slot e logs j =
    ground (arith, lookup-insert slot j e logs, prefer-should_insert e (lookup slot logs))

lookup-flush_logs :
    (committed n : ℕ) (pending logs : Map LogEntry) (j : ℕ)
    → Rises n pending
    → lookup j (Candidate.flush_logs committed pending logs)
      ≡ (if leb j committed then lookup j logs else prefer (lookup j pending) (lookup j logs))
unfolding Candidate.flush_logs lookup
lookup-flush_logs committed n [] logs j r = ground arith
lookup-flush_logs committed n ((slot, e) ∷ pending) logs j r =
    lookup-flush_logs committed (suc slot) pending (flush_one committed slot e logs) j r.1
    ∙ elim (Bool-cases (slot == j)) [
      | inl first ↦
          let place : j ≡ slot = sym (==→eq slot j first) in
          let gone = lookup_below_bound (suc slot) slot pending r.1 (omega arith) in
          rw place (ground (arith, lookup-flush_one committed slot e logs slot, gone))
      | inr later ↦ ground (arith, later, lookup-flush_one committed slot e logs j)
    ]

-- What the promises of a campaign bring together, at every slot: an entry of one of them or of
-- before, of the highest term that any of them has there.
pub record IsMerged (es : List LogEntry) (logs merged : Map LogEntry) : Type 0 where
  pub from : (j : ℕ) → From j es logs (lookup j merged)
  pub highest_new : (e : LogEntry) → Member e es → Covers e (lookup e.slot merged)
  pub highest_old : (e : LogEntry) (j : ℕ) → lookup j logs ≡ some e → Covers e (lookup j merged)

-- Merging a promise's entries keeps, at every slot, an entry of the highest term known there, and
-- makes none up.
pub merge_logs-IsMerged :
    (es : List LogEntry) (logs : Map LogEntry) → IsMerged es logs (Candidate.merge_logs es logs)
merge_logs-IsMerged es logs = record {
  from = merge_logs-From es logs;
  highest_new = λ e m. merge_logs-Covers_new es e logs m;
  highest_old = λ e j h. merge_logs-Covers es e logs j (rw h (Covers-refl e));
}

-- A new leader takes over what the promises brought, if that is a map: up to its committed slot its own entries stay,
-- and above it, at every slot, it has its own entry unless the promised one has a higher term.
pub lookup-flush_uncommitted_logs :
    (c : Candidate) (ctx : PaxosSharedContext) (j : ℕ)
    → IsMap c.pending_uncommitted_logs
    → lookup j (Candidate.flush_uncommitted_logs c ctx).uncommitted_logs ≡ (
        if leb j ctx.committed_slot
        then lookup j ctx.uncommitted_logs
        else prefer (lookup j c.pending_uncommitted_logs) (lookup j ctx.uncommitted_logs))
unfolding Candidate.flush_uncommitted_logs
lookup-flush_uncommitted_logs c ctx j r =
    lookup-flush_logs ctx.committed_slot 0 c.pending_uncommitted_logs ctx.uncommitted_logs j r
