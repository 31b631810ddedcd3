-- ===== src/Leader/Progress.antt =====
-- spx_core/src/roles/leader.rs: what a leader's handlers never take back.
use spanner_paxos.Leader
use spanner_paxos.Wal
use spanner_paxos.Base.{
  >>=-eq-ok, Bool, Bool-cases, List, Option, Result, [], add_usize, arith, expect, false, get_elem?,
  if◌then◌else◌, inl, inr, leb, ltb, none, not, ok, ok-inj, some, sort_desc, sub_usize, suc, tests,
  true, ℕ, ◌&&◌, ◌>>=◌, ◌∷◌, ◌≡◌,
}
use spanner_paxos.Context.{
  PaxosSharedContext, advance_t_safe, get_quorum_size, signal_write_flush,
  update_leader_lease_expiry_time,
}
use spanner_paxos.Context.Progress.{
  Extends, Extends-lease, Extends-logs, Extends-refl, Extends-trans, Extends-write_flush,
  advance_t_safe-Extends, commit_up_to-Extends,
}
use spanner_paxos.Leader.{Leader}
use spanner_paxos.Map.{Map, Rises, lookup, map_values, values}
use spanner_paxos.Messages.{AcceptResponse, Action, ClientWriteRequest, ConflictHint, PaxosCommand}
use spanner_paxos.TrueTime.{Clock, DateTime, add_time, millisecond, sub_time}
use spanner_paxos.Wal.{LogEntry, WriteAheadLog}
use spanner_paxos.Wal.Writes.{IsKeyed, IsLog, append-IsLog}

Extends-end :
    (ctx : PaxosSharedContext) (r r' : Leader × PaxosSharedContext × List Action)
    → ok r ≡ ok r'
    → Extends ctx r.1
    → Extends ctx r'.1
Extends-end ctx r r' e h = let q : r ≡ r' = cc in rw (← q) h

append_all-IsLog :
    (es : List LogEntry) (wal : WriteAheadLog) → IsLog wal → IsLog (Leader.append_all es wal)
unfolding Leader.append_all
append_all-IsLog [] wal h = h
append_all-IsLog (e ∷ es) wal h = append_all-IsLog es (Wal.append e wal) (append-IsLog e wal h)

abbrev restamp : ℕ → LogEntry → LogEntry
restamp term e = record e { term = term }

restamp-Rises : (term n : ℕ) (m : Map LogEntry) → Rises n m → Rises n (map_values (restamp term) m)
restamp-Rises term n [] r = tt
restamp-Rises term n ((k, e) ∷ m) r = (r.0, restamp-Rises term (suc k) m r.1)

restamp-IsKeyed : (term : ℕ) (m : Map LogEntry) → IsKeyed m → IsKeyed (map_values (restamp term) m)
restamp-IsKeyed term [] h = tt
restamp-IsKeyed term ((k, e) ∷ m) h = (h.0, restamp-IsKeyed term m h.1)

restamp-IsLog :
    (term : ℕ) (m : Map LogEntry)
    → IsLog (record { entries = m })
    → IsLog (record { entries = map_values (restamp term) m })
restamp-IsLog term m h = record {
  rises = restamp-Rises term 0 m h.rises;
  keyed = restamp-IsKeyed term m h.keyed;
}

advance_log-Extends :
    (last : Option LogEntry) (l : Leader) (ctx : PaxosSharedContext)
    → Extends ctx (Leader.advance_log last l ctx).1
unfolding Leader.advance_log
advance_log-Extends none l ctx = Extends-refl ctx
advance_log-Extends (some last) l ctx =
    Extends-logs ctx ctx.wal ctx.uncommitted_logs last.slot ctx.term (λ w u. w) (λ u. u)

pub process_uncommitted_logs-Extends :
    (clock : Clock) (i : ℕ) (l : Leader) (ctx : PaxosSharedContext)
    (r : Leader × PaxosSharedContext × List Action)
    → Leader.process_uncommitted_logs clock i l ctx ≡ ok r
    → Extends ctx r.1
unfolding Leader.process_uncommitted_logs
process_uncommitted_logs-Extends clock i l ctx r e =
    let (sent, went, rest) = >>=-eq-ok (Leader.dispatch_accept_request clock i none _ _) _ e in
    Extends-end ctx _ r rest (
      Extends-trans ctx _ _
        (Extends-logs ctx _ _ ctx.last_log_slot ctx.last_log_term
          (λ w u. append_all-IsLog _ ctx.wal w) (restamp-IsLog ctx.term ctx.uncommitted_logs))
        (advance_log-Extends _ l _))

append_client_entry-Extends :
    (e : LogEntry) (ctx : PaxosSharedContext) → Extends ctx (Leader.append_client_entry e ctx)
unfolding Leader.append_client_entry Wal.append
append_client_entry-Extends e ctx =
    Extends-logs ctx _ _ e.slot ctx.term (λ w u. append-IsLog e ctx.wal w)
      (append-IsLog e (record { entries = ctx.uncommitted_logs }))

pub handle_client_write-Extends :
    (t : DateTime) (cmd : PaxosCommand ClientWriteRequest) (l : Leader) (ctx : PaxosSharedContext)
    → Extends ctx (Leader.handle_client_write t cmd l ctx).1
unfolding Leader.handle_client_write signal_write_flush
handle_client_write-Extends t cmd l ctx =
    let appended = append_client_entry-Extends (Leader.client_entry t cmd.request.value ctx) ctx in
    elim (Bool-cases (leb l.write_batch_size (add_usize l.pending_write_count 1))) [
      | inl full ↦ rw full (Extends-trans ctx _ _ appended (Extends-write_flush _ true))
      | inr more ↦ rw more appended
    ]

pub handle_heartbeat_timer-Extends :
    (clock : Clock) (l : Leader) (ctx : PaxosSharedContext)
    (r : Leader × PaxosSharedContext × List Action)
    → Leader.handle_heartbeat_timer clock l ctx ≡ ok r
    → Extends ctx r.1
unfolding Leader.handle_heartbeat_timer
handle_heartbeat_timer-Extends clock l ctx r e =
    let (safe, less, e') =
      >>=-eq-ok (sub_time (Leader.heartbeat_ts (clock 0) ctx) millisecond) _ e in
    let (sent, went, rest) = >>=-eq-ok (Leader.dispatch_accept_request clock 1 _ l _) _ e' in
    let same : advance_t_safe safe ctx ≡ r.1 = ground (arith, rest) in
    rw (← same) (advance_t_safe-Extends safe ctx)

commit_quorum-Extends :
    (l : Leader) (ctx : PaxosSharedContext) → Extends ctx (Leader.commit_quorum l ctx).1
unfolding Leader.commit_quorum Leader.resolve_in_flight_writes
commit_quorum-Extends l ctx =
    elim (Bool-cases (ltb ctx.committed_slot (Leader.min_quorum_slot l ctx))) [
      | inl up ↦ rw up (commit_up_to-Extends (Leader.min_quorum_slot l ctx) ctx (omega tests))
      | inr same ↦ rw same (Extends-refl ctx)
    ]

record_success-Extends :
    (response : AcceptResponse) (l : Leader) (ctx : PaxosSharedContext)
    (r : Leader × PaxosSharedContext × List Action)
    → Leader.record_success response l ctx ≡ ok r
    → Extends ctx r.1
unfolding Leader.record_success
record_success-Extends response l ctx r e =
    let (fs, found, rest) = >>=-eq-ok (expect (lookup response.member_id l.score_board)) _ e in
    elim (Bool-cases (ltb fs.log_position.match_slot response.last_written_slot)) [
      | inl more ↦ Extends-end ctx _ r (rw more at rest) (commit_quorum-Extends _ ctx)
      | inr old ↦ Extends-end ctx (l, ctx, []) r (rw old at rest) (Extends-refl ctx)
    ]

follow_hint-Extends :
    (t : DateTime) (response : AcceptResponse) (hint : ConflictHint) (l : Leader)
    (ctx : PaxosSharedContext) (r : Leader × PaxosSharedContext × List Action)
    → Leader.follow_hint t response hint l ctx ≡ ok r
    → Extends ctx r.1
unfolding Leader.follow_hint
follow_hint-Extends t response hint l ctx r e =
    let (fs, found, rest) = >>=-eq-ok (expect (lookup response.member_id l.score_board)) _ e in
    let ((l', actions), sent, last) =
      >>=-eq-ok (Leader.dispatch_accept_request_to_follower t response.member_id none _ ctx) _
        rest in
    Extends-end ctx (l', ctx, actions) r last (Extends-refl ctx)

answered-Extends :
    (t : DateTime) (response : AcceptResponse) (l : Leader) (ctx : PaxosSharedContext)
    (r : Leader × PaxosSharedContext × List Action) (success : Bool) (hint : Option ConflictHint)
    → (if success then Leader.record_success response l ctx else elim hint [
      | none ↦ ok (l, ctx, [])
      | some hint ↦ Leader.follow_hint t response hint l ctx
    ])
      ≡ ok r
    → Extends ctx r.1
answered-Extends t response l ctx r true hint e = record_success-Extends response l ctx r e
answered-Extends t response l ctx r false none e =
    Extends-end ctx (l, ctx, []) r e (Extends-refl ctx)
answered-Extends t response l ctx r false (some hint) e =
    follow_hint-Extends t response hint l ctx r e

propose_expiry-Extends :
    (proposed : DateTime) (old : Option DateTime) (ctx : PaxosSharedContext)
    → Extends ctx (Leader.propose_expiry proposed old ctx)
unfolding Leader.propose_expiry update_leader_lease_expiry_time
propose_expiry-Extends proposed none ctx = Extends-lease ctx _
propose_expiry-Extends proposed (some old) ctx = elim (Bool-cases (ltb old proposed)) [
  | inl later ↦ rw later (Extends-lease ctx _)
  | inr sooner ↦ rw sooner (Extends-refl ctx)
]

renew_lease-Extends :
    (l : Leader) (ctx ctx' : PaxosSharedContext)
    → Leader.renew_lease l ctx ≡ ok ctx'
    → Extends ctx ctx'
unfolding Leader.renew_lease
renew_lease-Extends l ctx ctx' e =
    go (get_elem? (sort_desc (values l.last_contact)) (sub_usize (get_quorum_size ctx) 2)) e
  where
    go :
        (o : Option DateTime)
        → elim o as (λ x. Result PaxosSharedContext) [
          | none ↦ ok ctx
          | some t ↦ (do
            proposed ← add_time t ctx.lease_length
            ok (Leader.propose_expiry proposed ctx.lease.expiry ctx))
        ]
          ≡ ok ctx'
        → Extends ctx ctx'
    go none q = rw (← ok-inj q) (Extends-refl ctx)
    go (some t) q =
        let (proposed, sum, last) = >>=-eq-ok (add_time t ctx.lease_length) _ q in
        rw (← ok-inj last) (propose_expiry-Extends proposed ctx.lease.expiry ctx)

use_response-Extends :
    (t : DateTime) (response : AcceptResponse) (l : Leader) (ctx : PaxosSharedContext)
    (r : Leader × PaxosSharedContext × List Action)
    → Leader.use_response t response l ctx ≡ ok r
    → Extends ctx r.1
unfolding Leader.use_response
use_response-Extends t response l ctx r e =
    let l' = Leader.note_contact response l in
    let (ctx', longer, rest) = >>=-eq-ok (Leader.renew_lease l' ctx) _ e in
    Extends-trans ctx ctx' r.1 (renew_lease-Extends l' ctx ctx' longer)
      (answered-Extends t response l' ctx' r response.success response.conflict_hint rest)

pub handle_accept_response-Extends :
    (t : DateTime) (response : AcceptResponse) (l : Leader) (ctx : PaxosSharedContext)
    (r : Leader × PaxosSharedContext × List Action)
    → Leader.handle_accept_response t response l ctx ≡ ok r
    → Extends ctx r.1
unfolding Leader.handle_accept_response
handle_accept_response-Extends t response l ctx r e =
    elim (Bool-cases (ltb response.term ctx.term)) [
      | inl stale ↦ Extends-end ctx (l, ctx, []) r (rw stale at e) (Extends-refl ctx)
      | inr current ↦
          elim (Bool-cases (not response.success && not (Leader.is_some response.conflict_hint))) [
            | inl bare ↦ Extends-end ctx (l, ctx, []) r (rw (current, bare) at e) (Extends-refl ctx)
            | inr useful ↦ use_response-Extends t response l ctx r (rw (current, useful) at e)
          ]
    ]
