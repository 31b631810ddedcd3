-- ===== src/Follower/Replication.antt =====
-- spx_core/src/roles/follower.rs: what an accept request does to the log.
use spanner_paxos.Follower
use spanner_paxos.Wal
use spanner_paxos.Base.{
  >>=-eq-ok, Bool-cases, Option, add_u32, arith, expect, false, if◌then◌else◌, inl, inr, last?, leb,
  ltb, map, max, none, not, ok, ok-inj, refl, some, true, ℕ, ◌&&◌, ◌<◌, ◌==◌, ◌||◌, ◌∙◌, ◌≡◌, ◌⊎◌,
}
use spanner_paxos.Context.{
  PaxosSharedContext, extend_leader_lease_expiry_time, is_leader_lease_expired,
}
use spanner_paxos.Context.Progress.{extend_lease-eq-ok, extended}
use spanner_paxos.Follower.{Follower}
use spanner_paxos.Follower.Writes.{
  commit_request-Committed, commit_slot, last_slot, set_log_position-keeps, set_log_position-wal,
  write_entries-IsLog, write_entries-get, write_entries-last_slot, write_entries-logs,
}
use spanner_paxos.Map.{lookup}
use spanner_paxos.Messages.{AcceptRequest, AcceptResponse, ConflictHint}
use spanner_paxos.TrueTime.{Clock, DateTime, before}
use spanner_paxos.Wal.Writes.{IsLog, get-truncate_from, last_at, truncate_from-IsLog}

-- What a request that has been accepted leaves for the slot `j`: the entries in the log and among the
-- uncommitted ones, where they stay if they are above the commit, and the commit that it asks for.
pub record Done (request : AcceptRequest) (j : ℕ) (old : PaxosSharedContext)
    (r : AcceptResponse × PaxosSharedContext) : Type 0 where
  pub success : r.0.success ≡ true
  pub reported : r.0.last_written_slot ≡ last_slot request
  pub log :
      request.prev_log_slot < 4294967295
      → Wal.get j r.1.wal ≡ elim (last_at j (map Follower.log_entry request.entries)) [
        | some x ↦ some x
        | none ↦ if leb j request.prev_log_slot then Wal.get j old.wal else none
      ]
  pub end :
      r.1.last_log_slot
      ≡ elim (last? request.entries) [ none ↦ old.last_log_slot | some e ↦ e.slot ]
  pub committed : r.1.committed_slot ≡ max old.committed_slot (commit_slot request)
  pub uncommitted : lookup j r.1.uncommitted_logs ≡ (
      if ltb old.committed_slot (commit_slot request) && leb j (commit_slot request)
      then none
      else elim (last_at j (map Follower.log_entry request.entries)) [
        | some x ↦ some x
        | none ↦ lookup j old.uncommitted_logs
      ])

accept_entries-wal :
    (request : AcceptRequest) (ctx : PaxosSharedContext) (r : AcceptResponse × PaxosSharedContext)
    → Follower.accept_entries request ctx ≡ ok r
    → r.1.wal
      ≡ (Follower.write_entries request.entries
          (Wal.truncate_from (add_u32 request.prev_log_slot 1) ctx.wal)
          ctx.uncommitted_logs
          request.prev_log_slot).0
unfolding Follower.accept_entries Follower.write_request
accept_entries-wal request ctx r e =
    let (ctx', committed, last) = >>=-eq-ok (Follower.commit_request request _ _) _ e in
    let done = commit_request-Committed request _ 0 _ ctx' committed in
    rw (← ok-inj last) (done.wal ∙ set_log_position-wal (last? request.entries) _)

-- When the anchor matches and is below the highest `u32`, the log is that of before up to the anchor,
-- with the request's entries written over it and nothing else above the anchor.
pub accept_entries-get :
    (request : AcceptRequest) (ctx : PaxosSharedContext) (r : AcceptResponse × PaxosSharedContext)
    (j : ℕ)
    → request.prev_log_slot < 4294967295
    → Follower.accept_entries request ctx ≡ ok r
    → Wal.get j r.1.wal ≡ elim (last_at j (map Follower.log_entry request.entries)) [
      | some x ↦ some x
      | none ↦ if leb j request.prev_log_slot then Wal.get j ctx.wal else none
    ]
accept_entries-get request ctx r j h e =
    let anchor = request.prev_log_slot in
    let cut = Wal.truncate_from (add_u32 anchor 1) ctx.wal in
    ground (
      arith,
      accept_entries-wal request ctx r e,
      write_entries-get request.entries cut ctx.uncommitted_logs anchor j,
      get-truncate_from (add_u32 anchor 1) ctx.wal j,
    )

accept_entries-Done :
    (request : AcceptRequest) (ctx : PaxosSharedContext) (r : AcceptResponse × PaxosSharedContext)
    (j : ℕ)
    → Follower.accept_entries request ctx ≡ ok r
    → Done request j ctx r
unfolding Follower.accept_entries Follower.write_request
accept_entries-Done request ctx r j e =
    let cut = Wal.truncate_from (add_u32 request.prev_log_slot 1) ctx.wal in
    let (ctx', committed, last) = >>=-eq-ok (Follower.commit_request request _ _) _ e in
    let done = commit_request-Committed request _ j _ ctx' committed in
    let (logs, before, end) = set_log_position-keeps (last? request.entries) _ in
    let written =
      write_entries-last_slot request.entries cut ctx.uncommitted_logs request.prev_log_slot in
    record {
      success = rw (← ok-inj last) refl;
      reported = rw (← ok-inj last) written;
      log = λ h. accept_entries-get request ctx r j h e;
      end = rw (← ok-inj last) (done.end ∙ end);
      committed = rw (← ok-inj last) (rw (before, written) at done.committed);
      uncommitted = rw (← ok-inj last) (
          rw
            (
              before,
              written,
              logs,
              write_entries-logs request.entries cut ctx.uncommitted_logs request.prev_log_slot j,
            )
            at done.uncommitted);
    }

pub accept_entries-IsLog :
    (request : AcceptRequest) (ctx : PaxosSharedContext) (r : AcceptResponse × PaxosSharedContext)
    → IsLog ctx.wal
    → Follower.accept_entries request ctx ≡ ok r
    → IsLog r.1.wal
accept_entries-IsLog request ctx r h e = rw (accept_entries-wal request ctx r e) (
    write_entries-IsLog request.entries _ _ request.prev_log_slot
      (truncate_from-IsLog (add_u32 request.prev_log_slot 1) ctx.wal h))

-- What the answer to a request stands for: that all of it is done, or none of it.
abbrev pub AllOrNothing :
    AcceptRequest → PaxosSharedContext → AcceptResponse × PaxosSharedContext → Type 0
AllOrNothing request ctx r =
    ((r.0.success ≡ true) × ((j : ℕ) → Done request j ctx r))
    ⊎ ((r.0.success ≡ false)
        × (r.1.wal ≡ ctx.wal)
        × (r.1.uncommitted_logs ≡ ctx.uncommitted_logs)
        × (r.1.last_log_slot ≡ ctx.last_log_slot)
        × (r.1.committed_slot ≡ ctx.committed_slot)
        × (r.1.t_safe ≡ ctx.t_safe))

refused-AllOrNothing :
    (request : AcceptRequest) (ctx : PaxosSharedContext) (hint : Option ConflictHint)
    (r : AcceptResponse × PaxosSharedContext)
    → ok (Follower.accept_failed request ctx hint, ctx) ≡ ok r
    → AllOrNothing request ctx r
refused-AllOrNothing request ctx hint r e =
    rw (← ok-inj e) (inr (refl, refl, refl, refl, refl, refl))

accepted-AllOrNothing :
    (request : AcceptRequest) (ctx : PaxosSharedContext) (r : AcceptResponse × PaxosSharedContext)
    → Follower.accept_entries request ctx ≡ ok r
    → AllOrNothing request ctx r
accepted-AllOrNothing request ctx r e =
    inl
      ((accept_entries-Done request ctx r 0 e).success, λ j. accept_entries-Done request ctx r j e)

check_anchor-AllOrNothing :
    (request : AcceptRequest) (ctx : PaxosSharedContext) (r : AcceptResponse × PaxosSharedContext)
    → Follower.check_anchor request ctx ≡ ok r
    → AllOrNothing request ctx r
unfolding Follower.check_anchor
check_anchor-AllOrNothing request ctx r e = elim (Bool-cases (request.prev_log_slot == 0)) [
  | inl first ↦ accepted-AllOrNothing request ctx r (rw first at e)
  | inr later ↦ elim (Bool-cases (not (Wal.has_entry request.prev_log_slot ctx.wal))) [
    | inl missing ↦ refused-AllOrNothing request ctx _ r (rw (later, missing) at e)
    | inr has ↦
        let (term, read, rest) =
          >>=-eq-ok (expect (Wal.get_term request.prev_log_slot ctx.wal)) _
            (rw (later, has) at e) in
        elim (Bool-cases (term == request.prev_log_term)) [
          | inl same ↦ accepted-AllOrNothing request ctx r (rw same at rest)
          | inr other ↦
              let (hint, found, last) =
                >>=-eq-ok (Follower.mismatch_hint term ctx) _ (rw other at rest) in
              refused-AllOrNothing request ctx (some hint) r last
        ]
  ]
]

-- The extension of the lease leaves what the answer stands for.
extended-AllOrNothing :
    (t : DateTime) (request : AcceptRequest) (ctx : PaxosSharedContext) (response : AcceptResponse)
    (ctx' : PaxosSharedContext)
    → AllOrNothing request ctx (response, ctx')
    → AllOrNothing request ctx (response, extended t ctx')
extended-AllOrNothing t request ctx response ctx' (inl (yes_sent, done)) = inl (
  yes_sent,
  λ j. record {
    success = (done j).success;
    reported = (done j).reported;
    log = (done j).log;
    end = (done j).end;
    committed = (done j).committed;
    uncommitted = (done j).uncommitted;
  },
)
extended-AllOrNothing t request ctx response ctx' (inr refusal) = inr refusal

pub handle_accept_request-AllOrNothing :
    (clock : Clock) (f : Follower) (request : AcceptRequest) (ctx : PaxosSharedContext)
    (r : AcceptResponse × PaxosSharedContext)
    → Follower.handle_accept_request clock f request ctx ≡ ok r
    → AllOrNothing request ctx r
unfolding Follower.handle_accept_request Follower.extend_after
handle_accept_request-AllOrNothing clock f request ctx r e =
    elim (Bool-cases (ltb request.term ctx.term)) [
      | inl stale ↦ refused-AllOrNothing request ctx none r (rw stale at e)
      | inr current ↦
          elim (Bool-cases (
            is_leader_lease_expired (clock 0) ctx
            || not (Follower.is_leader f.current_leader_id request.leader_id))) [
              | inl unexpected ↦
                  refused-AllOrNothing request ctx none r (rw (current, unexpected) at e)
              | inr expected ↦
                  let ((response, ctx'), checked, rest) =
                    >>=-eq-ok (Follower.check_anchor request ctx) _ (rw (current, expected) at e) in
                  let (ctx'', longer, last) =
                    >>=-eq-ok (extend_leader_lease_expiry_time (clock 1) ctx') _ rest in
                  rw (← ok-inj last, extend_lease-eq-ok (clock 1) ctx' ctx'' longer)
                    (extended-AllOrNothing (clock 1) request ctx response ctx'
                      (check_anchor-AllOrNothing request ctx (response, ctx') checked))
            ]
    ]
