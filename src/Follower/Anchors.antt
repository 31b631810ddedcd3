-- ===== src/Follower/Anchors.antt =====
-- spx_core/src/roles/follower.rs: the test of an accept request's anchor against the log.
use spanner_paxos.Follower
use spanner_paxos.Wal
use spanner_paxos.Base.{
  ==→eq, ==→ne, >>=-Returns, Bool-cases, Option, Option-cases, Returns, add_u32, arith, inl, inr,
  ltb, min, none, not, ok, refl, some, ℕ, ◌+◌, ◌-◌, ◌==◌, ◌||◌, ◌∙◌, ◌≡◌, ◌≢◌, ◌≤◌, ◌⊎◌,
}
use spanner_paxos.Context.{
  PaxosSharedContext, advance_t_safe, commit_up_to, is_leader_lease_expired,
}
use spanner_paxos.Context.Progress.{extend_lease-ok, extended}
use spanner_paxos.Follower.{Follower}
use spanner_paxos.Follower.Progress.{check_anchor-Extends}
use spanner_paxos.Messages.{AcceptRequest, ConflictHint}
use spanner_paxos.TrueTime.{Clock, DateTime, max_utc, millisecond, uncertainty}
use spanner_paxos.TrueTime.Range.{sub_time-ok}
use spanner_paxos.Wal.{LogEntry, WriteAheadLog}
use spanner_paxos.Wal.Queries.{HasTerm, IsLowestSlot, find_lowest_slot_for_term-IsLowestSlot}
use spanner_paxos.Wal.Writes.{IsLog}

-- What a refusal at the anchor reports: that the log has no entry there, and the slot past the log's
-- end as the context has it; or the term that the log has there, another than the leader's, and the lowest slot of that term.
pub data Reports (request : AcceptRequest) (ctx : PaxosSharedContext) (hint : ConflictHint)
    : Type 0 where
  short :
      Wal.get request.prev_log_slot ctx.wal ≡ none
      → hint.conflict_term ≡ 0
      → hint.conflict_first_slot ≡ add_u32 ctx.last_log_slot 1
      → Reports request ctx hint
  mismatch :
      HasTerm request.prev_log_slot hint.conflict_term ctx.wal
      → hint.conflict_term ≢ request.prev_log_term
      → IsLowestSlot hint.conflict_term ctx.wal (some hint.conflict_first_slot)
      → Reports request ctx hint

-- The outcomes of the test of the anchor: to take the entries, or to refuse them with a hint.
pub data Anchored (request : AcceptRequest) (ctx : PaxosSharedContext) : Type 0 where
  matches :
      (request.prev_log_slot ≡ 0) ⊎ HasTerm request.prev_log_slot request.prev_log_term ctx.wal
      → Follower.check_anchor request ctx ≡ Follower.accept_entries request ctx
      → Anchored request ctx
  differs :
      (hint : ConflictHint)
      → Reports request ctx hint
      → Follower.check_anchor request ctx ≡ ok (Follower.accept_failed request ctx (some hint), ctx)
      → Anchored request ctx

module _ (request : AcceptRequest) (ctx : PaxosSharedContext) where
  at_zero :
      request.prev_log_slot ≡ 0
      → Follower.check_anchor request ctx ≡ Follower.accept_entries request ctx
  unfolding Follower.check_anchor
  at_zero h = ground arith

  at_missing :
      request.prev_log_slot ≢ 0
      → Wal.get request.prev_log_slot ctx.wal ≡ none
      → Follower.check_anchor request ctx
        ≡ ok (Follower.accept_failed request ctx (some (Follower.short_log ctx)), ctx)
  unfolding Follower.check_anchor Wal.has_entry
  at_missing h e = ground arith

  at_match :
      request.prev_log_slot ≢ 0
      → (e : LogEntry) → Wal.get request.prev_log_slot ctx.wal ≡ some e
      → e.term ≡ request.prev_log_term
      → Follower.check_anchor request ctx ≡ Follower.accept_entries request ctx
  unfolding Follower.check_anchor Wal.has_entry Wal.get_term
  at_match h e found same = ground arith

  at_difference :
      request.prev_log_slot ≢ 0
      → (e : LogEntry) (slot : ℕ) → Wal.get request.prev_log_slot ctx.wal ≡ some e
      → e.term ≢ request.prev_log_term
      → Wal.find_lowest_slot_for_term e.term ctx.wal ≡ some slot
      → Follower.check_anchor request ctx
        ≡ ok (
          Follower.accept_failed request ctx
              (some (record { conflict_term = e.term; conflict_first_slot = slot })),
          ctx,
        )
  unfolding Follower.check_anchor Follower.mismatch_hint Wal.has_entry Wal.get_term
  at_difference h e slot found other lowest = ground arith

HasTerm-get :
    (slot : ℕ) (w : WriteAheadLog) (e : LogEntry) → Wal.get slot w ≡ some e → HasTerm slot e.term w
unfolding Wal.get_term
HasTerm-get slot w e h = ground arith

lowest_of :
    (term slot : ℕ) (w : WriteAheadLog) (o : Option ℕ)
    → HasTerm slot term w
    → IsLowestSlot term w o
    → (best : ℕ) × (o ≡ some best) × IsLowestSlot term w (some best)
lowest_of term slot w none h k = absurd (k slot h)
lowest_of term slot w (some best) h k = (best, refl, k)

-- On a well-formed log the test of the anchor itself does not panic. It takes the entries exactly at
-- slot 0 or where the log has the leader's term, and otherwise refuses them with a hint: where the log
-- has no entry at the anchor, the slot past the end of the log that the context records, and where it
-- has another term, that term and its lowest slot.
pub check_anchor-Anchored :
    (request : AcceptRequest) (ctx : PaxosSharedContext) → IsLog ctx.wal → Anchored request ctx
check_anchor-Anchored request ctx v = elim (Bool-cases (request.prev_log_slot == 0)) [
  | inl first ↦
      let h = ==→eq request.prev_log_slot 0 first in matches (inl h) (at_zero request ctx h)
  | inr later ↦
      let h = ==→ne request.prev_log_slot 0 later in
      elim (Option-cases (Wal.get request.prev_log_slot ctx.wal)) [
        | inl missing ↦
            differs (Follower.short_log ctx) (short missing refl refl)
              (at_missing request ctx h missing)
        | inr (e, found) ↦
            let has = HasTerm-get request.prev_log_slot ctx.wal e found in
            elim (Bool-cases (e.term == request.prev_log_term)) [
              | inl same ↦
                  let s = ==→eq e.term request.prev_log_term same in
                  matches (inr (rw s at has)) (at_match request ctx h e found s)
              | inr other ↦
                  let s = ==→ne e.term request.prev_log_term other in
                  let (slot, lowest, is_lowest) =
                    lowest_of e.term request.prev_log_slot ctx.wal _ has
                      (find_lowest_slot_for_term-IsLowestSlot e.term ctx.wal v) in
                  differs (record { conflict_term = e.term; conflict_first_slot = slot })
                    (mismatch has s is_lowest) (at_difference request ctx h e slot found s lowest)
            ]
      ]
]

-- One millisecond before the promise is a time that chrono has.
abbrev pub HasTime : Option DateTime → Type 0
HasTime none = Unit {0}
HasTime (some ts) = millisecond ≤ ts

promise_t_safe-Returns :
    (ts : Option DateTime) (ctx : PaxosSharedContext)
    → HasTime ts
    → Returns (Follower.promise_t_safe ts ctx)
unfolding Follower.promise_t_safe
promise_t_safe-Returns none ctx h = (ctx, refl)
promise_t_safe-Returns (some ts) ctx h =
    (advance_t_safe (ts - millisecond) ctx, rw (sub_time-ok ts millisecond h) refl)

commit_request-Returns :
    (request : AcceptRequest) (written : ℕ) (ctx : PaxosSharedContext)
    → HasTime request.min_next_ts
    → Returns (Follower.commit_request request written ctx)
unfolding Follower.commit_request
commit_request-Returns request written ctx h =
    let slot = min request.leader_commit_slot written in
    elim (Bool-cases (ltb ctx.committed_slot slot)) [
      | inl higher ↦ (commit_up_to slot ctx, rw higher refl)
      | inr lower ↦
          let (ctx', promised) = promise_t_safe-Returns request.min_next_ts ctx h in
          (ctx', rw (lower, promised) refl)
    ]

accept_entries-Returns :
    (request : AcceptRequest) (ctx : PaxosSharedContext)
    → HasTime request.min_next_ts
    → Returns (Follower.accept_entries request ctx)
unfolding Follower.accept_entries
accept_entries-Returns request ctx h =
    >>=-Returns (Follower.commit_request request _ _) _ (commit_request-Returns request _ _ h)
      (λ ctx' committed. (_, refl))

check_anchor-Returns :
    (request : AcceptRequest) (ctx : PaxosSharedContext)
    → HasTime request.min_next_ts
    → Anchored request ctx
    → Returns (Follower.check_anchor request ctx)
check_anchor-Returns request ctx h (matches a e) =
    let (r, accepted) = accept_entries-Returns request ctx h in (r, e ∙ accepted)
check_anchor-Returns request ctx h (differs hint reports e) = (_, e)

-- A follower with a well-formed log answers every accept request, if a millisecond before the
-- request's promise, and the end of the lease that the answer gives, are times that chrono has.
pub handle_accept_request-Returns :
    (clock : Clock) (f : Follower) (request : AcceptRequest) (ctx : PaxosSharedContext)
    → IsLog ctx.wal
    → HasTime request.min_next_ts
    → clock 1 + uncertainty + ctx.lease_length ≤ max_utc
    → Returns (Follower.handle_accept_request clock f request ctx)
unfolding Follower.handle_accept_request Follower.extend_after
handle_accept_request-Returns clock f request ctx v h fits =
    let ((response, ctx'), checked) =
      check_anchor-Returns request ctx h (check_anchor-Anchored request ctx v) in
    let same = (check_anchor-Extends request ctx checked).lease_length in
    elim (Bool-cases (ltb request.term ctx.term)) [
      | inl stale ↦ ((Follower.accept_failed request ctx none, ctx), rw stale refl)
      | inr current ↦
          elim (Bool-cases (
            is_leader_lease_expired (clock 0) ctx
            || not (Follower.is_leader f.current_leader_id request.leader_id))) [
              | inl unexpected ↦
                  ((Follower.accept_failed request ctx none, ctx), rw (current, unexpected) refl)
              | inr expected ↦ (
                (response, extended (clock 1) ctx'),
                rw (current, expected, checked, extend_lease-ok (clock 1) ctx' (rw same fits)) refl,
              )
            ]
    ]
