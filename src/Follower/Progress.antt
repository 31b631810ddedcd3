-- ===== src/Follower/Progress.antt =====
-- spx_core/src/roles/follower.rs: no request takes back a term, a commit or a safe time.
use spanner_paxos.Follower
use spanner_paxos.Base.{
  >>=-eq-ok, Bool-cases, Option, Result, add_u32, ap, arith, err, inl, inr, last?, ltb, min, none,
  ok, ok-inj, panic, refl, some, tests, ℕ, ◌≡◌,
}
use spanner_paxos.Context.{PaxosSharedContext, extend_leader_lease_expiry_time}
use spanner_paxos.Context.Progress.{
  Extends, Extends-lease, Extends-logs, Extends-refl, Extends-trans, advance_t_safe-Extends,
  commit_up_to-Extends, extend_lease-Extends, extended,
}
use spanner_paxos.Follower.{Follower}
use spanner_paxos.Follower.Votes.{handle_vote_request-state}
use spanner_paxos.Follower.Writes.{write_entries-IsLog, write_entries-IsLog_uncommitted}
use spanner_paxos.Messages.{
  AcceptLogEntry, AcceptRequest, AcceptResponse, VoteRequest, VoteResponse,
}
use spanner_paxos.TrueTime.{Clock, DateTime, millisecond, sub_time}
use spanner_paxos.Wal.Writes.{truncate_from-IsLog}

set_log_position-Extends :
    (last : Option AcceptLogEntry) (ctx : PaxosSharedContext)
    → Extends ctx (Follower.set_log_position last ctx)
unfolding Follower.set_log_position
set_log_position-Extends none ctx = Extends-refl ctx
set_log_position-Extends (some last) ctx =
    Extends-logs ctx ctx.wal ctx.uncommitted_logs last.slot last.term (λ w u. w) (λ u. u)

write_request-Extends :
    (request : AcceptRequest) (ctx : PaxosSharedContext)
    → Extends ctx (Follower.write_request request ctx).0
unfolding Follower.write_request
write_request-Extends request ctx =
    Extends-trans ctx _ _
      (Extends-logs ctx _ _ ctx.last_log_slot ctx.last_log_term
        (λ w u.
          write_entries-IsLog request.entries _ ctx.uncommitted_logs request.prev_log_slot
            (truncate_from-IsLog (add_u32 request.prev_log_slot 1) ctx.wal w))
        (write_entries-IsLog_uncommitted request.entries _ ctx.uncommitted_logs
          request.prev_log_slot))
      (set_log_position-Extends (last? request.entries) _)

promise_t_safe-Extends :
    (ts : Option DateTime) (ctx ctx' : PaxosSharedContext)
    → Follower.promise_t_safe ts ctx ≡ ok ctx'
    → Extends ctx ctx'
unfolding Follower.promise_t_safe
promise_t_safe-Extends none ctx ctx' e = rw (← ok-inj e) (Extends-refl ctx)
promise_t_safe-Extends (some ts) ctx ctx' e =
    let (t, less, last) = >>=-eq-ok (sub_time ts millisecond) _ e in
    rw (← ok-inj last) (advance_t_safe-Extends t ctx)

commit_request-Extends :
    (request : AcceptRequest) (written : ℕ) (ctx ctx' : PaxosSharedContext)
    → Follower.commit_request request written ctx ≡ ok ctx'
    → Extends ctx ctx'
unfolding Follower.commit_request
commit_request-Extends request written ctx ctx' e =
    let slot = min request.leader_commit_slot written in
    elim (Bool-cases (ltb ctx.committed_slot slot)) [
      | inl higher ↦ rw (← ok-inj (rw higher at e)) (commit_up_to-Extends slot ctx (omega tests))
      | inr lower ↦ promise_t_safe-Extends request.min_next_ts ctx ctx' (rw lower at e)
    ]

accept_entries-Extends :
    (request : AcceptRequest) (ctx : PaxosSharedContext) (r : AcceptResponse × PaxosSharedContext)
    → Follower.accept_entries request ctx ≡ ok r
    → Extends ctx r.1
unfolding Follower.accept_entries
accept_entries-Extends request ctx r e =
    let (ctx', committed, last) = >>=-eq-ok (Follower.commit_request request _ _) _ e in
    rw (← ok-inj last) (
      Extends-trans ctx _ _ (write_request-Extends request ctx)
        (commit_request-Extends request _ _ ctx' committed))

pub check_anchor-Extends :
    (request : AcceptRequest) (ctx : PaxosSharedContext) {response : AcceptResponse}
    {ctx' : PaxosSharedContext}
    → Follower.check_anchor request ctx ≡ ok (response, ctx')
    → Extends ctx ctx'
unfolding Follower.check_anchor
check_anchor-Extends request ctx {response} {ctx'} e =
    ground (arith, accept_entries-Extends request ctx (response, ctx'), Extends-refl ctx)

extend_after-Extends :
    (t : DateTime) (ctx : PaxosSharedContext) (m : Result (AcceptResponse × PaxosSharedContext))
    → ((r : AcceptResponse) (c : PaxosSharedContext) → m ≡ ok (r, c) → Extends ctx c)
    → {response : AcceptResponse} {ctx' : PaxosSharedContext}
    → Follower.extend_after t m ≡ ok (response, ctx')
    → Extends ctx ctx'
unfolding Follower.extend_after
extend_after-Extends t ctx (ok (r, c)) h {response} {ctx'} e =
    let (c', extended, last) = >>=-eq-ok (extend_leader_lease_expiry_time t c) _ e in
    let same : c' ≡ ctx' = ap (λ (x : AcceptResponse × PaxosSharedContext). x.1) (ok-inj last) in
    rw (← same) (Extends-trans ctx c c' (h r c refl) (extend_lease-Extends t c c' extended))
extend_after-Extends t ctx (err x) h e = cc
extend_after-Extends t ctx panic h e = cc

-- Whatever an accept request brings, the term stays, the committed slot and the safe time do not go
-- back, and the member is the same.
pub handle_accept_request-Extends :
    (clock : Clock) (f : Follower) (request : AcceptRequest) (ctx : PaxosSharedContext)
    {response : AcceptResponse} {ctx' : PaxosSharedContext}
    → Follower.handle_accept_request clock f request ctx ≡ ok (response, ctx')
    → Extends ctx ctx'
unfolding Follower.handle_accept_request
handle_accept_request-Extends clock f request ctx {response} {ctx'} e = ground (
  arith,
  Extends-refl ctx,
  extend_after-Extends (clock 1) ctx (Follower.check_anchor request ctx)
      (λ r c h. check_anchor-Extends request ctx h) {response = response} {ctx' = ctx'},
)

pub handle_vote_request-Extends :
    (clock : Clock) (f : Follower) (request : VoteRequest) (ctx : PaxosSharedContext)
    (r : VoteResponse × Follower × PaxosSharedContext)
    → Follower.handle_vote_request clock f request ctx ≡ ok r
    → Extends ctx r.2
handle_vote_request-Extends clock f request ctx r e =
    elim (handle_vote_request-state clock f request ctx r e) [
      | inl (promised, recorded, leased) ↦ rw leased (Extends-lease ctx _)
      | inr (nay, same, same_ctx) ↦ rw same_ctx (Extends-refl ctx)
    ]
