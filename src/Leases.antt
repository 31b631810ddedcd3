-- ===== src/Leases.antt =====
-- spx_core/src/roles: the lease of a leader against the leases of the followers that it rests on.
-- The readings of two members' clocks are related by the true times at which they are taken, from
-- which a reading differs by no more than the uncertainty of TrueTime.
use spanner_paxos.Follower
use spanner_paxos.Candidate
use spanner_paxos.Base.{
  >>=-eq-ok, Bool-cases, List, ap, arith, false, inl, inr, ltb, none, not, ok, ok-inj, refl, some,
  sym, true, ℕ, ◌+◌, ◌||◌, ◌∙◌, ◌≡◌, ◌≢◌, ◌≤◌, ◌⊎◌,
}
use spanner_paxos.Candidate.{Candidate}
use spanner_paxos.Candidate.Terms.{Awaits, IsWon, won-TakesLease}
use spanner_paxos.Context.{
  PaxosSharedContext, extend_leader_lease_expiry_time, is_leader_lease_expired,
}
use spanner_paxos.Context.Progress.{extend_lease-eq-ok}
use spanner_paxos.Follower.{Campaign, Follower, won}
use spanner_paxos.Follower.Progress.{check_anchor-Extends}
use spanner_paxos.Follower.Votes.{handle_vote_request-state}
use spanner_paxos.Leader.{Leader}
use spanner_paxos.Messages.{
  AcceptRequest, AcceptResponse, Action, VoteRequest, VoteResponse, dispatch, is_promise,
}
use spanner_paxos.TrueTime.{Clock, DateTime, now, uncertainty}

-- One member's reading `t` is taken, by the true time, no later than the other's reading `t'`.
pub record Precedes (t t' : DateTime) : Type 0 where
  pub true_time : DateTime
  pub true_time' : DateTime
  pub close : t ≤ true_time + uncertainty
  pub order : true_time ≤ true_time'
  pub close' : true_time' ≤ t' + uncertainty

lease-Precedes :
    (t t' : DateTime) (lease_length : ℕ)
    → Precedes t t'
    → (now t).earliest + lease_length ≤ (now t').latest + lease_length
lease-Precedes t t' lease_length p = omega (arith, p.close, p.order, p.close')

-- The lease has an expiry, and it is no earlier than `x`.
pub record LeaseCovers (x : DateTime) (ctx : PaxosSharedContext) : Type 0 where
  pub expiry : DateTime
  pub held : ctx.lease.expiry ≡ some expiry
  pub later : x ≤ expiry

-- The lease that a candidate has when it wins, whatever responses it has handled since it sent its
-- vote requests, ends no later than the lease of a member that voted after they were sent, if the two
-- have the same lease length.
pub vote-LeaseCovers :
    (t : DateTime) (c c' c'' : Candidate) (sender sender' : PaxosSharedContext)
    (actions : List Action) (later : Clock) (response : VoteResponse)
    (won : Campaign Candidate Leader × PaxosSharedContext × List Action) (clock : Clock)
    (f : Follower) (request : VoteRequest) (ctx : PaxosSharedContext)
    (r : VoteResponse × Follower × PaxosSharedContext)
    → Candidate.dispatch_vote t c sender ≡ ok (c', actions)
    → Awaits c' c''
    → Candidate.handle_vote_response later response c'' sender' ≡ ok won
    → IsWon won.0
    → ctx.lease_length ≡ sender'.lease_length
    → Follower.handle_vote_request clock f request ctx ≡ ok r
    → is_promise r.0 ≡ true
    → Precedes t (clock 1)
    → (expiry : DateTime) × (won.1.lease.expiry ≡ some expiry) × LeaseCovers expiry r.2
unfolding Candidate.dispatch_vote
vote-LeaseCovers t c c' c'' sender sender' actions later response outcome clock f request ctx r d w
      v win same answered yes_sent p =
    let (requests, went, rest) =
      >>=-eq-ok (dispatch (sender.dispatcher.dispatch_vote_request _) _) _ d in
    let sent_at : c'.vote_dispatch_time ≡ some (now t).earliest = ground (arith, rest) in
    let taken = won-TakesLease later response c' c'' sender' outcome w v win in
    let at_once : taken.time ≡ (now t).earliest = ground (arith, taken.dispatched, sent_at) in
    let order = lease-Precedes t (clock 1) sender'.lease_length p in
    (
      taken.time + sender'.lease_length,
      taken.lease,
      elim (handle_vote_request-state clock f request ctx r answered) [
        | inl (promised, recorded, leased) ↦ rw leased (record {
          expiry = clock 1 + uncertainty + ctx.lease_length;
          held = refl;
          later = rw (at_once, same) order;
        })
        | inr (no_promise, same_f, same_ctx) ↦ let clash = sym yes_sent ∙ no_promise in cc clash
      ],
    )

refused_uncounted :
    (request : AcceptRequest) (ctx : PaxosSharedContext) (r : AcceptResponse × PaxosSharedContext)
    → (r.0.success ≡ true) ⊎ (r.0.conflict_hint ≢ none)
    → ¬ (ok (Follower.accept_failed request ctx none, ctx) ≡ ok r)
refused_uncounted request ctx r (inl success) e =
    let q : (Follower.accept_failed request ctx none, ctx) ≡ r = cc in
    let clash : false ≡ true =
      ap (λ (x : AcceptResponse × PaxosSharedContext). x.0.success) q ∙ success in
    cc
refused_uncounted request ctx r (inr hint) e = hint cc

accept_entries-echoed_t_send :
    (request : AcceptRequest) (ctx : PaxosSharedContext) (r : AcceptResponse × PaxosSharedContext)
    → Follower.accept_entries request ctx ≡ ok r
    → r.0.echoed_t_send ≡ request.t_send
unfolding Follower.accept_entries
accept_entries-echoed_t_send request ctx r e =
    let (ctx', committed, last) = >>=-eq-ok (Follower.commit_request request _ _) _ e in
    rw (← ok-inj last) refl

check_anchor-echoed_t_send :
    (request : AcceptRequest) (ctx : PaxosSharedContext) (response : AcceptResponse)
    (ctx' : PaxosSharedContext)
    → Follower.check_anchor request ctx ≡ ok (response, ctx')
    → response.echoed_t_send ≡ request.t_send
unfolding Follower.check_anchor
check_anchor-echoed_t_send request ctx response ctx' e =
    ground (arith, accept_entries-echoed_t_send request ctx (response, ctx'))

extended_lease :
    (t t' : DateTime) (request : AcceptRequest) (ctx : PaxosSharedContext)
    (r : AcceptResponse × PaxosSharedContext)
    → request.t_send ≡ (now t).earliest
    → Precedes t t'
    → Follower.extend_after t' (Follower.check_anchor request ctx) ≡ ok r
    → (r.0.echoed_t_send ≡ request.t_send) × LeaseCovers (r.0.echoed_t_send + ctx.lease_length) r.1
unfolding Follower.extend_after
extended_lease t t' request ctx r stamped p e =
    let ((response, ctx'), checked, rest) = >>=-eq-ok (Follower.check_anchor request ctx) _ e in
    let echo = check_anchor-echoed_t_send request ctx response ctx' checked in
    let advances = check_anchor-Extends request ctx checked in
    let (ctx'', longer, last) = >>=-eq-ok (extend_leader_lease_expiry_time t' ctx') _ rest in
    rw (← ok-inj last, extend_lease-eq-ok t' ctx' ctx'' longer)
      (
        echo,
        record {
          expiry = (now t').latest + ctx'.lease_length;
          held = refl;
          later =
              rw (echo, stamped, advances.lease_length) (lease-Precedes t t' ctx.lease_length p);
        },
      )

-- A follower whose answer counts as contact has a lease that lasts at least the lease's length past
-- the time that it echoes, if it took the request after the leader sent it.
pub accept-LeaseCovers :
    (t : DateTime) (clock : Clock) (f : Follower) (request : AcceptRequest)
    (ctx : PaxosSharedContext) (r : AcceptResponse × PaxosSharedContext)
    → request.t_send ≡ (now t).earliest
    → Precedes t (clock 1)
    → Follower.handle_accept_request clock f request ctx ≡ ok r
    → (r.0.success ≡ true) ⊎ (r.0.conflict_hint ≢ none)
    → (r.0.echoed_t_send ≡ request.t_send) × LeaseCovers (r.0.echoed_t_send + ctx.lease_length) r.1
unfolding Follower.handle_accept_request Follower.extend_after
accept-LeaseCovers t clock f request ctx r stamped p e counts =
    elim (Bool-cases (ltb request.term ctx.term)) [
      | inl stale ↦ absurd (refused_uncounted request ctx r counts (rw stale at e))
      | inr current ↦
          elim (Bool-cases (
            is_leader_lease_expired (clock 0) ctx
            || not (Follower.is_leader f.current_leader_id request.leader_id))) [
              | inl unexpected ↦
                  absurd (refused_uncounted request ctx r counts (rw (current, unexpected) at e))
              | inr expected ↦
                  extended_lease t (clock 1) request ctx r stamped p (rw (current, expected) at e)
            ]
    ]
