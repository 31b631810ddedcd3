-- ===== src/Candidate/Terms.antt =====
-- spx_core/src/roles/candidate.rs: the lease that a candidate takes when it wins.
use spanner_paxos.Candidate
use spanner_paxos.Leader
use spanner_paxos.Base.{
  >>=-eq-ok, Bool-cases, List, Option, ap, arith, expect, inl, inr, none, ok, ok-inj, refl, some,
  subst, sym, ℕ, ◌+◌, ◌==◌, ◌∙◌, ◌≡◌,
}
use spanner_paxos.Candidate.{Candidate}
use spanner_paxos.Context.{PaxosSharedContext, update_leader_lease_expiry_time}
use spanner_paxos.Follower.{Campaign, undecided, won}
use spanner_paxos.Leader.{Leader}
use spanner_paxos.Map.{insert, lookup}
use spanner_paxos.Messages.{Action, VoteOutcome, VotePromise, VoteResponse, promise, rejection}
use spanner_paxos.TrueTime.{Clock, DateTime, before}
use spanner_paxos.TrueTime.Range.{add_time-eq-ok}
use spanner_paxos.Wal.{LogEntry}

-- The candidate has handled some responses since, and none has decided the campaign.
pub data Awaits (c : Candidate) : Candidate → Type 0 where
  sent : Awaits c c
  counted :
      {c' c'' : Candidate} (clock : Clock) (response : VoteResponse) (ctx ctx' : PaxosSharedContext)
      (actions : List Action)
      → Awaits c c'
      → Candidate.handle_vote_response clock response c' ctx ≡ ok (undecided c'', ctx', actions)
      → Awaits c c''

seed_score-time :
    (member slot : ℕ) (c c' : Candidate)
    → Candidate.seed_score member slot c ≡ ok c'
    → c'.vote_dispatch_time ≡ c.vote_dispatch_time
unfolding Candidate.seed_score
seed_score-time member slot c c' e =
    let (pos, found, rest) = >>=-eq-ok (expect (lookup member c.score_board)) _ e in
    rw (← ok-inj rest) refl

record_promise-time :
    (member : ℕ) (p : VotePromise) (c c' : Candidate) (ctx : PaxosSharedContext)
    → Candidate.record_promise member p c ctx ≡ ok c'
    → c'.vote_dispatch_time ≡ c.vote_dispatch_time
unfolding Candidate.record_promise
record_promise-time member p c c' ctx e = elim (Bool-cases (p.last_log_term == ctx.last_log_term)) [
  | inl same ↦ seed_score-time member _ _ c' (rw same at e)
  | inr other ↦ rw (← ok-inj (rw other at e)) refl
]

record_response-time :
    (response : VoteResponse) (c c' : Candidate) (ctx : PaxosSharedContext)
    → Candidate.record_response response c ctx ≡ ok c'
    → c'.vote_dispatch_time ≡ c.vote_dispatch_time
unfolding Candidate.record_response
record_response-time response c c' ctx e = go response.outcome e
  where
    go :
        (o : VoteOutcome)
        → (elim o [
          | promise p ↦
              Candidate.record_promise response.member_id p
                (record c { vote_board = insert response.member_id (some response) c.vote_board })
                ctx
          | rejection j ↦
              ok (record c { vote_board = insert response.member_id (some response) c.vote_board })
        ])
          ≡ ok c'
        → c'.vote_dispatch_time ≡ c.vote_dispatch_time
    go (promise p) q = record_promise-time response.member_id p _ c' ctx q
    go (rejection j) q = rw (← ok-inj q) refl

advance_log-lease :
    (last : Option LogEntry) (l : Leader) (ctx : PaxosSharedContext)
    → (Leader.advance_log last l ctx).1.lease ≡ ctx.lease
unfolding Leader.advance_log
advance_log-lease none l ctx = refl
advance_log-lease (some last) l ctx = refl

lead-lease :
    (clock : Clock) (c : Candidate) (ctx : PaxosSharedContext)
    (r : Campaign Candidate Leader × PaxosSharedContext × List Action)
    → Candidate.lead clock c ctx ≡ ok r
    → r.1.lease ≡ ctx.lease
unfolding Candidate.lead Leader.process_uncommitted_logs Candidate.flush_uncommitted_logs
lead-lease clock c ctx r e =
    let (processed, went, last) =
      >>=-eq-ok
        (Leader.process_uncommitted_logs clock 1 (Leader.new c.score_board)
          (Candidate.flush_uncommitted_logs c ctx))
        _ e in
    let (requests, through, end) =
      >>=-eq-ok (Leader.dispatch_accept_request clock 1 none _ _) _ went in
    rw (← ok-inj last, ← ok-inj end) (advance_log-lease _ _ _)

-- The outcomes after which the member leads.
abbrev pub IsWon : Campaign Candidate Leader → Type 0
IsWon (won l) = Unit {0}
IsWon _ = ⊥

-- A campaign that has been won leaves the lease's length past the time of its vote requests.
pub record TakesLease (c : Candidate) (ctx ctx' : PaxosSharedContext) : Type 0 where
  pub time : DateTime
  pub dispatched : c.vote_dispatch_time ≡ some time
  pub lease : ctx'.lease.expiry ≡ some (time + ctx.lease_length)

take_lead-TakesLease :
    (clock : Clock) (c : Candidate) (ctx : PaxosSharedContext)
    (r : Campaign Candidate Leader × PaxosSharedContext × List Action)
    → Candidate.take_lead clock c ctx ≡ ok r
    → IsWon r.0
    → TakesLease c ctx r.1
unfolding Candidate.take_lead Candidate.compute_leader_lease_expiry update_leader_lease_expiry_time
take_lead-TakesLease clock c ctx r e wins =
    let (expiry, computed, rest) = >>=-eq-ok (Candidate.compute_leader_lease_expiry c ctx) _ e in
    let (time, at, sum) = >>=-eq-ok (expect c.vote_dispatch_time) _ computed in
    let ends = add_time-eq-ok time expiry ctx.lease_length sum in
    let dispatched_at : c.vote_dispatch_time ≡ some time = ground (arith, at) in
    elim (Bool-cases (before expiry (clock 0))) [
      | inl holds ↦ record {
        time = time;
        dispatched = dispatched_at;
        lease = rw (lead-lease clock c _ r (rw holds at rest)) (ap some ends);
      }
      | inr over ↦ absurd (subst IsWon (sym (ap (λ x. x.0) (ok-inj (rw over at rest)))) wins)
    ]

handle_vote_response-TakesLease :
    (clock : Clock) (response : VoteResponse) (c : Candidate) (ctx : PaxosSharedContext)
    (r : Campaign Candidate Leader × PaxosSharedContext × List Action)
    → Candidate.handle_vote_response clock response c ctx ≡ ok r
    → IsWon r.0
    → TakesLease c ctx r.1
unfolding Candidate.handle_vote_response
handle_vote_response-TakesLease clock response c ctx r e wins =
    let (c', recorded, rest) = >>=-eq-ok (Candidate.record_response response c ctx) _ e in
    let same = record_response-time response c c' ctx recorded in
    elim (Bool-cases (Candidate.has_vote_quorum c')) [
      | inl quorum ↦
          let taken = take_lead-TakesLease clock c' ctx r (rw quorum at rest) wins in
          record {
            time = taken.time;
            dispatched = sym same ∙ taken.dispatched;
            lease = taken.lease;
          }
      | inr few ↦ elim (Bool-cases (Candidate.has_all_vote_responses c')) [
        | inl all_in ↦
            absurd (subst IsWon (sym (ap (λ x. x.0) (ok-inj (rw (few, all_in) at rest)))) wins)
        | inr waits ↦
            absurd (subst IsWon (sym (ap (λ x. x.0) (ok-inj (rw (few, waits) at rest)))) wins)
      ]
    ]

abbrev IsUndecided : Candidate → Campaign Candidate Leader → Type 0
IsUndecided c (undecided c') = c'.vote_dispatch_time ≡ c.vote_dispatch_time
IsUndecided c _ = Unit {0}

handle_vote_response-IsUndecided :
    (clock : Clock) (response : VoteResponse) (c : Candidate) (ctx : PaxosSharedContext)
    (r : Campaign Candidate Leader × PaxosSharedContext × List Action)
    → Candidate.handle_vote_response clock response c ctx ≡ ok r
    → IsUndecided c r.0
unfolding Candidate.handle_vote_response Candidate.take_lead Candidate.lead
handle_vote_response-IsUndecided clock response c ctx r e =
    let (c', recorded, rest) = >>=-eq-ok (Candidate.record_response response c ctx) _ e in
    let same = record_response-time response c c' ctx recorded in ground (arith, rest, same)

Awaits-time : (c c' : Candidate) → Awaits c c' → c'.vote_dispatch_time ≡ c.vote_dispatch_time
Awaits-time c c' sent = refl
Awaits-time c c' (counted {c' = c1} clock response ctx ctx' actions before_it e) =
    handle_vote_response-IsUndecided clock response c1 ctx _ e ∙ Awaits-time c c1 before_it

-- A candidate that wins, however many responses it has handled since it sent its requests.
pub won-TakesLease :
    (clock : Clock) (response : VoteResponse) (c c' : Candidate) (ctx : PaxosSharedContext)
    (r : Campaign Candidate Leader × PaxosSharedContext × List Action)
    → Awaits c c'
    → Candidate.handle_vote_response clock response c' ctx ≡ ok r
    → IsWon r.0
    → TakesLease c ctx r.1
won-TakesLease clock response c c' ctx r waited e wins =
    let taken = handle_vote_response-TakesLease clock response c' ctx r e wins in
    record {
      time = taken.time;
      dispatched = sym (Awaits-time c c' waited) ∙ taken.dispatched;
      lease = taken.lease;
    }
