-- ===== src/Candidate/Progress.antt =====
-- spx_core/src/roles/candidate.rs: what a vote response leaves of the context and of the candidate.
use spanner_paxos.Candidate
use spanner_paxos.Leader
use spanner_paxos.Base.{>>=-eq-ok, Bool-cases, List, arith, inl, inr, ok, ◌≡◌}
use spanner_paxos.Candidate.{Candidate}
use spanner_paxos.Candidate.Pending.{
  HasPending, flush_uncommitted_logs-Extends, record_response-HasPending,
}
use spanner_paxos.Context.{PaxosSharedContext, update_leader_lease_expiry_time}
use spanner_paxos.Context.Progress.{Extends, Extends-lease, Extends-refl, Extends-trans}
use spanner_paxos.Follower.{Campaign, undecided}
use spanner_paxos.Leader.{Leader}
use spanner_paxos.Leader.Progress.{process_uncommitted_logs-Extends}
use spanner_paxos.Messages.{Action, VoteResponse}
use spanner_paxos.TrueTime.{Clock, before}

lead-Extends :
    (clock : Clock) (c : Candidate) (ctx : PaxosSharedContext)
    (r : Campaign Candidate Leader × PaxosSharedContext × List Action)
    → HasPending c
    → Candidate.lead clock c ctx ≡ ok r
    → Extends ctx r.1
unfolding Candidate.lead
lead-Extends clock c ctx r h e =
    let flushed = Candidate.flush_uncommitted_logs c ctx in
    let ((l, ctx', actions), went, last) =
      >>=-eq-ok (Leader.process_uncommitted_logs clock 1 (Leader.new c.score_board) flushed) _ e in
    let q : r.1 ≡ ctx' = ground (arith, last) in
    rw q (
      Extends-trans ctx flushed ctx' (flush_uncommitted_logs-Extends c ctx h)
        (process_uncommitted_logs-Extends clock 1 _ flushed (l, ctx', actions) went))

take_lead-Extends :
    (clock : Clock) (c : Candidate) (ctx : PaxosSharedContext)
    (r : Campaign Candidate Leader × PaxosSharedContext × List Action)
    → HasPending c
    → Candidate.take_lead clock c ctx ≡ ok r
    → Extends ctx r.1
unfolding Candidate.take_lead update_leader_lease_expiry_time
take_lead-Extends clock c ctx r h e =
    let (expiry, computed, rest) = >>=-eq-ok (Candidate.compute_leader_lease_expiry c ctx) _ e in
    let leased = update_leader_lease_expiry_time expiry ctx in
    elim (Bool-cases (before expiry (clock 0))) [
      | inl holds ↦
          Extends-trans ctx leased r.1 (Extends-lease ctx _)
            (lead-Extends clock c leased r h (rw holds at rest))
      | inr over ↦ let q : r.1 ≡ leased = ground (arith, over, rest) in rw q (Extends-lease ctx _)
    ]

pub handle_vote_response-Extends :
    (clock : Clock) (response : VoteResponse) (c : Candidate) (ctx : PaxosSharedContext)
    (r : Campaign Candidate Leader × PaxosSharedContext × List Action)
    → HasPending c
    → Candidate.handle_vote_response clock response c ctx ≡ ok r
    → Extends ctx r.1
unfolding Candidate.handle_vote_response
handle_vote_response-Extends clock response c ctx r h e =
    let (c', recorded, rest) = >>=-eq-ok (Candidate.record_response response c ctx) _ e in
    elim (Bool-cases (Candidate.has_vote_quorum c')) [
      | inl quorum ↦
          take_lead-Extends clock c' ctx r (record_response-HasPending response c c' ctx h recorded)
            (rw quorum at rest)
      | inr few ↦ let q : r.1 ≡ ctx = ground (arith, few, rest) in rw q (Extends-refl ctx)
    ]

-- A candidate that campaigns on still has a map of entries.
abbrev pub KeepsPending : Campaign Candidate Leader → Type 0
KeepsPending (undecided c) = HasPending c
KeepsPending _ = Unit {0}

pub handle_vote_response-KeepsPending :
    (clock : Clock) (response : VoteResponse) (c : Candidate) (ctx : PaxosSharedContext)
    (r : Campaign Candidate Leader × PaxosSharedContext × List Action)
    → HasPending c
    → Candidate.handle_vote_response clock response c ctx ≡ ok r
    → KeepsPending r.0
unfolding Candidate.handle_vote_response Candidate.take_lead Candidate.lead
handle_vote_response-KeepsPending clock response c ctx r h e =
    let (c', recorded, rest) = >>=-eq-ok (Candidate.record_response response c ctx) _ e in
    let kept = record_response-HasPending response c c' ctx h recorded in ground (arith, rest, kept)
