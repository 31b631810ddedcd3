-- ===== src/PreCandidate/Progress.antt =====
-- spx_core/src/roles/precandidate.rs: what a campaign leaves of the context, and what it becomes.
use spanner_paxos.PreCandidate
use spanner_paxos.Candidate
use spanner_paxos.Base.{
  >>=-eq-ok, Bool-cases, List, [], add_u32, arith, inl, inr, ok, ◌+◌, ◌<◌, ◌≡◌, ◌≤◌,
}
use spanner_paxos.Candidate.{Candidate}
use spanner_paxos.Context.{PaxosSharedContext, increment_current_term}
use spanner_paxos.Context.Progress.{Advances, Advances-refl, Advances-term}
use spanner_paxos.Follower.{Campaign, won}
use spanner_paxos.Messages.{Action, PreVoteResponse}
use spanner_paxos.PreCandidate.{PreCandidate}
use spanner_paxos.TrueTime.{DateTime}

start_campaign-Advances :
    (t : DateTime) (ctx : PaxosSharedContext)
    (r : Campaign PreCandidate Candidate × PaxosSharedContext × List Action)
    → ctx.term < 4294967295
    → PreCandidate.start_campaign t ctx ≡ ok r
    → Advances ctx r.1
unfolding PreCandidate.start_campaign increment_current_term
start_campaign-Advances t ctx r h e =
    let ((c, actions), went, rest) = >>=-eq-ok (Candidate.dispatch_vote t _ _) _ e in
    let q : r.1 ≡ increment_current_term ctx = ground (arith, rest) in
    rw q (Advances-term ctx (add_u32 ctx.term 1) (ground arith))

pub handle_pre_vote_response-Advances :
    (t : DateTime) (response : PreVoteResponse) (p : PreCandidate) (ctx : PaxosSharedContext)
    (r : Campaign PreCandidate Candidate × PaxosSharedContext × List Action)
    → ctx.term < 4294967295
    → PreCandidate.handle_pre_vote_response t response p ctx ≡ ok r
    → Advances ctx r.1
unfolding PreCandidate.handle_pre_vote_response
handle_pre_vote_response-Advances t response p ctx r h e =
    let p' = PreCandidate.update_pre_vote_board response p in
    elim (Bool-cases (PreCandidate.has_pre_vote_quorum p')) [
      | inl quorum ↦ start_campaign-Advances t ctx r h (rw quorum at e)
      | inr few ↦ let q : r.1 ≡ ctx = ground (arith, few) in rw q (Advances-refl ctx)
    ]

pub handle_pre_vote_response-term :
    (t : DateTime) (response : PreVoteResponse) (p : PreCandidate) (ctx : PaxosSharedContext)
    (r : Campaign PreCandidate Candidate × PaxosSharedContext × List Action)
    → PreCandidate.handle_pre_vote_response t response p ctx ≡ ok r
    → r.1.term ≤ ctx.term + 1
unfolding PreCandidate.handle_pre_vote_response PreCandidate.start_campaign Candidate.dispatch_vote
    increment_current_term
handle_pre_vote_response-term t response p ctx r e = ground arith

-- A candidate that a campaign makes has collected nothing yet.
abbrev pub MakesFresh : Campaign PreCandidate Candidate → Type 0
MakesFresh (won c) = c.pending_uncommitted_logs ≡ []
MakesFresh _ = Unit {0}

pub handle_pre_vote_response-MakesFresh :
    (t : DateTime) (response : PreVoteResponse) (p : PreCandidate) (ctx : PaxosSharedContext)
    (r : Campaign PreCandidate Candidate × PaxosSharedContext × List Action)
    → PreCandidate.handle_pre_vote_response t response p ctx ≡ ok r
    → MakesFresh r.0
unfolding PreCandidate.handle_pre_vote_response PreCandidate.start_campaign Candidate.dispatch_vote
    Candidate.new
handle_pre_vote_response-MakesFresh t response p ctx r e = ground arith
