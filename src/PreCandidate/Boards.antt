-- ===== src/PreCandidate/Boards.antt =====
-- spx_core/src/roles/precandidate.rs: the score board of the candidate that a pre-candidate becomes.
use spanner_paxos.PreCandidate
use spanner_paxos.Candidate
use spanner_paxos.Base.{>>=-eq-ok, Bool-cases, List, inl, inr, ok, ok-inj, ◌≡◌}
use spanner_paxos.Candidate.{Candidate}
use spanner_paxos.Candidate.Boards.{HasScores, dispatch_vote-HasScores, new-HasScores}
use spanner_paxos.Context.{PaxosSharedContext, increment_current_term}
use spanner_paxos.Follower.{Campaign, won}
use spanner_paxos.Messages.{Action, PreVoteResponse, Uuid}
use spanner_paxos.PreCandidate.{PreCandidate}
use spanner_paxos.TrueTime.{DateTime}

abbrev pub MakesScores : List Uuid → Campaign PreCandidate Candidate → Type 0
MakesScores peers (won c) = HasScores peers c
MakesScores peers _ = Unit {0}

start_campaign-MakesScores :
    (t : DateTime) (ctx : PaxosSharedContext)
    (r : Campaign PreCandidate Candidate × PaxosSharedContext × List Action)
    → PreCandidate.start_campaign t ctx ≡ ok r
    → MakesScores ctx.peer_ids r.0
unfolding PreCandidate.start_campaign increment_current_term
start_campaign-MakesScores t ctx r e =
    let ctx' = increment_current_term ctx in
    let ((c, actions), went, rest) =
      >>=-eq-ok (Candidate.dispatch_vote t (Candidate.new ctx) ctx') _ e in
    rw (← ok-inj rest) (
      dispatch_vote-HasScores ctx.peer_ids t (Candidate.new ctx) ctx' (c, actions)
        (new-HasScores ctx) went)

pub handle_pre_vote_response-MakesScores :
    (t : DateTime) (response : PreVoteResponse) (p : PreCandidate) (ctx : PaxosSharedContext)
    (r : Campaign PreCandidate Candidate × PaxosSharedContext × List Action)
    → PreCandidate.handle_pre_vote_response t response p ctx ≡ ok r
    → MakesScores ctx.peer_ids r.0
unfolding PreCandidate.handle_pre_vote_response
handle_pre_vote_response-MakesScores t response p ctx r e =
    let p' = PreCandidate.update_pre_vote_board response p in
    elim (Bool-cases (PreCandidate.has_pre_vote_quorum p')) [
      | inl quorum ↦ start_campaign-MakesScores t ctx r (rw quorum at e)
      | inr few ↦ elim (Bool-cases (PreCandidate.has_all_pre_vote_responses p')) [
        | inl all_in ↦ rw (← ok-inj (rw (few, all_in) at e)) tt
        | inr waits ↦ rw (← ok-inj (rw (few, waits) at e)) tt
      ]
    ]
