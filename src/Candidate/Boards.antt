-- ===== src/Candidate/Boards.antt =====
-- spx_core/src/roles/candidate.rs: the score board of a candidate, and the boards of the leader that
-- it becomes.
use spanner_paxos.Candidate
use spanner_paxos.Leader
use spanner_paxos.Base.{
  >>=-eq-ok, Bool-cases, List, arith, expect, inl, inr, ok, ok-inj, some, ℕ, ◌==◌, ◌≡◌,
}
use spanner_paxos.Candidate.{Candidate}
use spanner_paxos.Context.{PaxosSharedContext, create_vote}
use spanner_paxos.Follower.{Campaign, lost, undecided, won}
use spanner_paxos.Follower.Boards.{IsBoard, for_peers-IsBoard, insert-IsBoard}
use spanner_paxos.Leader.{Leader}
use spanner_paxos.Leader.Boards.{HasBoards, new-HasBoards, process_uncommitted_logs-HasBoards}
use spanner_paxos.Map.{insert, lookup}
use spanner_paxos.Messages.{
  Action, Uuid, VoteOutcome, VotePromise, VoteResponse, dispatch, dispatched_vote, promise,
  rejection,
}
use spanner_paxos.TrueTime.{Clock, DateTime, before}

abbrev pub HasScores : List Uuid → Candidate → Type 0
HasScores peers c = IsBoard peers c.score_board

-- What a campaign comes to has a board for each peer, if it is a candidate or a leader.
abbrev pub KeepsBoards : List Uuid → Campaign Candidate Leader → Type 0
KeepsBoards peers (undecided c) = HasScores peers c
KeepsBoards peers (won l) = HasBoards peers l
KeepsBoards peers (lost f) = Unit {0}

pub new-HasScores : (ctx : PaxosSharedContext) → HasScores ctx.peer_ids (Candidate.new ctx)
unfolding Candidate.new
new-HasScores ctx = for_peers-IsBoard _ ctx.peer_ids

pub dispatch_vote-HasScores :
    (peers : List Uuid) (t : DateTime) (c : Candidate) (ctx : PaxosSharedContext)
    (r : Candidate × List Action)
    → HasScores peers c
    → Candidate.dispatch_vote t c ctx ≡ ok r
    → HasScores peers r.0
unfolding Candidate.dispatch_vote
dispatch_vote-HasScores peers t c ctx r h e =
    let (actions, sent, last) =
      >>=-eq-ok
        (dispatch (ctx.dispatcher.dispatch_vote_request (create_vote ctx))
          (dispatched_vote (create_vote ctx)))
        _ e in
    rw (← ok-inj last) h

module _ (peers : List Uuid) where
  seed_score-HasScores :
      (member slot : ℕ) (c c' : Candidate)
      → HasScores peers c
      → Candidate.seed_score member slot c ≡ ok c'
      → HasScores peers c'
  unfolding Candidate.seed_score
  seed_score-HasScores member slot c c' h e =
      let (pos, found, rest) = >>=-eq-ok (expect (lookup member c.score_board)) _ e in
      let present : lookup member c.score_board ≡ some pos = ground (arith, found) in
      rw (← ok-inj rest) (insert-IsBoard peers member _ pos c.score_board present h)

  record_promise-HasScores :
      (member : ℕ) (p : VotePromise) (c c' : Candidate) (ctx : PaxosSharedContext)
      → HasScores peers c
      → Candidate.record_promise member p c ctx ≡ ok c'
      → HasScores peers c'
  unfolding Candidate.record_promise
  record_promise-HasScores member p c c' ctx h e =
      elim (Bool-cases (p.last_log_term == ctx.last_log_term)) [
        | inl same ↦ seed_score-HasScores member _ _ c' h (rw same at e)
        | inr other ↦ rw (← ok-inj (rw other at e)) h
      ]

  record_response-HasScores :
      (response : VoteResponse) (c c' : Candidate) (ctx : PaxosSharedContext)
      → HasScores peers c
      → Candidate.record_response response c ctx ≡ ok c'
      → HasScores peers c'
  unfolding Candidate.record_response
  record_response-HasScores response c c' ctx h e = go response.outcome e
    where
      go :
          (o : VoteOutcome)
          → (elim o [
            | promise p ↦
                Candidate.record_promise response.member_id p
                  (record c { vote_board = insert response.member_id (some response) c.vote_board })
                  ctx
            | rejection j ↦
                ok
                  (record c { vote_board = insert response.member_id (some response) c.vote_board })
          ])
            ≡ ok c'
          → HasScores peers c'
      go (promise p) q = record_promise-HasScores response.member_id p _ c' ctx h q
      go (rejection j) q = rw (← ok-inj q) h

  lead-KeepsBoards :
      (clock : Clock) (c : Candidate) (ctx : PaxosSharedContext)
      (r : Campaign Candidate Leader × PaxosSharedContext × List Action)
      → HasScores peers c
      → Candidate.lead clock c ctx ≡ ok r
      → KeepsBoards peers r.0
  unfolding Candidate.lead
  lead-KeepsBoards clock c ctx r h e =
      let flushed = Candidate.flush_uncommitted_logs c ctx in
      let ((l, ctx', actions), went, last) =
        >>=-eq-ok (Leader.process_uncommitted_logs clock 1 (Leader.new c.score_board) flushed) _
          e in
      rw (← ok-inj last) (
        process_uncommitted_logs-HasBoards peers clock 1 _ flushed (l, ctx', actions)
          (new-HasBoards peers c.score_board h) went)

  take_lead-KeepsBoards :
      (clock : Clock) (c : Candidate) (ctx : PaxosSharedContext)
      (r : Campaign Candidate Leader × PaxosSharedContext × List Action)
      → HasScores peers c
      → Candidate.take_lead clock c ctx ≡ ok r
      → KeepsBoards peers r.0
  unfolding Candidate.take_lead
  take_lead-KeepsBoards clock c ctx r h e =
      let (expiry, computed, rest) = >>=-eq-ok (Candidate.compute_leader_lease_expiry c ctx) _ e in
      elim (Bool-cases (before expiry (clock 0))) [
        | inl holds ↦ lead-KeepsBoards clock c _ r h (rw holds at rest)
        | inr over ↦ rw (← ok-inj (rw over at rest)) tt
      ]

  pub handle_vote_response-KeepsBoards :
      (clock : Clock) (response : VoteResponse) (c : Candidate) (ctx : PaxosSharedContext)
      (r : Campaign Candidate Leader × PaxosSharedContext × List Action)
      → HasScores peers c
      → Candidate.handle_vote_response clock response c ctx ≡ ok r
      → KeepsBoards peers r.0
  unfolding Candidate.handle_vote_response
  handle_vote_response-KeepsBoards clock response c ctx r h e =
      let (c', recorded, rest) = >>=-eq-ok (Candidate.record_response response c ctx) _ e in
      let scores = record_response-HasScores response c c' ctx h recorded in
      elim (Bool-cases (Candidate.has_vote_quorum c')) [
        | inl quorum ↦ take_lead-KeepsBoards clock c' ctx r scores (rw quorum at rest)
        | inr few ↦ elim (Bool-cases (Candidate.has_all_vote_responses c')) [
          | inl all_in ↦ rw (← ok-inj (rw (few, all_in) at rest)) tt
          | inr waits ↦ rw (← ok-inj (rw (few, waits) at rest)) scores
        ]
      ]
