-- ===== src/StateMachine/Leaders.antt =====
-- spx_core/src/roles and state_machine: how a member becomes a leader.
use spanner_paxos.PreCandidate
use spanner_paxos.Candidate
use spanner_paxos.Roles
use spanner_paxos.StateMachine
use spanner_paxos.Base.{
  >>=-eq-ok, Bool, List, Option, [], arith, false, length, none, ok, refl, some, ℕ, ◌<◌, ◌∷◌, ◌≡◌,
}
use spanner_paxos.Candidate.{Candidate}
use spanner_paxos.Context.{PaxosSharedContext}
use spanner_paxos.Follower.{
  Campaign, Follower, count_votes, for_peers, is_quorum, lost, undecided, won,
}
use spanner_paxos.Leader.{Leader}
use spanner_paxos.Map.{Map, insert}
use spanner_paxos.Messages.{
  AcceptRequest, Action, PaxosCommand, PaxosEvent, Uuid, VoteResponse, accept_request_received,
  event_term, is_promise, leader_lease_expired, pre_vote_response_received, send,
  vote_response_received,
}
use spanner_paxos.PreCandidate.{PreCandidate}
use spanner_paxos.Roles.{Outcome, PaxosState, candidate, follower, leader, pre_candidate}
use spanner_paxos.StateMachine.Steps.{process_event-handle_event}
use spanner_paxos.TrueTime.{Clock}

-- No leader, and no candidate with a promise on its board.
abbrev pub IsLeaderless : PaxosState → Type 0
IsLeaderless (follower f) = Unit {0}
IsLeaderless (pre_candidate p) = Unit {0}
IsLeaderless (candidate c) = count_votes is_promise c.vote_board ≡ 0
IsLeaderless (leader l) = ⊥

-- A vote response that is no promise, or another event.
abbrev pub BringsNoPromise : PaxosEvent → Type 0
BringsNoPromise (vote_response_received r) = is_promise r ≡ false
BringsNoPromise _ = Unit {0}

module _ {R : Type 0} (granted : R → Bool) where
  count_votes-insert :
      (id : Uuid) (r : R) (board : Map (Option R))
      → granted r ≡ false
      → count_votes granted board ≡ 0
      → count_votes granted (insert id (some r) board) ≡ 0
  unfolding count_votes insert
  count_votes-insert id r [] h e = ground arith
  count_votes-insert id r ((j, none) ∷ board) h e = ground (arith, count_votes-insert id r board)
  count_votes-insert id r ((j, some q) ∷ board) h e = ground (arith, count_votes-insert id r board)

  count_votes-insert-none :
      (id : Uuid) (board : Map (Option R))
      → count_votes granted board ≡ 0
      → count_votes granted (insert id none board) ≡ 0
  unfolding count_votes insert
  count_votes-insert-none id [] e = refl
  count_votes-insert-none id ((j, none) ∷ board) e =
      ground (arith, count_votes-insert-none id board)
  count_votes-insert-none id ((j, some q) ∷ board) e =
      ground (arith, count_votes-insert-none id board)

  count_votes-for_peers : (ids : List Uuid) → count_votes granted (for_peers none ids) ≡ 0
  unfolding for_peers
  count_votes-for_peers [] = unfold count_votes in refl
  count_votes-for_peers (id ∷ ids) = count_votes-insert-none id _ (count_votes-for_peers ids)

length-insert-pos : {V : Type 0} (id : Uuid) (v : V) (m : Map V) → 0 < length (insert id v m)
unfolding insert
length-insert-pos id v [] = omega arith
length-insert-pos id v ((j, w) ∷ m) = ground (arith, length-insert-pos id v m)

is_quorum-zero : (n : ℕ) → 0 < n → is_quorum 0 n ≡ false
unfolding is_quorum
is_quorum-zero n h = ground arith

abbrev pub NotWon : Campaign Candidate Leader → Type 0
NotWon (undecided c) = count_votes is_promise c.vote_board ≡ 0
NotWon (won l) = ⊥
NotWon (lost f) = Unit {0}

-- The board after a response that is no promise.
record_response-board :
    (response : VoteResponse) (c c' : Candidate) (ctx : PaxosSharedContext)
    → is_promise response ≡ false
    → Candidate.record_response response c ctx ≡ ok c'
    → c'.vote_board ≡ insert response.member_id (some response) c.vote_board
unfolding Candidate.record_response is_promise
record_response-board response c c' ctx h e = ground arith

no_quorum :
    (response : VoteResponse) (c c' : Candidate) (ctx : PaxosSharedContext)
    → is_promise response ≡ false
    → count_votes is_promise c.vote_board ≡ 0
    → Candidate.record_response response c ctx ≡ ok c'
    → (count_votes is_promise c'.vote_board ≡ 0) × (Candidate.has_vote_quorum c' ≡ false)
unfolding Candidate.has_vote_quorum
no_quorum response c c' ctx h e r =
    let board = record_response-board response c c' ctx h r in
    let none_yet = count_votes-insert is_promise response.member_id response c.vote_board h e in
    rw board (
      none_yet,
      rw none_yet
          (is_quorum-zero _ (length-insert-pos response.member_id (some response) c.vote_board)),
    )

pub handle_vote_response-NotWon :
    (clock : Clock) (response : VoteResponse) (c : Candidate) (ctx : PaxosSharedContext)
    {campaign : Campaign Candidate Leader} {ctx' : PaxosSharedContext} {actions : List Action}
    → is_promise response ≡ false
    → count_votes is_promise c.vote_board ≡ 0
    → Candidate.handle_vote_response clock response c ctx ≡ ok (campaign, ctx', actions)
    → NotWon campaign × (actions ≡ [])
unfolding Candidate.handle_vote_response
handle_vote_response-NotWon clock response c ctx h e r =
    let (c', recorded, rest) = >>=-eq-ok (Candidate.record_response response c ctx) _ r in
    let (none_yet, quorum) = no_quorum response c c' ctx h e recorded in
    ground (arith, quorum, none_yet, rest)

module _ (clock : Clock) (ctx : PaxosSharedContext) (o : Outcome) where
  join_leader-IsLeaderless :
      (self : PaxosState) (cmd : PaxosCommand AcceptRequest)
      → IsLeaderless self
      → Roles.join_leader clock self cmd ctx ≡ ok o
      → IsLeaderless o.state
  unfolding Roles.join_leader send
  join_leader-IsLeaderless self cmd h e = ground arith

  follower-IsLeaderless :
      (f : Follower) (event : PaxosEvent)
      → Roles.FollowerEvents.handle_event clock f event ctx ≡ ok o
      → IsLeaderless o.state
  unfolding Roles.FollowerEvents.handle_event
  follower-IsLeaderless f leader_lease_expired e = ground arith
  follower-IsLeaderless f _ e = ground arith

  pre_candidate-IsLeaderless :
      (p : PreCandidate) (event : PaxosEvent)
      → Roles.PreCandidateEvents.handle_event clock p event ctx ≡ ok o
      → IsLeaderless o.state
  unfolding Roles.PreCandidateEvents.handle_event PreCandidate.handle_pre_vote_response
      PreCandidate.start_campaign Candidate.dispatch_vote Candidate.new
  pre_candidate-IsLeaderless p (accept_request_received cmd) e =
      join_leader-IsLeaderless (pre_candidate p) cmd tt e
  pre_candidate-IsLeaderless p (pre_vote_response_received r) e =
      ground (arith, count_votes-for_peers is_promise ctx.peer_ids)
  pre_candidate-IsLeaderless p _ e = ground arith

  candidate-IsLeaderless :
      (c : Candidate) (event : PaxosEvent)
      → count_votes is_promise c.vote_board ≡ 0
      → BringsNoPromise event
      → Roles.CandidateEvents.handle_event clock c event ctx ≡ ok o
      → IsLeaderless o.state
  unfolding Roles.CandidateEvents.handle_event
  candidate-IsLeaderless c (accept_request_received cmd) h b e =
      join_leader-IsLeaderless (candidate c) cmd h e
  candidate-IsLeaderless c (vote_response_received r) h b e =
      let ((campaign, ctx', actions), decided, rest) =
        >>=-eq-ok (Candidate.handle_vote_response clock r c ctx) _ e in
      ground (arith, (handle_vote_response-NotWon clock r c ctx b h decided).0)
  candidate-IsLeaderless c _ h b e = ground arith

  handle_event-IsLeaderless :
      (state : PaxosState) (event : PaxosEvent)
      → IsLeaderless state
      → BringsNoPromise event
      → StateMachine.handle_event clock state event ctx ≡ ok o
      → IsLeaderless o.state
  unfolding StateMachine.handle_event
  handle_event-IsLeaderless (follower f) event h b e = follower-IsLeaderless f event e
  handle_event-IsLeaderless (pre_candidate p) event h b e = pre_candidate-IsLeaderless p event e
  handle_event-IsLeaderless (candidate c) event h b e = candidate-IsLeaderless c event h b e
  handle_event-IsLeaderless (leader l) event h b e = absurd h

pub adopt_term-IsLeaderless :
    (term : Option ℕ) (state : PaxosState) (ctx : PaxosSharedContext)
    → IsLeaderless state
    → IsLeaderless (StateMachine.adopt_term term state ctx).0
unfolding StateMachine.adopt_term
adopt_term-IsLeaderless none state ctx h = h
adopt_term-IsLeaderless (some term) state ctx h = ground arith

-- No event but a promise can bring a leader about: a member that does not lead and holds no promise
-- is still so after any event that is not a response with a promise.
pub process_event-IsLeaderless :
    (clock : Clock) (event : PaxosEvent) (state : PaxosState) (ctx : PaxosSharedContext)
    (o : Outcome)
    → IsLeaderless state
    → BringsNoPromise event
    → StateMachine.process_event clock event state ctx ≡ ok o
    → IsLeaderless o.state
process_event-IsLeaderless clock event state ctx o h b e =
    let (state', ctx') = StateMachine.adopt_term (event_term event) state ctx in
    handle_event-IsLeaderless clock ctx' o state' event
      (adopt_term-IsLeaderless (event_term event) state ctx h) b
      (process_event-handle_event clock event state ctx o e)
