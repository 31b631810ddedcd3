-- ===== src/StateMachine/Boards.antt =====
-- spx_core/src/state_machine/state.rs: the boards of a candidate and of a leader have an entry for
-- each peer, and no other, whatever events are processed.
use spanner_paxos.PreCandidate
use spanner_paxos.Candidate
use spanner_paxos.Leader
use spanner_paxos.Roles
use spanner_paxos.StateMachine
use spanner_paxos.Base.{
  >>=-eq-ok, Bool-cases, List, Option, [], arith, inl, inr, ltb, none, ok, ok-inj, refl, some, ℕ,
  ◌≡◌,
}
use spanner_paxos.Candidate.{Candidate}
use spanner_paxos.Candidate.Boards.{HasScores, KeepsBoards, handle_vote_response-KeepsBoards}
use spanner_paxos.Context.{PaxosSharedContext}
use spanner_paxos.Follower.{Campaign, Follower, lost, undecided, won}
use spanner_paxos.Leader.{Leader}
use spanner_paxos.Leader.Boards.{HasBoards}
use spanner_paxos.Leader.Boards.Handlers.{
  handle_accept_response-HasBoards, handle_accept_timeout_check-HasBoards,
  handle_client_write-HasBoards, handle_heartbeat_timer-HasBoards, handle_write_flush-HasBoards,
}
use spanner_paxos.Messages.{
  AcceptRequest, Action, PaxosCommand, PaxosEvent, Uuid, accept_request_received,
  accept_response_received, accept_timeout_check_fired, client_write_request_received, event_term,
  heartbeat_timer_fired, leader_lease_expired, pre_vote_response_received, send,
  vote_response_received, write_flush_timer_fired,
}
use spanner_paxos.PreCandidate.{PreCandidate}
use spanner_paxos.PreCandidate.Boards.{MakesScores, handle_pre_vote_response-MakesScores}
use spanner_paxos.Roles.{Outcome, PaxosState, candidate, done, follower, leader, pre_candidate}
use spanner_paxos.StateMachine.Steps.{process_event-handle_event}
use spanner_paxos.TrueTime.{Clock}

-- What a candidate and a leader have for the peers.
abbrev pub IsSeated : List Uuid → PaxosState → Type 0
IsSeated peers (candidate c) = HasScores peers c
IsSeated peers (leader l) = HasBoards peers l
IsSeated peers _ = Unit {0}

follower_or-IsSeated :
    (peers : List Uuid) (l : Leader) (stepped : Option Follower)
    → HasBoards peers l
    → IsSeated peers (Roles.LeaderEvents.follower_or l stepped)
unfolding Roles.LeaderEvents.follower_or
follower_or-IsSeated peers l none h = h
follower_or-IsSeated peers l (some f) h = tt

done-IsSeated :
    (peers : List Uuid) (o : Outcome) (state : PaxosState) (ctx : PaxosSharedContext)
    (actions : List Action)
    → done state ctx actions ≡ ok o
    → IsSeated peers state
    → IsSeated peers o.state
done-IsSeated peers o state ctx actions e h = rw (← ok-inj e) h

module _ (clock : Clock) (ctx : PaxosSharedContext) (o : Outcome) where
  join_leader-IsSeated :
      (self : PaxosState) (cmd : PaxosCommand AcceptRequest)
      → IsSeated ctx.peer_ids self
      → Roles.join_leader clock self cmd ctx ≡ ok o
      → IsSeated ctx.peer_ids o.state
  unfolding Roles.join_leader send
  join_leader-IsSeated self cmd h e = ground arith

  follower-IsSeated :
      (f : Follower) (event : PaxosEvent)
      → Roles.FollowerEvents.handle_event clock f event ctx ≡ ok o
      → IsSeated ctx.peer_ids o.state
  unfolding Roles.FollowerEvents.handle_event
  follower-IsSeated f leader_lease_expired e = ground arith
  follower-IsSeated f _ e = ground arith

  pre_candidate-IsSeated :
      (p : PreCandidate) (event : PaxosEvent)
      → Roles.PreCandidateEvents.handle_event clock p event ctx ≡ ok o
      → IsSeated ctx.peer_ids o.state
  unfolding Roles.PreCandidateEvents.handle_event Roles.settle
  pre_candidate-IsSeated p (accept_request_received cmd) e =
      join_leader-IsSeated (pre_candidate p) cmd tt e
  pre_candidate-IsSeated p (pre_vote_response_received r) e =
      let ((campaign, ctx', actions), decided, rest) =
        >>=-eq-ok (PreCandidate.handle_pre_vote_response (clock 0) r p ctx) _ e in
      done-IsSeated ctx.peer_ids o _ ctx' actions rest (
        go campaign (
          handle_pre_vote_response-MakesScores (clock 0) r p ctx (campaign, ctx', actions) decided))
    where
      go :
          (campaign : Campaign PreCandidate Candidate)
          → MakesScores ctx.peer_ids campaign
          → IsSeated ctx.peer_ids (Roles.settle pre_candidate candidate campaign)
      go (undecided p) h = tt
      go (won c) h = h
      go (lost f) h = tt
  pre_candidate-IsSeated p _ e = ground arith

  candidate-IsSeated :
      (c : Candidate) (event : PaxosEvent)
      → HasScores ctx.peer_ids c
      → Roles.CandidateEvents.handle_event clock c event ctx ≡ ok o
      → IsSeated ctx.peer_ids o.state
  unfolding Roles.CandidateEvents.handle_event Roles.settle
  candidate-IsSeated c (accept_request_received cmd) h e =
      join_leader-IsSeated (candidate c) cmd h e
  candidate-IsSeated c (vote_response_received r) h e =
      let ((campaign, ctx', actions), decided, rest) =
        >>=-eq-ok (Candidate.handle_vote_response clock r c ctx) _ e in
      done-IsSeated ctx.peer_ids o _ ctx' actions rest (
        go campaign (
          handle_vote_response-KeepsBoards ctx.peer_ids clock r c ctx (campaign, ctx', actions) h
            decided))
    where
      go :
          (campaign : Campaign Candidate Leader)
          → KeepsBoards ctx.peer_ids campaign
          → IsSeated ctx.peer_ids (Roles.settle candidate leader campaign)
      go (undecided c) k = k
      go (won l) k = k
      go (lost f) k = tt
  candidate-IsSeated c _ h e = ground arith

  leader-IsSeated :
      (l : Leader) (event : PaxosEvent)
      → HasBoards ctx.peer_ids l
      → Roles.LeaderEvents.handle_event clock l event ctx ≡ ok o
      → IsSeated ctx.peer_ids o.state
  unfolding Roles.LeaderEvents.handle_event Roles.LeaderEvents.answer_vote_request
      Roles.LeaderEvents.answer_accept_request Roles.LeaderEvents.answer_pre_vote_request
  leader-IsSeated l (accept_response_received r) h e =
      let ((l', ctx', actions), handled, rest) =
        >>=-eq-ok (Leader.handle_accept_response (clock 0) r l ctx) _ e in
      done-IsSeated ctx.peer_ids o (leader l') ctx' actions rest (
        handle_accept_response-HasBoards ctx.peer_ids (clock 0) r l ctx (l', ctx', actions) h
          handled)
  leader-IsSeated l (client_write_request_received cmd) h e =
      done-IsSeated ctx.peer_ids o _ _ [] e
        (handle_client_write-HasBoards ctx.peer_ids (clock 0) cmd l ctx h)
  leader-IsSeated l write_flush_timer_fired h e =
      let ((l', actions), handled, rest) = >>=-eq-ok (Leader.handle_write_flush clock l ctx) _ e in
      done-IsSeated ctx.peer_ids o (leader l') ctx actions rest
        (handle_write_flush-HasBoards ctx.peer_ids clock l ctx (l', actions) h handled)
  leader-IsSeated l accept_timeout_check_fired h e =
      done-IsSeated ctx.peer_ids o _ ctx [] e
        (handle_accept_timeout_check-HasBoards ctx.peer_ids (clock 0) l h)
  leader-IsSeated l heartbeat_timer_fired h e =
      let ((l', ctx', actions), handled, rest) =
        >>=-eq-ok (Leader.handle_heartbeat_timer clock l ctx) _ e in
      done-IsSeated ctx.peer_ids o (leader l') ctx' actions rest
        (handle_heartbeat_timer-HasBoards ctx.peer_ids clock l ctx (l', ctx', actions) h handled)
  leader-IsSeated l (pre_vote_response_received r) h e =
      done-IsSeated ctx.peer_ids o _ ctx [] e
        (follower_or-IsSeated ctx.peer_ids l (Leader.handle_pre_vote_response (clock 0) r ctx) h)
  leader-IsSeated l (vote_response_received r) h e =
      done-IsSeated ctx.peer_ids o _ ctx [] e
        (follower_or-IsSeated ctx.peer_ids l (Leader.handle_vote_response (clock 0) r ctx) h)
  leader-IsSeated l _ h e = ground arith

  handle_event-IsSeated :
      (state : PaxosState) (event : PaxosEvent)
      → IsSeated ctx.peer_ids state
      → StateMachine.handle_event clock state event ctx ≡ ok o
      → IsSeated ctx.peer_ids o.state
  unfolding StateMachine.handle_event
  handle_event-IsSeated (follower f) event h e = follower-IsSeated f event e
  handle_event-IsSeated (pre_candidate p) event h e = pre_candidate-IsSeated p event e
  handle_event-IsSeated (candidate c) event h e = candidate-IsSeated c event h e
  handle_event-IsSeated (leader l) event h e = leader-IsSeated l event h e

adopt_term-IsSeated :
    (term : Option ℕ) (state : PaxosState) (ctx : PaxosSharedContext)
    → IsSeated ctx.peer_ids state
    → let (state', ctx') = StateMachine.adopt_term term state ctx in
      (ctx'.peer_ids ≡ ctx.peer_ids) × IsSeated ctx.peer_ids state'
unfolding StateMachine.adopt_term
adopt_term-IsSeated none state ctx h = (refl, h)
adopt_term-IsSeated (some term) state ctx h = elim (Bool-cases (ltb ctx.term term)) [
  | inl higher ↦ rw higher (refl, tt)
  | inr lower ↦ rw lower (refl, h)
]

-- Whatever the event, a candidate and a leader have a board with an entry for each peer, and no
-- other, after it is processed, if they had one before.
pub process_event-IsSeated :
    (clock : Clock) (event : PaxosEvent) (state : PaxosState) (ctx : PaxosSharedContext)
    (o : Outcome)
    → IsSeated ctx.peer_ids state
    → StateMachine.process_event clock event state ctx ≡ ok o
    → IsSeated ctx.peer_ids o.state
process_event-IsSeated clock event state ctx o h e =
    let (state', ctx') = StateMachine.adopt_term (event_term event) state ctx in
    let (peers, seated) = adopt_term-IsSeated (event_term event) state ctx h in
    rw peers at (
      handle_event-IsSeated clock ctx' o state' event (rw peers seated)
        (process_event-handle_event clock event state ctx o e))
