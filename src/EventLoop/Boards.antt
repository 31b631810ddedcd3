-- ===== src/EventLoop/Boards.antt =====
-- spx_core/src/state_machine/mod.rs: a member that leads has a board for all its peers.
use spanner_paxos.EventLoop
use spanner_paxos.StateMachine
use spanner_paxos.Base.{List, Option, [], arith, length, none, ok, some, ◌<◌, ◌∙◌, ◌∷◌, ◌≡◌}
use spanner_paxos.Context.{context_new}
use spanner_paxos.Context.Progress.{Advances}
use spanner_paxos.EventLoop.{
  Branch, Loop, Moment, arrive, fires, process, receives, select, stops, take_branch, turn,
}
use spanner_paxos.EventLoop.Queue.{run-turn}
use spanner_paxos.EventLoop.Runs.{
  SameData, arrive-SameData, arrive-state, next_state-ok, run-Keeps, select-SameData, select-state,
  turn-Keeps,
}
use spanner_paxos.EventLoop.Terms.{TermsFit}
use spanner_paxos.Follower.Boards.{IsDistinct, length-IsBoard}
use spanner_paxos.Leader.{Leader}
use spanner_paxos.Leader.Boards.{HasBoards}
use spanner_paxos.Leader.Quorum.{HasBoard}
use spanner_paxos.Messages.{PaxosDispatcher, PaxosEvent, Uuid}
use spanner_paxos.Roles.{done, leader}
use spanner_paxos.StateMachine.Boards.{IsSeated, process_event-IsSeated}
use spanner_paxos.StateMachine.Climbs.{IsWellState}
use spanner_paxos.TrueTime.{after}

process-IsSeated :
    (m : Moment) (event : PaxosEvent) (s s' : Loop)
    → IsSeated s.ctx.peer_ids s.state
    → process m event s ≡ ok (some s')
    → IsSeated s.ctx.peer_ids s'.state
unfolding process
process-IsSeated m event s s' h e =
    let ctx = record s.ctx { cancelled = m.token 6 } in
    let (o, done, state, after) =
      next_state-ok s s' (StateMachine.process_event m.clock event s.state ctx) e in
    rw state (process_event-IsSeated m.clock event s.state ctx o h done)

take_branch-IsSeated :
    (m : Moment) (branch : Option Branch) (s s' : Loop)
    → IsSeated s.ctx.peer_ids s.state
    → take_branch m branch s ≡ ok (some s')
    → IsSeated s.ctx.peer_ids s'.state
unfolding take_branch
take_branch-IsSeated m none s s' h e = let role : s'.state ≡ s.state = ground arith in rw role h
take_branch-IsSeated m (some stops) s s' h e = cc
take_branch-IsSeated m (some (fires event)) s s' h e = process-IsSeated m event s s' h e
take_branch-IsSeated m (some (receives none)) s s' h e = cc
take_branch-IsSeated m (some (receives (some event))) s s' h e = process-IsSeated m event s s' h e

turn-IsSeated :
    (m : Moment) (s s' : Loop)
    → IsSeated s.ctx.peer_ids s.state
    → turn m s ≡ ok (some s')
    → IsSeated s.ctx.peer_ids s'.state
unfolding turn
turn-IsSeated m s s' h e =
    let (branch, t) = select m (arrive m s) in
    let role : t.state ≡ s.state = select-state m (arrive m s) ∙ arrive-state m s in
    let peers : t.ctx.peer_ids ≡ s.ctx.peer_ids =
      SameData.peers (select-SameData m (arrive m s)) ∙ SameData.peers (arrive-SameData m s) in
    rw peers at (take_branch-IsSeated m branch t s' (rw (peers, role) h) e)

-- Over a run, the boards of a candidate and of a leader keep an entry for each peer, and no other.
run-IsSeated :
    (ms : List Moment) (s s' : Loop)
    → TermsFit ms s
    → IsWellState s.state
    → IsSeated s.ctx.peer_ids s.state
    → EventLoop.run ms s ≡ ok (some s')
    → IsSeated s.ctx.peer_ids s'.state
unfolding EventLoop.run
run-IsSeated [] s s' fit well h e = let same : s ≡ s' = ground arith in rw (← same) h
run-IsSeated (m ∷ ms) s s' fit well h e =
    let (t, turned, rest) = run-turn m ms s s' e in
    let ((advances, well'), fit') = turn-Keeps m ms s t fit well turned in
    let seated = turn-IsSeated m s t h turned in
    rw (← advances.peers) (run-IsSeated ms t s' fit' well' (rw advances.peers seated) rest)

IsSeated-HasBoard :
    (peers : List Uuid) (s : Loop) (l : Leader)
    → s.ctx.peer_ids ≡ peers
    → IsDistinct peers
    → 0 < length peers
    → length peers < 9223372036854775808
    → HasBoards peers l
    → HasBoard l s.ctx
IsSeated-HasBoard peers s l same distinct some_peer few h = record {
  complete = rw same (length-IsBoard peers l.score_board distinct h.scores);
  inhabited = rw same some_peer;
  countable = rw same few;
  rises = h.scores.rises;
}

-- A member that is started with peers, none of them listed twice and fewer than half of what `usize`
-- can count, has all of them on its boards and no other member whenever it leads, however its loop
-- has run until then, as long as no term, its own or that of an event, is so high that one more a
-- turn could reach the highest `u32`.
pub run-HasBoards :
    (member_id : Uuid) (peers : List Uuid) (dispatcher : PaxosDispatcher) (ms : List Moment)
    (s : Loop) (l : Leader)
    → IsDistinct peers
    → 0 < length peers
    → length peers < 9223372036854775808
    → TermsFit ms (EventLoop.loop_new member_id peers dispatcher)
    → EventLoop.run ms (EventLoop.loop_new member_id peers dispatcher) ≡ ok (some s)
    → s.state ≡ leader l
    → HasBoards peers l × HasBoard l s.ctx
unfolding EventLoop.loop_new context_new
run-HasBoards member_id peers dispatcher ms s l distinct some_peer few fits e leads =
    let begun = EventLoop.loop_new member_id peers dispatcher in
    let seated = run-IsSeated ms begun s fits tt tt e in
    let boards : HasBoards peers l = rw leads at seated in
    let same = Advances.peers (run-Keeps ms begun s fits tt e).0 in
    (boards, IsSeated-HasBoard peers s l same distinct some_peer few boards)
