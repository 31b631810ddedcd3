-- ===== src/StateMachine.antt =====
-- spx_core/src/state_machine: how a member takes an event, whatever its role.
pub mod Steps
pub mod Elections
pub mod Leaders
pub mod Answers
pub mod Climbs
pub mod Progress
pub mod Boards
pub mod Collected
pub mod Panics
use spanner_paxos.Follower
use spanner_paxos.Roles
use spanner_paxos.Base.{Option, Result, err, if◌then◌else◌, ltb, machine_cancelled, none, some, ℕ}
use spanner_paxos.Context.{PaxosSharedContext}
use spanner_paxos.Follower.{Follower}
use spanner_paxos.Messages.{PaxosEvent, Uuid, event_term}
use spanner_paxos.Roles.{Outcome, PaxosState, candidate, follower, leader, pre_candidate}
use spanner_paxos.TrueTime.{Clock}

unfoldable pub get_leader_id : PaxosState → Option Uuid
get_leader_id (follower f) = f.current_leader_id
get_leader_id _ = none

-- The `match` on the role.
unfoldable pub handle_event : Clock → PaxosState → PaxosEvent → PaxosSharedContext → Result Outcome
handle_event clock (follower f) event ctx = Roles.FollowerEvents.handle_event clock f event ctx
handle_event clock (pre_candidate p) event ctx =
    Roles.PreCandidateEvents.handle_event clock p event ctx
handle_event clock (candidate c) event ctx = Roles.CandidateEvents.handle_event clock c event ctx
handle_event clock (leader l) event ctx = Roles.LeaderEvents.handle_event clock l event ctx

-- A term above the member's own becomes its term, and makes it a follower.
unfoldable pub adopt_term :
    Option ℕ → PaxosState → PaxosSharedContext → PaxosState × PaxosSharedContext
unfolding Follower.new get_leader_id
adopt_term none state ctx = (state, ctx)
adopt_term (some term) state ctx =
    if ltb ctx.term term
    then (follower (Follower.new (get_leader_id state)), record ctx { term = term })
    else (state, ctx)

unfoldable pub process_event : Clock → PaxosEvent → PaxosState → PaxosSharedContext → Result Outcome
process_event clock event state ctx =
    let (state', ctx') = adopt_term (event_term event) state ctx in
    if ctx.cancelled then err machine_cancelled else handle_event clock state' event ctx'
