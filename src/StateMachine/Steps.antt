-- ===== src/StateMachine/Steps.antt =====
-- spx_core/src/state_machine/state.rs: a processed event is handled by a role, once its term is
-- taken over.
use spanner_paxos.StateMachine
use spanner_paxos.Base.{arith, ok, ◌≡◌}
use spanner_paxos.Context.{PaxosSharedContext}
use spanner_paxos.Messages.{PaxosEvent, event_term}
use spanner_paxos.Roles.{Outcome, PaxosState}
use spanner_paxos.TrueTime.{Clock}

pub process_event-handle_event :
    (clock : Clock) (event : PaxosEvent) (state : PaxosState) (ctx : PaxosSharedContext)
    (o : Outcome)
    → StateMachine.process_event clock event state ctx ≡ ok o
    → let (state', ctx') = StateMachine.adopt_term (event_term event) state ctx in
      StateMachine.handle_event clock state' event ctx' ≡ ok o
unfolding StateMachine.process_event
process_event-handle_event clock event state ctx o e = ground arith
