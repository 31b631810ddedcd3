-- ===== src/StateMachine/Progress.antt =====
-- spx_core/src/state_machine/state.rs: no event takes back a term, a commit or a safe time.
use spanner_paxos.StateMachine
use spanner_paxos.Base.{
  Bool-cases, Option, inl, inr, ltb, none, ok, some, tests, ℕ, ◌+◌, ◌<◌, ◌≡◌, ◌≤◌,
}
use spanner_paxos.Context.{PaxosSharedContext}
use spanner_paxos.Context.Progress.{Advances, Advances-refl, Advances-term, Advances-trans}
use spanner_paxos.Messages.{PaxosEvent, event_term}
use spanner_paxos.Roles.{Outcome, PaxosState}
use spanner_paxos.StateMachine.Climbs.{Climbs, IsWellState, handle_event-Climbs}
use spanner_paxos.StateMachine.Steps.{process_event-handle_event}
use spanner_paxos.TrueTime.{Clock}

pub adopt_term-Advances :
    (term : Option ℕ) (state : PaxosState) (ctx : PaxosSharedContext)
    → Advances ctx (StateMachine.adopt_term term state ctx).1
unfolding StateMachine.adopt_term
adopt_term-Advances none state ctx = Advances-refl ctx
adopt_term-Advances (some term) state ctx = elim (Bool-cases (ltb ctx.term term)) [
  | inl higher ↦ rw higher (Advances-term ctx term (omega tests))
  | inr lower ↦ rw lower (Advances-refl ctx)
]

pub adopt_term-IsWellState :
    (term : Option ℕ) (state : PaxosState) (ctx : PaxosSharedContext)
    → IsWellState state
    → IsWellState (StateMachine.adopt_term term state ctx).0
unfolding StateMachine.adopt_term
adopt_term-IsWellState none state ctx h = h
adopt_term-IsWellState (some term) state ctx h = elim (Bool-cases (ltb ctx.term term)) [
  | inl higher ↦ rw higher tt
  | inr lower ↦ rw lower h
]

adopted-Climbs :
    (clock : Clock) (event : PaxosEvent) (state : PaxosState) (ctx : PaxosSharedContext)
    (o : Outcome)
    → (StateMachine.adopt_term (event_term event) state ctx).1.term < 4294967295
    → IsWellState state
    → StateMachine.process_event clock event state ctx ≡ ok o
    → Climbs (StateMachine.adopt_term (event_term event) state ctx).1 o.ctx
adopted-Climbs clock event state ctx o h w e =
    let (state', ctx') = StateMachine.adopt_term (event_term event) state ctx in
    handle_event-Climbs clock ctx' o state' event h
      (adopt_term-IsWellState (event_term event) state ctx w)
      (process_event-handle_event clock event state ctx o e)

-- Whatever the role and the event, a processed event takes back neither the term nor the committed
-- slot nor the safe time, leaves the member, its peers and the lease's length as they are, and keeps
-- the log and the uncommitted entries well formed, as long as neither the member's term nor the one
-- that the event brings is the highest of `u32`, and the entries that a candidate has collected are
-- well formed.
pub process_event-Advances :
    (clock : Clock) (event : PaxosEvent) (state : PaxosState) (ctx : PaxosSharedContext)
    (o : Outcome)
    → (StateMachine.adopt_term (event_term event) state ctx).1.term < 4294967295
    → IsWellState state
    → StateMachine.process_event clock event state ctx ≡ ok o
    → Advances ctx o.ctx
process_event-Advances clock event state ctx o h w e =
    let (state', ctx') = StateMachine.adopt_term (event_term event) state ctx in
    Advances-trans ctx ctx' o.ctx (adopt_term-Advances (event_term event) state ctx)
      (Climbs.advances (adopted-Climbs clock event state ctx o h w e))

-- The term is then at most one above the term that the member has once that of the event is adopted,
-- under the same conditions.
pub process_event-term :
    (clock : Clock) (event : PaxosEvent) (state : PaxosState) (ctx : PaxosSharedContext)
    (o : Outcome)
    → (StateMachine.adopt_term (event_term event) state ctx).1.term < 4294967295
    → IsWellState state
    → StateMachine.process_event clock event state ctx ≡ ok o
    → o.ctx.term ≤ (StateMachine.adopt_term (event_term event) state ctx).1.term + 1
process_event-term clock event state ctx o h w e =
    Climbs.bound (adopted-Climbs clock event state ctx o h w e)
