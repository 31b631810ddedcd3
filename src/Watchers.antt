-- ===== src/Watchers.antt =====
-- spx_core/src/context: the four watchers that wake the loop of the state machine, and the interval
-- timers of spx_core/src/roles/leader.rs. A watcher is one
-- poll of its wait: whether it is over, and the state that it leaves. Each reads the token first.
use spanner_paxos.Base.{Bool, Option, false, if◌then◌else◌, none, not, some, true, ℕ, ◌&&◌, ◌||◌}
use spanner_paxos.Context.{LeaseState, PaxosSharedContext}
use spanner_paxos.TrueTime.{DateTime, after}

-- The biased `select!` of the token and `notified()`, which takes the permit.
unfoldable pub notified : Bool → Bool → Bool × Bool
notified cancelled permit = if cancelled then (true, permit) else (permit, false)

unfoldable pub wait_for_heartbeat : Bool → PaxosSharedContext → Bool × PaxosSharedContext
unfolding notified
wait_for_heartbeat cancelled ctx =
    let (woken, permit) = notified cancelled ctx.heartbeat in
    (woken, record ctx { heartbeat = permit })

unfoldable pub wait_for_check : Bool → PaxosSharedContext → Bool × PaxosSharedContext
unfolding notified
wait_for_check cancelled ctx =
    let (woken, permit) = notified cancelled ctx.accept_timeout_check in
    (woken, record ctx { accept_timeout_check = permit })

unfoldable pub wait_for_flush : Bool → PaxosSharedContext → Bool × PaxosSharedContext
unfolding notified
wait_for_flush cancelled ctx =
    let (woken, permit) = notified cancelled ctx.write_flush in
    (woken, record ctx { write_flush = permit })

-- The `signal` of each, if its timer has fired.
unfoldable pub signal_heartbeat : Bool → PaxosSharedContext → PaxosSharedContext
signal_heartbeat fired ctx = record ctx { heartbeat = ctx.heartbeat || fired }

unfoldable pub signal_check : Bool → PaxosSharedContext → PaxosSharedContext
signal_check fired ctx = record ctx { accept_timeout_check = ctx.accept_timeout_check || fired }

unfoldable pub signal_flush : Bool → PaxosSharedContext → PaxosSharedContext
signal_flush fired ctx = record ctx { write_flush = ctx.write_flush || fired }

-- A round of `wait_until_expired` that finds no permit, at the clock reading `t`. `reads` says
-- whether `commit_wait` looks at the clock: it has just begun, or its sleep is over.
unfoldable pub expiry_round : Bool → Bool → DateTime → LeaseState → Bool × LeaseState
expiry_round cancelled reads t lease = if cancelled then (true, lease) else elim lease.expiry [
  | none ↦ (false, lease)
  | some expiry ↦
      if reads && after expiry t then (true, record lease { expiry = none }) else (false, lease)
]

-- The loop: a permit ends the first round, and there is none in the next. `token` is read once in
-- each.
unfoldable pub wait_until_expired : (ℕ → Bool) → Bool → DateTime → LeaseState → Bool × LeaseState
unfolding expiry_round
wait_until_expired token reads t lease =
    if not (token 0) && lease.notify
    then expiry_round (token 1) true t (record lease { notify = false })
    else expiry_round (token 0) reads t lease

-- One wakeup of the task of each interval timer, with a token that is cancelled when the leader is
-- dropped: a signal, or `none` once the task has ended.
unfoldable pub write_flush_timer : Bool → PaxosSharedContext → Option PaxosSharedContext
unfolding signal_flush
write_flush_timer dropped ctx = if dropped then none else some (signal_flush true ctx)

unfoldable pub accept_timeout_check_timer : Bool → PaxosSharedContext → Option PaxosSharedContext
unfolding signal_check
accept_timeout_check_timer dropped ctx = if dropped then none else some (signal_check true ctx)
