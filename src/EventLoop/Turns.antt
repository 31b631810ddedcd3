-- ===== src/EventLoop/Turns.antt =====
-- spx_core/src/state_machine/mod.rs: what one turn of the loop does.
use spanner_paxos.Follower
use spanner_paxos.Roles
use spanner_paxos.StateMachine
use spanner_paxos.Base.{false, if◌then◌else◌, none, some, true, ◌≡◌}
use spanner_paxos.CountDownClock.{CountDownClock, random}
use spanner_paxos.EventLoop.{Loop}
use spanner_paxos.Follower.{Follower}
use spanner_paxos.Messages.{PaxosEvent, election_countdown_expired}
use spanner_paxos.Roles.{PaxosState, candidate, follower, leader, pre_candidate}

-- The loop as the watcher of an expired lease leaves it.
abbrev lease_taken : Loop → Loop
lease_taken s = record s { ctx = record s.ctx { lease = record { expiry = none; notify = false } } }

-- What the end of a lease does to a role: a leader steps down, a follower has its election
-- countdown running, a campaign goes on.
abbrev pub LeaseEnded : PaxosState → PaxosState → Type 0
LeaseEnded (leader l) state = state ≡ follower (Follower.new none)
LeaseEnded (follower f) state =
    (countdown : CountDownClock PaxosEvent) × (state
      ≡ follower (record f { election_cd_clock = countdown }))
    × (countdown.is_running ≡ true)
LeaseEnded (pre_candidate p) state = state ≡ pre_candidate p
LeaseEnded (candidate c) state = state ≡ candidate c

-- The countdown of a follower once it has been started.
abbrev running : CountDownClock PaxosEvent → CountDownClock PaxosEvent
running c =
    if c.is_running
    then c
    else record c { is_running = true; task = some (random 1000, election_countdown_expired) }
