-- ===== src/Leader/State.antt =====
-- spx_core/src/roles/leader.rs and models/log_position.rs: the state of a leader, and its view of its followers.
use spanner_paxos.Base.{List, [], if◌then◌else◌, leb, ℕ, ◌*◌, ◌++◌, ◌-◌, ◌∷◌}
use spanner_paxos.CountDownClock.{CountDownClock, clock_new, start_fixed}
use spanner_paxos.Map.{Map, map_values}
use spanner_paxos.Messages.{ClientWriteRequest, PaxosCommand}
use spanner_paxos.TrueTime.{DateTime, millisecond, unix_epoch}

pub record LogPosition : Type 0 where
  pub match_slot : ℕ
  pub next_slot : ℕ
  pub sent_slot : ℕ

unfoldable pub with_next_slot : ℕ → LogPosition
with_next_slot next_slot = record { match_slot = 0; next_slot = next_slot; sent_slot = 0 }

pub record InFlightBatch : Type 0 where
  pub sent_at : DateTime
  pub highest_slot : ℕ

pub record FollowerState : Type 0 where
  pub log_position : LogPosition
  -- oldest first
  pub in_flight_batches : List InFlightBatch

unfoldable pub follower_state_new : LogPosition → FollowerState
follower_state_new pos = record { log_position = pos; in_flight_batches = [] }

unfoldable pub push_batch : ℕ → DateTime → FollowerState → FollowerState
push_batch highest_slot sent_at fs = record fs {
  in_flight_batches =
      fs.in_flight_batches ++ record { sent_at = sent_at; highest_slot = highest_slot } ∷ [];
}

-- The `while` loop of `ack_batches_up_to`, on the queue.
unfoldable pub drop_acked : ℕ → List InFlightBatch → List InFlightBatch
drop_acked acked [] = []
drop_acked acked (b ∷ bs) = if leb b.highest_slot acked then drop_acked acked bs else b ∷ bs

unfoldable pub ack_batches_up_to : ℕ → FollowerState → FollowerState
ack_batches_up_to acked fs = record fs { in_flight_batches = drop_acked acked fs.in_flight_batches }

unfoldable pub clear_in_flight_batches : FollowerState → FollowerState
clear_in_flight_batches fs = record {
  log_position = record fs.log_position { sent_slot = fs.log_position.next_slot - 1 };
  in_flight_batches = [];
}

pub record Leader : Type 0 where
  pub score_board : Map FollowerState
  pub last_contact : Map DateTime
  pub in_flight_writes : Map (DateTime × PaxosCommand ClientWriteRequest)
  pub pending_write_count : ℕ
  pub write_batch_size : ℕ
  -- its callback signals the heartbeat watcher
  pub heartbeat_cd_clock : CountDownClock (Unit {0})

abbrev pub default_write_batch_size : ℕ
default_write_batch_size = 1000

abbrev pub accept_request_timeout : ℕ
accept_request_timeout = 60000 * millisecond

abbrev pub heartbeat_timeout_ms : ℕ
heartbeat_timeout_ms = 8000

-- The countdown whose callback signals the heartbeat watcher.
unfoldable pub start_heartbeat_countdown : CountDownClock (Unit {0}) → CountDownClock (Unit {0})
start_heartbeat_countdown clock = start_fixed heartbeat_timeout_ms tt clock

unfoldable pub new : Map LogPosition → Leader
unfolding start_heartbeat_countdown
new score_board = record {
  score_board = map_values follower_state_new score_board;
  last_contact = map_values (λ pos. unix_epoch) score_board;
  in_flight_writes = [];
  pending_write_count = 0;
  write_batch_size = default_write_batch_size;
  heartbeat_cd_clock = start_heartbeat_countdown clock_new;
}
