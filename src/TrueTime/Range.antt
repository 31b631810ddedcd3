-- ===== src/TrueTime/Range.antt =====
-- The sums and differences of times, where chrono has them.
use spanner_paxos.Base.{arith, ok, panic, ℕ, ◌+◌, ◌-◌, ◌<◌, ◌≡◌, ◌≤◌}
use spanner_paxos.TrueTime.{DateTime, add_time, max_utc, sub_time}

pub add_time-ok : (t : DateTime) (d : ℕ) → t + d ≤ max_utc → add_time t d ≡ ok (t + d)
unfolding add_time
add_time-ok t d h = ground arith

pub add_time-panic : (t : DateTime) (d : ℕ) → max_utc < t + d → add_time t d ≡ panic
unfolding add_time
add_time-panic t d h = ground arith

pub add_time-eq-ok : (t s : DateTime) (d : ℕ) → add_time t d ≡ ok s → s ≡ t + d
unfolding add_time
add_time-eq-ok t s d e = ground arith

pub sub_time-ok : (t : DateTime) (d : ℕ) → d ≤ t → sub_time t d ≡ ok (t - d)
unfolding sub_time
sub_time-ok t d h = ground arith

pub sub_time-eq-ok : (t s : DateTime) (d : ℕ) → sub_time t d ≡ ok s → (s ≡ t - d) × (d ≤ t)
unfolding sub_time
sub_time-eq-ok t s d e = ground arith
