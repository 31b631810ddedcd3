-- ===== src/TrueTime.antt =====
-- spx_lib/src/true_time/true_time.rs. A `DateTime<Utc>` is the number of nanoseconds since chrono's
-- earliest date, so it is never negative; a reading of the system clock is an argument.
pub mod Wait
pub mod Range
use spanner_paxos.Base.{
  Bool, Option, Result, if◌then◌else◌, leb, ltb, none, ok, panic, some, suc, zero, ℕ, ◌*◌, ◌+◌, ◌-◌,
}

abbrev pub DateTime : Type 0
DateTime = ℕ

-- `DateTime::<Utc>::UNIX_EPOCH`
abbrev pub unix_epoch : DateTime
unix_epoch = 8334601228800000000000

-- `DateTime::<Utc>::MAX_UTC`
abbrev pub max_utc : DateTime
max_utc = 16544868105599999999999

abbrev pub millisecond : ℕ
millisecond = 1000000

abbrev pub uncertainty : ℕ
uncertainty = 7 * millisecond

-- `DateTime + Duration` and `DateTime - Duration` of chrono, which panic out of its range.
unfoldable pub add_time : DateTime → ℕ → Result DateTime
add_time t duration = if leb (t + duration) max_utc then ok (t + duration) else panic

unfoldable pub sub_time : DateTime → ℕ → Result DateTime
sub_time t duration = if leb duration t then ok (t - duration) else panic

-- The readings of the clock during one handler, in the order in which it makes them.
abbrev pub Clock : Type 0
Clock = ℕ → DateTime

pub record TimeInterval : Type 0 where
  pub earliest : DateTime
  pub latest : DateTime

abbrev pub now : DateTime → TimeInterval
now t = record { earliest = t - uncertainty; latest = t + uncertainty }

-- The timestamp has definitely not arrived yet, at the reading `t`.
unfoldable pub before : DateTime → DateTime → Bool
before timestamp t = ltb (now t).latest timestamp

-- The timestamp has definitely passed.
unfoldable pub after : DateTime → DateTime → Bool
after timestamp t = ltb timestamp (now t).earliest

-- The loop of `commit_wait` from the reading numbered `i` on: the number of the reading at which it
-- returns, or `none` if `fuel` readings do not end it.
unfoldable pub commit_wait : ℕ → Clock → ℕ → DateTime → Option ℕ
commit_wait zero clock i time = none
commit_wait (suc fuel) clock i time =
    let rest = commit_wait fuel clock (suc i) time in if after time (clock i) then some i else rest
