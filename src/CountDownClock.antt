-- ===== src/CountDownClock.antt =====
-- spx_lib/src/count_down_clock/count_down_clock.rs. `E` is the event that the callback posts. The
-- background task is a transition of its own, `wake`; the length of a random wait is its choice.
pub mod Task
use spanner_paxos.Base.{
  Bool, Option, Result, false, if◌then◌else◌, ltb, none, ok, panic, some, true, ℕ,
}

abbrev pub min_random_wait_ms : ℕ
min_random_wait_ms = 30

-- What the running task waits for: a random time up to a bound, or a fixed one.
pub data Wait : Type 0 where
  random : ℕ → Wait
  fixed : ℕ → Wait

pub record CountDownClock (E : Type 0) : Type 0 where
  pub reset_notify : Bool
  pub token_cancelled : Bool
  pub is_running : Bool
  -- the spawned task, if any
  pub task : Option (Wait × E)

-- What wakes the task's `select!`: it is polled, or its sleep ends.
pub data Wakeup : Type 0 where
  polled : Wakeup
  slept : Wakeup

module _ {E : Type 0} where
  unfoldable pub clock_new : CountDownClock E
  clock_new = record {
    reset_notify = false;
    token_cancelled = false;
    is_running = false;
    task = none;
  }

  unfoldable pub reset : CountDownClock E → CountDownClock E
  reset c = record c { reset_notify = true }

  unfoldable pub cancel : CountDownClock E → CountDownClock E
  cancel c = record c { token_cancelled = true }

  unfoldable pub start_fixed : ℕ → E → CountDownClock E → CountDownClock E
  start_fixed ms on_expire c =
      if c.is_running then c else record c { is_running = true; task = some (fixed ms, on_expire) }

  -- The assertion panics on a bound that is not above the least wait.
  unfoldable pub start_random : ℕ → E → CountDownClock E → Result (CountDownClock E)
  start_random max_ms on_expire c =
      if ltb min_random_wait_ms max_ms
      then ok (
          if c.is_running
          then c
          else record c { is_running = true; task = some (random max_ms, on_expire) })
      else panic

  -- One turn of the task's biased `select!`: the token first, then the reset, then the sleep. The
  -- event is posted only when the sleep ends.
  unfoldable pub wake : Wakeup → CountDownClock E → CountDownClock E × Option E
  wake w c = elim c.task [
    | none ↦ (c, none)
    | some (wait, e) ↦
        if c.token_cancelled
        then (record c { is_running = false; task = none }, none)
        else if c.reset_notify
        then (record c { reset_notify = false }, none)
        else elim w [
          | polled ↦ (c, none)
          | slept ↦ (record c { is_running = false; task = none }, some e)
        ]
  ]
