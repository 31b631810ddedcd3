-- ===== src/WorkerRunnerManager.antt =====
-- spx_lib/src/worker_runner/manager.rs. The lock on the runners is free, since nothing but
-- `add_runner` and `on_stop` takes it.
pub mod Shutdown
use spanner_paxos.WorkerRunner
use spanner_paxos.Base.{List, Option, Result, [], err, none, ok, panic, some, suc, ℕ, ◌++◌, ◌∷◌}
use spanner_paxos.CountDownClock.{cancel}
use spanner_paxos.WorkerRunner.{Poll, Runtime, WorkerRunner}

-- What ends the task's `select!`.
pub data Signal : Type 0 where
  cancelled : Signal
  interrupted : Signal
  terminated : Signal

module _ (rt : Runtime) where
  open rt use {World, CancellationToken, JoinHandle, cancel}

  pub record WorkerRunnerManager : Type 0 where
    -- in a `Mutex<Vec<_>>`
    pub runners : List (WorkerRunner rt)

  unfoldable pub manager_new : WorkerRunnerManager
  manager_new = record { runners = [] }

  unfoldable pub add_runner : WorkerRunner rt → WorkerRunnerManager → WorkerRunnerManager
  add_runner runner m = record { runners = m.runners ++ runner ∷ [] }

  -- The loop of `start_with`.
  unfoldable pub add_runners : List (WorkerRunner rt) → WorkerRunnerManager → WorkerRunnerManager
  unfolding add_runner
  add_runners [] m = m
  add_runners (runner ∷ rest) m = add_runners rest (add_runner runner m)

  -- The task that `on_start` spawns, on the signal that ends its `select!`: the two signals of the
  -- system cancel clones of the token.
  unfoldable pub signal_task : Signal → CancellationToken → World → Result (Unit {0}) × World
  signal_task cancelled token w = (ok tt, w)
  signal_task interrupted token w = (ok tt, cancel token w)
  signal_task terminated token w = (ok tt, cancel token w)

  -- How the loop of `on_stop` goes on after one `stop`: an error is printed, a panic goes up.
  unfoldable pub then_rest :
      Result (Unit {0})
      → Option (Result (Unit {0}) × List (WorkerRunner rt) × World)
      → List (WorkerRunner rt)
      → World
      → Option (Result (Unit {0}) × List (WorkerRunner rt) × World)
  then_rest panic later rest w = some (panic, rest, w)
  then_rest (err why) later rest w = later
  then_rest (ok finished) later rest w = later

  unfoldable pub put_back :
      WorkerRunner rt
      → Option (Result (Unit {0}) × List (WorkerRunner rt) × World)
      → Option (Result (Unit {0}) × List (WorkerRunner rt) × World)
  put_back r none = none
  put_back r (some (result, rs, w)) = some (result, r ∷ rs, w)

  -- The loop of `on_stop`; `polls i` are those of the `stop` of the runner numbered `i`.
  unfoldable pub stop_runners :
      CancellationToken
      → (ℕ → List (Poll rt))
      → List (WorkerRunner rt)
      → World
      → Option (Result (Unit {0}) × List (WorkerRunner rt) × World)
  unfolding then_rest put_back
  stop_runners token polls [] w = some (ok tt, [], w)
  stop_runners token polls (r ∷ rs) w = elim (WorkerRunner.stop rt token (polls 0) r w) [
    | none ↦ none
    | some (result, r', w') ↦
        let later = stop_runners token (λ i. polls (suc i)) rs w' in
        put_back r' (then_rest result later rs w')
  ]
