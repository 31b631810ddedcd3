-- ===== src/WorkerRunner.antt =====
-- spx_lib/src/worker_runner: runner.rs, run_status.rs and worker.rs. Tokio and the worker are
-- parameters: `World` is all that they keep, the flags of the cancellation tokens included.
pub mod Lifecycle
use spanner_paxos.Base.{
  Bool, List, Option, Result, [], err, false, if◌then◌else◌, none, not, ok, panic, runner_inactive,
  shutdown_forced, some, true, ℕ, ◌&&◌, ◌==◌, ◌>>=◌, ◌∷◌,
}

-- What the runner calls of tokio.
pub record Runtime : Type 1 where
  pub World : Type 0
  pub CancellationToken : Type 0
  pub JoinHandle : Type 0
  pub child_token : CancellationToken → World → CancellationToken × World
  pub cancel : CancellationToken → World → World
  pub is_cancelled : CancellationToken → World → Bool
  pub abort : JoinHandle → World → World
  -- what a poll of the task finds: it still runs, or how it has ended
  pub poll : JoinHandle → World → Option (Result (Unit {0}))

pub data RunStatus : Type 0 where
  idle : RunStatus
  active : RunStatus

-- `u8::from`
abbrev pub as_u8 : RunStatus → ℕ
as_u8 idle = 0
as_u8 active = 1

module _ (rt : Runtime) where
  open rt use {World, CancellationToken, JoinHandle, child_token, cancel, is_cancelled, abort, poll}

  pub record Worker : Type 0 where
    pub on_start : CancellationToken → World → Result JoinHandle × World
    pub on_stop : CancellationToken → World → Result (Unit {0}) × World

  pub record WorkerRunner : Type 0 where
    pub worker : Worker
    pub worker_task : Option JoinHandle
    pub run_status : ℕ  -- AtomicU8
    pub stop_token : Option CancellationToken

  -- One poll of `select!`: what others did before it, and which branch is tried first.
  pub record Poll : Type 0 where
    pub meanwhile : World → World
    pub task_first : Bool

  unfoldable pub new : Worker → WorkerRunner
  new worker = record {
    worker = worker;
    worker_task = none;
    run_status = as_u8 idle;
    stop_token = none;
  }

  unfoldable pub get_worker : WorkerRunner → Result Worker
  get_worker r = if not (r.run_status == as_u8 active) then err runner_inactive else ok r.worker

  -- `compare_exchange(expected, new)`, and whether it has exchanged.
  unfoldable pub compare_exchange : ℕ → ℕ → WorkerRunner → WorkerRunner × Bool
  compare_exchange expected status r =
      if r.run_status == expected then (record r { run_status = status }, true) else (r, false)

  unfoldable pub try_switch_run_status : Bool → WorkerRunner → WorkerRunner × Bool
  unfolding compare_exchange
  try_switch_run_status true r = compare_exchange (as_u8 idle) (as_u8 active) r
  try_switch_run_status false r = compare_exchange (as_u8 active) (as_u8 idle) r

  unfoldable pub reset : WorkerRunner → WorkerRunner
  unfolding try_switch_run_status
  reset r = (try_switch_run_status false (record r { worker_task = none; stop_token = none })).0

  -- `self.worker_task = Some(worker_task)`, once `on_start(…).await?` has returned the task.
  unfoldable pub keep_task : WorkerRunner → Result JoinHandle → WorkerRunner × Result (Unit {0})
  keep_task r (ok task) = (record r { worker_task = some task }, ok tt)
  keep_task r (err why) = (r, err why)
  keep_task r panic = (r, panic)

  unfoldable pub start :
      CancellationToken → WorkerRunner → World → Result (Unit {0}) × WorkerRunner × World
  unfolding try_switch_run_status keep_task
  start token r w =
      let (r', switched) = try_switch_run_status true r in
      let (child, w') = child_token token w in
      let (started, w'') = r.worker.on_start child w' in
      let (r'', result) = keep_task (record r' { stop_token = some child }) started in
      if not switched then (ok tt, r', w) else (result, r'', w'')

  -- The `select!` between the task and the token, which polls until one is ready: `none` if it is
  -- still waiting after the polls given.
  unfoldable pub stop_worker_task :
      JoinHandle → CancellationToken → List Poll → World → Option (Result (Unit {0}) × World)
  stop_worker_task task token [] w = none
  stop_worker_task task token (p ∷ ps) w =
      let w' = p.meanwhile w in
      let waiting = stop_worker_task task token ps w' in
      let forced = some (err shutdown_forced, abort task w') in
      elim (poll task w') [
        | none ↦ if is_cancelled token w' then forced else waiting
        | some ended ↦
            if is_cancelled token w' && not p.task_first then forced else some (ended, w')
      ]

  -- `.await?` and then the reset, after which all is finished.
  unfoldable pub finish_stop :
      WorkerRunner
      → Option (Result (Unit {0}) × World)
      → Option (Result (Unit {0}) × WorkerRunner × World)
  unfolding reset
  finish_stop r none = none
  finish_stop r (some (ok finished, w)) = some (ok finished, reset r, w)
  finish_stop r (some (err why, w)) = some (err why, r, w)
  finish_stop r (some (panic, w)) = some (panic, r, w)

  -- `if let Some(task) = self.worker_task.take() { … }`; the token it passes on is `stop_token`.
  unfoldable pub take_task :
      CancellationToken
      → List Poll
      → WorkerRunner
      → Option JoinHandle
      → World
      → Option (Result (Unit {0}) × WorkerRunner × World)
  unfolding finish_stop
  take_task stop_token polls r none w = finish_stop r (some (ok tt, w))
  take_task stop_token polls r (some task) w =
      finish_stop (record r { worker_task = none }) (stop_worker_task task stop_token polls w)

  -- What `stop` does once `on_stop(…).await?` has returned.
  unfoldable pub after_on_stop :
      CancellationToken
      → List Poll
      → WorkerRunner
      → Result (Unit {0}) × World
      → Option (Result (Unit {0}) × WorkerRunner × World)
  unfolding take_task
  after_on_stop stop_token polls r (ok finished, w) = take_task stop_token polls r r.worker_task w
  after_on_stop stop_token polls r (err why, w) = some (err why, r, w)
  after_on_stop stop_token polls r (panic, w) = some (panic, r, w)

  unfoldable pub stop :
      CancellationToken
      → List Poll
      → WorkerRunner
      → World
      → Option (Result (Unit {0}) × WorkerRunner × World)
  unfolding after_on_stop
  stop token polls r w = elim r.stop_token [
    | none ↦ some (ok tt, r, w)
    | some stop_token ↦
        let r' = record r { stop_token = none } in
        after_on_stop stop_token polls r' (r.worker.on_stop token (cancel stop_token w))
  ]

  -- `Worker::run`
  unfoldable pub run : Worker → CancellationToken → World → Result WorkerRunner × World
  unfolding start new
  run worker token w =
      let (started, r, w') = start token (new worker) w in (started >>= λ finished. ok r, w')
