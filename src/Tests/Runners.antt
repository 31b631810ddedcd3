-- ===== src/Tests/Runners.antt =====
-- Workers on a small runtime: a token is a number, the world says which are cancelled, a child's
-- token is the next number, and a task is how it ends, if it does.
use spanner_paxos.WorkerRunner
use spanner_paxos.WorkerRunnerManager
use spanner_paxos.Base.{
  Bool, List, Option, Result, [], arith, err, false, if◌then◌else◌, none, ok, panic, refl,
  shutdown_forced, some, suc, true, worker_failed, ℕ, ◌==◌, ◌∷◌, ◌≡◌, ◌≢◌,
}
use spanner_paxos.WorkerRunner.{Poll, Runtime, Worker, WorkerRunner}
use spanner_paxos.WorkerRunner.Lifecycle.{
  Cancels, KeepsCancelled, Settles, stop-Settles, stop-forced,
}
use spanner_paxos.WorkerRunnerManager.{WorkerRunnerManager}
use spanner_paxos.WorkerRunnerManager.Shutdown.{
  AllSignalled, IsSteady, IsTokio, Lasts, stop_runners-AllSignalled,
}

-- The end of a task, in success or in failure.
abbrev end_of : Option Bool → Option (Result (Unit {0}))
end_of none = none
end_of (some true) = some (ok tt)
end_of (some false) = some (err worker_failed)

abbrev small : Runtime
small = record {
  World = ℕ → Bool;
  CancellationToken = ℕ;
  JoinHandle = Option Bool;
  child_token = λ token w. (suc token, w);
  cancel = λ token w u. if token == u then true else w u;
  is_cancelled = λ token w. w token;
  abort = λ task w. w;
  poll = λ task w. end_of task;
}

small-Cancels : Cancels small
small-Cancels token w = ground arith

small-cancel_keeps : (token : ℕ) → KeepsCancelled small (small.cancel token)
small-cancel_keeps token u w h = ground arith

-- A worker whose task never ends, and one whose `on_stop` fails.
abbrev endless : Worker small
endless = record { on_start = λ token w. (ok none, w); on_stop = λ token w. (ok tt, w) }

abbrev failing : Worker small
failing = record {
  on_start = λ token w. (ok (some true), w);
  on_stop = λ token w. (err worker_failed, w);
}

abbrev quiet : ℕ → Bool
quiet token = false

abbrev first_poll : Poll small
first_poll = record { meanwhile = λ w. w; task_first = true }

abbrev started : Worker small → WorkerRunner small
started worker = record { worker = worker; worker_task = none; run_status = 1; stop_token = some 1 }

-- A runner of the worker after `start`.
abbrev running_with : Option Bool → Worker small → WorkerRunner small
running_with task worker = record (started worker) { worker_task = some task }

start_test :
    WorkerRunner.start small 0 (WorkerRunner.new small endless) quiet
    ≡ (ok tt, running_with none endless, quiet)
unfolding WorkerRunner.start WorkerRunner.new
start_test = refl

-- Started and stopped, a runner whose task has ended is as it was.
stop_test :
    WorkerRunner.stop small 7 (first_poll ∷ []) (running_with (some true) endless) quiet
    ≡ some (ok tt, WorkerRunner.new small endless, small.cancel 1 quiet)
unfolding WorkerRunner.stop WorkerRunner.new WorkerRunner.stop_worker_task
stop_test = refl

stop-Settles_example :
    Settles small
      (running_with none endless)
      3
      []
      quiet
      (WorkerRunner.stop small 7 (first_poll ∷ []) (running_with none endless) quiet)
stop-Settles_example =
    stop-Settles small 7 1 first_poll [] (running_with none endless) quiet small-Cancels
      (λ token w h. h) (λ token w h. h) refl refl 3 [] quiet

stop-forced_example :
    WorkerRunner.stop small 7 (first_poll ∷ []) (running_with none endless) quiet
    ≡ some
        (err shutdown_forced, record (started endless) { stop_token = none }, small.cancel 1 quiet)
stop-forced_example =
    stop-forced small 7 1 first_poll [] (running_with none endless) quiet (small.cancel 1 quiet)
      none small-Cancels (λ token w h. h) (λ token w h. h) refl refl refl refl

end_of-ne-panic : (task : Option Bool) (w : ℕ → Bool) → end_of task ≢ some panic
end_of-ne-panic none w e = cc
end_of-ne-panic (some true) w e = cc
end_of-ne-panic (some false) w e = cc

small-IsTokio : IsTokio small
small-IsTokio = record {
  cancels = small-Cancels;
  cancel_keeps = small-cancel_keeps;
  abort_keeps = λ task token w h. h;
  joins = end_of-ne-panic;
}

endless-IsSteady : IsSteady small small-IsTokio 7 endless
endless-IsSteady = record { keeps = λ token w h. h; calm = λ w e. cc }

failing-IsSteady : IsSteady small small-IsTokio 7 failing
failing-IsSteady = record { keeps = λ token w h. h; calm = λ w e. cc }

-- The first of two workers fails to stop, the second has its task cut off.
stop_runners-AllSignalled_example :
    let rs = running_with (some true) failing ∷ running_with none endless ∷ [] in
    (rs' : List (WorkerRunner small)) × (w : ℕ → Bool) × (WorkerRunnerManager.stop_runners small 7
        (λ i. first_poll ∷ [])
        rs
        quiet
      ≡ some (ok tt, rs', w))
    × AllSignalled small small-IsTokio rs rs' w
    × Lasts small small-IsTokio quiet w
stop_runners-AllSignalled_example =
    stop_runners-AllSignalled small small-IsTokio 7 (λ i. first_poll) (λ i. [])
      (running_with (some true) failing ∷ running_with none endless ∷ []) quiet (λ i token w h. h)
      (failing-IsSteady, (endless-IsSteady, tt))
