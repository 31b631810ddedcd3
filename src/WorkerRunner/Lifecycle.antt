-- ===== src/WorkerRunner/Lifecycle.antt =====
-- spx_lib/src/worker_runner/runner.rs: what `stop` comes to.
use spanner_paxos.WorkerRunner
use spanner_paxos.Base.{
  Bool-cases, List, Option, Option-cases, Result, arith, err, inl, inr, none, ok, panic, refl,
  shutdown_forced, some, true, ◌∷◌, ◌≡◌, ◌≢◌, ◌⊎◌,
}
use spanner_paxos.TrueTime.{now}
use spanner_paxos.WorkerRunner.{Poll, Runtime, WorkerRunner}

-- What tokio says of its tokens: one that is cancelled says so, and stays cancelled.
abbrev pub Cancels : Runtime → Type 0
Cancels rt = (t : rt.CancellationToken) (w : rt.World) → rt.is_cancelled t (rt.cancel t w) ≡ true

abbrev pub KeepsCancelled : (rt : Runtime) → (rt.World → rt.World) → Type 0
KeepsCancelled rt change =
    (t : rt.CancellationToken) (w : rt.World)
    → rt.is_cancelled t w ≡ true
    → rt.is_cancelled t (change w) ≡ true

module _ (rt : Runtime) where
  open rt use {World, CancellationToken, JoinHandle, cancel, is_cancelled, abort, poll}

  -- The result of a `stop` and the runner that it leaves.
  abbrev pub Stopped : Type 0
  Stopped = Option (Result (Unit {0}) × WorkerRunner rt × World)

  -- Calls of `start` and `stop` that return at once and do nothing.
  abbrev pub IsInert : WorkerRunner rt → CancellationToken → List (Poll rt) → World → Type 0
  IsInert r later polls w =
      (WorkerRunner.start rt later r w ≡ (ok tt, r, w))
      × (WorkerRunner.stop rt later polls r w ≡ some (ok tt, r, w))

  -- An active runner that has lost its stop token is inert.
  inert :
      (r : WorkerRunner rt) (later : CancellationToken) (polls : List (Poll rt)) (w : World)
      → r.run_status ≡ 1
      → r.stop_token ≡ none
      → IsInert r later polls w
  unfolding WorkerRunner.start WorkerRunner.stop
  inert r later polls w status token = (rw status (ground arith), rw token refl)

  reset-new :
      (r : WorkerRunner rt)
      → r.run_status ≡ 1
      → WorkerRunner.reset rt r ≡ WorkerRunner.new rt r.worker
  unfolding WorkerRunner.reset WorkerRunner.new
  reset-new r status = rw status refl

  -- What the `select!` has come to: the task aborted, or its own end.
  abbrev pub Ended : JoinHandle → World → Result (Unit {0}) → World → Type 0
  Ended task w result w' =
      ((result ≡ err shutdown_forced) × (w' ≡ abort task w))
      ⊎ ((poll task w ≡ some result) × (w' ≡ w))

  pub stop_worker_task-Ended :
      (task : JoinHandle) (token : CancellationToken) (p : Poll rt) (ps : List (Poll rt))
      (w : World)
      → is_cancelled token (p.meanwhile w) ≡ true
      → (result : Result (Unit {0})) × (w' : World) × (WorkerRunner.stop_worker_task rt task token
            (p ∷ ps)
            w
          ≡ some (result, w'))
        × Ended task (p.meanwhile w) result w'
  unfolding WorkerRunner.stop_worker_task
  stop_worker_task-Ended task token p ps w cancelled =
      let w' = p.meanwhile w in
      elim (Option-cases (poll task w')) [
        | inl runs ↦ (
          err shutdown_forced,
          abort task w',
          rw (runs, WorkerRunner.stop_worker_task, cancelled) refl,
          inl (refl, refl),
        )
        | inr (ended, over) ↦ elim (Bool-cases p.task_first) [
          | inl first ↦ (
            ended,
            w',
            rw (over, WorkerRunner.stop_worker_task, cancelled, first) refl,
            inr (over, refl),
          )
          | inr second ↦ (
            err shutdown_forced,
            abort task w',
            rw (over, WorkerRunner.stop_worker_task, cancelled, second) refl,
            inl (refl, refl),
          )
        ]
      ]

  -- Either the runner is as a new one, or an error has been returned and the runner is inert.
  abbrev pub Settles :
      WorkerRunner rt → CancellationToken → List (Poll rt) → World → Stopped → Type 0
  Settles old later polls w o =
      (result : Result (Unit {0})) × (r : WorkerRunner rt) × (w' : World) × (o
        ≡ some (result, r, w'))
      × (((result ≡ ok tt) × (r ≡ WorkerRunner.new rt old.worker))
          ⊎ ((result ≢ ok tt) × IsInert r later polls w))

  module _ (later : CancellationToken) (polls : List (Poll rt)) (now : World) where
    finish_stop-Settles :
        (r : WorkerRunner rt) (result : Result (Unit {0})) (w : World)
        → r.run_status ≡ 1
        → r.stop_token ≡ none
        → Settles r later polls now (WorkerRunner.finish_stop rt r (some (result, w)))
    unfolding WorkerRunner.finish_stop
    finish_stop-Settles r (ok finished) w status token =
        (ok tt, WorkerRunner.reset rt r, w, refl, inl (refl, reset-new r status))
    finish_stop-Settles r (err why) w status token =
        (err why, r, w, refl, inr (λ e. cc, inert r later polls now status token))
    finish_stop-Settles r panic w status token =
        (panic, r, w, refl, inr (λ e. cc, inert r later polls now status token))

    take_task-Settles :
        (stop_token : CancellationToken) (p : Poll rt) (ps : List (Poll rt)) (r : WorkerRunner rt)
        (task : Option JoinHandle) (w : World)
        → is_cancelled stop_token (p.meanwhile w) ≡ true
        → r.run_status ≡ 1
        → r.stop_token ≡ none
        → Settles r later polls now (WorkerRunner.take_task rt stop_token (p ∷ ps) r task w)
    unfolding WorkerRunner.take_task
    take_task-Settles stop_token p ps r none w cancelled status token =
        finish_stop-Settles r (ok tt) w status token
    take_task-Settles stop_token p ps r (some task) w cancelled status token =
        let (result, w', ends, ended) = stop_worker_task-Ended task stop_token p ps w cancelled in
        rw ends (finish_stop-Settles (record r { worker_task = none }) result w' status token)

    after_on_stop-Settles :
        (stop_token : CancellationToken) (p : Poll rt) (ps : List (Poll rt)) (r : WorkerRunner rt)
        (answer : Result (Unit {0}) × World)
        → is_cancelled stop_token (p.meanwhile answer.1) ≡ true
        → r.run_status ≡ 1
        → r.stop_token ≡ none
        → Settles r later polls now (WorkerRunner.after_on_stop rt stop_token (p ∷ ps) r answer)
    unfolding WorkerRunner.after_on_stop
    after_on_stop-Settles stop_token p ps r (ok finished, w) cancelled status token =
        take_task-Settles stop_token p ps r r.worker_task w cancelled status token
    after_on_stop-Settles stop_token p ps r (err why, w) cancelled status token =
        (err why, r, w, refl, inr (λ e. cc, inert r later polls now status token))
    after_on_stop-Settles stop_token p ps r (panic, w) cancelled status token =
        (panic, r, w, refl, inr (λ e. cc, inert r later polls now status token))

  -- A call of `stop` on an active runner ends at the first poll of its `select!`, whatever the caller's
  -- token and the task do, provided that cancelled tokens stay cancelled. Either it returns `Ok` and
  -- the runner is as a new one; or it ends in an error or a panic, and any later `start` or `stop` of
  -- the runner returns `Ok` and does nothing.
  pub stop-Settles :
      (token stop_token : CancellationToken) (p : Poll rt) (ps : List (Poll rt))
      (r : WorkerRunner rt) (w : World)
      → Cancels rt
      → KeepsCancelled rt (λ v. (r.worker.on_stop token v).1)
      → KeepsCancelled rt p.meanwhile
      → r.run_status ≡ 1
      → r.stop_token ≡ some stop_token
      → (later : CancellationToken) (polls : List (Poll rt)) (now : World)
      → Settles r later polls now (WorkerRunner.stop rt token (p ∷ ps) r w)
  unfolding WorkerRunner.stop
  stop-Settles token stop_token p ps r w cancels answers waits status held later polls now =
      rw held (
        after_on_stop-Settles later polls now stop_token p ps (record r { stop_token = none })
          (r.worker.on_stop token (cancel stop_token w))
          (waits stop_token _ (answers stop_token _ (cancels stop_token w))) status refl)

  stop_worker_task-forced :
      (task : JoinHandle) (token : CancellationToken) (p : Poll rt) (ps : List (Poll rt))
      (w : World)
      → poll task (p.meanwhile w) ≡ none
      → is_cancelled token (p.meanwhile w) ≡ true
      → WorkerRunner.stop_worker_task rt task token (p ∷ ps) w
        ≡ some (err shutdown_forced, abort task (p.meanwhile w))
  unfolding WorkerRunner.stop_worker_task
  stop_worker_task-forced task token p ps w runs cancelled =
      rw (runs, WorkerRunner.stop_worker_task, cancelled) refl

  -- A task that still runs when `stop` first polls it is aborted, and `stop` ends in an error,
  -- whether or not the caller's token is ever cancelled, provided that cancelled tokens stay
  -- cancelled and `on_stop` succeeds.
  pub stop-forced :
      (token stop_token : CancellationToken) (p : Poll rt) (ps : List (Poll rt))
      (r : WorkerRunner rt) (w w' : World) (task : JoinHandle)
      → Cancels rt
      → KeepsCancelled rt (λ v. (r.worker.on_stop token v).1)
      → KeepsCancelled rt p.meanwhile
      → r.stop_token ≡ some stop_token
      → r.worker_task ≡ some task
      → r.worker.on_stop token (cancel stop_token w) ≡ (ok tt, w')
      → poll task (p.meanwhile w') ≡ none
      → WorkerRunner.stop rt token (p ∷ ps) r w
        ≡ some (
          err shutdown_forced,
          record r { worker_task = none; stop_token = none },
          abort task (p.meanwhile w'),
        )
  unfolding WorkerRunner.stop WorkerRunner.after_on_stop WorkerRunner.take_task
      WorkerRunner.finish_stop
  stop-forced token stop_token p ps r w w' task cancels answers waits held started stops runs =
      let answered = answers stop_token (cancel stop_token w) (cancels stop_token w) in
      let still = waits stop_token w' (rw stops at answered) in
      rw
        (
          held,
          stops,
          started,
          WorkerRunner.take_task,
          stop_worker_task-forced task stop_token p ps w' runs still,
        )
        refl
