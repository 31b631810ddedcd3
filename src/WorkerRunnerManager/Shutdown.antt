-- ===== src/WorkerRunnerManager/Shutdown.antt =====
-- spx_lib/src/worker_runner/manager.rs: `on_stop` reaches every runner.
use spanner_paxos.WorkerRunner
use spanner_paxos.WorkerRunnerManager
use spanner_paxos.Base.{
  List, Option, Option-cases, Result, [], arith, err, inl, inr, none, ok, panic, refl, some, suc,
  true, ℕ, ◌∷◌, ◌≡◌, ◌≢◌,
}
use spanner_paxos.WorkerRunner.{Poll, Runtime, Worker, WorkerRunner}
use spanner_paxos.WorkerRunner.Lifecycle.{Cancels, KeepsCancelled, Stopped, stop_worker_task-Ended}
use spanner_paxos.WorkerRunnerManager.{WorkerRunnerManager}

-- What tokio says of tokens and tasks: tokens stay cancelled, and a task that panics is an error to
-- who joins it.
pub record IsTokio (rt : Runtime) : Type 0 where
  pub cancels : Cancels rt
  pub cancel_keeps : (t : rt.CancellationToken) → KeepsCancelled rt (rt.cancel t)
  pub abort_keeps : (task : rt.JoinHandle) → KeepsCancelled rt (rt.abort task)
  pub joins : (task : rt.JoinHandle) (w : rt.World) → rt.poll task w ≢ some panic

module _ (rt : Runtime) (tokio : IsTokio rt) where
  open rt use {World, CancellationToken, JoinHandle, cancel, is_cancelled, abort, poll}

  -- The `on_stop` of a worker does not panic, and leaves cancelled tokens cancelled.
  pub record IsSteady (token : CancellationToken) (worker : Worker rt) : Type 0 where
    pub keeps : KeepsCancelled rt (λ v. (worker.on_stop token v).1)
    pub calm : (w : World) → (worker.on_stop token w).0 ≢ panic

  abbrev pub AllSteady : CancellationToken → List (WorkerRunner rt) → Type 0
  AllSteady token [] = Unit {0}
  AllSteady token (r ∷ rs) = IsSteady token r.worker × AllSteady token rs

  abbrev pub IsSignalled : Option CancellationToken → World → Type 0
  IsSignalled none w = Unit {0}
  IsSignalled (some t) w = is_cancelled t w ≡ true

  -- Runner by runner, the token that it held is cancelled, and it holds none any more.
  abbrev pub AllSignalled : List (WorkerRunner rt) → List (WorkerRunner rt) → World → Type 0
  AllSignalled [] [] w = Unit {0}
  AllSignalled [] (r ∷ rs) w = ⊥
  AllSignalled (r ∷ rs) [] w = ⊥
  AllSignalled (r ∷ rs) (r' ∷ rs') w =
      IsSignalled r.stop_token w × (r'.stop_token ≡ none) × AllSignalled rs rs' w

  -- A cancelled token is still so in the later world.
  abbrev pub Lasts : World → World → Type 0
  Lasts w w' = (t : CancellationToken) → is_cancelled t w ≡ true → is_cancelled t w' ≡ true

  -- A `stop` that has ended, without panic and without a token left.
  abbrev Halted : World → Stopped rt → Type 0
  Halted w o =
      (result : Result (Unit {0})) × (r : WorkerRunner rt) × (w' : World) × (o
        ≡ some (result, r, w'))
      × (result ≢ panic)
      × (r.stop_token ≡ none)
      × Lasts w w'

  finish_stop-Halted :
      (r : WorkerRunner rt) (result : Result (Unit {0})) (w w' : World)
      → result ≢ panic
      → r.stop_token ≡ none
      → Lasts w w'
      → Halted w (WorkerRunner.finish_stop rt r (some (result, w')))
  unfolding WorkerRunner.finish_stop WorkerRunner.reset
  finish_stop-Halted r (ok finished) w w' calm token lasts =
      (ok finished, WorkerRunner.reset rt r, w', refl, calm, ground arith, lasts)
  finish_stop-Halted r (err why) w w' calm token lasts = (err why, r, w', refl, calm, token, lasts)
  finish_stop-Halted r panic w w' calm token lasts = absurd (calm refl)

  stop_worker_task-Halted :
      (r : WorkerRunner rt) (task : JoinHandle) (stop_token : CancellationToken) (p : Poll rt)
      (ps : List (Poll rt)) (w : World)
      → KeepsCancelled rt p.meanwhile
      → is_cancelled stop_token w ≡ true
      → r.stop_token ≡ none
      → Halted w (
          WorkerRunner.finish_stop rt r
            (WorkerRunner.stop_worker_task rt task stop_token (p ∷ ps) w))
  stop_worker_task-Halted r task stop_token p ps w waits dead token =
      let (result, w', ends, ended) =
        stop_worker_task-Ended rt task stop_token p ps w (waits stop_token w dead) in
      rw ends (elim ended [
        | inl (forced, aborted) ↦
            finish_stop-Halted r result w w' (λ e. cc) token
              (λ t h. rw aborted (tokio.abort_keeps task t _ (waits t w h)))
        | inr (over, same) ↦
            finish_stop-Halted r result w w' (λ e. tokio.joins task _ (rw e at over)) token
              (λ t h. rw same (waits t w h))
      ])

  Halted-from : {w w' : World} (o : Stopped rt) → Lasts w w' → Halted w' o → Halted w o
  Halted-from o first (result, r, v, e, calm, token, lasts) =
      (result, r, v, e, calm, token, λ t h. lasts t (first t h))

  take_task-Halted :
      (stop_token : CancellationToken) (p : Poll rt) (ps : List (Poll rt)) (r : WorkerRunner rt)
      (task : Option JoinHandle) (w : World)
      → KeepsCancelled rt p.meanwhile
      → is_cancelled stop_token w ≡ true
      → r.stop_token ≡ none
      → Halted w (WorkerRunner.take_task rt stop_token (p ∷ ps) r task w)
  unfolding WorkerRunner.take_task
  take_task-Halted stop_token p ps r none w waits dead token =
      finish_stop-Halted r (ok tt) w w (λ e. cc) token (λ t h. h)
  take_task-Halted stop_token p ps r (some task) w waits dead token =
      stop_worker_task-Halted (record r { worker_task = none }) task stop_token p ps w waits dead
        token

  after_on_stop-Halted :
      (stop_token : CancellationToken) (p : Poll rt) (ps : List (Poll rt)) (r : WorkerRunner rt)
      (answer : Result (Unit {0}) × World)
      → KeepsCancelled rt p.meanwhile
      → answer.0 ≢ panic
      → is_cancelled stop_token answer.1 ≡ true
      → r.stop_token ≡ none
      → Halted answer.1 (WorkerRunner.after_on_stop rt stop_token (p ∷ ps) r answer)
  unfolding WorkerRunner.after_on_stop
  after_on_stop-Halted stop_token p ps r (ok finished, w) waits calm dead token =
      take_task-Halted stop_token p ps r r.worker_task w waits dead token
  after_on_stop-Halted stop_token p ps r (err why, w) waits calm dead token =
      (err why, r, w, refl, calm, token, λ t h. h)
  after_on_stop-Halted stop_token p ps r (panic, w) waits calm dead token = absurd (calm refl)

  -- One `stop`, whether or not there is a token to cancel.
  abbrev HaltedSignalled : WorkerRunner rt → World → Stopped rt → Type 0
  HaltedSignalled old w o =
      (result : Result (Unit {0})) × (r : WorkerRunner rt) × (w' : World) × (o
        ≡ some (result, r, w'))
      × (result ≢ panic)
      × (r.stop_token ≡ none)
      × Lasts w w'
      × IsSignalled old.stop_token w'

  stop-HaltedSignalled :
      (token : CancellationToken) (p : Poll rt) (ps : List (Poll rt)) (r : WorkerRunner rt)
      (w : World)
      → KeepsCancelled rt p.meanwhile
      → IsSteady token r.worker
      → HaltedSignalled r w (WorkerRunner.stop rt token (p ∷ ps) r w)
  unfolding WorkerRunner.stop
  stop-HaltedSignalled token p ps r w waits steady = elim (Option-cases r.stop_token) [
    | inl gone ↦ (ok tt, r, w, rw gone refl, λ e. cc, gone, λ t h. h, rw gone tt)
    | inr (t, held) ↦
        let answer = r.worker.on_stop token (cancel t w) in
        let dead = steady.keeps t (cancel t w) (tokio.cancels t w) in
        let (result, r', w', e, calm, gone, lasts) =
          after_on_stop-Halted t p ps (record r { stop_token = none }) answer waits
            (steady.calm (cancel t w)) dead refl in
        (
          result,
          r',
          w',
          rw held e,
          calm,
          gone,
          λ u h. lasts u (steady.keeps u _ (tokio.cancel_keeps t u w h)),
          rw held (lasts t dead),
        )
  ]

  IsSignalled-Lasts :
      (token : Option CancellationToken) (w w' : World)
      → Lasts w w'
      → IsSignalled token w
      → IsSignalled token w'
  IsSignalled-Lasts none w w' lasts h = tt
  IsSignalled-Lasts (some t) w w' lasts h = lasts t h

  next_runners :
      (result : Result (Unit {0})) (r : WorkerRunner rt) (rs rs' : List (WorkerRunner rt))
      (w w' : World) (later : Option (Result (Unit {0}) × List (WorkerRunner rt) × World))
      → result ≢ panic
      → later ≡ some (ok tt, rs', w')
      → WorkerRunnerManager.put_back rt r (WorkerRunnerManager.then_rest rt result later rs w)
        ≡ some (ok tt, r ∷ rs', w')
  unfolding WorkerRunnerManager.put_back WorkerRunnerManager.then_rest
  next_runners panic r rs rs' w w' later calm e = absurd (calm refl)
  next_runners (err why) r rs rs' w w' later calm e = rw e refl
  next_runners (ok finished) r rs rs' w w' later calm e = rw e refl

  -- If no worker's `on_stop` panics, and tokens stay cancelled once they are, the manager's loop
  -- stops every runner, also after one that fails, and ends with `Ok`: each token that a runner held
  -- is cancelled, in the world that is left, and no runner holds one any more. No runner waits for
  -- more than one poll.
  pub stop_runners-AllSignalled :
      (token : CancellationToken) (first : ℕ → Poll rt) (others : ℕ → List (Poll rt))
      (rs : List (WorkerRunner rt)) (w : World)
      → ((i : ℕ) → KeepsCancelled rt (first i).meanwhile)
      → AllSteady token rs
      → (rs' : List (WorkerRunner rt)) × (w' : World) × (WorkerRunnerManager.stop_runners rt token
            (λ i. first i ∷ others i)
            rs
            w
          ≡ some (ok tt, rs', w'))
        × AllSignalled rs rs' w'
        × Lasts w w'
  unfolding WorkerRunnerManager.stop_runners
  stop_runners-AllSignalled token first others [] w waits steady = ([], w, refl, tt, λ t h. h)
  stop_runners-AllSignalled token first others (r ∷ rs) w waits (steady, all) =
      let (result, r', v, e, calm, gone, lasts, signalled) =
        stop-HaltedSignalled token (first 0) (others 0) r w (waits 0) steady in
      let (rs', w', e', all', lasts') =
        stop_runners-AllSignalled token (λ i. first (suc i)) (λ i. others (suc i)) rs v
          (λ i. waits (suc i)) all in
      (
        r' ∷ rs',
        w',
        rw (e, WorkerRunnerManager.stop_runners) (next_runners result r' rs rs' v w' _ calm e'),
        (IsSignalled-Lasts r.stop_token v w' lasts' signalled, gone, all'),
        λ t h. lasts' t (lasts t h),
      )
