-- ===== src/CountDownClock/Task.antt =====
-- spx_lib/src/count_down_clock/count_down_clock.rs: the events that the background task posts.
use spanner_paxos.Base.{
  Bool-cases, List, Option, Option-cases, [], arith, false, inl, inr, none, refl, some, ◌||◌, ◌∷◌,
  ◌≡◌, ◌⊎◌,
}
use spanner_paxos.CountDownClock.{CountDownClock, Wait, Wakeup, polled, slept, wake}

module _ {E : Type 0} where
  abbrev pub post : Option E → List E → List E
  post none es = es
  post (some e) es = e ∷ es

  -- The events that a clock posts over a run of wakeups, during which nobody starts or cancels it.
  abbrev pub posted : List Wakeup → CountDownClock E → List E
  posted [] c = []
  posted (w ∷ ws) c = post (wake w c).1 (posted ws (wake w c).0)

  idle-posted : (ws : List Wakeup) (c : CountDownClock E) → c.task ≡ none → posted ws c ≡ []
  unfolding wake
  idle-posted [] c h = refl
  idle-posted (w ∷ ws) c h = rw h (idle-posted ws _ refl)

  -- Nothing, or the event of the task, once.
  abbrev pub AtMostOnce : CountDownClock E → List E → Type 0
  AtMostOnce c es =
      (es ≡ [])
      ⊎ ((wait : Wait) × (e : E) × (c.task ≡ some (wait, e))
          × (c.token_cancelled ≡ false)
          × (es ≡ e ∷ []))

  -- One wakeup: quiet, with the task as before or gone; or it posts the task's event and ends it.
  abbrev Woken : CountDownClock E → CountDownClock E × Option E → Type 0
  Woken c (c', event) =
      ((event ≡ none) × (c'.task ≡ none))
      ⊎ ((event ≡ none) × (c'.task ≡ c.task) × (c'.token_cancelled ≡ c.token_cancelled))
      ⊎ ((wait : Wait) × (e : E) × (c.task ≡ some (wait, e))
          × (c.token_cancelled ≡ false)
          × (event ≡ some e)
          × (c'.task ≡ none))

  wake-Woken : (w : Wakeup) (c : CountDownClock E) → Woken c (wake w c)
  unfolding wake
  wake-Woken polled c = ground arith
  wake-Woken slept c = elim (Option-cases c.task) [
    | inl idle ↦ ground arith
    | inr ((wait, e), running) ↦ elim (Bool-cases (c.token_cancelled || c.reset_notify)) [
      | inl kept ↦ ground arith
      | inr over ↦ inr (inr (wait, e, running, ground arith, ground arith, ground arith))
    ]
  ]

  -- Over any run of wakeups, a clock that is not started again posts nothing, or else posts the event
  -- of its task exactly once, which takes a clock that has not been cancelled.
  pub posted-AtMostOnce : (ws : List Wakeup) (c : CountDownClock E) → AtMostOnce c (posted ws c)
  posted-AtMostOnce [] c = inl refl
  posted-AtMostOnce (w ∷ ws) c = elim (wake-Woken w c) [
    | inl (quiet, gone) ↦ inl (rw quiet (idle-posted ws (wake w c).0 gone))
    | inr (inl (quiet, task, token)) ↦
        let rest = posted-AtMostOnce ws (wake w c).0 in rw quiet (rw (task, token) at rest)
    | inr (inr (wait, e, task, token, fired, gone)) ↦
        inr (wait, e, task, token, rw (fired, idle-posted ws (wake w c).0 gone) refl)
  ]
