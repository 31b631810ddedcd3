-- ===== src/TaskDispatcher/Outputs.antt =====
-- spx_lib/src/task_dispatcher: every output is handled once.
use mathlib.Core.List.Perm
use mathlib.Core.List.{Perm, append-nil, append_assoc, map-append}
use spanner_paxos.Base.{
  Bool, Bool-cases, List, Option-cases, [], arith, false, inl, inr, leb, length, map, refl, some,
  suc, true, zero, ℕ, ◌++◌, ◌∷◌, ◌≡◌,
}
use spanner_paxos.TaskDispatcher.{
  Move, TaskDispatcher, channel_size, dispatch_task, dispatches, move, moves, pick, polls,
  process_outputs, receive, send_output, sends, task_dispatcher_new,
}

module _ {A : Type 0} where
  pick-perm :
      (i : ℕ) (xs : List A) {a : A} {rest : List A}
      → pick i xs ≡ some (a, rest)
      → Perm (a ∷ rest) xs
  unfolding pick
  pick-perm i [] e = cc
  pick-perm zero (x ∷ xs) {a} {rest} e =
      let head : x ≡ a = ground arith in
      let tail : xs ≡ rest = ground arith in rw (head, tail) (Perm.refl (a ∷ rest))
  pick-perm (suc i) (x ∷ xs) {a} {rest} e = elim (Option-cases (pick i xs)) [
    | inl gone ↦ let failed = rw gone at e in cc failed
    | inr ((b, others), found) ↦
        let e' = rw found at e in
        let head : b ≡ a = ground arith in
        let tail : x ∷ others ≡ rest = ground arith in
        rw (← head, ← tail) (Perm.trans (Perm.swap x b others) (Perm.cons x (pick-perm i xs found)))
  ]

-- The inputs that a move dispatches, and those of a run.
abbrev pub inputs : {I : Type 0} → Move I → List I
inputs (dispatches input) = input ∷ []
inputs (sends i) = []
inputs (polls seen closed) = []

abbrev pub dispatched : {I : Type 0} → List (Move I) → List I
dispatched [] = []
dispatched (m ∷ ms) = inputs m ++ dispatched ms

module _ {I O : Type 0} (executor : I → O) where
  -- The outputs that have been handled, those in the channel, and those still to come.
  abbrev pub all_outputs : TaskDispatcher I O → List O
  all_outputs d = d.handled ++ (d.output ++ map executor d.running)

  send_output-perm :
      (i : ℕ) (d : TaskDispatcher I O)
      → Perm (all_outputs (send_output executor i d)) (all_outputs d)
  unfolding send_output
  send_output-perm i d = elim (Bool-cases (leb channel_size (length d.output))) [
    | inl full ↦ rw full Perm.rfl
    | inr room ↦ elim (Option-cases (pick i d.running)) [
      | inl gone ↦ rw (room, send_output, gone) Perm.rfl
      | inr ((input, rest), found) ↦
          rw (room, send_output, found)
            (Perm.append_left d.handled (
              rw (append_assoc d.output (executor input ∷ []) (map executor rest))
                (Perm.append_left d.output (Perm.map executor (pick-perm i d.running found)))))
    ]
  ]

  receive-perm :
      (closed : Bool) (queue : List O) (d : TaskDispatcher I O)
      → d.output ≡ queue
      → Perm (all_outputs (receive executor closed queue d)) (all_outputs d)
  unfolding receive
  receive-perm closed (res ∷ rest) d e =
      rw (e, append_assoc d.handled (res ∷ []) (rest ++ map executor d.running)) Perm.rfl
  receive-perm true [] d e = Perm.rfl
  receive-perm false [] d e = Perm.rfl

  process_outputs-perm :
      (seen closed : Bool) (d : TaskDispatcher I O)
      → Perm (all_outputs (process_outputs executor seen closed d)) (all_outputs d)
  unfolding process_outputs
  process_outputs-perm seen closed d = elim (Bool-cases d.ended) [
    | inl over ↦ rw over Perm.rfl
    | inr going ↦ elim (Bool-cases seen) [
      | inl cut ↦ rw (going, cut) Perm.rfl
      | inr free ↦ rw (going, free) (receive-perm closed d.output (record d { ended = false }) refl)
    ]
  ]

  move-perm :
      (m : Move I) (d : TaskDispatcher I O)
      → Perm (all_outputs (move executor m d)) (all_outputs d ++ map executor (inputs m))
  unfolding move dispatch_task
  move-perm (dispatches input) d = simp (map-append, append_assoc) Perm.rfl
  move-perm (sends i) d = rw (append-nil (all_outputs d)) (send_output-perm i d)
  move-perm (polls seen closed) d =
      rw (append-nil (all_outputs d)) (process_outputs-perm seen closed d)

  moves-perm :
      (ms : List (Move I)) (d : TaskDispatcher I O)
      → Perm (all_outputs (moves executor ms d)) (all_outputs d ++ map executor (dispatched ms))
  unfolding moves
  moves-perm [] d = rw (append-nil (all_outputs d)) Perm.rfl
  moves-perm (m ∷ ms) d =
      rw
        (
          map-append executor (inputs m) (dispatched ms),
          ← append_assoc (all_outputs d) (map executor (inputs m)) (map executor (dispatched ms)),
        )
        (Perm.trans (moves-perm ms (move executor m d))
          (Perm.append_right (map executor (dispatched ms)) (move-perm m d)))

  -- Whatever the order in which tasks are dispatched, send their outputs and have them handled, and
  -- whether or not the loop has been cancelled: the outputs that have been handled, those that wait
  -- in the channel, and those of the tasks that have not sent theirs, are together the outputs of
  -- all the inputs that have been dispatched. None is lost, and none is handled twice.
  pub moves-all_outputs :
      (ms : List (Move I))
      → Perm
          (all_outputs (moves executor ms (task_dispatcher_new executor)))
          (map executor (dispatched ms))
  unfolding task_dispatcher_new
  moves-all_outputs ms = moves-perm ms (task_dispatcher_new executor)
