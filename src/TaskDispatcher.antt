-- ===== src/TaskDispatcher.antt =====
-- spx_lib/src/task_dispatcher. The executor is a function; what the handler does is the sequence of
-- its calls. `Move` is what happens next, in whatever order.
pub mod Outputs
use spanner_paxos.Base.{
  Bool, List, Option, [], false, if◌then◌else◌, leb, length, none, some, suc, true, zero, ℕ, ◌++◌,
  ◌∷◌,
}

-- `mpsc::channel(1024)`
abbrev pub channel_size : ℕ
channel_size = 1024

pub record TaskDispatcher (I O : Type 0) : Type 0 where
  -- the inputs of the spawned tasks that have not sent their output
  pub running : List I
  -- the outputs in the channel
  pub output : List O
  -- the outputs that the handler has been called with, first to last
  pub handled : List O
  -- `process_outputs` has left its loop
  pub ended : Bool

pub data Move (I : Type 0) : Type 0 where
  -- a call of `dispatch`
  dispatches : I → Move I
  -- the task at an index sends its output
  sends : ℕ → Move I
  -- a poll of the `select!`: whether the token is cancelled, and whether every sender is gone
  polls : Bool → Bool → Move I

module _ {A : Type 0} where
  -- The element at an index, and the rest.
  unfoldable pub pick : ℕ → List A → Option (A × List A)
  pick i [] = none
  pick zero (a ∷ rest) = some (a, rest)
  pick (suc i) (a ∷ rest) = elim (pick i rest) [
    | none ↦ none
    | some (b, others) ↦ some (b, a ∷ others)
  ]

module _ {I O : Type 0} (executor : I → O) where
  unfoldable pub task_dispatcher_new : TaskDispatcher I O
  task_dispatcher_new = record { running = []; output = []; handled = []; ended = false }

  unfoldable pub dispatch_task : I → TaskDispatcher I O → TaskDispatcher I O
  dispatch_task input d = record d { running = d.running ++ input ∷ [] }

  -- The spawned task, which waits while the channel is full.
  unfoldable pub send_output : ℕ → TaskDispatcher I O → TaskDispatcher I O
  send_output i d = if leb channel_size (length d.output) then d else elim (pick i d.running) [
    | none ↦ d
    | some (input, rest) ↦ record d { running = rest; output = d.output ++ executor input ∷ [] }
  ]

  -- `output_rx.recv()` and the handler, on what is in the channel.
  unfoldable pub receive : Bool → List O → TaskDispatcher I O → TaskDispatcher I O
  receive closed (res ∷ rest) d = record d { output = rest; handled = d.handled ++ res ∷ [] }
  receive closed [] d = if closed then record d { ended = true } else d

  -- A turn of the loop of `process_outputs`: the token first.
  unfoldable pub process_outputs : Bool → Bool → TaskDispatcher I O → TaskDispatcher I O
  unfolding receive
  process_outputs seen closed d =
      if d.ended then d else if seen then record d { ended = true } else receive closed d.output d

  unfoldable pub move : Move I → TaskDispatcher I O → TaskDispatcher I O
  unfolding dispatch_task send_output process_outputs
  move (dispatches input) d = dispatch_task input d
  move (sends i) d = send_output i d
  move (polls seen closed) d = process_outputs seen closed d

  unfoldable pub moves : List (Move I) → TaskDispatcher I O → TaskDispatcher I O
  moves [] d = d
  moves (m ∷ ms) d = moves ms (move m d)
