-- ===== src/Follower/Campaigns.antt =====
-- spx_core/src/roles: client writes without a leader, and what the two kinds of campaign share.
use spanner_paxos.Base.{
  Bool, List, Option, Result, [], false, if◌then◌else◌, leb, none, ok, some, suc, true, ℕ, ◌+◌, ◌/◌,
  ◌∷◌,
}
use spanner_paxos.Context.{PaxosSharedContext}
use spanner_paxos.Map.{Map, insert}
use spanner_paxos.Messages.{
  Action, ClientWriteRequest, ClientWriteResponse, PaxosCommand, Uuid, answered_write, dispatch,
  forwarded_write, send_ignoring,
}
use spanner_paxos.Follower.Ballots.{Follower}

abbrev pub no_leader : ClientWriteResponse
no_leader = record {
  success = false;
  error = some "no active leader in the current Paxos group, rejecting incoming write request";
}

unfoldable pub handle_client_write :
    Follower → PaxosCommand ClientWriteRequest → PaxosSharedContext → Result (List Action)
handle_client_write f command ctx = elim f.current_leader_id [
  | none ↦ ok (send_ignoring command (λ tx. answered_write tx no_leader))
  | some leader ↦
      dispatch (ctx.dispatcher.dispatch_client_write leader command.request)
        (forwarded_write leader command.request command.response_tx)
]

-- What a campaigner `S` becomes: itself, on `None`; a winner, on `Some(Ok(…))`; a follower, on
-- `Some(Err(…))`.
pub data Campaign (S : Type 0) (W : Type 0) : Type 0 where
  undecided : S → Campaign S W
  won : W → Campaign S W
  lost : Follower → Campaign S W

-- A board or score board with one value for every peer.
unfoldable pub for_peers {ℓ} : {V : Type ℓ} → V → List Uuid → Map V
for_peers v [] = []
for_peers v (id ∷ ids) = insert id v (for_peers v ids)

-- `values().filter(…).count()`, and `values().all(|v| v.is_some())`.
unfoldable pub count_votes : {R : Type 0} → (R → Bool) → Map (Option R) → ℕ
count_votes granted [] = 0
count_votes granted ((id, none) ∷ board) = count_votes granted board
count_votes granted ((id, some r) ∷ board) =
    if granted r then suc (count_votes granted board) else count_votes granted board

unfoldable pub all_responded : {R : Type 0} → Map (Option R) → Bool
all_responded [] = true
all_responded ((id, none) ∷ board) = false
all_responded ((id, some r) ∷ board) = all_responded board

-- The member's own vote is not on the board.
unfoldable pub is_quorum : ℕ → ℕ → Bool
is_quorum votes board_size = leb ((board_size + 1) / 2 + 1) (votes + 1)
