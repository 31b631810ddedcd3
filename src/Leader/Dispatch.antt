-- ===== src/Leader/Dispatch.antt =====
-- spx_core/src/roles/leader.rs: when the leader's requests and its handling of responses return.
use spanner_paxos.Leader
use spanner_paxos.Wal
use spanner_paxos.Base.{All, some, true, ℕ, ◌+◌, ◌>>=◌, ◌≡◌, ◌≤◌, ◌⊎◌}
use spanner_paxos.Context.{PaxosSharedContext}
use spanner_paxos.Leader.{FollowerState, Leader}
use spanner_paxos.Map.{lookup, values}
use spanner_paxos.Messages.{AcceptRequest, AcceptResponse, ConflictHint, Uuid}
use spanner_paxos.TrueTime.{DateTime, max_utc}
use spanner_paxos.Wal.{WriteAheadLog}

-- The next request to the follower has an anchor that the log has, or none.
abbrev pub IsAnchored : FollowerState → WriteAheadLog → Type 0
IsAnchored fs wal =
    let anchor = Leader.anchor_slot fs.log_position in
    (anchor ≡ 0) ⊎ (Wal.has_entry anchor wal ≡ true)

-- The dispatcher takes every accept request.
abbrev pub SendsAll : PaxosSharedContext → Type 0
SendsAll ctx =
    (member : Uuid) (request : AcceptRequest)
    → ctx.dispatcher.dispatch_accept_request member request ≡ true

-- A lease from the time on ends within the times that chrono has.
abbrev pub HasEnd : ℕ → DateTime → Type 0
HasEnd lease_length t = t + lease_length ≤ max_utc

-- What the leader needs to handle a response: the follower is on its board, its dispatcher works,
-- if the response has a hint, the log has the anchor that it leads to, and a lease from any time of
-- contact, that of the response included, has an end.
pub record CanHandle (response : AcceptResponse) (l : Leader) (ctx : PaxosSharedContext)
    : Type 0 where
  pub member : FollowerState
  pub known : lookup response.member_id l.score_board ≡ some member
  pub sends : SendsAll ctx
  pub anchored :
      (hint : ConflictHint)
      → response.conflict_hint ≡ some hint
      → IsAnchored (Leader.realign hint member ctx) ctx.wal
  pub in_time : All (HasEnd ctx.lease_length) (values l.last_contact)
  pub echoed : HasEnd ctx.lease_length response.echoed_t_send
