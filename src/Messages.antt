-- ===== src/Messages.antt =====
-- spx_core/src/messages, command.rs, event.rs and dispatcher.rs: what members exchange, and the
-- events that drive the state machine. A `Uuid` is a number.
use spanner_paxos.Base.{
  Bool, List, Option, Result, String, [], dispatch_failed, err, false, if◌then◌else◌, none, ok,
  receiver_dropped, some, true, ℕ, ◌∷◌,
}
use spanner_paxos.TrueTime.{DateTime}
use spanner_paxos.Wal.{LogEntry}

abbrev pub Uuid : Type 0
Uuid = ℕ

pub record AcceptLogEntry : Type 0 where
  pub term : ℕ
  pub slot : ℕ
  pub entry : String
  pub timestamp : DateTime

pub record AcceptRequest : Type 0 where
  pub term : ℕ
  pub leader_id : Uuid
  pub prev_log_slot : ℕ
  pub prev_log_term : ℕ
  pub entries : List AcceptLogEntry
  pub leader_commit_slot : ℕ
  pub t_send : DateTime
  pub min_next_ts : Option DateTime

pub record ConflictHint : Type 0 where
  pub conflict_term : ℕ
  pub conflict_first_slot : ℕ

pub record AcceptResponse : Type 0 where
  pub member_id : Uuid
  pub term : ℕ
  pub success : Bool
  pub last_written_slot : ℕ
  pub conflict_hint : Option ConflictHint
  pub echoed_t_send : DateTime

pub record ClientWriteRequest : Type 0 where
  pub value : String

pub record ClientWriteResponse : Type 0 where
  pub success : Bool
  pub error : Option String

pub record PreVoteRequest : Type 0 where
  pub member_id : Uuid
  pub next_term : ℕ
  pub last_log_term : ℕ
  pub last_log_slot : ℕ

pub record PreVoteResponse : Type 0 where
  pub member_id : Uuid
  pub term : ℕ
  pub vote_granted : Bool
  pub current_leader_id : Option Uuid
  pub member_last_log_term : Option ℕ
  pub member_last_log_slot : Option ℕ

pub record VoteRequest : Type 0 where
  pub member_id : Uuid
  pub term : ℕ
  pub last_log_term : ℕ
  pub last_log_slot : ℕ

pub record VotePromise : Type 0 where
  pub last_log_term : ℕ
  pub last_log_slot : ℕ
  pub uncommitted_entries : List LogEntry

pub record VoteRejection : Type 0 where
  pub current_leader_id : Option Uuid
  pub member_last_log_term : Option ℕ
  pub member_last_log_slot : Option ℕ
  pub voted_for_id : Option Uuid

pub data VoteOutcome : Type 0 where
  promise : VotePromise → VoteOutcome
  rejection : VoteRejection → VoteOutcome

pub record VoteResponse : Type 0 where
  pub member_id : Uuid
  pub term : ℕ
  pub outcome : VoteOutcome

-- `matches!(r.outcome, VoteOutcome::Promise(_))`
unfoldable pub is_promise : VoteResponse → Bool
is_promise r = elim r.outcome [ promise p ↦ true | rejection j ↦ false ]

-- The two methods `try_get_leader`.
unfoldable pub prevote_leader : PreVoteResponse → (ℕ → Bool) → Option Uuid
prevote_leader r term_condition = elim r.current_leader_id [
  | none ↦ none
  | some id ↦ if term_condition r.term then some id else none
]

unfoldable pub vote_leader : VoteResponse → (ℕ → Bool) → Option Uuid
vote_leader r term_condition = elim r.outcome [
  | promise p ↦ none
  | rejection j ↦ elim j.current_leader_id [
    | none ↦ none
    | some id ↦ if term_condition r.term then some id else none
  ]
]

-- A `PaxosCommand<T, O>`: its request, and the one-shot sender of its response, which is a number
-- for the channel and whether the receiver is still there.
pub record PaxosCommand (T : Type 0) : Type 0 where
  pub request : T
  pub response_tx : ℕ
  pub receiver_alive : Bool

pub data PaxosEvent : Type 0 where
  leader_lease_expired : PaxosEvent
  election_countdown_expired : PaxosEvent
  pre_vote_campaign_expired : PaxosEvent
  vote_campaign_expired : PaxosEvent
  write_flush_timer_fired : PaxosEvent
  accept_timeout_check_fired : PaxosEvent
  heartbeat_timer_fired : PaxosEvent
  pre_vote_request_received : PaxosCommand PreVoteRequest → PaxosEvent
  pre_vote_response_received : PreVoteResponse → PaxosEvent
  vote_request_received : PaxosCommand VoteRequest → PaxosEvent
  vote_response_received : VoteResponse → PaxosEvent
  accept_request_received : PaxosCommand AcceptRequest → PaxosEvent
  accept_response_received : AcceptResponse → PaxosEvent
  client_write_request_received : PaxosCommand ClientWriteRequest → PaxosEvent

-- `get_term`: pre-vote requests and client writes carry no term.
unfoldable pub event_term : PaxosEvent → Option ℕ
event_term (pre_vote_response_received r) = some r.term
event_term (vote_request_received cmd) = some cmd.request.term
event_term (vote_response_received r) = some r.term
event_term (accept_request_received cmd) = some cmd.request.term
event_term (accept_response_received r) = some r.term
event_term _ = none

-- What a handler does to the world, in order.
pub data Action : Type 0 where
  dispatched_prevote : PreVoteRequest → Action
  dispatched_vote : VoteRequest → Action
  dispatched_accept : Uuid → AcceptRequest → Action
  -- a client write passed on to the leader, with the channel for its answer
  forwarded_write : Uuid → ClientWriteRequest → ℕ → Action
  answered_prevote : ℕ → PreVoteResponse → Action
  answered_vote : ℕ → VoteResponse → Action
  answered_accept : ℕ → AcceptResponse → Action
  answered_write : ℕ → ClientWriteResponse → Action
  -- `TrueTime::commit_wait`
  waited_past : DateTime → Action

-- `PaxosCommand::send` fails if the receiver has been dropped.
unfoldable pub send : {T : Type 0} → PaxosCommand T → (ℕ → Action) → Result (List Action)
send cmd answered =
    if cmd.receiver_alive then ok (answered cmd.response_tx ∷ []) else err receiver_dropped

-- `let _ = command.send(…)`
unfoldable pub send_ignoring : {T : Type 0} → PaxosCommand T → (ℕ → Action) → List Action
send_ignoring cmd answered = if cmd.receiver_alive then answered cmd.response_tx ∷ [] else []

-- The dispatcher's `Result`, whether the request went out.
pub record PaxosDispatcher : Type 0 where
  pub dispatch_prevote_request : PreVoteRequest → Bool
  pub dispatch_vote_request : VoteRequest → Bool
  pub dispatch_accept_request : Uuid → AcceptRequest → Bool
  pub dispatch_client_write : Uuid → ClientWriteRequest → Bool

-- `dispatcher.dispatch_…(…).await?`
abbrev pub dispatch : Bool → Action → Result (List Action)
dispatch sent action = if sent then ok (action ∷ []) else err dispatch_failed
