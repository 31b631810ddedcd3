-- ===== src/Proto.antt =====
-- spx_app/src/grpc/util/proto_conversions, on the messages of spx_protocol/proto/messages. A message's
-- `int64` time is the number of milliseconds since chrono's earliest date instead of the Unix epoch.
pub mod Campaigns
pub mod Answers
pub mod RoundTrips
pub mod Arrivals
use spanner_paxos.Wal
use spanner_paxos.Base.{
  List, Option, Result, String, expect, map, none, ok, panic, some, ℕ, ◌*◌, ◌/◌, ◌>>=◌,
}
use spanner_paxos.Messages.{
  AcceptLogEntry, AcceptRequest, Uuid, VoteOutcome, VoteResponse, promise, rejection,
}
use spanner_paxos.TrueTime.{DateTime, millisecond, unix_epoch}
use spanner_paxos.Wal.{LogEntry}

-- `Uuid::to_string` and `Uuid::parse_str` of the crate uuid.
pub record UuidCodec : Type 0 where
  pub to_string : Uuid → String
  pub parse_str : String → Option Uuid

pub record ProtoAcceptLogEntry : Type 0 where
  pub term : ℕ
  pub slot : ℕ
  pub entry : String
  pub timestamp : ℕ

pub record ProtoAcceptRequest : Type 0 where
  pub term : ℕ
  pub leader_id : String
  pub prev_log_slot : ℕ
  pub prev_log_term : ℕ
  pub entries : List ProtoAcceptLogEntry
  pub leader_commit_slot : ℕ
  pub t_send : ℕ
  pub min_next_ts : Option ℕ

pub record ProtoLogEntry : Type 0 where
  pub term : ℕ
  pub slot : ℕ
  pub entry : String

pub record ProtoPromise : Type 0 where
  pub last_log_term : ℕ
  pub last_log_slot : ℕ
  pub uncommitted_entries : List ProtoLogEntry

pub record ProtoRejection : Type 0 where
  pub current_leader_id : Option String
  pub member_last_log_term : Option ℕ
  pub member_last_log_slot : Option ℕ
  pub voted_for_id : Option String

pub data ProtoOutcome : Type 0 where
  proto_promise : ProtoPromise → ProtoOutcome
  proto_rejection : ProtoRejection → ProtoOutcome

pub record RequestVoteResponse : Type 0 where
  pub member_id : String
  pub term : ℕ
  pub outcome : Option ProtoOutcome

unfoldable pub timestamp_millis : DateTime → ℕ
timestamp_millis t = t / millisecond

unfoldable pub millis_to_datetime : ℕ → DateTime
millis_to_datetime ms = ms * millisecond

unfoldable pub accept_log_entry_to_proto : AcceptLogEntry → ProtoAcceptLogEntry
accept_log_entry_to_proto e = record {
  term = e.term;
  slot = e.slot;
  entry = e.entry;
  timestamp = timestamp_millis e.timestamp;
}

unfoldable pub accept_log_entry_from_proto : ProtoAcceptLogEntry → AcceptLogEntry
accept_log_entry_from_proto e = record {
  term = e.term;
  slot = e.slot;
  entry = e.entry;
  timestamp = millis_to_datetime e.timestamp;
}

-- `Option::map`
abbrev pub map_option {ℓ κ} : {A : Type ℓ} {B : Type κ} → (A → B) → Option A → Option B
map_option f none = none
map_option f (some a) = some (f a)

-- The `timestamp` of an entry has no field in the message.
unfoldable pub log_entry_to_proto : LogEntry → ProtoLogEntry
log_entry_to_proto e = record { term = e.term; slot = e.slot; entry = e.entry }

unfoldable pub log_entry_from_proto : ProtoLogEntry → LogEntry
log_entry_from_proto e = record {
  term = e.term;
  slot = e.slot;
  entry = e.entry;
  timestamp = unix_epoch;
}

module _ (codec : UuidCodec) where
  -- `Uuid::parse_str(&id).unwrap()`, alone and on an `Option`.
  unfoldable pub parse_id : String → Result Uuid
  parse_id id = expect (codec.parse_str id)

  unfoldable pub parse_ids : Option String → Result (Option Uuid)
  parse_ids none = ok none
  parse_ids (some id) = do parsed ← parse_id id; ok (some parsed)

  unfoldable pub accept_request_to_proto : AcceptRequest → ProtoAcceptRequest
  accept_request_to_proto r = record {
    term = r.term;
    leader_id = codec.to_string r.leader_id;
    prev_log_slot = r.prev_log_slot;
    prev_log_term = r.prev_log_term;
    entries = map accept_log_entry_to_proto r.entries;
    leader_commit_slot = r.leader_commit_slot;
    t_send = timestamp_millis r.t_send;
    min_next_ts = map_option timestamp_millis r.min_next_ts;
  }

  unfoldable pub accept_request_from_proto : ProtoAcceptRequest → Result AcceptRequest
  accept_request_from_proto r = do
    leader_id ← parse_id r.leader_id
    ok (record {
      term = r.term;
      leader_id = leader_id;
      prev_log_slot = r.prev_log_slot;
      prev_log_term = r.prev_log_term;
      entries = map accept_log_entry_from_proto r.entries;
      leader_commit_slot = r.leader_commit_slot;
      t_send = millis_to_datetime r.t_send;
      min_next_ts = map_option millis_to_datetime r.min_next_ts;
    })

  unfoldable pub outcome_to_proto : VoteOutcome → ProtoOutcome
  outcome_to_proto (promise p) = proto_promise (record {
    last_log_term = p.last_log_term;
    last_log_slot = p.last_log_slot;
    uncommitted_entries = map log_entry_to_proto p.uncommitted_entries;
  })
  outcome_to_proto (rejection j) = proto_rejection (record {
    current_leader_id = map_option codec.to_string j.current_leader_id;
    member_last_log_term = j.member_last_log_term;
    member_last_log_slot = j.member_last_log_slot;
    voted_for_id = map_option codec.to_string j.voted_for_id;
  })

  unfoldable pub vote_response_to_proto : VoteResponse → RequestVoteResponse
  vote_response_to_proto r = record {
    member_id = codec.to_string r.member_id;
    term = r.term;
    outcome = some (outcome_to_proto r.outcome);
  }

  -- A missing outcome panics.
  unfoldable pub outcome_from_proto : Option ProtoOutcome → Result VoteOutcome
  outcome_from_proto none = panic
  outcome_from_proto (some (proto_promise p)) = ok (
      promise (record {
        last_log_term = p.last_log_term;
        last_log_slot = p.last_log_slot;
        uncommitted_entries = map log_entry_from_proto p.uncommitted_entries;
      }))
  outcome_from_proto (some (proto_rejection j)) = do
    leader_id ← parse_ids j.current_leader_id
    voted_for ← parse_ids j.voted_for_id
    ok (
        rejection (record {
          current_leader_id = leader_id;
          member_last_log_term = j.member_last_log_term;
          member_last_log_slot = j.member_last_log_slot;
          voted_for_id = voted_for;
        }))

  unfoldable pub vote_response_from_proto : RequestVoteResponse → Result VoteResponse
  vote_response_from_proto r = do
    member_id ← parse_id r.member_id
    outcome ← outcome_from_proto r.outcome
    ok (record { member_id = member_id; term = r.term; outcome = outcome })
