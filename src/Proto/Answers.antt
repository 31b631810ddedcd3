-- ===== src/Proto/Answers.antt =====
-- spx_app/src/grpc/util/proto_conversions/client_write.rs, and the responses of accept.rs.
use spanner_paxos.Base.{
  Bool, Option, Result, String, false, if◌then◌else◌, none, ok, some, true, ℕ, ◌>>=◌,
}
use spanner_paxos.Messages.{AcceptResponse, ClientWriteRequest, ClientWriteResponse, ConflictHint}
use spanner_paxos.Proto.{UuidCodec, map_option, millis_to_datetime, parse_id, timestamp_millis}

pub record ProtoConflictHint : Type 0 where
  pub conflict_term : ℕ
  pub conflict_first_slot : ℕ

pub record ProtoAcceptResponse : Type 0 where
  pub member_id : String
  pub term : ℕ
  pub success : Bool
  pub last_written_slot : ℕ
  pub conflict_hint : Option ProtoConflictHint
  pub echoed_t_send : ℕ

pub record ProtoClientWriteRequest : Type 0 where
  pub value : String

pub record ProtoClientWriteResponse : Type 0 where
  pub success : Bool
  pub error : String

unfoldable pub hint_to_proto : ConflictHint → ProtoConflictHint
hint_to_proto h = record {
  conflict_term = h.conflict_term;
  conflict_first_slot = h.conflict_first_slot;
}

unfoldable pub hint_from_proto : ProtoConflictHint → ConflictHint
hint_from_proto h = record {
  conflict_term = h.conflict_term;
  conflict_first_slot = h.conflict_first_slot;
}

module _ (codec : UuidCodec) where
  unfoldable pub accept_response_to_proto : AcceptResponse → ProtoAcceptResponse
  unfolding timestamp_millis
  accept_response_to_proto r = record {
    member_id = codec.to_string r.member_id;
    term = r.term;
    success = r.success;
    last_written_slot = r.last_written_slot;
    conflict_hint = map_option hint_to_proto r.conflict_hint;
    echoed_t_send = timestamp_millis r.echoed_t_send;
  }

  unfoldable pub accept_response_from_proto : ProtoAcceptResponse → Result AcceptResponse
  unfolding millis_to_datetime
  accept_response_from_proto r = do
    member_id ← parse_id codec r.member_id
    ok (record {
      member_id = member_id;
      term = r.term;
      success = r.success;
      last_written_slot = r.last_written_slot;
      conflict_hint = map_option hint_from_proto r.conflict_hint;
      echoed_t_send = millis_to_datetime r.echoed_t_send;
    })

unfoldable pub client_write_request_to_proto : ClientWriteRequest → ProtoClientWriteRequest
client_write_request_to_proto r = record { value = r.value }

unfoldable pub client_write_request_from_proto : ProtoClientWriteRequest → ClientWriteRequest
client_write_request_from_proto r = record { value = r.value }

-- `unwrap_or_default`
unfoldable pub error_text : Option String → String
error_text none = ""
error_text (some text) = text

unfoldable pub client_write_response_to_proto : ClientWriteResponse → ProtoClientWriteResponse
unfolding error_text
client_write_response_to_proto r = record { success = r.success; error = error_text r.error }

unfoldable pub is_empty : String → Bool
is_empty String.[] = true
is_empty (String.◌∷◌ c text) = false

unfoldable pub client_write_response_from_proto : ProtoClientWriteResponse → ClientWriteResponse
unfolding is_empty
client_write_response_from_proto r = record {
  success = r.success;
  error = if is_empty r.error then none else some r.error;
}
