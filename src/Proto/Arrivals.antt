-- ===== src/Proto/Arrivals.antt =====
-- spx_app/src/grpc/util/proto_conversions: the other messages after they have been sent.
use spanner_paxos.Base.{
  Option, Option-cases, String, if◌then◌else◌, inl, inr, none, ok, refl, some, ◌≡◌,
}
use spanner_paxos.Messages.{
  AcceptResponse, ClientWriteResponse, ConflictHint, PreVoteRequest, PreVoteResponse, VoteRequest,
}
use spanner_paxos.Proto.{UuidCodec, map_option, parse_id}
use spanner_paxos.Proto.Answers.{
  accept_response_from_proto, accept_response_to_proto, client_write_response_from_proto,
  client_write_response_to_proto, hint_from_proto, hint_to_proto, is_empty,
}
use spanner_paxos.Proto.Campaigns.{
  pre_vote_request_from_proto, pre_vote_request_to_proto, pre_vote_response_from_proto,
  pre_vote_response_to_proto, vote_request_from_proto, vote_request_to_proto,
}
use spanner_paxos.Proto.RoundTrips.{ParsesIds, parse_ids-to_string, whole_millisecond}

-- An accept response with the echoed time cut to a whole millisecond.
abbrev pub sent_response : AcceptResponse → AcceptResponse
sent_response r = record r { echoed_t_send = whole_millisecond r.echoed_t_send }

hint-sent : (h : Option ConflictHint) → map_option hint_from_proto (map_option hint_to_proto h) ≡ h
unfolding hint_from_proto hint_to_proto
hint-sent none = refl
hint-sent (some h) = refl

module _ (codec : UuidCodec) (parses : ParsesIds codec) where
  pub pre_vote_request_from_proto-to_proto :
      (r : PreVoteRequest)
      → pre_vote_request_from_proto codec (pre_vote_request_to_proto codec r) ≡ ok r
  unfolding pre_vote_request_from_proto pre_vote_request_to_proto parse_id
  pre_vote_request_from_proto-to_proto r = rw (parses r.member_id) refl

  pub pre_vote_response_from_proto-to_proto :
      (r : PreVoteResponse)
      → pre_vote_response_from_proto codec (pre_vote_response_to_proto codec r) ≡ ok r
  unfolding pre_vote_response_from_proto pre_vote_response_to_proto parse_id
  pre_vote_response_from_proto-to_proto r =
      rw (parses r.member_id, parse_ids-to_string codec parses r.current_leader_id) refl

  pub vote_request_from_proto-to_proto :
      (r : VoteRequest) → vote_request_from_proto codec (vote_request_to_proto codec r) ≡ ok r
  unfolding vote_request_from_proto vote_request_to_proto parse_id
  vote_request_from_proto-to_proto r = rw (parses r.member_id) refl

  pub accept_response_from_proto-to_proto :
      (r : AcceptResponse)
      → accept_response_from_proto codec (accept_response_to_proto codec r) ≡ ok (sent_response r)
  unfolding accept_response_from_proto accept_response_to_proto parse_id
  accept_response_from_proto-to_proto r = rw (parses r.member_id, hint-sent r.conflict_hint) refl

-- A response whose error is empty arrives without one.
abbrev pub sent_error : Option String → Option String
sent_error none = none
sent_error (some text) = if is_empty text then none else some text

pub client_write_response_from_proto-to_proto :
    (r : ClientWriteResponse)
    → client_write_response_from_proto (client_write_response_to_proto r)
      ≡ record r { error = sent_error r.error }
unfolding client_write_response_from_proto client_write_response_to_proto
client_write_response_from_proto-to_proto r = elim (Option-cases r.error) [
  | inl quiet ↦ rw quiet refl
  | inr (text, said) ↦ rw said refl
]
