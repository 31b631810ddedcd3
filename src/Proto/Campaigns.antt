-- ===== src/Proto/Campaigns.antt =====
-- spx_app/src/grpc/util/proto_conversions/pre_vote.rs, and the vote requests of vote.rs.
use spanner_paxos.Base.{Bool, Option, Result, String, ok, ℕ, ◌>>=◌}
use spanner_paxos.Messages.{PreVoteRequest, PreVoteResponse, VoteRequest}
use spanner_paxos.Proto.{UuidCodec, map_option, parse_id, parse_ids}

pub record ProtoPreVoteRequest : Type 0 where
  pub member_id : String
  pub next_term : ℕ
  pub last_log_term : ℕ
  pub last_log_slot : ℕ

pub record ProtoPreVoteResponse : Type 0 where
  pub member_id : String
  pub term : ℕ
  pub vote_granted : Bool
  pub current_leader_id : Option String
  pub member_last_log_term : Option ℕ
  pub member_last_log_slot : Option ℕ

pub record RequestVoteRequest : Type 0 where
  pub member_id : String
  pub term : ℕ
  pub last_log_term : ℕ
  pub last_log_slot : ℕ

module _ (codec : UuidCodec) where
  unfoldable pub pre_vote_request_to_proto : PreVoteRequest → ProtoPreVoteRequest
  pre_vote_request_to_proto r = record {
    member_id = codec.to_string r.member_id;
    next_term = r.next_term;
    last_log_term = r.last_log_term;
    last_log_slot = r.last_log_slot;
  }

  unfoldable pub pre_vote_request_from_proto : ProtoPreVoteRequest → Result PreVoteRequest
  pre_vote_request_from_proto r = do
    member_id ← parse_id codec r.member_id
    ok (record {
      member_id = member_id;
      next_term = r.next_term;
      last_log_term = r.last_log_term;
      last_log_slot = r.last_log_slot;
    })

  unfoldable pub pre_vote_response_to_proto : PreVoteResponse → ProtoPreVoteResponse
  pre_vote_response_to_proto r = record {
    member_id = codec.to_string r.member_id;
    term = r.term;
    vote_granted = r.vote_granted;
    current_leader_id = map_option codec.to_string r.current_leader_id;
    member_last_log_term = r.member_last_log_term;
    member_last_log_slot = r.member_last_log_slot;
  }

  unfoldable pub pre_vote_response_from_proto : ProtoPreVoteResponse → Result PreVoteResponse
  pre_vote_response_from_proto r = do
    member_id ← parse_id codec r.member_id
    leader_id ← parse_ids codec r.current_leader_id
    ok (record {
      member_id = member_id;
      term = r.term;
      vote_granted = r.vote_granted;
      current_leader_id = leader_id;
      member_last_log_term = r.member_last_log_term;
      member_last_log_slot = r.member_last_log_slot;
    })

  unfoldable pub vote_request_to_proto : VoteRequest → RequestVoteRequest
  vote_request_to_proto r = record {
    member_id = codec.to_string r.member_id;
    term = r.term;
    last_log_term = r.last_log_term;
    last_log_slot = r.last_log_slot;
  }

  unfoldable pub vote_request_from_proto : RequestVoteRequest → Result VoteRequest
  vote_request_from_proto r = do
    member_id ← parse_id codec r.member_id
    ok (record {
      member_id = member_id;
      term = r.term;
      last_log_term = r.last_log_term;
      last_log_slot = r.last_log_slot;
    })
