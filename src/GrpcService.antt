-- ===== src/GrpcService.antt =====
-- spx_app/src/grpc/paxos_service.rs. A call gives its result and the events that it posts. `accepts`
-- says whether the event channel takes the event, `answer` what the state machine sends back, if it
-- does not drop the sender, and `tx` numbers the call's one-shot channel.
use spanner_paxos.Base.{
  Bool, List, Option, Result, [], err, if◌then◌else◌, internal, none, ok, panic, some, true, ℕ,
  ◌>>=◌, ◌∷◌,
}
use spanner_paxos.Messages.{
  AcceptRequest, AcceptResponse, ClientWriteRequest, ClientWriteResponse, PaxosCommand, PaxosEvent,
  PreVoteRequest, PreVoteResponse, VoteRequest, VoteResponse, accept_request_received,
  client_write_request_received, pre_vote_request_received, vote_request_received,
}
use spanner_paxos.Proto.{
  ProtoAcceptRequest, RequestVoteResponse, UuidCodec, accept_request_from_proto,
  vote_response_to_proto,
}
use spanner_paxos.Proto.Answers.{
  ProtoAcceptResponse, ProtoClientWriteRequest, ProtoClientWriteResponse, accept_response_to_proto,
  client_write_request_from_proto, client_write_response_to_proto,
}
use spanner_paxos.Proto.Campaigns.{
  ProtoPreVoteRequest, ProtoPreVoteResponse, RequestVoteRequest, pre_vote_request_from_proto,
  pre_vote_response_to_proto, vote_request_from_proto,
}

unfoldable pub dispatch_command :
    {Req Resp : Type 0}
    → Bool
    → ℕ
    → (Req → Option Resp)
    → (PaxosCommand Req → PaxosEvent)
    → Req
    → Result Resp × List PaxosEvent
dispatch_command accepts tx answer make_event request =
    if accepts
    then (
      elim (answer request) [ none ↦ err internal | some response ↦ ok response ],
      make_event (record { request = request; response_tx = tx; receiver_alive = true }) ∷ [],
    )
    else (err internal, [])

-- The body of a call: the request read, dispatched, and the response written.
unfoldable pub serve :
    {Req Resp P : Type 0}
    → Result Req
    → (Req → Result Resp × List PaxosEvent)
    → (Resp → P)
    → Result P × List PaxosEvent
serve (ok request) dispatched to_proto =
    let (response, events) = dispatched request in (response >>= λ r. ok (to_proto r), events)
serve (err why) dispatched to_proto = (err why, [])
serve panic dispatched to_proto = (panic, [])

-- What the state machine answers to each kind of request.
pub record Answers : Type 0 where
  pub client_write : ClientWriteRequest → Option ClientWriteResponse
  pub pre_vote : PreVoteRequest → Option PreVoteResponse
  pub request_vote : VoteRequest → Option VoteResponse
  pub accept : AcceptRequest → Option AcceptResponse

module _ (codec : UuidCodec) (accepts : Bool) (tx : ℕ) (answers : Answers) where
  unfoldable pub client_write :
      ProtoClientWriteRequest → Result ProtoClientWriteResponse × List PaxosEvent
  unfolding serve dispatch_command client_write_request_from_proto client_write_response_to_proto
  client_write r =
      serve (ok (client_write_request_from_proto r))
        (dispatch_command accepts tx answers.client_write client_write_request_received)
        client_write_response_to_proto

  unfoldable pub pre_vote : ProtoPreVoteRequest → Result ProtoPreVoteResponse × List PaxosEvent
  unfolding serve dispatch_command
  pre_vote r =
      serve (pre_vote_request_from_proto codec r)
        (dispatch_command accepts tx answers.pre_vote pre_vote_request_received)
        (pre_vote_response_to_proto codec)

  unfoldable pub request_vote : RequestVoteRequest → Result RequestVoteResponse × List PaxosEvent
  unfolding serve dispatch_command
  request_vote r =
      serve (vote_request_from_proto codec r)
        (dispatch_command accepts tx answers.request_vote vote_request_received)
        (vote_response_to_proto codec)

  unfoldable pub accept : ProtoAcceptRequest → Result ProtoAcceptResponse × List PaxosEvent
  unfolding serve dispatch_command
  accept r =
      serve (accept_request_from_proto codec r)
        (dispatch_command accepts tx answers.accept accept_request_received)
        (accept_response_to_proto codec)
