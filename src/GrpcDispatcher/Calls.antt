-- ===== src/GrpcDispatcher/Calls.antt =====
-- spx_app/src/grpc: a dispatched request that reaches the service of another member.
use spanner_paxos.GrpcService
use spanner_paxos.Base.{List, Option, Result, [], none, ok, some, true, ℕ, ◌>>=◌, ◌∷◌, ◌≡◌}
use spanner_paxos.GrpcDispatcher.{PaxosClient}
use spanner_paxos.GrpcService.{Answers, dispatch_command, serve}
use spanner_paxos.Messages.{PaxosCommand, PaxosEvent}
use spanner_paxos.Proto.{UuidCodec}
use spanner_paxos.Proto.RoundTrips.{ParsesIds}

-- A client that is connected to a member's service.
abbrev pub client_of : UuidCodec → ℕ → Answers → PaxosClient
client_of codec tx answers = record {
  pre_vote = λ r. (GrpcService.pre_vote codec true tx answers r).0;
  request_vote = λ r. (GrpcService.request_vote codec true tx answers r).0;
  accept = λ r. (GrpcService.accept codec true tx answers r).0;
  client_write = λ r. (GrpcService.client_write codec true tx answers r).0;
}

-- The event that brings an answer, if there is one.
abbrev pub answer_event : {Resp : Type 0} → (Resp → PaxosEvent) → Option Resp → List PaxosEvent
answer_event event none = []
answer_event event (some response) = event response ∷ []

-- A request that a service reads as `request`, and its answer as the caller reads it, `sent`.
module _ {Req Resp P : Type 0} (tx : ℕ) (answer : Req → Option Resp)
    (command : PaxosCommand Req → PaxosEvent) (to_proto : Resp → P) (from_proto : P → Result Resp)
    (sent : Resp → Resp) (event : Resp → PaxosEvent)
    (back : (r : Resp) → from_proto (to_proto r) ≡ ok (sent r)) where
  -- The call of the service and what the action makes of its result.
  abbrev called : Result Req → Result PaxosEvent
  called request = do
    response ← (serve request (dispatch_command true tx answer command) to_proto).0
    read ← from_proto response
    ok (event read)

module _ (codec : UuidCodec) (parses : ParsesIds codec) (tx : ℕ) (answers : Answers) where
  abbrev pub connected : PaxosClient
  connected = client_of codec tx answers
