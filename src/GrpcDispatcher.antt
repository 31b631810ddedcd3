-- ===== src/GrpcDispatcher.antt =====
-- spx_app/src/grpc/paxos_dispatcher.rs, and the configurations of spx_app/src/configs. The gRPC
-- client is a parameter: a function for each call.
pub mod Clients
pub mod Reach
pub mod Calls
use spanner_paxos.Base.{
  List, Option, Result, String, [], dispatch_failed, err, false, none, ok, panic, some, ℕ, ◌>>=◌,
  ◌∷◌,
}
use spanner_paxos.Map.{Map, insert, keys, lookup}
use spanner_paxos.Messages.{
  AcceptRequest, ClientWriteRequest, ClientWriteResponse, PaxosEvent, PreVoteRequest, Uuid,
  VoteRequest, accept_response_received, pre_vote_response_received, vote_response_received,
}
use spanner_paxos.Proto.{
  ProtoAcceptRequest, RequestVoteResponse, UuidCodec, accept_request_to_proto,
  vote_response_from_proto,
}
use spanner_paxos.Proto.Answers.{
  ProtoAcceptResponse, ProtoClientWriteRequest, ProtoClientWriteResponse,
  accept_response_from_proto, client_write_request_to_proto, client_write_response_from_proto,
}
use spanner_paxos.Proto.Campaigns.{
  ProtoPreVoteRequest, ProtoPreVoteResponse, RequestVoteRequest, pre_vote_request_to_proto,
  pre_vote_response_from_proto, vote_request_to_proto,
}

pub record ServerConfig : Type 0 where
  pub host_address : String
  pub port : ℕ

pub record MemberConfig : Type 0 where
  pub member_id : Uuid
  pub server : ServerConfig

-- The calls of tonic's `PaxosClient`, an error as a failed call.
pub record PaxosClient : Type 0 where
  pub pre_vote : ProtoPreVoteRequest → Result ProtoPreVoteResponse
  pub request_vote : RequestVoteRequest → Result RequestVoteResponse
  pub accept : ProtoAcceptRequest → Result ProtoAcceptResponse
  pub client_write : ProtoClientWriteRequest → Result ProtoClientWriteResponse

-- Each member's configuration, and its client once there is one.
pub record GrpcPaxosDispatcher : Type 0 where
  pub paxos_clients : Map (MemberConfig × Option PaxosClient)

-- The loop of `new` over the configurations.
unfoldable pub add_configs :
    List MemberConfig
    → Map (MemberConfig × Option PaxosClient)
    → Map (MemberConfig × Option PaxosClient)
add_configs [] clients = clients
add_configs (config ∷ rest) clients =
    add_configs rest (insert config.member_id (config, none) clients)

unfoldable pub dispatcher_new : List MemberConfig → GrpcPaxosDispatcher
unfolding add_configs
dispatcher_new configs = record { paxos_clients = add_configs configs [] }

-- `create_paxos_client` of grpc/util is the parameter `connect`.
module _ (connect : MemberConfig → Option PaxosClient) where
  -- `get_or_try_init`: a client that is there is kept, and one is made otherwise.
  unfoldable pub get_paxos_client :
      Uuid → GrpcPaxosDispatcher → Result PaxosClient × GrpcPaxosDispatcher
  get_paxos_client id d = elim (lookup id d.paxos_clients) [
    | none ↦ (panic, d)
    | some (config, made) ↦ elim made [
      | some client ↦ (ok client, d)
      | none ↦ elim (connect config) [
        | none ↦ (err dispatch_failed, d)
        | some client ↦
            (ok client, record { paxos_clients = insert id (config, some client) d.paxos_clients })
      ]
    ]
  ]

  -- The tasks that are spawned, first to last, each with its member and its client.
  abbrev pub Spawned : Type 0
  Spawned = Result (Unit {0}) × List (Uuid × PaxosClient) × GrpcPaxosDispatcher

  -- `?` on the client, or its task and then the rest of the loop.
  unfoldable pub then_spawn : Uuid → Result PaxosClient → GrpcPaxosDispatcher → Spawned → Spawned
  then_spawn id panic d rest = (panic, [], d)
  then_spawn id (err why) d rest = (err why, [], d)
  then_spawn id (ok client) d (result, tasks, d') = (result, (id, client) ∷ tasks, d')

  -- The loop of `dispatch_request`.
  unfoldable pub dispatch_to : List Uuid → GrpcPaxosDispatcher → Spawned
  unfolding then_spawn
  dispatch_to [] d = (ok tt, [], d)
  dispatch_to (id ∷ ids) d =
      let (client, d') = get_paxos_client id d in then_spawn id client d' (dispatch_to ids d')

  unfoldable pub dispatch_request : GrpcPaxosDispatcher → Spawned
  unfolding dispatch_to
  dispatch_request d = dispatch_to (keys d.paxos_clients) d

  unfoldable pub spawn_accept_request : Uuid → GrpcPaxosDispatcher → Spawned
  unfolding dispatch_to
  spawn_accept_request id d = dispatch_to (id ∷ []) d

-- The spawned task: the event that the action ends with, or nothing.
unfoldable pub request_task : (PaxosClient → Result PaxosEvent) → PaxosClient → List PaxosEvent
request_task action client = elim (action client) [
  | ok event ↦ event ∷ []
  | err why ↦ []
  | panic ↦ []
]

-- The three actions.
module _ (codec : UuidCodec) where
  unfoldable pub pre_vote_action : PreVoteRequest → PaxosClient → Result PaxosEvent
  pre_vote_action request client = do
    response ← client.pre_vote (pre_vote_request_to_proto codec request)
    read ← pre_vote_response_from_proto codec response
    ok (pre_vote_response_received read)

  unfoldable pub vote_action : VoteRequest → PaxosClient → Result PaxosEvent
  vote_action request client = do
    response ← client.request_vote (vote_request_to_proto codec request)
    read ← vote_response_from_proto codec response
    ok (vote_response_received read)

  unfoldable pub accept_action : AcceptRequest → PaxosClient → Result PaxosEvent
  accept_action request client = do
    response ← client.accept (accept_request_to_proto codec request)
    read ← accept_response_from_proto codec response
    ok (accept_response_received read)

-- The task of `dispatch_client_write`: what is handed to `on_response`. The text of a failure is
-- the parameter `failed`.
unfoldable pub forward_task : String → ClientWriteRequest → PaxosClient → ClientWriteResponse
forward_task failed request client =
    elim (client.client_write (client_write_request_to_proto request)) [
      | ok response ↦ client_write_response_from_proto response
      | err why ↦ record { success = false; error = some failed }
      | panic ↦ record { success = false; error = some failed }
    ]
