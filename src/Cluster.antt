-- ===== src/Cluster.antt =====
-- A group of members that exchange messages: each step, one member processes one event. Requests,
-- timers and pre-vote and accept responses may come at any time with any content; a vote response
-- is one that some member has sent. Between events the environment may change a member's context
-- (its lease runs out, a notification is stored, the member is cancelled).
pub mod Leadership
use spanner_paxos.Follower
use spanner_paxos.StateMachine
use spanner_paxos.Base.{List, Member, [], if◌then◌else◌, none, ok, ◌++◌, ◌==◌, ◌∷◌, ◌≡◌}
use spanner_paxos.Context.{PaxosSharedContext}
use spanner_paxos.Follower.{Follower}
use spanner_paxos.Messages.{
  Action, PaxosEvent, Uuid, VoteResponse, answered_vote, vote_response_received,
}
use spanner_paxos.Roles.{Outcome, PaxosState, follower}
use spanner_paxos.TrueTime.{Clock}

pub record Node : Type 0 where
  pub state : PaxosState
  pub ctx : PaxosSharedContext

pub record Cluster : Type 0 where
  pub nodes : Uuid → Node
  -- every vote response that has been sent
  pub vote_responses : List VoteResponse

-- `PaxosStateMachine::start` begins with a follower that knows no leader.
unfoldable pub start : (Uuid → PaxosSharedContext) → Cluster
unfolding Follower.new
start contexts = record {
  nodes = λ id. record { state = follower (Follower.new none); ctx = contexts id };
  vote_responses = [];
}

unfoldable pub set_node : Uuid → Node → (Uuid → Node) → Uuid → Node
set_node id node nodes j = if id == j then node else nodes j

unfoldable pub sent_votes : List Action → List VoteResponse
sent_votes [] = []
sent_votes (answered_vote tx r ∷ actions) = r ∷ sent_votes actions
sent_votes (_ ∷ actions) = sent_votes actions

-- Which events can reach a member.
abbrev pub Arrives : List VoteResponse → PaxosEvent → Type 0
Arrives sent (vote_response_received r) = Member r sent
Arrives sent _ = Unit {0}

pub data Step (c d : Cluster) : Type 0 where
  processes :
      (id : Uuid) (clock : Clock) (event : PaxosEvent) (o : Outcome)
      → Arrives c.vote_responses event
      → StateMachine.process_event clock event (c.nodes id).state (c.nodes id).ctx ≡ ok o
      → d ≡ record {
        nodes = set_node id (record { state = o.state; ctx = o.ctx }) c.nodes;
        vote_responses = sent_votes o.actions ++ c.vote_responses;
      }
      → Step c d
  environment :
      (id : Uuid) (ctx : PaxosSharedContext)
      → d ≡ record c {
        nodes = set_node id (record { state = (c.nodes id).state; ctx = ctx }) c.nodes;
      }
      → Step c d

pub data Reach (c : Cluster) : Cluster → Type 0 where
  stay : Reach c c
  next : {d e : Cluster} → Reach c d → Step d e → Reach c e
