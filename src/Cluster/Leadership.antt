-- ===== src/Cluster/Leadership.antt =====
-- Whether a group can elect a leader.
use spanner_paxos.Base.{All, All-append, List, Member-All, [], arith, false, ◌∷◌, ◌≡◌, ◌≢◌}
use spanner_paxos.Cluster.{
  Arrives, Cluster, Node, Reach, Step, environment, next, processes, sent_votes, set_node, start,
  stay,
}
use spanner_paxos.Context.{PaxosSharedContext}
use spanner_paxos.Leader.{Leader}
use spanner_paxos.Messages.{
  Action, PaxosEvent, Uuid, VoteResponse, answered_vote, is_promise, vote_response_received,
}
use spanner_paxos.Roles.{leader}
use spanner_paxos.StateMachine.Answers.{IsNoPromise, process_event-IsNoPromise}
use spanner_paxos.StateMachine.Leaders.{BringsNoPromise, IsLeaderless, process_event-IsLeaderless}

pub record NobodyLeads (c : Cluster) : Type 0 where
  pub roles : (id : Uuid) → IsLeaderless (c.nodes id).state
  pub answers : All (λ r. is_promise r ≡ false) c.vote_responses

sent_votes-refused :
    (actions : List Action)
    → All IsNoPromise actions
    → All (λ r. is_promise r ≡ false) (sent_votes actions)
unfolding sent_votes
sent_votes-refused [] h = tt
sent_votes-refused (answered_vote tx r ∷ actions) h = (h.0, sent_votes-refused actions h.1)
sent_votes-refused (_ ∷ actions) h = sent_votes-refused actions h.1

Arrives-BringsNoPromise :
    (sent : List VoteResponse) (event : PaxosEvent)
    → All (λ r. is_promise r ≡ false) sent
    → Arrives sent event
    → BringsNoPromise event
Arrives-BringsNoPromise sent (vote_response_received r) h a =
    Member-All (λ r. is_promise r ≡ false) r sent h a
Arrives-BringsNoPromise sent _ h a = tt

set_node-roles :
    (id j : Uuid) (node : Node) (nodes : Uuid → Node)
    → IsLeaderless node.state
    → IsLeaderless (nodes j).state
    → IsLeaderless (set_node id node nodes j).state
unfolding set_node
set_node-roles id j node nodes h k = ground arith

Step-NobodyLeads : {c d : Cluster} → NobodyLeads c → Step c d → NobodyLeads d
Step-NobodyLeads {c} n (processes id clock event o a e q) =
    let quiet = Arrives-BringsNoPromise c.vote_responses event n.answers a in
    rw q (record {
      roles = λ j.
          set_node-roles id j _ c.nodes
            (process_event-IsLeaderless clock event _ _ o (n.roles id) quiet e) (n.roles j);
      answers =
          All-append (λ r. is_promise r ≡ false) (sent_votes o.actions) c.vote_responses
            (sent_votes-refused o.actions
              (process_event-IsNoPromise clock event _ _ o (n.roles id) quiet e))
            n.answers;
    })
Step-NobodyLeads {c} n (environment id ctx q) = rw q (record {
  roles = λ j. set_node-roles id j _ c.nodes (n.roles id) (n.roles j);
  answers = n.answers;
})

Reach-NobodyLeads : {c d : Cluster} → NobodyLeads c → Reach c d → NobodyLeads d
Reach-NobodyLeads n stay = n
Reach-NobodyLeads n (next r s) = Step-NobodyLeads (Reach-NobodyLeads n r) s

-- A group that starts as the program starts never has a leader: whatever its members, their contexts
-- and the order of events, in every state that it can reach no member is a leader, and no vote has
-- been granted.
pub start-never-leads :
    (contexts : Uuid → PaxosSharedContext) {c : Cluster}
    → Reach (start contexts) c
    → ((id : Uuid) (l : Leader) → (c.nodes id).state ≢ leader l)
      × All (λ r. is_promise r ≡ false) c.vote_responses
unfolding start
start-never-leads contexts {c} r =
    let n = Reach-NobodyLeads (record { roles = λ id. tt; answers = tt }) r in
    (λ id l e. rw e at (n.roles id), n.answers)
