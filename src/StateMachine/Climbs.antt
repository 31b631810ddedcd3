-- ===== src/StateMachine/Climbs.antt =====
-- spx_core/src/state_machine/state.rs and the `handle_event` of the four roles: what each handler
-- leaves of the context.
use spanner_paxos.Follower
use spanner_paxos.PreCandidate
use spanner_paxos.Candidate
use spanner_paxos.Leader
use spanner_paxos.Roles
use spanner_paxos.StateMachine
use spanner_paxos.Base.{
  >>=-eq-ok, Bool-cases, List, Result, arith, err, inl, inr, ltb, none, ok, panic, suc, ◌+◌, ◌<◌,
  ◌>>=◌, ◌≡◌, ◌≤◌,
}
use spanner_paxos.Candidate.{Candidate}
use spanner_paxos.Candidate.Pending.{HasPending}
use spanner_paxos.Candidate.Progress.{handle_vote_response-Extends}
use spanner_paxos.Context.{PaxosSharedContext, is_leader_lease_expired}
use spanner_paxos.Context.Progress.{Advances, Extends, Extends-Advances, Extends-refl}
use spanner_paxos.Follower.{Follower}
use spanner_paxos.Follower.Progress.{handle_accept_request-Extends, handle_vote_request-Extends}
use spanner_paxos.Leader.{Leader}
use spanner_paxos.Leader.Progress.{
  handle_accept_response-Extends, handle_client_write-Extends, handle_heartbeat_timer-Extends,
}
use spanner_paxos.Messages.{
  AcceptRequest, Action, PaxosCommand, PaxosEvent, accept_request_received,
  accept_response_received, answered_accept, client_write_request_received, heartbeat_timer_fired,
  pre_vote_response_received, send, vote_request_received, vote_response_received,
}
use spanner_paxos.PreCandidate.{PreCandidate}
use spanner_paxos.PreCandidate.Progress.{
  handle_pre_vote_response-Advances, handle_pre_vote_response-term,
}
use spanner_paxos.Roles.{Outcome, PaxosState, candidate, follower, leader, pre_candidate, reply}
use spanner_paxos.TrueTime.{Clock}

-- The entries that a candidate has collected are well formed.
abbrev pub IsWellState : PaxosState → Type 0
IsWellState (candidate c) = HasPending c
IsWellState _ = Unit {0}

-- What a reply leaves as the context.
reply-ctx :
    (sent : Result (List Action)) (state : PaxosState) (ctx : PaxosSharedContext) (o : Outcome)
    → reply sent state ctx ≡ ok o
    → o.ctx ≡ ctx
reply-ctx (ok actions) state ctx o e = cc
reply-ctx (err x) state ctx o e = cc
reply-ctx panic state ctx o e = cc

-- The context moves only ahead, and the term by one at most.
pub record Climbs (old new : PaxosSharedContext) : Type 0 where
  pub advances : Advances old new
  pub bound : new.term ≤ old.term + 1

Extends-to :
    (old ctx : PaxosSharedContext) (o : Outcome) → o.ctx ≡ ctx → Extends old ctx → Climbs old o.ctx
Extends-to old ctx o e h =
    rw e (record { advances = Extends-Advances old ctx h; bound = omega (arith, h.term) })

module _ (clock : Clock) (ctx : PaxosSharedContext) (o : Outcome) where
  unchanged-Climbs : o.ctx ≡ ctx → Climbs ctx o.ctx
  unchanged-Climbs e = Extends-to ctx ctx o e (Extends-refl ctx)

  accepted-Climbs :
      (later : Clock) (f : Follower) (cmd : PaxosCommand AcceptRequest) (state : PaxosState)
      → (do
        (response, ctx') ← Follower.handle_accept_request later f cmd.request ctx
        reply (send cmd (λ tx. answered_accept tx response)) state ctx')
        ≡ ok o
      → Climbs ctx o.ctx
  accepted-Climbs later f cmd state e =
      let ((response, ctx'), accepted, rest) =
        >>=-eq-ok (Follower.handle_accept_request later f cmd.request ctx) _ e in
      Extends-to ctx ctx' o (reply-ctx _ state ctx' o rest)
        (handle_accept_request-Extends _ f cmd.request ctx accepted)

  join_leader-Climbs :
      (self : PaxosState) (cmd : PaxosCommand AcceptRequest)
      → Roles.join_leader clock self cmd ctx ≡ ok o
      → Climbs ctx o.ctx
  unfolding Roles.join_leader
  join_leader-Climbs self cmd e = elim (Bool-cases (ltb cmd.request.term ctx.term)) [
    | inl stale ↦ unchanged-Climbs (reply-ctx _ self ctx o (rw stale at e))
    | inr current ↦ accepted-Climbs clock _ cmd _ (rw current at e)
  ]

  follower-Climbs :
      (f : Follower) (event : PaxosEvent)
      → Roles.FollowerEvents.handle_event clock f event ctx ≡ ok o
      → Climbs ctx o.ctx
  unfolding Roles.FollowerEvents.handle_event
  follower-Climbs f (vote_request_received cmd) e =
      let ((response, f', ctx'), answered, rest) =
        >>=-eq-ok (Follower.handle_vote_request clock f cmd.request ctx) _ e in
      Extends-to ctx ctx' o (reply-ctx _ (follower f') ctx' o rest)
        (handle_vote_request-Extends clock f cmd.request ctx (response, f', ctx') answered)
  follower-Climbs f (accept_request_received cmd) e = accepted-Climbs clock f cmd (follower f) e
  follower-Climbs f _ e = unchanged-Climbs (ground arith)

  pre_candidate-Climbs :
      (p : PreCandidate) (event : PaxosEvent)
      → ctx.term < 4294967295
      → Roles.PreCandidateEvents.handle_event clock p event ctx ≡ ok o
      → Climbs ctx o.ctx
  unfolding Roles.PreCandidateEvents.handle_event
  pre_candidate-Climbs p (accept_request_received cmd) h e =
      join_leader-Climbs (pre_candidate p) cmd e
  pre_candidate-Climbs p (pre_vote_response_received response) h e =
      let ((campaign, ctx', actions), decided, rest) =
        >>=-eq-ok (PreCandidate.handle_pre_vote_response (clock 0) response p ctx) _ e in
      let q : o.ctx ≡ ctx' = ground (arith, rest) in
      rw q (record {
        advances =
            handle_pre_vote_response-Advances (clock 0) response p ctx (campaign, ctx', actions) h
              decided;
        bound =
            handle_pre_vote_response-term (clock 0) response p ctx (campaign, ctx', actions)
              decided;
      })
  pre_candidate-Climbs p _ h e = unchanged-Climbs (ground arith)

  candidate-Climbs :
      (c : Candidate) (event : PaxosEvent)
      → HasPending c
      → Roles.CandidateEvents.handle_event clock c event ctx ≡ ok o
      → Climbs ctx o.ctx
  unfolding Roles.CandidateEvents.handle_event
  candidate-Climbs c (accept_request_received cmd) h e = join_leader-Climbs (candidate c) cmd e
  candidate-Climbs c (vote_response_received response) h e =
      let ((campaign, ctx', actions), decided, rest) =
        >>=-eq-ok (Candidate.handle_vote_response clock response c ctx) _ e in
      Extends-to ctx ctx' o (ground (arith, rest))
        (handle_vote_response-Extends clock response c ctx (campaign, ctx', actions) h decided)
  candidate-Climbs c _ h e = unchanged-Climbs (ground arith)

  leader-Climbs :
      (l : Leader) (event : PaxosEvent)
      → Roles.LeaderEvents.handle_event clock l event ctx ≡ ok o
      → Climbs ctx o.ctx
  unfolding Roles.LeaderEvents.handle_event
  leader-Climbs l (accept_response_received response) e =
      let ((l', ctx', actions), handled, rest) =
        >>=-eq-ok (Leader.handle_accept_response (clock 0) response l ctx) _ e in
      Extends-to ctx ctx' o (ground (arith, rest))
        (handle_accept_response-Extends (clock 0) response l ctx (l', ctx', actions) handled)
  leader-Climbs l (client_write_request_received cmd) e =
      Extends-to ctx (Leader.handle_client_write (clock 0) cmd l ctx).1 o (ground (arith, e))
        (handle_client_write-Extends (clock 0) cmd l ctx)
  leader-Climbs l heartbeat_timer_fired e =
      let ((l', ctx', actions), handled, rest) =
        >>=-eq-ok (Leader.handle_heartbeat_timer clock l ctx) _ e in
      Extends-to ctx ctx' o (ground (arith, rest))
        (handle_heartbeat_timer-Extends clock l ctx (l', ctx', actions) handled)
  leader-Climbs l (vote_request_received cmd) e =
      elim (Bool-cases (is_leader_lease_expired (clock 0) ctx)) [
        | inl over ↦
            let ((response, f, ctx'), answered, rest) =
              >>=-eq-ok
                (Follower.handle_vote_request (λ i. clock (suc i)) (Follower.new none) cmd.request
                  ctx)
                _ (rw (over, Roles.LeaderEvents.answer_vote_request) at e) in
            Extends-to ctx ctx' o (reply-ctx _ (follower f) ctx' o rest) (
              handle_vote_request-Extends _ (Follower.new none) cmd.request ctx (response, f, ctx')
                answered)
        | inr holds ↦
            unchanged-Climbs (
              reply-ctx _ (leader l) ctx o
                (rw (holds, Roles.LeaderEvents.answer_vote_request) at e))
      ]
  leader-Climbs l (accept_request_received cmd) e =
      elim (Bool-cases (is_leader_lease_expired (clock 0) ctx)) [
        | inl over ↦
            accepted-Climbs (λ i. clock (suc i)) _ cmd _
              (rw (over, Roles.LeaderEvents.answer_accept_request) at e)
        | inr holds ↦
            let kept = rw (holds, Roles.LeaderEvents.answer_accept_request) at e in
            unchanged-Climbs (ground (arith, kept))
      ]
  leader-Climbs l _ e = unchanged-Climbs (ground arith)

  pub handle_event-Climbs :
      (state : PaxosState) (event : PaxosEvent)
      → ctx.term < 4294967295
      → IsWellState state
      → StateMachine.handle_event clock state event ctx ≡ ok o
      → Climbs ctx o.ctx
  unfolding StateMachine.handle_event
  handle_event-Climbs (follower f) event h w e = follower-Climbs f event e
  handle_event-Climbs (pre_candidate p) event h w e = pre_candidate-Climbs p event h e
  handle_event-Climbs (candidate c) event h w e = candidate-Climbs c event w e
  handle_event-Climbs (leader l) event h w e = leader-Climbs l event e
