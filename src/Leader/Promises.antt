-- ===== src/Leader/Promises.antt =====
-- spx_core/src/roles/leader.rs: what a heartbeat promises about the times of later writes.
use spanner_paxos.Leader
use spanner_paxos.Base.{
  >>=-eq-ok, All, All-append, Bool, Bool-cases, List, Option, Option-cases, [], arith, expect,
  false, inl, inr, ltb, none, ok, refl, some, suc, true, ℕ, ◌++◌, ◌-◌, ◌<◌, ◌∷◌, ◌≡◌, ◌≤◌,
}
use spanner_paxos.Context.{PaxosSharedContext, advance_t_safe, later_t_safe}
use spanner_paxos.Follower.{promise_t_safe}
use spanner_paxos.Leader.{Leader}
use spanner_paxos.Map.{below, lookup}
use spanner_paxos.Messages.{
  AcceptRequest, Action, ClientWriteRequest, PaxosCommand, Uuid, dispatch, dispatched_accept,
}
use spanner_paxos.TrueTime.{Clock, DateTime, millisecond, now, sub_time}
use spanner_paxos.TrueTime.Range.{sub_time-eq-ok, sub_time-ok}

-- A request that carries the promise, and nothing else.
abbrev pub Carries : DateTime → Action → Type 0
Carries ts (dispatched_accept member request) = request.min_next_ts ≡ some ts
Carries ts _ = ⊥

abbrev pub IsBelow : Option DateTime → DateTime → Type 0
IsBelow none ts = Unit {0}
IsBelow (some t_safe) ts = t_safe < ts

-- No later than the end of the lease, if it has one.
abbrev pub IsLeased : DateTime → Option DateTime → Type 0
IsLeased ts none = Unit {0}
IsLeased ts (some expiry) = ts ≤ expiry

dispatch-Carries :
    (sent : Bool) (member : Uuid) (request : AcceptRequest) (ts : DateTime) (actions : List Action)
    → request.min_next_ts ≡ some ts
    → dispatch sent (dispatched_accept member request) ≡ ok actions
    → All (Carries ts) actions
dispatch-Carries true member request ts actions carries e =
    let same : dispatched_accept member request ∷ [] ≡ actions = ground arith in
    rw (← same) (carries, tt)
dispatch-Carries false member request ts actions carries e = cc

module _ (ctx : PaxosSharedContext) (ts : DateTime) where
  to_follower-Carries :
      (t : DateTime) (member : Uuid) (l : Leader) (r : Leader × List Action)
      → Leader.dispatch_accept_request_to_follower t member (some ts) l ctx ≡ ok r
      → All (Carries ts) r.1
  unfolding Leader.dispatch_accept_request_to_follower Leader.accept_request
  to_follower-Carries t member l r e =
      let (fs, found, rest) = >>=-eq-ok (expect (lookup member l.score_board)) _ e in
      let (term, read, rest') =
        >>=-eq-ok (Leader.anchor_term (Leader.anchor_slot fs.log_position) ctx) _ rest in
      let request =
        Leader.accept_request t (Leader.anchor_slot fs.log_position) term (some ts) ctx in
      let (actions, went, rest'') =
        >>=-eq-ok
          (dispatch (ctx.dispatcher.dispatch_accept_request member request)
            (dispatched_accept member request))
          _ rest' in
      let same : actions ≡ r.1 = ground (arith, rest'') in
      rw (← same) (dispatch-Carries _ member request ts actions refl went)

  to_members-Carries :
      (clock : Clock) (i : ℕ) (members : List Uuid) (l : Leader) (r : Leader × List Action)
      → Leader.dispatch_to_members clock i members (some ts) l ctx ≡ ok r
      → All (Carries ts) r.1
  unfolding Leader.dispatch_to_members
  to_members-Carries clock i [] l r e = let same : [] ≡ r.1 = ground arith in rw (← same) tt
  to_members-Carries clock i (member ∷ members) l r e =
      let ((l', actions), first, rest) =
        >>=-eq-ok (Leader.dispatch_accept_request_to_follower (clock i) member (some ts) l ctx) _
          e in
      let ((l'', more), others, rest') =
        >>=-eq-ok (Leader.dispatch_to_members clock (suc i) members (some ts) l' ctx) _ rest in
      let same : actions ++ more ≡ r.1 = ground (arith, rest') in
      rw (← same) (
        All-append (Carries ts) actions more
          (to_follower-Carries (clock i) member l (l', actions) first)
          (to_members-Carries clock (suc i) members l' (l'', more) others))

heartbeat_ts-bounds :
    (t : DateTime) (ctx : PaxosSharedContext)
    → (Leader.heartbeat_ts t ctx ≤ (now t).latest)
      × IsLeased (Leader.heartbeat_ts t ctx) ctx.lease.expiry
unfolding Leader.heartbeat_ts
heartbeat_ts-bounds t ctx = elim (Option-cases ctx.lease.expiry) [
  | inl gone ↦ rw gone (omega arith, tt)
  | inr (expiry, held) ↦ rw held (omega arith, omega arith)
]

later_t_safe-IsBelow :
    (t_safe : Option DateTime) (ts bound : DateTime)
    → IsBelow t_safe bound
    → ts < bound
    → IsBelow (later_t_safe t_safe ts) bound
unfolding later_t_safe
later_t_safe-IsBelow none ts bound h k = k
later_t_safe-IsBelow (some t) ts bound h k = elim (Bool-cases (ltb t ts)) [
  | inl later ↦ rw later k
  | inr early ↦ rw early h
]

-- A heartbeat with the promise `ts`, from `old` to `new`, a write at the reading `t`, and a follower
-- `behind`.
pub record IsPromised (ts t : DateTime) (old new behind : PaxosSharedContext)
    (actions : List Action) : Type 0 where
  pub sent : All (Carries ts) actions
  pub leased : IsLeased ts old.lease.expiry
  pub later :
      (cmd : PaxosCommand ClientWriteRequest) (ctx : PaxosSharedContext)
      → ts ≤ (Leader.client_entry t cmd.request.value ctx).timestamp
  pub leader_safe : IsBelow new.t_safe (now t).latest
  pub follower_safe :
      (promised : PaxosSharedContext) × (promise_t_safe (some ts) behind ≡ ok promised)
      × IsBelow promised.t_safe (now t).latest

-- Let a leader handle a heartbeat, and take a client write at a clock reading that is not before the
-- heartbeat's. All that the heartbeat sends are accept requests with its promise, which is no later
-- than the end of the lease. The timestamp of the write is not before the promise, and it is above
-- the safe time that the leader has after the heartbeat, and above that of any follower that takes
-- the promise, if it was above the safe times that they had before.
pub handle_heartbeat_timer-IsPromised :
    (clock : Clock) (l : Leader) (ctx : PaxosSharedContext)
    (r : Leader × PaxosSharedContext × List Action) (t : DateTime) (behind : PaxosSharedContext)
    → Leader.handle_heartbeat_timer clock l ctx ≡ ok r
    → clock 0 ≤ t
    → IsBelow ctx.t_safe (now t).latest
    → IsBelow behind.t_safe (now t).latest
    → IsPromised (Leader.heartbeat_ts (clock 0) ctx) t ctx r.1 behind r.2
unfolding Leader.handle_heartbeat_timer Leader.dispatch_accept_request Leader.client_entry
    advance_t_safe promise_t_safe
handle_heartbeat_timer-IsPromised clock l ctx r t behind e le below below' =
    let ts = Leader.heartbeat_ts (clock 0) ctx in
    let (safe, less, e') = >>=-eq-ok (sub_time ts millisecond) _ e in
    let (is_safe, room) = sub_time-eq-ok ts safe millisecond less in
    let ((l', actions), went, rest) =
      >>=-eq-ok (Leader.dispatch_accept_request clock 1 (some ts) l (advance_t_safe safe ctx)) _
        e' in
    let same : actions ≡ r.2 = ground (arith, rest) in
    let after : advance_t_safe safe ctx ≡ r.1 = ground (arith, rest) in
    let (bound, leased) = heartbeat_ts-bounds (clock 0) ctx in
    record {
      sent = rw (← same) (to_members-Carries _ ts clock 1 _ l (l', actions) went);
      leased = leased;
      later = λ cmd ctx'. omega arith;
      leader_safe =
          rw (← after) (later_t_safe-IsBelow ctx.t_safe safe (now t).latest below (omega arith));
      follower_safe = (
        advance_t_safe (ts - millisecond) behind,
        rw (sub_time-ok ts millisecond room) refl,
        later_t_safe-IsBelow behind.t_safe (ts - millisecond) (now t).latest below' (omega arith),
      );
    }
