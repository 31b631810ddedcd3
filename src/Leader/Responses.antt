-- ===== src/Leader/Responses.antt =====
-- spx_core/src/roles/leader.rs: what a leader makes of an accept response.
use spanner_paxos.Leader
use spanner_paxos.Base.{
  >>=-eq-ok, All, Bool, Bool-cases, List, Option, [], add_u32, arith, expect, false, if◌then◌else◌,
  inl, inr, leb, ltb, none, not, ok, ok-inj, refl, some, subst, suc, tests, true, ℕ, ◌&&◌, ◌++◌,
  ◌-◌, ◌<◌, ◌∙◌, ◌∷◌, ◌≡◌,
}
use spanner_paxos.Context.{PaxosSharedContext, get_quorum_size, update_leader_lease_expiry_time}
use spanner_paxos.Context.Progress.{commit_up_to_lem}
use spanner_paxos.Leader.{FollowerState, Leader}
use spanner_paxos.Leader.Quorum.{
  HasBoard, OnQuorum, Renews, kept, min_quorum_slot-OnQuorum, renew_lease-Renews, renewed,
}
use spanner_paxos.Map.{Map, below, insert, lookup}
use spanner_paxos.Map.Keys.{length-insert_present}
use spanner_paxos.Map.Laws.{insert-Rises, lookup-from}
use spanner_paxos.Messages.{
  AcceptRequest, AcceptResponse, Action, ClientWriteRequest, ConflictHint, PaxosCommand, Uuid,
  answered_write, dispatch, dispatched_accept, send_ignoring, waited_past,
}
use spanner_paxos.TrueTime.{DateTime}

-- After a rejection no batch is in flight, and the anchor of the next request is right before the slot
-- to probe, unless that slot lies below the one right before the former next slot: then it is this one. If
-- the former next slot was the slot to probe already, as when a second rejection comes to the same
-- slot, the anchor is right before it.
pub realign-anchor_slot :
    (hint : ConflictHint) (fs : FollowerState) (ctx : PaxosSharedContext)
    → let probe = Leader.next_probe hint ctx in
      let former = fs.log_position.next_slot in
      (Leader.anchor_slot (Leader.realign hint fs ctx).log_position
        ≡ (if ltb probe (former - 1) then former - 1 else probe - 1))
      × ((Leader.realign hint fs ctx).in_flight_batches ≡ [])
      × ((former ≡ probe)
          → Leader.anchor_slot (Leader.realign hint fs ctx).log_position ≡ probe - 1)
unfolding Leader.realign Leader.anchor_slot Leader.clear_in_flight_batches
realign-anchor_slot hint fs ctx = ground arith

abbrev pub Writes : Type 0
Writes = Map (DateTime × PaxosCommand ClientWriteRequest)

-- What the clients get whose writes are at or below the slot `c`, in the order of the slots: a wait
-- until the write's timestamp has passed, and then the answer, unless the client has gone.
abbrev pub answers : ℕ → Writes → List Action
answers c [] = []
answers c ((slot, (timestamp, cmd)) ∷ m) =
    if leb slot c
    then waited_past timestamp
        ∷ (if cmd.receiver_alive
            then answered_write cmd.response_tx (record { success = true; error = none }) ∷ []
            else [])
      ++ answers c m
    else answers c m

-- An action that says nothing to a client.
abbrev pub IsSilent : Action → Type 0
IsSilent (answered_write tx response) = ⊥
IsSilent (waited_past timestamp) = ⊥
IsSilent _ = Unit {0}

-- What an accept response may do to the commits, with these writes in flight: nothing, with no client
-- told; or to commit up to a slot that a quorum has, the leader with it. Below the highest `u32` the
-- actions are then the answers to the writes up to that slot, and the others stay in flight.
pub data Commits (writes : Writes) (ctx : PaxosSharedContext)
    (r : Leader × PaxosSharedContext × List Action) : Type 0 where
  unmoved :
      r.1.committed_slot ≡ ctx.committed_slot
      → r.0.in_flight_writes ≡ writes
      → All IsSilent r.2
      → Commits writes ctx r
  moved :
      ctx.committed_slot < r.1.committed_slot
      → OnQuorum r.1.committed_slot r.0 ctx
      → (r.1.committed_slot < 4294967295
          → (r.2 ≡ answers r.1.committed_slot writes)
            × ((j : ℕ)
                → lookup j r.0.in_flight_writes
                  ≡ (if leb j r.1.committed_slot then none else lookup j writes)))
      → Commits writes ctx r

-- The writes below a slot are answered as those up to the slot before it.
answer_writes-answers : (c : ℕ) (m : Writes) → Leader.answer_writes (below (suc c) m) ≡ answers c m
unfolding Leader.answer_writes below send_ignoring
answer_writes-answers c [] = refl
answer_writes-answers c ((slot, (timestamp, cmd)) ∷ m) = ground (arith, answer_writes-answers c m)

resolved :
    (c : ℕ) (l : Leader)
    → c < 4294967295
    → let (l', actions) = Leader.resolve_in_flight_writes c l in
      (actions ≡ answers c l.in_flight_writes)
      × ((j : ℕ)
          → lookup j l'.in_flight_writes ≡ (if leb j c then none else lookup j l.in_flight_writes))
unfolding Leader.resolve_in_flight_writes
resolved c l h =
    let next_slot : add_u32 c 1 ≡ suc c = omega arith in
    rw next_slot (
      answer_writes-answers c l.in_flight_writes,
      λ j. lookup-from (suc c) j l.in_flight_writes ∙ ground arith,
    )

commit_quorum-Commits :
    (l : Leader) (ctx : PaxosSharedContext)
    → HasBoard l ctx
    → Commits l.in_flight_writes ctx (Leader.commit_quorum l ctx)
unfolding Leader.commit_quorum Leader.resolve_in_flight_writes
commit_quorum-Commits l ctx h =
    let slot = Leader.min_quorum_slot l ctx in
    let (on_quorum, _) = min_quorum_slot-OnQuorum l ctx h in
    let set = (commit_up_to_lem slot ctx 0).0 in
    elim (Bool-cases (ltb ctx.committed_slot slot)) [
      | inl up ↦ rw up (
          moved (rw set (omega tests))
            (rw set (record { own = on_quorum.own; others = on_quorum.others }))
            (λ top. rw set (resolved slot l (rw set at top))))
      | inr same ↦ rw same (unmoved refl refl tt)
    ]

advance_match-HasBoard :
    (id written : ℕ) (fs : FollowerState) (l : Leader) (ctx : PaxosSharedContext)
    → HasBoard l ctx
    → lookup id l.score_board ≡ some fs
    → HasBoard
        (record l { score_board = insert id (Leader.advance_match written fs) l.score_board })
        ctx
advance_match-HasBoard id written fs l ctx h e = record {
  complete = length-insert_present 0 id _ fs l.score_board h.rises e ∙ h.complete;
  inhabited = h.inhabited;
  countable = h.countable;
  rises = insert-Rises 0 id _ l.score_board (omega arith) h.rises;
}

Commits-ok :
    (writes : Writes) (ctx : PaxosSharedContext) (r r' : Leader × PaxosSharedContext × List Action)
    → ok r ≡ ok r'
    → Commits writes ctx r
    → Commits writes ctx r'
Commits-ok writes ctx r r' e h = let q : r ≡ r' = cc in subst (Commits writes ctx) q h

record_success-Commits :
    (response : AcceptResponse) (l : Leader) (ctx : PaxosSharedContext)
    (r : Leader × PaxosSharedContext × List Action)
    → HasBoard l ctx
    → Leader.record_success response l ctx ≡ ok r
    → Commits l.in_flight_writes ctx r
unfolding Leader.record_success
record_success-Commits response l ctx r h e =
    let (fs, found, rest) = >>=-eq-ok (expect (lookup response.member_id l.score_board)) _ e in
    let present : lookup response.member_id l.score_board ≡ some fs = ground (arith, found) in
    let board =
      advance_match-HasBoard response.member_id response.last_written_slot fs l ctx h present in
    elim (Bool-cases (ltb fs.log_position.match_slot response.last_written_slot)) [
      | inl more ↦
          Commits-ok l.in_flight_writes ctx _ r (rw more at rest)
            (commit_quorum-Commits _ ctx board)
      | inr old ↦
          Commits-ok l.in_flight_writes ctx (l, ctx, []) r (rw old at rest) (unmoved refl refl tt)
    ]

dispatch-IsSilent :
    (sent : Bool) (member : Uuid) (request : AcceptRequest) (actions : List Action)
    → dispatch sent (dispatched_accept member request) ≡ ok actions
    → All IsSilent actions
unfolding dispatch
dispatch-IsSilent true member request actions e = rw (← ok-inj e) (tt, tt)
dispatch-IsSilent false member request actions e = cc

-- A request to a follower leaves the writes in flight.
sent_silently :
    (t : DateTime) (member : Uuid) (ts : Option DateTime) (l : Leader) (ctx : PaxosSharedContext)
    (r : Leader × List Action)
    → Leader.dispatch_accept_request_to_follower t member ts l ctx ≡ ok r
    → Commits l.in_flight_writes ctx (r.0, ctx, r.1)
unfolding Leader.dispatch_accept_request_to_follower
sent_silently t member ts l ctx r e =
    let (fs, found, e') = >>=-eq-ok (expect (lookup member l.score_board)) _ e in
    let (term, read, e'') =
      >>=-eq-ok (Leader.anchor_term (Leader.anchor_slot fs.log_position) ctx) _ e' in
    let request = Leader.accept_request t (Leader.anchor_slot fs.log_position) term ts ctx in
    let (actions, sent, last) =
      >>=-eq-ok
        (dispatch (ctx.dispatcher.dispatch_accept_request member request)
          (dispatched_accept member request))
        _ e'' in
    rw (← ok-inj last) (unmoved refl refl (dispatch-IsSilent _ member request actions sent))

follow_hint-Commits :
    (t : DateTime) (response : AcceptResponse) (hint : ConflictHint) (l : Leader)
    (ctx : PaxosSharedContext) (r : Leader × PaxosSharedContext × List Action)
    → Leader.follow_hint t response hint l ctx ≡ ok r
    → Commits l.in_flight_writes ctx r
unfolding Leader.follow_hint
follow_hint-Commits t response hint l ctx r e =
    let (fs, found, rest) = >>=-eq-ok (expect (lookup response.member_id l.score_board)) _ e in
    let ((l', actions), sent, last) =
      >>=-eq-ok (Leader.dispatch_accept_request_to_follower t response.member_id none _ ctx) _
        rest in
    Commits-ok l.in_flight_writes ctx (l', ctx, actions) r last
      (sent_silently t response.member_id none _ ctx (l', actions) sent)

note_contact-HasBoard :
    (response : AcceptResponse) (l : Leader) (ctx : PaxosSharedContext)
    → HasBoard l ctx
    → HasBoard (Leader.note_contact response l) ctx
unfolding Leader.note_contact
note_contact-HasBoard response l ctx h = record {
  complete = h.complete;
  inhabited = h.inhabited;
  countable = h.countable;
  rises = h.rises;
}

-- The renewal of the lease leaves what a commit depends on.
pub record SameLog (ctx ctx' : PaxosSharedContext) : Type 0 where
  pub peers : ctx'.peer_ids ≡ ctx.peer_ids
  pub end : ctx'.last_log_slot ≡ ctx.last_log_slot
  pub committed : ctx'.committed_slot ≡ ctx.committed_slot

Renews-SameLog : (l : Leader) (ctx ctx' : PaxosSharedContext) → Renews l ctx ctx' → SameLog ctx ctx'
unfolding update_leader_lease_expiry_time
Renews-SameLog l ctx ctx' (kept e) = rw e (record { peers = refl; end = refl; committed = refl })
Renews-SameLog l ctx ctx' (renewed t q later e) =
    rw e (record { peers = refl; end = refl; committed = refl })

SameLog-HasBoard :
    (l : Leader) (ctx ctx' : PaxosSharedContext)
    → SameLog ctx ctx'
    → HasBoard l ctx
    → HasBoard l ctx'
SameLog-HasBoard l ctx ctx' s h = record {
  complete = rw s.peers h.complete;
  inhabited = rw s.peers h.inhabited;
  countable = rw s.peers h.countable;
  rises = h.rises;
}

SameLog-Commits :
    (writes : Writes) (ctx ctx' : PaxosSharedContext)
    (r : Leader × PaxosSharedContext × List Action)
    → SameLog ctx ctx'
    → Commits writes ctx' r
    → Commits writes ctx r
unfolding get_quorum_size
SameLog-Commits writes ctx ctx' r s (unmoved e w q) = unmoved (e ∙ s.committed) w q
SameLog-Commits writes ctx ctx' r s (moved up q answers) =
    moved (rw s.committed at up)
      (record { own = rw s.end at q.own; others = rw s.peers at q.others }) answers

answered-Commits :
    (t : DateTime) (response : AcceptResponse) (l : Leader) (ctx : PaxosSharedContext)
    (r : Leader × PaxosSharedContext × List Action) (success : Bool) (hint : Option ConflictHint)
    → HasBoard l ctx
    → (if success then Leader.record_success response l ctx else elim hint [
      | none ↦ ok (l, ctx, [])
      | some hint ↦ Leader.follow_hint t response hint l ctx
    ])
      ≡ ok r
    → Commits l.in_flight_writes ctx r
answered-Commits t response l ctx r true hint h e = record_success-Commits response l ctx r h e
answered-Commits t response l ctx r false none h e =
    Commits-ok l.in_flight_writes ctx (l, ctx, []) r e (unmoved refl refl tt)
answered-Commits t response l ctx r false (some hint) h e =
    follow_hint-Commits t response hint l ctx r e

use_response-Commits :
    (t : DateTime) (response : AcceptResponse) (l : Leader) (ctx : PaxosSharedContext)
    (r : Leader × PaxosSharedContext × List Action)
    → HasBoard l ctx
    → Leader.use_response t response l ctx ≡ ok r
    → Commits l.in_flight_writes ctx r
unfolding Leader.use_response Leader.note_contact
use_response-Commits t response l ctx r h e =
    let boards = note_contact-HasBoard response l ctx h in
    let l' = Leader.note_contact response l in
    let (ctx', longer, rest) = >>=-eq-ok (Leader.renew_lease l' ctx) _ e in
    let same = Renews-SameLog l' ctx ctx' (renew_lease-Renews l' ctx ctx' boards longer) in
    SameLog-Commits l.in_flight_writes ctx ctx' r same (
      answered-Commits t response l' ctx' r response.success response.conflict_hint
        (SameLog-HasBoard l' ctx ctx' same boards) rest)

-- On an accept response a leader with all its peers on its board raises its committed slot only to a
-- slot that a quorum has. If that is below the highest `u32`, it then tells exactly the clients whose
-- writes are at or below the slot, each after a wait until the write's timestamp has passed, and only
-- the writes above the slot stay in flight. In every other case the commits and the writes in flight
-- stay as they are, and no client is told.
pub handle_accept_response-Commits :
    (t : DateTime) (response : AcceptResponse) (l : Leader) (ctx : PaxosSharedContext)
    (r : Leader × PaxosSharedContext × List Action)
    → HasBoard l ctx
    → Leader.handle_accept_response t response l ctx ≡ ok r
    → Commits l.in_flight_writes ctx r
unfolding Leader.handle_accept_response
handle_accept_response-Commits t response l ctx r h e =
    let unchanged : Commits l.in_flight_writes ctx (l, ctx, []) = unmoved refl refl tt in
    elim (Bool-cases (ltb response.term ctx.term)) [
      | inl stale ↦ Commits-ok l.in_flight_writes ctx (l, ctx, []) r (rw stale at e) unchanged
      | inr current ↦
          elim (Bool-cases (not response.success && not (Leader.is_some response.conflict_hint))) [
            | inl bare ↦
                Commits-ok l.in_flight_writes ctx (l, ctx, []) r (rw (current, bare) at e) unchanged
            | inr useful ↦ use_response-Commits t response l ctx r h (rw (current, useful) at e)
          ]
    ]
