-- ===== src/Leader/Boards/Handlers.antt =====
-- spx_core/src/roles/leader.rs: the handlers of a leader and its boards.
use spanner_paxos.Leader
use spanner_paxos.Base.{
  >>=-eq-ok, Bool, Bool-cases, List, Option, [], arith, expect, false, if◌then◌else◌, inl, inr, ltb,
  none, not, ok, ok-inj, some, true, ◌&&◌, ◌==◌, ◌>>=◌, ◌≡◌,
}
use spanner_paxos.Context.{PaxosSharedContext}
use spanner_paxos.Follower.Boards.{IsBoard-lookup, insert-IsBoard}
use spanner_paxos.Leader.{FollowerState, Leader}
use spanner_paxos.Leader.Boards.{
  HasBoards, all_rescored, dispatch_accept_request-HasBoards,
  dispatch_accept_request_to_follower-HasBoards, rescored,
}
use spanner_paxos.Map.{lookup}
use spanner_paxos.Messages.{
  AcceptResponse, Action, ClientWriteRequest, ConflictHint, PaxosCommand, Uuid,
}
use spanner_paxos.TrueTime.{Clock, DateTime, millisecond, sub_time}

module _ (peers : List Uuid) where
  pub handle_heartbeat_timer-HasBoards :
      (clock : Clock) (l : Leader) (ctx : PaxosSharedContext)
      (r : Leader × PaxosSharedContext × List Action)
      → HasBoards peers l
      → Leader.handle_heartbeat_timer clock l ctx ≡ ok r
      → HasBoards peers r.0
  unfolding Leader.handle_heartbeat_timer
  handle_heartbeat_timer-HasBoards clock l ctx r h e =
      let (safe, less, e') =
        >>=-eq-ok (sub_time (Leader.heartbeat_ts (clock 0) ctx) millisecond) _ e in
      let (sent, went, last) = >>=-eq-ok (Leader.dispatch_accept_request clock 1 _ l _) _ e' in
      let boards = dispatch_accept_request-HasBoards peers clock 1 _ l _ sent h went in
      rw (← ok-inj last) (record { scores = boards.scores; contacts = boards.contacts })

  pub handle_write_flush-HasBoards :
      (clock : Clock) (l : Leader) (ctx : PaxosSharedContext) (r : Leader × List Action)
      → HasBoards peers l
      → Leader.handle_write_flush clock l ctx ≡ ok r
      → HasBoards peers r.0
  unfolding Leader.handle_write_flush
  handle_write_flush-HasBoards clock l ctx r h e = elim (Bool-cases (l.pending_write_count == 0)) [
    | inl idle ↦ rw (← ok-inj (rw idle at e)) h
    | inr writes ↦
        let (sent, went, last) =
          >>=-eq-ok (Leader.dispatch_accept_request clock 0 none l ctx) _ (rw writes at e) in
        let boards = dispatch_accept_request-HasBoards peers clock 0 none l ctx sent h went in
        rw (← ok-inj last) (record { scores = boards.scores; contacts = boards.contacts })
  ]

  pub handle_accept_timeout_check-HasBoards :
      (t : DateTime) (l : Leader)
      → HasBoards peers l
      → HasBoards peers (Leader.handle_accept_timeout_check t l)
  unfolding Leader.handle_accept_timeout_check
  handle_accept_timeout_check-HasBoards t l h = all_rescored peers l _ h

  pub handle_client_write-HasBoards :
      (t : DateTime) (cmd : PaxosCommand ClientWriteRequest) (l : Leader) (ctx : PaxosSharedContext)
      → HasBoards peers l
      → HasBoards peers (Leader.handle_client_write t cmd l ctx).0
  unfolding Leader.handle_client_write
  handle_client_write-HasBoards t cmd l ctx h = record { scores = h.scores; contacts = h.contacts }

  commit_quorum-HasBoards :
      (l : Leader) (ctx : PaxosSharedContext)
      → HasBoards peers l
      → HasBoards peers (Leader.commit_quorum l ctx).0
  unfolding Leader.commit_quorum Leader.resolve_in_flight_writes
  commit_quorum-HasBoards l ctx h =
      elim (Bool-cases (ltb ctx.committed_slot (Leader.min_quorum_slot l ctx))) [
        | inl up ↦ rw up (record { scores = h.scores; contacts = h.contacts })
        | inr same ↦ rw same h
      ]

  -- The sender of a response that is used is on the board, and then so is its contact.
  noted :
      (response : AcceptResponse) (l : Leader) (fs : FollowerState)
      → lookup response.member_id l.score_board ≡ some fs
      → HasBoards peers l
      → HasBoards peers (Leader.note_contact response l)
  unfolding Leader.note_contact
  noted response l fs found h =
      let (t, contacted) =
        IsBoard-lookup peers response.member_id fs l.score_board l.last_contact h.scores h.contacts
          found in
      record {
        scores = h.scores;
        contacts = insert-IsBoard peers response.member_id _ t l.last_contact contacted h.contacts;
      }

  record_success-HasBoards :
      (response : AcceptResponse) (l : Leader) (ctx : PaxosSharedContext)
      (r : Leader × PaxosSharedContext × List Action)
      → HasBoards peers l
      → Leader.record_success response (Leader.note_contact response l) ctx ≡ ok r
      → HasBoards peers r.0
  unfolding Leader.record_success Leader.note_contact
  record_success-HasBoards response l ctx r h e =
      let (fs, found, rest) = >>=-eq-ok (expect (lookup response.member_id l.score_board)) _ e in
      let present : lookup response.member_id l.score_board ≡ some fs = ground (arith, found) in
      let boards = noted response l fs present h in
      elim (Bool-cases (ltb fs.log_position.match_slot response.last_written_slot)) [
        | inl more ↦ rw (← ok-inj (rw more at rest)) (
            commit_quorum-HasBoards _ ctx (
              rescored peers (Leader.note_contact response l) response.member_id _ fs present
                boards))
        | inr old ↦ rw (← ok-inj (rw old at rest)) boards
      ]

  follow_hint-HasBoards :
      (t : DateTime) (response : AcceptResponse) (hint : ConflictHint) (l : Leader)
      (ctx : PaxosSharedContext) (r : Leader × PaxosSharedContext × List Action)
      → HasBoards peers l
      → Leader.follow_hint t response hint (Leader.note_contact response l) ctx ≡ ok r
      → HasBoards peers r.0
  unfolding Leader.follow_hint Leader.note_contact
  follow_hint-HasBoards t response hint l ctx r h e =
      let (fs, found, rest) = >>=-eq-ok (expect (lookup response.member_id l.score_board)) _ e in
      let present : lookup response.member_id l.score_board ≡ some fs = ground (arith, found) in
      let boards = noted response l fs present h in
      let ((l', actions), sent, last) =
        >>=-eq-ok (Leader.dispatch_accept_request_to_follower t response.member_id none _ ctx) _
          rest in
      rw (← ok-inj last) (
        dispatch_accept_request_to_follower-HasBoards peers t response.member_id none _ ctx
          (l', actions)
          (rescored peers (Leader.note_contact response l) response.member_id _ fs present boards)
          sent)

  pub handle_accept_response-HasBoards :
      (t : DateTime) (response : AcceptResponse) (l : Leader) (ctx : PaxosSharedContext)
      (r : Leader × PaxosSharedContext × List Action)
      → HasBoards peers l
      → Leader.handle_accept_response t response l ctx ≡ ok r
      → HasBoards peers r.0
  unfolding Leader.handle_accept_response Leader.use_response Leader.is_some
  handle_accept_response-HasBoards t response l ctx r h e =
      elim (Bool-cases (ltb response.term ctx.term)) [
        | inl stale ↦ rw (← ok-inj (rw stale at e)) h
        | inr current ↦ useful response.success response.conflict_hint (rw current at e)
      ]
    where
      useful :
          (success : Bool) (hint : Option ConflictHint)
          → (if not success && not (Leader.is_some hint)
              then ok (l, ctx, [])
              else (let l' = Leader.note_contact response l in
                  (do
                    ctx' ← Leader.renew_lease l' ctx
                    if success then Leader.record_success response l' ctx' else elim hint [
                      | none ↦ ok (l', ctx', [])
                      | some hint ↦ Leader.follow_hint t response hint l' ctx'
                    ])))
            ≡ ok r
          → HasBoards peers r.0
      useful true hint q =
          let (ctx', longer, rest) =
            >>=-eq-ok (Leader.renew_lease (Leader.note_contact response l) ctx) _ q in
          record_success-HasBoards response l ctx' r h rest
      useful false none q = rw (← ok-inj q) h
      useful false (some hint) q =
          let (ctx', longer, rest) =
            >>=-eq-ok (Leader.renew_lease (Leader.note_contact response l) ctx) _ q in
          follow_hint-HasBoards t response hint l ctx' r h rest
