-- ===== src/Leader/Boards.antt =====
-- spx_core/src/roles/leader.rs: the boards of a leader keep an entry for each peer, and no other.
pub mod Handlers
use spanner_paxos.Leader
use spanner_paxos.Base.{
  >>=-eq-ok, List, Option, [], arith, expect, none, ok, ok-inj, some, suc, ℕ, ◌>>=◌, ◌∷◌, ◌≡◌,
}
use spanner_paxos.Context.{PaxosSharedContext}
use spanner_paxos.Follower.Boards.{IsBoard, insert-IsBoard, map_values-IsBoard}
use spanner_paxos.Leader.{FollowerState, Leader, LogPosition}
use spanner_paxos.Map.{Map, insert, lookup, map_values}
use spanner_paxos.Messages.{Action, Uuid, dispatch, dispatched_accept}
use spanner_paxos.TrueTime.{Clock, DateTime, unix_epoch}
use spanner_paxos.Wal.{LogEntry}

pub record HasBoards (peers : List Uuid) (l : Leader) : Type 0 where
  pub scores : IsBoard peers l.score_board
  pub contacts : IsBoard peers l.last_contact

pub new-HasBoards :
    (peers : List Uuid) (scores : Map LogPosition)
    → IsBoard peers scores
    → HasBoards peers (Leader.new scores)
unfolding Leader.new
new-HasBoards peers scores h = record {
  scores = map_values-IsBoard Leader.follower_state_new peers scores h;
  contacts = map_values-IsBoard (λ pos. unix_epoch) peers scores h;
}

module _ (peers : List Uuid) where
  pub rescored :
      (l : Leader) (member : Uuid) (fs old : FollowerState)
      → lookup member l.score_board ≡ some old
      → HasBoards peers l
      → HasBoards peers (record l { score_board = insert member fs l.score_board })
  rescored l member fs old found h = record {
    scores = insert-IsBoard peers member fs old l.score_board found h.scores;
    contacts = h.contacts;
  }

  pub all_rescored :
      (l : Leader) (f : FollowerState → FollowerState)
      → HasBoards peers l
      → HasBoards peers (record l { score_board = map_values f l.score_board })
  all_rescored l f h = record {
    scores = map_values-IsBoard f peers l.score_board h.scores;
    contacts = h.contacts;
  }

  pub dispatch_accept_request_to_follower-HasBoards :
      (t : DateTime) (member : Uuid) (ts : Option DateTime) (l : Leader) (ctx : PaxosSharedContext)
      (r : Leader × List Action)
      → HasBoards peers l
      → Leader.dispatch_accept_request_to_follower t member ts l ctx ≡ ok r
      → HasBoards peers r.0
  unfolding Leader.dispatch_accept_request_to_follower
  dispatch_accept_request_to_follower-HasBoards t member ts l ctx r h e =
      let (fs, found, e') = >>=-eq-ok (expect (lookup member l.score_board)) _ e in
      let (term, read, e'') =
        >>=-eq-ok (Leader.anchor_term (Leader.anchor_slot fs.log_position) ctx) _ e' in
      let request = Leader.accept_request t (Leader.anchor_slot fs.log_position) term ts ctx in
      let (actions, sent, last) =
        >>=-eq-ok
          (dispatch (ctx.dispatcher.dispatch_accept_request member request)
            (dispatched_accept member request))
          _ e'' in
      let present : lookup member l.score_board ≡ some fs = ground (arith, found) in
      rw (← ok-inj last) (rescored l member _ fs present h)

  dispatch_to_members-HasBoards :
      (clock : Clock) (i : ℕ) (members : List Uuid) (ts : Option DateTime) (l : Leader)
      (ctx : PaxosSharedContext) (r : Leader × List Action)
      → HasBoards peers l
      → Leader.dispatch_to_members clock i members ts l ctx ≡ ok r
      → HasBoards peers r.0
  unfolding Leader.dispatch_to_members
  dispatch_to_members-HasBoards clock i [] ts l ctx r h e = rw (← ok-inj e) h
  dispatch_to_members-HasBoards clock i (member ∷ members) ts l ctx r h e =
      let ((l', actions), sent, e') =
        >>=-eq-ok (Leader.dispatch_accept_request_to_follower (clock i) member ts l ctx) _ e in
      let ((l'', more), others, last) =
        >>=-eq-ok (Leader.dispatch_to_members clock (suc i) members ts l' ctx) _ e' in
      let kept' =
        dispatch_accept_request_to_follower-HasBoards (clock i) member ts l ctx (l', actions) h
          sent in
      rw (← ok-inj last)
        (dispatch_to_members-HasBoards clock (suc i) members ts l' ctx (l'', more) kept' others)

  pub dispatch_accept_request-HasBoards :
      (clock : Clock) (i : ℕ) (ts : Option DateTime) (l : Leader) (ctx : PaxosSharedContext)
      (r : Leader × List Action)
      → HasBoards peers l
      → Leader.dispatch_accept_request clock i ts l ctx ≡ ok r
      → HasBoards peers r.0
  unfolding Leader.dispatch_accept_request
  dispatch_accept_request-HasBoards clock i ts l ctx r h e =
      dispatch_to_members-HasBoards clock i _ ts l ctx r h e

  advance_log-HasBoards :
      (last : Option LogEntry) (l : Leader) (ctx : PaxosSharedContext)
      → HasBoards peers l
      → HasBoards peers (Leader.advance_log last l ctx).0
  unfolding Leader.advance_log
  advance_log-HasBoards none l ctx h = h
  advance_log-HasBoards (some last) l ctx h = all_rescored l _ h

  pub process_uncommitted_logs-HasBoards :
      (clock : Clock) (i : ℕ) (l : Leader) (ctx : PaxosSharedContext)
      (r : Leader × PaxosSharedContext × List Action)
      → HasBoards peers l
      → Leader.process_uncommitted_logs clock i l ctx ≡ ok r
      → HasBoards peers r.0
  unfolding Leader.process_uncommitted_logs
  process_uncommitted_logs-HasBoards clock i l ctx r h e =
      let (sent, went, last) = >>=-eq-ok (Leader.dispatch_accept_request clock i none _ _) _ e in
      rw (← ok-inj last) (
        dispatch_accept_request-HasBoards clock i none _ _ sent (advance_log-HasBoards _ l _ h)
          went)
