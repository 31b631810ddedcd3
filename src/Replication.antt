-- ===== src/Replication.antt =====
-- spx_core/src/roles/leader.rs and follower.rs together: a leader's accept request, taken by a
-- follower.
use spanner_paxos.Follower
use spanner_paxos.Leader
use spanner_paxos.Wal
use spanner_paxos.Base.{
  Bool-cases, List, Option, [], add_u32, ap, arith, if◌then◌else◌, inl, inr, leb, map, ok, refl,
  sym, tests, true, ℕ, ◌<◌, ◌∙◌, ◌∷◌, ◌≡◌, ◌≤◌,
}
use spanner_paxos.Context.{PaxosSharedContext}
use spanner_paxos.Follower.{Follower}
use spanner_paxos.Follower.Replication.{accept_entries-get, handle_accept_request-AllOrNothing}
use spanner_paxos.Leader.{Leader}
use spanner_paxos.Messages.{AcceptResponse}
use spanner_paxos.TrueTime.{Clock, DateTime}
use spanner_paxos.Wal.{LogEntry}
use spanner_paxos.Wal.Writes.{IsLog, last_at, last_at-get_entries_from}

log_entry-accept_entry :
    (es : List LogEntry) → map Follower.log_entry (map Leader.accept_entry es) ≡ es
unfolding Follower.log_entry Leader.accept_entry
log_entry-accept_entry [] = refl
log_entry-accept_entry (e ∷ es) = ap (◌∷◌ e) (log_entry-accept_entry es)

-- The request that a leader with a well-formed log sends for an anchor below the highest `u32` makes
-- the follower's log the leader's above the anchor, and leaves it as it was up to the anchor.
pub get-accept_request :
    (t : DateTime) (anchor term : ℕ) (ts : Option DateTime) (lead ctx : PaxosSharedContext)
    (r : AcceptResponse × PaxosSharedContext) (j : ℕ)
    → IsLog lead.wal
    → anchor < 4294967295
    → Follower.accept_entries (Leader.accept_request t anchor term ts lead) ctx ≡ ok r
    → Wal.get j r.1.wal ≡ (if leb j anchor then Wal.get j ctx.wal else Wal.get j lead.wal)
unfolding Leader.accept_request
get-accept_request t anchor term ts lead ctx r j v h e =
    let request = Leader.accept_request t anchor term ts lead in
    let sent = Wal.get_entries_from (add_u32 anchor 1) lead.wal in
    ground (
      arith,
      accept_entries-get request ctx r j h e,
      ap (last_at j) (log_entry-accept_entry sent),
      last_at-get_entries_from (add_u32 anchor 1) lead.wal j v,
    )

-- A follower that answers the leader's request with `success`, and whose log agreed with the leader's
-- up to the anchor, has the leader's log, where that log is well formed and the anchor is below the
-- highest `u32`.
pub handle_accept_request-agrees :
    (clock : Clock) (f : Follower) (t : DateTime) (anchor term : ℕ) (ts : Option DateTime)
    (lead ctx : PaxosSharedContext) (r : AcceptResponse × PaxosSharedContext)
    → IsLog lead.wal
    → anchor < 4294967295
    → ((j : ℕ) → j ≤ anchor → Wal.get j ctx.wal ≡ Wal.get j lead.wal)
    → Follower.handle_accept_request clock f (Leader.accept_request t anchor term ts lead) ctx
      ≡ ok r
    → r.0.success ≡ true
    → (j : ℕ) → Wal.get j r.1.wal ≡ Wal.get j lead.wal
unfolding Leader.accept_request
handle_accept_request-agrees clock f t anchor term ts lead ctx r v h agree e s j =
    let request = Leader.accept_request t anchor term ts lead in
    let sent = Wal.get_entries_from (add_u32 anchor 1) lead.wal in
    elim (handle_accept_request-AllOrNothing clock f request ctx r e) [
      | inl (accepted, done) ↦
          let log = (done j).log h in
          let same = ap (last_at j) (log_entry-accept_entry sent) in
          let found = last_at-get_entries_from (add_u32 anchor 1) lead.wal j v in
          elim (Bool-cases (leb j anchor)) [
            | inl low ↦ let kept_entry = agree j (omega (tests, low)) in ground arith
            | inr high ↦ ground arith
          ]
      | inr (no_success, w, u, l, c, safe) ↦ let clash = sym s ∙ no_success in cc clash
    ]
