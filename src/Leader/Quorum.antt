-- ===== src/Leader/Quorum.antt =====
-- spx_core/src/roles/leader.rs: what a quorum has of the log, and when it was last in contact.
use spanner_paxos.Leader
use spanner_paxos.Base.{
  All, All-append, All-split, Bool-cases, IsMinimum, List, Member-All, Option, Result, [], ap,
  arith, count_if, count_if-get_elem?, count_if-sort_desc, count_if-take, err, get_elem?, inl, inr,
  leb, length, length-sort_desc, ltb, min?-IsMinimum, none, ok, panic, refl, some, sort_desc,
  sort_desc-Falls, sub_usize, subst, suc, take, take-count_if, tests, ℕ, ◌++◌, ◌+◌, ◌<◌, ◌>>=◌, ◌∙◌,
  ◌∷◌, ◌≡◌, ◌≤◌,
}
use spanner_paxos.Context.{PaxosSharedContext, get_quorum_size, update_leader_lease_expiry_time}
use spanner_paxos.Leader.{FollowerState, Leader}
use spanner_paxos.Map.{IsMap, Map, map_values, values}
use spanner_paxos.TrueTime.{DateTime, add_time, max_utc}
use spanner_paxos.TrueTime.Range.{add_time-ok, add_time-panic}

abbrev pub match_slots : Leader → List ℕ
match_slots l =
    values (map_values (λ (fs : FollowerState). fs.log_position.match_slot) l.score_board)

-- The leader's own log reaches the slot, and so do the logs of enough followers to make a quorum
-- with it.
pub record OnQuorum (s : ℕ) (l : Leader) (ctx : PaxosSharedContext) : Type 0 where
  pub own : s ≤ ctx.last_log_slot
  pub others : get_quorum_size ctx ≤ count_if (λ m. leb s m) (match_slots l) + 1

-- A score board for all the peers, of which there are at least one and fewer than `usize` can count.
pub record HasBoard (l : Leader) (ctx : PaxosSharedContext) : Type 0 where
  pub complete : length l.score_board ≡ length ctx.peer_ids
  pub inhabited : 0 < length ctx.peer_ids
  pub countable : length ctx.peer_ids < 9223372036854775808
  pub rises : IsMap l.score_board

length-values : {V : Type 0} (m : Map V) → length (values m) ≡ length m
length-values [] = refl
length-values ((k, v) ∷ m) = ap suc (length-values m)

length-map_values : {V W : Type 0} (f : V → W) (m : Map V) → length (map_values f m) ≡ length m
length-map_values f [] = refl
length-map_values f ((k, v) ∷ m) = ap suc (length-map_values f m)

length-match_slots : (l : Leader) → length (sort_desc (match_slots l)) ≡ length l.score_board
length-match_slots l =
    length-sort_desc (match_slots l)
    ∙ length-values (map_values (λ (fs : FollowerState). fs.log_position.match_slot) l.score_board)
    ∙ length-map_values (λ (fs : FollowerState). fs.log_position.match_slot) l.score_board

-- `quorum_size - 1` and `quorum_size - 2` do not wrap.
quorum_less_one :
    (l : Leader) (ctx : PaxosSharedContext)
    → HasBoard l ctx
    → (sub_usize (get_quorum_size ctx) 1 + 1 ≡ get_quorum_size ctx)
      × (sub_usize (get_quorum_size ctx) 1 ≤ length l.score_board)
      × (sub_usize (get_quorum_size ctx) 2 + 2 ≡ get_quorum_size ctx)
unfolding get_quorum_size
quorum_less_one l ctx h = ground arith

-- The lowest of some slots and the leader's own is reached by all of them, and nothing higher is.
lowest_reached :
    (xs : List ℕ) (own : ℕ) (o : Option ℕ)
    → IsMinimum (xs ++ own ∷ []) o
    → let s = elim o as (λ x. ℕ) [ none ↦ 0 | some slot ↦ slot ] in
      (s ≤ own) × All (λ x. s ≤ x) xs × ((b : ℕ) → b ≤ own → All (λ x. b ≤ x) xs → b ≤ s)
lowest_reached [] own none h = cc
lowest_reached (x ∷ xs) own none h = cc
lowest_reached xs own (some s) h =
    let (reached, last) = All-split (λ x. s ≤ x) xs (own ∷ []) h.1 in
    (
      last.0,
      reached,
      λ b le above.
          Member-All (λ x. b ≤ x) s _ (All-append (λ x. b ≤ x) xs (own ∷ []) above (le, tt)) h.0,
    )

-- With all the peers on the leader's board, `min_quorum_slot` is the highest slot that a quorum has.
pub min_quorum_slot-OnQuorum :
    (l : Leader) (ctx : PaxosSharedContext)
    → HasBoard l ctx
    → OnQuorum (Leader.min_quorum_slot l ctx) l ctx
      × ((s : ℕ) → OnQuorum s l ctx → s ≤ Leader.min_quorum_slot l ctx)
unfolding Leader.min_quorum_slot
min_quorum_slot-OnQuorum l ctx h =
    let k = sub_usize (get_quorum_size ctx) 1 in
    let sorted = sort_desc (match_slots l) in
    let (own, reached, best) =
      lowest_reached (take k sorted) ctx.last_log_slot _
        (min?-IsMinimum (take k sorted ++ ctx.last_log_slot ∷ [])) in
    let (less, enough, _) = quorum_less_one l ctx h in
    let slot = Leader.min_quorum_slot l ctx in
    (
      record {
        own = own;
        others = omega (
          arith,
          count_if-take k slot sorted (omega (arith, length-match_slots l)) reached,
          count_if-sort_desc (λ m. leb slot m) (match_slots l),
        );
      },
      λ s q. best s q.own (
          take-count_if k s sorted (sort_desc-Falls (match_slots l))
            (omega (arith, q.others, count_if-sort_desc (λ m. leb s m) (match_slots l)))),
    )

-- The followers in contact at `t` or later make a quorum with the leader.
abbrev pub QuorumContact : DateTime → Leader → PaxosSharedContext → Type 0
QuorumContact t l ctx = get_quorum_size ctx ≤ count_if (λ c. leb t c) (values l.last_contact) + 1

-- What `renew_lease` may do to the lease: nothing, or to move it later, to the lease's length past a
-- time at which a quorum was in contact. Nothing else of the context changes.
pub data Renews (l : Leader) (ctx ctx' : PaxosSharedContext) : Type 0 where
  kept : ctx' ≡ ctx → Renews l ctx ctx'
  renewed :
      (t : DateTime)
      → QuorumContact t l ctx
      → ((old : DateTime) → ctx.lease.expiry ≡ some old → old < t + ctx.lease_length)
      → ctx' ≡ update_leader_lease_expiry_time (t + ctx.lease_length) ctx
      → Renews l ctx ctx'

propose_expiry-Renews :
    (l : Leader) (ctx : PaxosSharedContext) (t : DateTime) (old : Option DateTime)
    → ctx.lease.expiry ≡ old
    → QuorumContact t l ctx
    → Renews l ctx (Leader.propose_expiry (t + ctx.lease_length) old ctx)
unfolding Leader.propose_expiry
propose_expiry-Renews l ctx t none e q = renewed t q (λ o h. cc) refl
propose_expiry-Renews l ctx t (some old) e q = elim (Bool-cases (ltb old (t + ctx.lease_length))) [
  | inl later ↦ rw later (renewed t q (λ o h. ground (arith, later)) refl)
  | inr sooner ↦ rw sooner (kept refl)
]

-- How the renewal ends: with such a context, or with a panic if a time at which a quorum was in
-- contact lies so late that the lease would end past the times that chrono has.
abbrev pub RenewsTo : Leader → PaxosSharedContext → Result PaxosSharedContext → Type 0
RenewsTo l ctx (ok ctx') = Renews l ctx ctx'
RenewsTo l ctx (err why) = ⊥
RenewsTo l ctx panic = (t : DateTime) × QuorumContact t l ctx × (max_utc < t + ctx.lease_length)

proposed-RenewsTo :
    (l : Leader) (ctx : PaxosSharedContext) (t : DateTime)
    → QuorumContact t l ctx
    → RenewsTo l ctx (do
      proposed ← add_time t ctx.lease_length
      ok (Leader.propose_expiry proposed ctx.lease.expiry ctx))
proposed-RenewsTo l ctx t q = elim (Bool-cases (leb (t + ctx.lease_length) max_utc)) [
  | inl fits ↦
      rw (add_time-ok t ctx.lease_length (omega (tests, fits)))
        (propose_expiry-Renews l ctx t ctx.lease.expiry refl q)
  | inr over ↦
      rw (add_time-panic t ctx.lease_length (omega (tests, over))) (t, q, omega (tests, over))
]

-- With all the peers on its board, the leader's lease is never shortened, and is only extended to the
-- lease's length past a time at which a quorum was in contact; the renewal panics only if such a time
-- is within the lease's length of the last one that chrono has.
pub renew_lease-RenewsTo :
    (l : Leader) (ctx : PaxosSharedContext)
    → HasBoard l ctx
    → RenewsTo l ctx (Leader.renew_lease l ctx)
unfolding Leader.renew_lease
renew_lease-RenewsTo l ctx h =
    go (get_elem? (sort_desc (values l.last_contact)) (sub_usize (get_quorum_size ctx) 2)) refl
  where
    go :
        (o : Option DateTime)
        → get_elem? (sort_desc (values l.last_contact)) (sub_usize (get_quorum_size ctx) 2) ≡ o
        → RenewsTo l ctx (elim o [
          | none ↦ ok ctx
          | some t ↦ (do
            proposed ← add_time t ctx.lease_length
            ok (Leader.propose_expiry proposed ctx.lease.expiry ctx))
        ])
    go none e = kept refl
    go (some t) e = proposed-RenewsTo l ctx t (
        omega (
          arith,
          quorum_less_one l ctx h,
          count_if-get_elem? (sort_desc (values l.last_contact)) _ t
              (sort_desc-Falls (values l.last_contact)) e,
          count_if-sort_desc (λ c. leb t c) (values l.last_contact),
        ))

pub renew_lease-Renews :
    (l : Leader) (ctx ctx' : PaxosSharedContext)
    → HasBoard l ctx
    → Leader.renew_lease l ctx ≡ ok ctx'
    → Renews l ctx ctx'
renew_lease-Renews l ctx ctx' h e = subst (RenewsTo l ctx) e (renew_lease-RenewsTo l ctx h)
