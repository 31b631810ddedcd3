-- ===== src/Follower/Votes.antt =====
-- spx_core/src/roles/follower.rs: what a follower's answer to a vote request depends on.
use spanner_paxos.Follower
use spanner_paxos.Base.{
  Bool-cases, Option-cases, arith, false, inl, inr, leb, ltb, none, ok, ok-inj, panic, refl, some,
  sym, tests, true, ◌+◌, ◌<◌, ◌>>=◌, ◌↔◌, ◌∙◌, ◌≡◌, ◌≤◌, ◌⊎◌,
}
use spanner_paxos.Context.{
  PaxosSharedContext, extend_leader_lease_expiry_time, is_leader_lease_expired,
}
use spanner_paxos.Context.Progress.{extend_lease-ok, extend_lease-panic, extended}
use spanner_paxos.Follower.{Follower, vote_rejected}
use spanner_paxos.Messages.{VoteRequest, VoteResponse, is_promise}
use spanner_paxos.TrueTime.{Clock, DateTime, after, max_utc, uncertainty}

-- What has to hold for a vote: nothing binds the follower, its lease has run out, the term is new,
-- and the candidate's log ends no earlier, by its term and by its slot.
pub record MayVote (t : DateTime) (f : Follower) (request : VoteRequest) (ctx : PaxosSharedContext)
    : Type 0 where
  pub unbound : Follower.binding_vote request.term f.vote_record ≡ none
  pub lease_over : is_leader_lease_expired t ctx ≡ true
  pub newer : ctx.term < request.term
  pub log_term : ctx.last_log_term ≤ request.last_log_term
  pub log_slot : ctx.last_log_slot ≤ request.last_log_slot

-- The end of the lease that a vote gives: the lease's length past the latest time at its reading.
abbrev pub vote_expiry : DateTime → PaxosSharedContext → DateTime
vote_expiry t ctx = t + uncertainty + ctx.lease_length

-- The three ways in which a vote request ends. Granted: the vote is recorded, and the lease lasts for
-- at least its length from the second reading on, so that no vote is given until then. Refused:
-- nothing changes. And a panic, if the lease would end past the times that chrono has.
pub data Voted (clock : Clock) (f : Follower) (request : VoteRequest) (ctx : PaxosSharedContext)
    : Type 0 where
  granted :
      MayVote (clock 0) f request ctx
      → vote_expiry (clock 1) ctx ≤ max_utc
      → (ctx' : PaxosSharedContext)
      → Follower.handle_vote_request clock f request ctx
        ≡ ok (
          Follower.vote_promised ctx,
          record f {
            vote_record = some (record { term = request.term; candidate_id = request.member_id });
          },
          ctx',
        )
      → ctx'
        ≡ record ctx { lease = record { expiry = some (vote_expiry (clock 1) ctx); notify = true } }
      → ((t : DateTime) → t ≤ clock 1 + ctx.lease_length → is_leader_lease_expired t ctx' ≡ false)
      → Voted clock f request ctx
  refused :
      ¬ MayVote (clock 0) f request ctx
      → (response : VoteResponse)
      → Follower.handle_vote_request clock f request ctx ≡ ok (response, f, ctx)
      → is_promise response ≡ false
      → Voted clock f request ctx
  overflows :
      MayVote (clock 0) f request ctx
      → max_utc < vote_expiry (clock 1) ctx
      → Follower.handle_vote_request clock f request ctx ≡ panic
      → Voted clock f request ctx

still_leased :
    (t t' : DateTime) (ctx : PaxosSharedContext)
    → t' ≤ t + ctx.lease_length
    → is_leader_lease_expired t' (extended t ctx) ≡ false
unfolding is_leader_lease_expired after
still_leased t t' ctx h = ground arith

module _ (clock : Clock) (f : Follower) (request : VoteRequest) (ctx : PaxosSharedContext) where
  -- With the tests passed, the extension of the lease decides.
  may_vote :
      MayVote (clock 0) f request ctx
      → Follower.handle_vote_request clock f request ctx ≡ (do
        ctx' ← extend_leader_lease_expiry_time (clock 1) ctx
        ok (
          Follower.vote_promised ctx,
          record f {
            vote_record = some (record { term = request.term; candidate_id = request.member_id });
          },
          ctx',
        ))
  unfolding Follower.handle_vote_request Follower.weigh_vote_request
  may_vote v = ground (arith, v.unbound, v.lease_over, v.newer, v.log_term, v.log_slot)

  -- They are passed, or the request is refused.
  weighed :
      MayVote (clock 0) f request ctx
      ⊎ (¬ MayVote (clock 0) f request ctx
          × ((response : VoteResponse) × (Follower.handle_vote_request clock f request ctx
                ≡ ok (response, f, ctx))
              × (is_promise response ≡ false)))
  unfolding Follower.handle_vote_request Follower.weigh_vote_request is_promise
  weighed = elim (Option-cases (Follower.binding_vote request.term f.vote_record)) [
    | inr (candidate, bound) ↦ inr (
      λ v. (let u = v.unbound in cc),
      (vote_rejected ctx f.current_leader_id none none (some candidate), ground arith, refl),
    )
    | inl unbound ↦ elim (Bool-cases (is_leader_lease_expired (clock 0) ctx)) [
      | inr holds ↦ inr (
        λ v. (let u = v.lease_over in cc),
        (vote_rejected ctx f.current_leader_id none none none, ground arith, refl),
      )
      | inl over ↦ elim (Bool-cases (leb request.term ctx.term)) [
        | inl old ↦ inr (
          λ v. omega (tests, old, v.newer),
          (vote_rejected ctx f.current_leader_id none none none, ground arith, refl),
        )
        | inr new_term ↦ elim (Bool-cases (ltb request.last_log_term ctx.last_log_term)) [
          | inl behind ↦ inr (
            λ v. omega (tests, behind, v.log_term),
            (
              vote_rejected ctx f.current_leader_id (some ctx.last_log_term) none none,
              ground arith,
              refl,
            ),
          )
          | inr level ↦ elim (Bool-cases (ltb request.last_log_slot ctx.last_log_slot)) [
            | inl brief ↦ inr (
              λ v. omega (tests, brief, v.log_slot),
              (
                vote_rejected ctx f.current_leader_id (some ctx.last_log_term)
                    (some ctx.last_log_slot) none,
                ground arith,
                refl,
              ),
            )
            | inr long ↦ inl (record {
              unbound = unbound;
              lease_over = over;
              newer = omega (tests, new_term);
              log_term = omega (tests, level);
              log_slot = omega (tests, long);
            })
          ]
        ]
      ]
    ]
  ]

  -- A vote request is granted exactly if the follower may vote: the vote is then recorded, and the
  -- lease set to its length past the latest time at the second reading, so that it has not expired
  -- at any reading up to its length past that one; nothing else changes. A refused request changes
  -- nothing. The one panic is that of a lease that would end past the times that chrono has.
  pub handle_vote_request-Voted : Voted clock f request ctx
  unfolding is_promise
  handle_vote_request-Voted = elim weighed [
    | inr (may_not, (response, answered, nay)) ↦ refused may_not response answered nay
    | inl may ↦ elim (Bool-cases (leb (vote_expiry (clock 1) ctx) max_utc)) [
      | inl fits ↦
          granted may (omega (tests, fits)) (extended (clock 1) ctx)
            (may_vote may ∙ rw (extend_lease-ok (clock 1) ctx (omega (tests, fits))) refl) refl
            (λ t h. still_leased (clock 1) t ctx h)
      | inr over ↦
          overflows may (omega (tests, over))
            (may_vote may ∙ rw (extend_lease-panic (clock 1) ctx (omega (tests, over))) refl)
    ]
  ]

  -- A promise is made exactly if the follower may vote, and every request has an answer, if the lease
  -- that a vote would give ends within the times that chrono has.
  pub is_promise-handle_vote_request :
      vote_expiry (clock 1) ctx ≤ max_utc
      → (r : VoteResponse × Follower × PaxosSharedContext) × (Follower.handle_vote_request clock f
            request ctx
          ≡ ok r)
        × ((is_promise r.0 ≡ true) ↔ MayVote (clock 0) f request ctx)
  unfolding is_promise
  is_promise-handle_vote_request fits = elim handle_vote_request-Voted [
    | granted may within ctx' e same holds ↦ (_, e, (λ h. may, λ v. refl))
    | refused may_not response e nay ↦
        (_, e, (λ h. (let clash = sym h ∙ nay in cc), λ v. absurd (may_not v)))
    | overflows may over e ↦ absurd (omega (arith, fits, over))
  ]

  -- What a request that has been answered leaves.
  pub handle_vote_request-state :
      (r : VoteResponse × Follower × PaxosSharedContext)
      → Follower.handle_vote_request clock f request ctx ≡ ok r
      → ((is_promise r.0 ≡ true)
          × (r.1 ≡ record f {
            vote_record = some (record { term = request.term; candidate_id = request.member_id });
          })
          × (r.2 ≡ extended (clock 1) ctx))
        ⊎ ((is_promise r.0 ≡ false) × (r.1 ≡ f) × (r.2 ≡ ctx))
  unfolding is_promise
  handle_vote_request-state r e = elim handle_vote_request-Voted [
    | granted may within ctx' answered same holds ↦
        let q = ok-inj (sym answered ∙ e) in rw (← q) (inl (refl, refl, same))
    | refused may_not response answered nay ↦
        let q = ok-inj (sym answered ∙ e) in rw (← q) (inr (nay, refl, refl))
    | overflows may over panics ↦ let clash = sym panics ∙ e in cc clash
  ]

  -- Once the vote is given, no later request for that term or an older one is granted, whatever has
  -- become of the context: the refusal names the candidate that has the vote, and nothing changes.
  pub handle_vote_request_once :
      (r : VoteResponse × Follower × PaxosSharedContext)
      → Follower.handle_vote_request clock f request ctx ≡ ok r
      → is_promise r.0 ≡ true
      → (later : Clock) (request' : VoteRequest) (ctx' : PaxosSharedContext)
      → request'.term ≤ request.term
      → Follower.handle_vote_request later r.1 request' ctx'
        ≡ ok (vote_rejected ctx' f.current_leader_id none none (some request.member_id), r.1, ctx')
  unfolding Follower.handle_vote_request Follower.binding_vote
  handle_vote_request_once r e voted later request' ctx' h = elim (handle_vote_request-state r e) [
    | inl (voted_for, recorded, leased) ↦ rw recorded (ground arith)
    | inr (nay, same, same_ctx) ↦ let clash = sym voted ∙ nay in cc clash
  ]

  pub refused_by_term :
      request.term ≤ ctx.term
      → (response : VoteResponse) × (Follower.handle_vote_request clock f request ctx
          ≡ ok (response, f, ctx))
        × (is_promise response ≡ false)
  refused_by_term h = elim weighed [
    | inl may ↦ absurd (omega (arith, h, may.newer))
    | inr (may_not, refusal) ↦ refusal
  ]
