-- ===== src/Candidate/Pending.antt =====
-- spx_core/src/roles/candidate.rs: the entries that a candidate collects, and those that it hands to
-- the context, are maps from slots to the entries of those slots.
use spanner_paxos.Candidate
use spanner_paxos.Wal
use spanner_paxos.Base.{
  >>=-eq-ok, Bool-cases, List, [], arith, expect, inl, inr, leb, ok, some, subst, ℕ, ◌==◌, ◌∷◌, ◌≡◌,
}
use spanner_paxos.Candidate.{Candidate}
use spanner_paxos.Candidate.Recovery.{flush_one, merge_one}
use spanner_paxos.Context.{PaxosSharedContext}
use spanner_paxos.Context.Progress.{Extends, Extends-logs}
use spanner_paxos.Map.{Map, insert, lookup}
use spanner_paxos.Messages.{VoteOutcome, VotePromise, VoteResponse, promise, rejection}
use spanner_paxos.Wal.{LogEntry}
use spanner_paxos.Wal.Writes.{IsKeyed, IsLog, append-IsLog}

merge_one-IsLog :
    (e : LogEntry) (logs : Map LogEntry)
    → IsLog (record { entries = logs })
    → IsLog (record { entries = merge_one e logs })
unfolding Wal.append
merge_one-IsLog e logs h = elim (Bool-cases (Candidate.should_insert e (lookup e.slot logs))) [
  | inl put ↦ rw put (append-IsLog e (record { entries = logs }) h)
  | inr left ↦ rw left h
]

merge_logs-IsLog :
    (es : List LogEntry) (logs : Map LogEntry)
    → IsLog (record { entries = logs })
    → IsLog (record { entries = Candidate.merge_logs es logs })
unfolding Candidate.merge_logs
merge_logs-IsLog [] logs h = h
merge_logs-IsLog (e ∷ es) logs h = merge_logs-IsLog es (merge_one e logs) (merge_one-IsLog e logs h)

flush_one-IsLog :
    (committed : ℕ) (e : LogEntry) (logs : Map LogEntry)
    → IsLog (record { entries = logs })
    → IsLog (record { entries = flush_one committed e.slot e logs })
flush_one-IsLog committed e logs h = elim (Bool-cases (leb e.slot committed)) [
  | inl old ↦ rw old h
  | inr new ↦ rw new (merge_one-IsLog e logs h)
]

flush_logs-IsLog :
    (committed : ℕ) (pending logs : Map LogEntry)
    → IsKeyed pending
    → IsLog (record { entries = logs })
    → IsLog (record { entries = Candidate.flush_logs committed pending logs })
unfolding Candidate.flush_logs
flush_logs-IsLog committed [] logs k h = h
flush_logs-IsLog committed ((slot, e) ∷ pending) logs k h =
    flush_logs-IsLog committed pending _ k.1 (
      subst (λ at. IsLog (record { entries = flush_one committed at e logs })) k.0
        (flush_one-IsLog committed e logs h))

-- The entries that a candidate has collected are a map from slots to the entries of those slots.
abbrev pub HasPending : Candidate → Type 0
HasPending c = IsLog (record { entries = c.pending_uncommitted_logs })

seed_score-pending :
    (member slot : ℕ) (c c' : Candidate)
    → Candidate.seed_score member slot c ≡ ok c'
    → c'.pending_uncommitted_logs ≡ c.pending_uncommitted_logs
unfolding Candidate.seed_score
seed_score-pending member slot c c' e =
    let (pos, found, rest) = >>=-eq-ok (expect (lookup member c.score_board)) _ e in
    ground (arith, rest)

record_promise-HasPending :
    (member : ℕ) (p : VotePromise) (c c' : Candidate) (ctx : PaxosSharedContext)
    → HasPending c
    → Candidate.record_promise member p c ctx ≡ ok c'
    → HasPending c'
unfolding Candidate.record_promise
record_promise-HasPending member p c c' ctx h e =
    let merged = merge_logs-IsLog p.uncommitted_entries c.pending_uncommitted_logs h in
    elim (Bool-cases (p.last_log_term == ctx.last_log_term)) [
      | inl same ↦ rw (seed_score-pending member _ _ c' (rw same at e)) merged
      | inr other ↦
          let q : c'.pending_uncommitted_logs
              ≡ Candidate.merge_logs p.uncommitted_entries c.pending_uncommitted_logs =
            ground (arith, other) in
          rw q merged
    ]

pub record_response-HasPending :
    (response : VoteResponse) (c c' : Candidate) (ctx : PaxosSharedContext)
    → HasPending c
    → Candidate.record_response response c ctx ≡ ok c'
    → HasPending c'
unfolding Candidate.record_response
record_response-HasPending response c c' ctx h e = go response.outcome e
  where
    go :
        (o : VoteOutcome)
        → (elim o [
          | promise p ↦
              Candidate.record_promise response.member_id p
                (record c { vote_board = insert response.member_id (some response) c.vote_board })
                ctx
          | rejection j ↦
              ok (record c { vote_board = insert response.member_id (some response) c.vote_board })
        ])
          ≡ ok c'
        → HasPending c'
    go (promise p) q = record_promise-HasPending response.member_id p _ c' ctx h q
    go (rejection j) q =
        let same : c'.pending_uncommitted_logs ≡ c.pending_uncommitted_logs = ground (arith, q) in
        rw same h

pub flush_uncommitted_logs-Extends :
    (c : Candidate) (ctx : PaxosSharedContext)
    → HasPending c
    → Extends ctx (Candidate.flush_uncommitted_logs c ctx)
unfolding Candidate.flush_uncommitted_logs
flush_uncommitted_logs-Extends c ctx h =
    Extends-logs ctx ctx.wal _ ctx.last_log_slot ctx.last_log_term (λ w u. w)
      (flush_logs-IsLog ctx.committed_slot c.pending_uncommitted_logs ctx.uncommitted_logs h.keyed)
