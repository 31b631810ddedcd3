-- ===== src/Tests/Logs.antt =====
-- The log, the clocks and a candidate's recovery, at concrete inputs.
use spanner_paxos.Candidate
use spanner_paxos.Base.{List, [], arith, false, none, some, true, ℕ, ◌+◌, ◌<◌, ◌∷◌, ◌≡◌, ◌≤◌}
use spanner_paxos.Candidate.{Candidate}
use spanner_paxos.Candidate.Recovery.{IsMerged, lookup-flush_uncommitted_logs, merge_logs-IsMerged}
use spanner_paxos.CountDownClock.{CountDownClock, fixed, polled, slept, wake}
use spanner_paxos.CountDownClock.Task.{AtMostOnce, posted-AtMostOnce}
use spanner_paxos.Map.{insert, lookup}
use spanner_paxos.Messages.{vote_campaign_expired}
use spanner_paxos.Tests.{entry_at, keyed, log_3, member_with, noon, ticking}
use spanner_paxos.TrueTime.{after, commit_wait}
use spanner_paxos.TrueTime.Wait.{commit_wait-ends}
use spanner_paxos.Wal.{LogEntry}

-- Ten milliseconds on, the uncertainty of seven is over.
commit_wait_example :
    (j : ℕ) × (commit_wait 20 ticking 0 noon ≡ some j)
    × (j ≤ 0 + 10)
    × (after noon (ticking j) ≡ true)
    × ((k : ℕ) → 0 ≤ k → k < j → after noon (ticking k) ≡ false)
commit_wait_example = commit_wait-ends 20 ticking 0 noon 10 (omega arith) (omega arith)

abbrev heartbeat_clock : CountDownClock ℕ
heartbeat_clock = record {
  reset_notify = true;
  token_cancelled = false;
  is_running = true;
  task = some (fixed 8000, 7);
}

-- The first sleep is cut short by the reset that is stored, the second one is slept through.
posted_example : AtMostOnce heartbeat_clock (7 ∷ [])
unfolding wake
posted_example = posted-AtMostOnce (slept ∷ polled ∷ slept ∷ slept ∷ []) heartbeat_clock

abbrev promised : List LogEntry
promised = entry_at 1 2 ∷ entry_at 3 2 ∷ entry_at 2 4 ∷ []

merge_logs_example :
    IsMerged promised
      (keyed log_3)
      (keyed (entry_at 1 1 ∷ entry_at 3 2 ∷ entry_at 2 3 ∷ entry_at 2 4 ∷ []))
unfolding Candidate.merge_logs Candidate.should_insert lookup insert
merge_logs_example = merge_logs-IsMerged promised (keyed log_3)

abbrev winning : Candidate
winning = record {
  vote_board = (2, none) ∷ (3, none) ∷ [];
  score_board = [];
  vote_dispatch_time = some noon;
  vote_cd_clock = record {
    reset_notify = false;
    token_cancelled = false;
    is_running = true;
    task = some (fixed 3000, vote_campaign_expired);
  };
  pending_uncommitted_logs = keyed (entry_at 3 2 ∷ entry_at 1 3 ∷ entry_at 2 4 ∷ []);
}

flush_uncommitted_logs_example :
    lookup 2
      (Candidate.flush_uncommitted_logs winning (member_with 1 3 noon log_3 2 3)).uncommitted_logs
    ≡ some (entry_at 3 2)
unfolding lookup
flush_uncommitted_logs_example =
    lookup-flush_uncommitted_logs winning (member_with 1 3 noon log_3 2 3) 2 (omega arith)
