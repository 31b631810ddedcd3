-- ===== src/Follower/Ballots.antt =====
-- spx_core/src/roles/follower.rs and util.rs: the state of a follower, pre-votes and votes.
use spanner_paxos.Base.{
  Option, Result, false, if◌then◌else◌, leb, ltb, none, not, ok, some, true, ℕ, ◌>>=◌,
}
use spanner_paxos.Context.{
  PaxosSharedContext, extend_leader_lease_expiry_time, is_leader_lease_expired,
}
use spanner_paxos.CountDownClock.{CountDownClock, clock_new}
use spanner_paxos.Map.{values}
use spanner_paxos.Messages.{
  PaxosEvent, PreVoteRequest, PreVoteResponse, Uuid, VoteRequest, VoteResponse, prevote_leader,
  promise, rejection, vote_leader,
}
use spanner_paxos.TrueTime.{Clock, DateTime}

pub record VoteRecord : Type 0 where
  pub term : ℕ
  pub candidate_id : Uuid

pub record Follower : Type 0 where
  pub current_leader_id : Option Uuid
  pub vote_record : Option VoteRecord
  pub election_cd_clock : CountDownClock PaxosEvent

unfoldable pub new : Option Uuid → Follower
new leader = record {
  current_leader_id = leader;
  vote_record = none;
  election_cd_clock = clock_new;
}

unfoldable pub update_current_leader_id : Uuid → Follower → Follower
update_current_leader_id leader f = record f { current_leader_id = some leader }

abbrev prevote_rejected : PaxosSharedContext → Option Uuid → Option ℕ → Option ℕ → PreVoteResponse
prevote_rejected ctx leader log_term log_slot = record {
  member_id = ctx.member_id;
  term = ctx.term;
  vote_granted = false;
  current_leader_id = leader;
  member_last_log_term = log_term;
  member_last_log_slot = log_slot;
}

-- `util::handle_pre_vote_request`, which a pre-candidate and a candidate use; `leader` is `None`
-- there. A follower has the same tests after that of its lease.
unfoldable pub answer_pre_vote : Option Uuid → PreVoteRequest → PaxosSharedContext → PreVoteResponse
answer_pre_vote leader request ctx =
    if leb request.next_term ctx.term
    then prevote_rejected ctx leader none none
    else if ltb request.last_log_term ctx.term
    then prevote_rejected ctx leader (some ctx.last_log_term) none
    else if ltb request.last_log_slot ctx.last_log_slot
    then prevote_rejected ctx leader (some ctx.last_log_term) (some ctx.last_log_slot)
    else record {
      member_id = ctx.member_id;
      term = ctx.term;
      vote_granted = true;
      current_leader_id = none;
      member_last_log_term = none;
      member_last_log_slot = none;
    }

unfoldable pub util_handle_pre_vote_request : PreVoteRequest → PaxosSharedContext → PreVoteResponse
util_handle_pre_vote_request request ctx = answer_pre_vote none request ctx

unfoldable pub handle_pre_vote_request :
    DateTime → Follower → PreVoteRequest → PaxosSharedContext → PreVoteResponse
handle_pre_vote_request t f request ctx =
    if is_leader_lease_expired t ctx
    then answer_pre_vote f.current_leader_id request ctx
    else prevote_rejected ctx f.current_leader_id none none

abbrev pub vote_rejected :
    PaxosSharedContext → Option Uuid → Option ℕ → Option ℕ → Option Uuid → VoteResponse
vote_rejected ctx leader log_term log_slot voted_for = record {
  member_id = ctx.member_id;
  term = ctx.term;
  outcome = rejection (record {
    current_leader_id = leader;
    member_last_log_term = log_term;
    member_last_log_slot = log_slot;
    voted_for_id = voted_for;
  });
}

abbrev pub vote_promised : PaxosSharedContext → VoteResponse
vote_promised ctx = record {
  member_id = ctx.member_id;
  term = ctx.term;
  outcome = promise (record {
    last_log_term = ctx.last_log_term;
    last_log_slot = ctx.last_log_slot;
    uncommitted_entries = values ctx.uncommitted_logs;
  });
}

-- The vote that already binds this follower against the request, if any.
unfoldable pub binding_vote : ℕ → Option VoteRecord → Option Uuid
binding_vote term none = none
binding_vote term (some v) = if leb term v.term then some v.candidate_id else none

-- `handle_vote_request` after the test of the vote record. The readings are those of the test of
-- the lease and of its extension.
unfoldable pub weigh_vote_request :
    Clock
    → Follower
    → VoteRequest
    → PaxosSharedContext
    → Result (VoteResponse × Follower × PaxosSharedContext)
weigh_vote_request clock f request ctx =
    if not (is_leader_lease_expired (clock 0) ctx)
    then ok (vote_rejected ctx f.current_leader_id none none none, f, ctx)
    else if leb request.term ctx.term
    then ok (vote_rejected ctx f.current_leader_id none none none, f, ctx)
    else if ltb request.last_log_term ctx.last_log_term
    then ok (vote_rejected ctx f.current_leader_id (some ctx.last_log_term) none none, f, ctx)
    else if ltb request.last_log_slot ctx.last_log_slot
    then ok (
      vote_rejected ctx f.current_leader_id (some ctx.last_log_term) (some ctx.last_log_slot) none,
      f,
      ctx,
    )
    else do
      ctx' ← extend_leader_lease_expiry_time (clock 1) ctx
      ok (
        vote_promised ctx,
        record f {
          vote_record = some (record { term = request.term; candidate_id = request.member_id });
        },
        ctx',
      )

unfoldable pub handle_vote_request :
    Clock
    → Follower
    → VoteRequest
    → PaxosSharedContext
    → Result (VoteResponse × Follower × PaxosSharedContext)
handle_vote_request clock f request ctx = elim (binding_vote request.term f.vote_record) [
  | some candidate ↦ ok (vote_rejected ctx f.current_leader_id none none (some candidate), f, ctx)
  | none ↦ weigh_vote_request clock f request ctx
]

-- `self.update_current_leader_id(leader_id)` after `let Some(leader_id) = … else { return; }`.
unfoldable pub follow_reported : Option Uuid → Follower → Follower
follow_reported none f = f
follow_reported (some id) f = update_current_leader_id id f

unfoldable pub handle_pre_vote_response :
    DateTime → Follower → PreVoteResponse → PaxosSharedContext → Follower
handle_pre_vote_response t f response ctx =
    if ltb response.term ctx.term
    then f
    else if not (is_leader_lease_expired t ctx)
    then f
    else follow_reported (prevote_leader response (λ received. leb ctx.term received)) f

unfoldable pub handle_vote_response :
    DateTime → Follower → VoteResponse → PaxosSharedContext → Follower
handle_vote_response t f response ctx =
    if ltb response.term ctx.term
    then f
    else if not (is_leader_lease_expired t ctx)
    then f
    else follow_reported (vote_leader response (λ received. leb ctx.term received)) f
