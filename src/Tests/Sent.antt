-- ===== src/Tests/Sent.antt =====
-- Messages that are sent, with the codec that writes ids in tallies.
use spanner_paxos.Base.{[], ok, some, ◌+◌, ◌∷◌, ◌≡◌, ◌≤◌}
use spanner_paxos.Messages.{AcceptRequest, VoteResponse, promise}
use spanner_paxos.Proto.{
  accept_request_from_proto, accept_request_to_proto, vote_response_from_proto,
  vote_response_to_proto,
}
use spanner_paxos.Proto.RoundTrips.{
  accept_request_from_proto-to_proto, sent_outcome, sent_request, vote_response_from_proto-to_proto,
}
use spanner_paxos.Tests.{entry_at, noon}
use spanner_paxos.Tests.Tallies.{tally_codec, tally_codec-ParsesIds}

abbrev beat : AcceptRequest
beat = record {
  term = 2;
  leader_id = 3;
  prev_log_slot = 1;
  prev_log_term = 1;
  entries = record { term = 2; slot = 2; entry = "put"; timestamp = noon + 1 } ∷ [];
  leader_commit_slot = 1;
  t_send = noon + 7;
  min_next_ts = some (noon + 9);
}

accept_request_from_proto-to_proto_example :
    (accept_request_from_proto tally_codec (accept_request_to_proto tally_codec beat)
      ≡ ok (sent_request beat))
    × (noon ≤ noon + 7)
accept_request_from_proto-to_proto_example =
    accept_request_from_proto-to_proto tally_codec tally_codec-ParsesIds beat

abbrev promised : VoteResponse
promised = record {
  member_id = 2;
  term = 5;
  outcome =
      promise
        (record { last_log_term = 2; last_log_slot = 3; uncommitted_entries = entry_at 2 3 ∷ [] });
}

vote_response_from_proto-to_proto_example :
    vote_response_from_proto tally_codec (vote_response_to_proto tally_codec promised)
    ≡ ok (record promised { outcome = sent_outcome promised.outcome })
vote_response_from_proto-to_proto_example =
    vote_response_from_proto-to_proto tally_codec tally_codec-ParsesIds promised
