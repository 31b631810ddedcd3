-- ===== src/Proto/RoundTrips.antt =====
-- spx_app/src/grpc/util/proto_conversions: what a message is after it has been sent.
use spanner_paxos.Base.{
  List, Option, [], ap, arith, map, none, ok, refl, some, ◌*◌, ◌/◌, ◌∷◌, ◌≡◌, ◌≤◌,
}
use spanner_paxos.Messages.{
  AcceptLogEntry, AcceptRequest, Uuid, VoteOutcome, VoteResponse, promise, rejection,
}
use spanner_paxos.Proto.{
  UuidCodec, accept_log_entry_from_proto, accept_log_entry_to_proto, accept_request_from_proto,
  accept_request_to_proto, log_entry_from_proto, log_entry_to_proto, map_option, millis_to_datetime,
  outcome_from_proto, outcome_to_proto, parse_id, parse_ids, timestamp_millis,
  vote_response_from_proto, vote_response_to_proto,
}
use spanner_paxos.TrueTime.{DateTime, millisecond, unix_epoch}
use spanner_paxos.Wal.{LogEntry}

-- What `Uuid::parse_str` makes of a text that `Uuid::to_string` has made.
abbrev pub ParsesIds : UuidCodec → Type 0
ParsesIds codec = (id : Uuid) → codec.parse_str (codec.to_string id) ≡ some id

-- The last whole millisecond up to a time.
abbrev pub whole_millisecond : DateTime → DateTime
whole_millisecond t = t / millisecond * millisecond

abbrev pub sent_entry : AcceptLogEntry → AcceptLogEntry
sent_entry e = record e { timestamp = whole_millisecond e.timestamp }

-- An accept request with all its times cut to whole milliseconds.
abbrev pub sent_request : AcceptRequest → AcceptRequest
sent_request r = record r {
  entries = map sent_entry r.entries;
  t_send = whole_millisecond r.t_send;
  min_next_ts = map_option whole_millisecond r.min_next_ts;
}

abbrev pub sent_log_entry : LogEntry → LogEntry
sent_log_entry e = record e { timestamp = unix_epoch }

-- An outcome of a vote with the timestamps of the promised entries gone.
abbrev pub sent_outcome : VoteOutcome → VoteOutcome
sent_outcome (promise p) =
    promise (record p { uncommitted_entries = map sent_log_entry p.uncommitted_entries })
sent_outcome (rejection j) = rejection j

entries-sent :
    (es : List AcceptLogEntry)
    → map accept_log_entry_from_proto (map accept_log_entry_to_proto es) ≡ map sent_entry es
unfolding accept_log_entry_from_proto accept_log_entry_to_proto timestamp_millis millis_to_datetime
entries-sent [] = refl
entries-sent (e ∷ es) = ap (◌∷◌ (sent_entry e)) (entries-sent es)

min_next_ts-sent :
    (ts : Option DateTime)
    → map_option millis_to_datetime (map_option timestamp_millis ts)
      ≡ map_option whole_millisecond ts
unfolding timestamp_millis millis_to_datetime
min_next_ts-sent none = refl
min_next_ts-sent (some t) = refl

log_entries-sent :
    (es : List LogEntry)
    → map log_entry_from_proto (map log_entry_to_proto es) ≡ map sent_log_entry es
unfolding log_entry_from_proto log_entry_to_proto
log_entries-sent [] = refl
log_entries-sent (e ∷ es) = ap (◌∷◌ (sent_log_entry e)) (log_entries-sent es)

module _ (codec : UuidCodec) (parses : ParsesIds codec) where
  pub parse_ids-to_string :
      (id : Option Uuid) → parse_ids codec (map_option codec.to_string id) ≡ ok id
  unfolding parse_ids parse_id
  parse_ids-to_string none = refl
  parse_ids-to_string (some id) = rw (parses id) refl

  -- An accept request arrives as it was sent, but with its times cut to whole milliseconds, so that
  -- none of them is later than the one that was sent.
  pub accept_request_from_proto-to_proto :
      (r : AcceptRequest)
      → (accept_request_from_proto codec (accept_request_to_proto codec r) ≡ ok (sent_request r))
        × ((sent_request r).t_send ≤ r.t_send)
  unfolding accept_request_from_proto accept_request_to_proto parse_id timestamp_millis
      millis_to_datetime
  accept_request_from_proto-to_proto r = (
    rw (parses r.leader_id, entries-sent r.entries, min_next_ts-sent r.min_next_ts) refl,
    omega arith,
  )

  outcome-sent :
      (o : VoteOutcome)
      → outcome_from_proto codec (some (outcome_to_proto codec o)) ≡ ok (sent_outcome o)
  unfolding outcome_from_proto outcome_to_proto
  outcome-sent (promise p) = rw (log_entries-sent p.uncommitted_entries) refl
  outcome-sent (rejection j) =
      rw (parse_ids-to_string j.current_leader_id, parse_ids-to_string j.voted_for_id) refl

  -- A vote response arrives as it was sent, except that every entry of a promise has the Unix epoch
  -- as its timestamp.
  pub vote_response_from_proto-to_proto :
      (r : VoteResponse)
      → vote_response_from_proto codec (vote_response_to_proto codec r)
        ≡ ok (record r { outcome = sent_outcome r.outcome })
  unfolding vote_response_from_proto vote_response_to_proto parse_id
  vote_response_from_proto-to_proto r = rw (parses r.member_id, outcome-sent r.outcome) refl
