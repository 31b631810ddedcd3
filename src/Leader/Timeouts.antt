-- ===== src/Leader/Timeouts.antt =====
-- spx_core/src/roles/leader.rs: the check for accept requests that have got no answer in time.
use spanner_paxos.Leader
use spanner_paxos.Base.{
  All, All-append, Bool-cases, List, Member, [], arith, false, here, inl, inr, ltb, refl, some,
  tests, true, ℕ, ◌++◌, ◌-◌, ◌∷◌, ◌≡◌, ◌≤◌, ◌⊎◌,
}
use spanner_paxos.Leader.{FollowerState, InFlightBatch, Leader}
use spanner_paxos.Map.{Map, lookup, map_values}
use spanner_paxos.Messages.{Uuid}
use spanner_paxos.TrueTime.{DateTime}

-- The batches of a follower, each sent no later than those behind it.
abbrev pub IsOldestFirst : List InFlightBatch → Type 0
IsOldestFirst [] = Unit {0}
IsOldestFirst (b ∷ bs) = All (λ (c : InFlightBatch). b.sent_at ≤ c.sent_at) bs × IsOldestFirst bs

abbrev pub IsInTime : DateTime → InFlightBatch → Type 0
IsInTime t b = t - b.sent_at ≤ Leader.accept_request_timeout

-- What the check makes of a follower: nothing if all of its batches are in time; if one is not, none
-- is left, and the next request begins right before the next slot.
pub data Checked (t : DateTime) (fs fs' : FollowerState) : Type 0 where
  in_time : All (IsInTime t) fs.in_flight_batches → fs' ≡ fs → Checked t fs fs'
  timed_out :
      (b : InFlightBatch)
      → Member b fs.in_flight_batches
      → ¬ IsInTime t b
      → fs'.in_flight_batches ≡ []
      → Leader.anchor_slot fs'.log_position ≡ fs.log_position.next_slot - 1
      → fs'.log_position.next_slot ≡ fs.log_position.next_slot
      → Checked t fs fs'

-- A batch that is sent no earlier than those in flight keeps them in order.
pub push_batch-IsOldestFirst :
    (slot : ℕ) (t : DateTime) (fs : FollowerState)
    → IsOldestFirst fs.in_flight_batches
    → All (λ (b : InFlightBatch). b.sent_at ≤ t) fs.in_flight_batches
    → IsOldestFirst (Leader.push_batch slot t fs).in_flight_batches
unfolding Leader.push_batch
push_batch-IsOldestFirst slot t fs h earlier = go fs.in_flight_batches h earlier
  where
    go :
        (bs : List InFlightBatch)
        → IsOldestFirst bs
        → All (λ (b : InFlightBatch). b.sent_at ≤ t) bs
        → IsOldestFirst (bs ++ record { sent_at = t; highest_slot = slot } ∷ [])
    go [] h earlier = (tt, tt)
    go (b ∷ bs) h earlier = (
      All-append (λ (c : InFlightBatch). b.sent_at ≤ c.sent_at) bs _ h.0 (earlier.0, tt),
      go bs h.1 earlier.1,
    )

-- So do acknowledgements.
pub drop_acked-IsOldestFirst :
    (acked : ℕ) (bs : List InFlightBatch)
    → IsOldestFirst bs
    → IsOldestFirst (Leader.drop_acked acked bs)
unfolding Leader.drop_acked
drop_acked-IsOldestFirst acked [] h = tt
drop_acked-IsOldestFirst acked (b ∷ bs) h = ground (arith, drop_acked-IsOldestFirst acked bs h.1)

later-IsInTime :
    (t : DateTime) (b : InFlightBatch) (bs : List InFlightBatch)
    → IsInTime t b
    → All (λ (c : InFlightBatch). b.sent_at ≤ c.sent_at) bs
    → All (IsInTime t) bs
later-IsInTime t b [] h k = tt
later-IsInTime t b (c ∷ cs) h k = (omega (arith, h, k.0), later-IsInTime t b cs h k.1)

-- The oldest batch speaks for all.
is_timed_out-cases :
    (t : DateTime) (bs : List InFlightBatch)
    → IsOldestFirst bs
    → ((Leader.is_timed_out t bs ≡ false) × All (IsInTime t) bs)
      ⊎ ((Leader.is_timed_out t bs ≡ true) × ((b : InFlightBatch) × Member b bs × ¬ IsInTime t b))
unfolding Leader.is_timed_out
is_timed_out-cases t [] h = inl (refl, tt)
is_timed_out-cases t (b ∷ bs) h =
    elim (Bool-cases (ltb Leader.accept_request_timeout (t - b.sent_at))) [
      | inl late ↦ inr (late, (b, here, λ fits. omega (tests, late, fits)))
      | inr punctual ↦
          let fits : IsInTime t b = omega (tests, punctual) in
          inl (punctual, (fits, later-IsInTime t b bs fits h.0))
    ]

expire_batches-Checked :
    (t : DateTime) (fs : FollowerState)
    → IsOldestFirst fs.in_flight_batches
    → Checked t fs (Leader.expire_batches t fs)
unfolding Leader.expire_batches Leader.clear_in_flight_batches Leader.anchor_slot
expire_batches-Checked t fs h = elim (is_timed_out-cases t fs.in_flight_batches h) [
  | inl (punctual, fit) ↦ rw punctual (in_time fit refl)
  | inr (late, (b, waits, over)) ↦ rw late (timed_out b waits over refl (ground arith) refl)
]

lookup-map_values :
    {V W : Type 0} (f : V → W) (k : ℕ) (v : V) (m : Map V)
    → lookup k m ≡ some v
    → lookup k (map_values f m) ≡ some (f v)
unfolding lookup
lookup-map_values f k v [] e = cc
lookup-map_values f k v ((j, w) ∷ m) e = ground (arith, lookup-map_values f k v m)

-- If the batches of a follower are in the order in which they were sent, the check, which looks at
-- the oldest one only, leaves the follower as it is exactly if all of its batches are in time, and
-- otherwise forgets them all, with the next request to begin right before the next slot again.
pub handle_accept_timeout_check-Checked :
    (t : DateTime) (l : Leader) (member : Uuid) (fs : FollowerState)
    → lookup member l.score_board ≡ some fs
    → IsOldestFirst fs.in_flight_batches
    → (fs' : FollowerState) × (lookup member (Leader.handle_accept_timeout_check t l).score_board
        ≡ some fs')
      × Checked t fs fs'
unfolding Leader.handle_accept_timeout_check
handle_accept_timeout_check-Checked t l member fs known h = (
  Leader.expire_batches t fs,
  lookup-map_values (Leader.expire_batches t) member fs l.score_board known,
  expire_batches-Checked t fs h,
)
