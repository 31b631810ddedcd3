-- ===== src/Wal/Queries.antt =====
-- spx_lib/src/write_ahead_log/wal.rs: what the queries by term return.
use spanner_paxos.Wal
use spanner_paxos.Base.{
  Bool-cases, IsMaximum, IsMinimum, Member, Member-All, Member-cons, Option, [], arith, here, inl,
  inr, leb, max?, max?-IsMaximum, min?, min?-IsMinimum, none, some, suc, tests, there, true, zero,
  ℕ, ◌==◌, ◌∷◌, ◌≡◌, ◌≤◌,
}
use spanner_paxos.Map.{Map, Rises, lookup}
use spanner_paxos.Wal.{LogEntry, WriteAheadLog}
use spanner_paxos.Wal.Writes.{IsLog}

-- The slot holds an entry of the term.
abbrev pub HasTerm : ℕ → ℕ → WriteAheadLog → Type 0
HasTerm slot term w = Wal.get_term slot w ≡ some term

abbrev pub IsHighestSlot : ℕ → WriteAheadLog → Option ℕ → Type 0
IsHighestSlot term w none = (slot : ℕ) → ¬ HasTerm slot term w
IsHighestSlot term w (some best) =
    HasTerm best term w × ((slot : ℕ) → HasTerm slot term w → slot ≤ best)

abbrev pub IsLowestSlot : ℕ → WriteAheadLog → Option ℕ → Type 0
IsLowestSlot term w none = (slot : ℕ) → ¬ HasTerm slot term w
IsLowestSlot term w (some best) =
    HasTerm best term w × ((slot : ℕ) → HasTerm slot term w → best ≤ slot)

abbrev log_of : Map LogEntry → WriteAheadLog
log_of m = record { entries = m }

Member-HasTerm :
    (term n slot : ℕ) (m : Map LogEntry)
    → Rises n m
    → Member slot (Wal.slots_for_term term m)
    → HasTerm slot term (log_of m) × (n ≤ slot)
unfolding Wal.slots_for_term Wal.get_term Wal.get lookup
Member-HasTerm term n slot [] r h = elim h [ ]
Member-HasTerm term n slot ((k, e) ∷ m) r h = elim (Bool-cases (e.term == term)) [
  | inl same ↦ elim (Member-cons (rw same at h)) [
    | inl first ↦ ground arith
    | inr later ↦ ground (arith, Member-HasTerm term (suc k) slot m r.1 later)
  ]
  | inr other ↦ ground (arith, Member-HasTerm term (suc k) slot m r.1 (rw other at h))
]

HasTerm-Member :
    (term slot : ℕ) (m : Map LogEntry)
    → HasTerm slot term (log_of m)
    → Member slot (Wal.slots_for_term term m)
unfolding Wal.slots_for_term Wal.get_term Wal.get lookup
HasTerm-Member term slot [] h = cc
HasTerm-Member term slot ((k, e) ∷ m) h = elim (Bool-cases (k == slot)) [
  | inl first ↦
      let same : (e.term == term) ≡ true = ground arith in
      let place : slot ≡ k = ground arith in rw (same, place) here
  | inr later ↦
      let rest = HasTerm-Member term slot m (ground arith) in
      elim (Bool-cases (e.term == term)) [
        | inl same ↦ rw same (there rest)
        | inr other ↦ rw other rest
      ]
]

not_member :
    (term slot : ℕ) (w : WriteAheadLog)
    → Wal.slots_for_term term w.entries ≡ []
    → ¬ HasTerm slot term w
not_member term slot w e h = elim (rw e at (HasTerm-Member term slot w.entries h)) [ ]

-- On a well-formed log `find_highest_slot_for_term` finds the highest slot that holds an entry of the term, and nothing
-- only if no slot does.
pub find_highest_slot_for_term-IsHighestSlot :
    (term : ℕ) (w : WriteAheadLog)
    → IsLog w
    → IsHighestSlot term w (Wal.find_highest_slot_for_term term w)
unfolding Wal.find_highest_slot_for_term
find_highest_slot_for_term-IsHighestSlot term w v =
    go (max? (Wal.slots_for_term term w.entries))
      (max?-IsMaximum (Wal.slots_for_term term w.entries))
  where
    go : (o : Option ℕ) → IsMaximum (Wal.slots_for_term term w.entries) o → IsHighestSlot term w o
    go none e = λ slot. not_member term slot w e
    go (some best) m = (
      (Member-HasTerm term 0 best w.entries v.rises m.0).0,
      λ slot h. Member-All (λ x. x ≤ best) slot _ m.1 (HasTerm-Member term slot w.entries h),
    )

-- On a well-formed log `find_lowest_slot_for_term` finds the lowest slot that holds an entry of the
-- term, and nothing only if no slot does.
pub find_lowest_slot_for_term-IsLowestSlot :
    (term : ℕ) (w : WriteAheadLog)
    → IsLog w
    → IsLowestSlot term w (Wal.find_lowest_slot_for_term term w)
unfolding Wal.find_lowest_slot_for_term
find_lowest_slot_for_term-IsLowestSlot term w v =
    go (min? (Wal.slots_for_term term w.entries))
      (min?-IsMinimum (Wal.slots_for_term term w.entries))
  where
    go : (o : Option ℕ) → IsMinimum (Wal.slots_for_term term w.entries) o → IsLowestSlot term w o
    go none e = λ slot. not_member term slot w e
    go (some best) m = (
      (Member-HasTerm term 0 best w.entries v.rises m.0).0,
      λ slot h. Member-All (λ x. best ≤ x) slot _ m.1 (HasTerm-Member term slot w.entries h),
    )

-- The highest term up to a bound that the log has, with the highest slot of that term.
abbrev pub IsAnchor : ℕ → WriteAheadLog → Option (ℕ × ℕ) → Type 0
IsAnchor bound w none = (term slot : ℕ) → term ≤ bound → ¬ HasTerm slot term w
IsAnchor bound w (some (best, best_slot)) =
    (best ≤ bound)
    × HasTerm best_slot best w
    × ((slot : ℕ) → HasTerm slot best w → slot ≤ best_slot)
    × ((term slot : ℕ) → term ≤ bound → HasTerm slot term w → term ≤ best)

same_term : {a b : ℕ} (slot : ℕ) (w : WriteAheadLog) → a ≡ b → HasTerm slot a w → HasTerm slot b w
same_term slot w e h = rw e at h

IsAnchor-zero :
    (w : WriteAheadLog) (o : Option ℕ)
    → IsHighestSlot 0 w o
    → IsAnchor 0 w (elim o [ none ↦ none | some slot ↦ some (0, slot) ])
IsAnchor-zero w none h =
    λ term slot le k. h slot (same_term {a = term} {b = 0} slot w (omega arith) k)
IsAnchor-zero w (some slot) h = (omega arith, h.0, h.1, λ term s le k. le)

IsAnchor-suc :
    (bound : ℕ) (w : WriteAheadLog) (o : Option ℕ) (rest : Option (ℕ × ℕ))
    → IsHighestSlot (suc bound) w o
    → IsAnchor bound w rest
    → IsAnchor (suc bound) w (elim o [ none ↦ rest | some slot ↦ some (suc bound, slot) ])
IsAnchor-suc bound w (some slot) rest h r = (omega arith, h.0, h.1, λ term s le k. le)
IsAnchor-suc bound w none none h r = λ term slot le k. elim (Bool-cases (leb term bound)) [
  | inl low ↦ r term slot (omega tests) k
  | inr top ↦ h slot (same_term {a = term} {b = suc bound} slot w (omega tests) k)
]
IsAnchor-suc bound w none (some (best, best_slot)) h r = (
  omega arith,
  r.1,
  r.2,
  λ term slot le k. elim (Bool-cases (leb term bound)) [
    | inl low ↦ r.3 term slot (omega tests) k
    | inr top ↦ absurd (h slot (same_term {a = term} {b = suc bound} slot w (omega tests) k))
  ],
)

-- On a well-formed log `find_highest_anchor` ends, and finds that anchor: nothing only if no term up
-- to the bound is in the log.
find_highest_anchor-IsAnchor :
    (bound : ℕ) (w : WriteAheadLog) → IsLog w → IsAnchor bound w (Wal.find_highest_anchor bound w)
unfolding Wal.find_highest_anchor
find_highest_anchor-IsAnchor zero w v =
    IsAnchor-zero w _ (find_highest_slot_for_term-IsHighestSlot 0 w v)
find_highest_anchor-IsAnchor (suc bound) w v =
    IsAnchor-suc bound w _ _ (find_highest_slot_for_term-IsHighestSlot (suc bound) w v)
      (find_highest_anchor-IsAnchor bound w v)
