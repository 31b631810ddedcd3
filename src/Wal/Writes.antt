-- ===== src/Wal/Writes.antt =====
-- spx_lib/src/write_ahead_log/wal.rs: the log as a partial function from slots to entries, and the
-- invariant of its map.
use spanner_paxos.Wal
use spanner_paxos.Base.{
  List, Option, [], arith, if◌then◌else◌, ltb, none, refl, some, suc, ℕ, ◌<◌, ◌==◌, ◌∙◌, ◌∷◌, ◌≡◌,
}
use spanner_paxos.Map.{IsMap, Map, Rises, below, from, insert, lookup, values}
use spanner_paxos.Map.Laws.{
  below-Rises, from-Rises, insert-Rises, lookup-below, lookup-from, lookup-insert,
}
use spanner_paxos.Wal.{LogEntry, WriteAheadLog}

-- Every entry stands at its own slot.
abbrev pub IsKeyed : Map LogEntry → Type 0
IsKeyed [] = Unit {0}
IsKeyed ((k, e) ∷ m) = (e.slot ≡ k) × IsKeyed m

pub record IsLog (w : WriteAheadLog) : Type 0 where
  pub rises : IsMap w.entries
  pub keyed : IsKeyed w.entries

pub insert-IsKeyed : (e : LogEntry) (m : Map LogEntry) → IsKeyed m → IsKeyed (insert e.slot e m)
unfolding insert
insert-IsKeyed e [] h = (refl, tt)
insert-IsKeyed e ((k, x) ∷ m) h = ground (arith, insert-IsKeyed e m)

below-IsKeyed : (k : ℕ) (m : Map LogEntry) → IsKeyed m → IsKeyed (below k m)
unfolding below
below-IsKeyed k [] h = tt
below-IsKeyed k ((j, x) ∷ m) h = ground (arith, below-IsKeyed k m)

pub new-IsLog : IsLog Wal.new
unfolding Wal.new
new-IsLog = record { rises = tt; keyed = tt }

pub append-IsLog : (e : LogEntry) (w : WriteAheadLog) → IsLog w → IsLog (Wal.append e w)
unfolding Wal.append
append-IsLog e w h = record {
  rises = insert-Rises 0 e.slot e w.entries (omega arith) h.rises;
  keyed = insert-IsKeyed e w.entries h.keyed;
}

pub truncate_from-IsLog :
    (slot : ℕ) (w : WriteAheadLog) → IsLog w → IsLog (Wal.truncate_from slot w)
unfolding Wal.truncate_from
truncate_from-IsLog slot w h = record {
  rises = below-Rises 0 slot w.entries h.rises;
  keyed = below-IsKeyed slot w.entries h.keyed;
}

pub get-append :
    (e : LogEntry) (w : WriteAheadLog) (j : ℕ)
    → Wal.get j (Wal.append e w) ≡ (if e.slot == j then some e else Wal.get j w)
unfolding Wal.get Wal.append
get-append e w j = lookup-insert e.slot j e w.entries

pub get-truncate_from :
    (slot : ℕ) (w : WriteAheadLog) (j : ℕ)
    → Wal.get j (Wal.truncate_from slot w) ≡ (if ltb j slot then Wal.get j w else none)
unfolding Wal.get Wal.truncate_from
get-truncate_from slot w j = lookup-below slot j w.entries

-- The entry that a run of writes of these entries leaves at a slot: the last of them that has it.
abbrev pub last_at : ℕ → List LogEntry → Option LogEntry
last_at j [] = none
last_at j (e ∷ es) = elim (last_at j es) [
  | some x ↦ some x
  | none ↦ if e.slot == j then some e else none
]

last_at_above :
    (j n : ℕ) (m : Map LogEntry) → Rises n m → IsKeyed m → j < n → last_at j (values m) ≡ none
last_at_above j n [] r k h = refl
last_at_above j n ((i, e) ∷ m) r k h = ground (arith, last_at_above j (suc i) m r.1 k.1)

-- The entries from a slot on, seen as writes, are the log from that slot on.
pub last_at-values :
    (j n : ℕ) (m : Map LogEntry) → Rises n m → IsKeyed m → last_at j (values m) ≡ lookup j m
unfolding lookup
last_at-values j n [] r k = refl
last_at-values j n ((i, e) ∷ m) r k =
    ground (arith, last_at-values j (suc i) m r.1 k.1, last_at_above j (suc i) m r.1 k.1)

from-IsKeyed : (k : ℕ) (m : Map LogEntry) → IsKeyed m → IsKeyed (from k m)
unfolding from
from-IsKeyed k [] h = tt
from-IsKeyed k ((j, x) ∷ m) h = ground (arith, from-IsKeyed k m)

pub from-IsLog :
    (k : ℕ) (m : Map LogEntry)
    → IsLog (record { entries = m })
    → IsLog (record { entries = from k m })
from-IsLog k m h = record { rises = from-Rises 0 k m h.rises; keyed = from-IsKeyed k m h.keyed }

pub last_at-get_entries_from :
    (slot : ℕ) (w : WriteAheadLog) (j : ℕ)
    → IsLog w
    → last_at j (Wal.get_entries_from slot w) ≡ (if ltb j slot then none else Wal.get j w)
unfolding Wal.get_entries_from Wal.get
last_at-get_entries_from slot w j h =
    last_at-values j 0 (from slot w.entries) (from-Rises 0 slot w.entries h.rises)
      (from-IsKeyed slot w.entries h.keyed)
    ∙ lookup-from slot j w.entries
