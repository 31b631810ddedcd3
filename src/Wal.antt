-- ===== src/Wal.antt =====
-- spx_lib/src/write_ahead_log/wal.rs: the in-memory log of one member, and its queries by term.
pub mod Queries
pub mod Writes
use spanner_paxos.Base.{
  Bool, List, Option, String, [], false, if◌then◌else◌, max?, min?, none, some, suc, true, zero, ℕ,
  ◌==◌, ◌∷◌,
}
use spanner_paxos.Map.{Map, below, from, insert, lookup, values}
use spanner_paxos.TrueTime.{DateTime}

pub record LogEntry : Type 0 where
  pub term : ℕ
  pub slot : ℕ
  pub entry : String
  pub timestamp : DateTime

pub record WriteAheadLog : Type 0 where
  pub entries : Map LogEntry

unfoldable pub new : WriteAheadLog
new = record { entries = [] }

unfoldable pub append : LogEntry → WriteAheadLog → WriteAheadLog
append e w = record { entries = insert e.slot e w.entries }

unfoldable pub get : ℕ → WriteAheadLog → Option LogEntry
get slot w = lookup slot w.entries

unfoldable pub has_entry : ℕ → WriteAheadLog → Bool
unfolding get
has_entry slot w = elim (get slot w) [ none ↦ false | some e ↦ true ]

unfoldable pub get_term : ℕ → WriteAheadLog → Option ℕ
unfolding get
get_term slot w = elim (get slot w) [ none ↦ none | some e ↦ some e.term ]

unfoldable pub get_entries_from : ℕ → WriteAheadLog → List LogEntry
get_entries_from slot w = values (from slot w.entries)

unfoldable pub truncate_from : ℕ → WriteAheadLog → WriteAheadLog
truncate_from slot w = record { entries = below slot w.entries }

-- `iter().filter(|(_, e)| e.term == term).map(|(slot, _)| *slot)`
unfoldable pub slots_for_term : ℕ → Map LogEntry → List ℕ
slots_for_term term [] = []
slots_for_term term ((slot, e) ∷ m) =
    if e.term == term then slot ∷ slots_for_term term m else slots_for_term term m

unfoldable pub find_highest_slot_for_term : ℕ → WriteAheadLog → Option ℕ
unfolding slots_for_term max?
find_highest_slot_for_term term w = max? (slots_for_term term w.entries)

unfoldable pub find_lowest_slot_for_term : ℕ → WriteAheadLog → Option ℕ
unfolding slots_for_term min?
find_lowest_slot_for_term term w = min? (slots_for_term term w.entries)

-- The loop of `find_highest_anchor`, which `checked_sub(1)` ends below term 0.
unfoldable pub find_highest_anchor : ℕ → WriteAheadLog → Option (ℕ × ℕ)
find_highest_anchor zero w = elim (find_highest_slot_for_term zero w) [
  | none ↦ none
  | some slot ↦ some (zero, slot)
]
find_highest_anchor (suc term) w =
    let rest = find_highest_anchor term w in
    elim (find_highest_slot_for_term (suc term) w) [
      | none ↦ rest
      | some slot ↦ some (suc term, slot)
    ]
