-- ===== src/Store/ServiceEvents.antt =====
-- The event log and the checkpoints of internal/store/service_event.go, as its SQL reads and writes
-- them: service_events in the order of log_id, and projection_offsets by projector name.
use solana_dashboard.Common.{
  ℕ, ◌≡◌, refl, String, List, [], ◌∷◌, ◌++◌, arith, if◌then◌else◌, str_eq, eq_iff, eq_refl, take,
}
use solana_dashboard.Common.Int.{ℤ, ltb_ℤ, ◌≤ℤ◌, ◌<ℤ◌}
use solana_dashboard.Store.{ServiceEventLogEntry}

-- where log_id > $1 order by log_id asc
unfoldable pub later_than : ℤ → List ServiceEventLogEntry → List ServiceEventLogEntry
later_than after [] = []
later_than after (entry ∷ log) =
    if ltb_ℤ after entry.log_id then entry ∷ later_than after log else later_than after log

-- ListServiceEventsAfterLogID: the same, with limit $2.
unfoldable pub list_after_log_id : List ServiceEventLogEntry → ℤ → ℕ → List ServiceEventLogEntry
list_after_log_id log after limit = take limit (later_than after log)

abbrev pub Offsets : Type 0
Offsets = List (String × ℤ)

-- LoadProjectionCheckpoint: 0 where there is no row.
unfoldable pub load_offset : String → Offsets → ℤ
load_offset name [] = ℤ.pos 0
load_offset name ((key, id) ∷ rows) = if str_eq key name then id else load_offset name rows

-- SaveProjectionCheckpoint: insert, on conflict update.
unfoldable pub save_offset : String → ℤ → Offsets → Offsets
save_offset name id [] = (name, id) ∷ []
save_offset name id ((key, old) ∷ rows) =
    if str_eq key name then (key, id) ∷ rows else (key, old) ∷ save_offset name id rows

pub load_offset-save_offset :
    (name other : String) (id : ℤ) (rows : Offsets)
    → load_offset other (save_offset name id rows)
      ≡ (if str_eq name other then id else load_offset other rows)
unfolding load_offset save_offset
load_offset-save_offset name other id [] = refl
load_offset-save_offset name other id ((key, old) ∷ rows) = ground (
  arith,
  eq_iff key name,
  eq_iff key other,
  eq_iff name other,
  load_offset-save_offset name other id rows,
)

pub save_offset_twice :
    (name : String) (id id' : ℤ) (rows : Offsets)
    → save_offset name id' (save_offset name id rows) ≡ save_offset name id' rows
unfolding save_offset
save_offset_twice name id id' [] = rw (eq_refl name)
save_offset_twice name id id' ((key, old) ∷ rows) =
    ground (arith, save_offset_twice name id id' rows)

-- The rows stand in the order of their log ids, all above a bound.
abbrev pub Ascending : ℤ → List ServiceEventLogEntry → Type 0
Ascending lo [] = Unit
Ascending lo (entry ∷ log) = (lo <ℤ entry.log_id) × Ascending entry.log_id log

-- The log id of the last entry, or the one before the first.
abbrev pub final_id : ℤ → List ServiceEventLogEntry → ℤ
final_id last [] = last
final_id last (entry ∷ entries) = final_id entry.log_id entries

pub final_id-append :
    (last : ℤ) (xs ys : List ServiceEventLogEntry)
    → final_id last (xs ++ ys) ≡ final_id (final_id last xs) ys
final_id-append last [] ys = refl
final_id-append last (x ∷ xs) ys = final_id-append x.log_id xs ys

le-final_id :
    (lo : ℤ) (xs ys : List ServiceEventLogEntry) → Ascending lo (xs ++ ys) → lo ≤ℤ final_id lo xs
le-final_id lo [] ys h = omega arith
le-final_id lo (x ∷ xs) ys h = omega (arith, h.0, le-final_id x.log_id xs ys h.1)

later_than-all :
    (lo lo' : ℤ) (xs : List ServiceEventLogEntry)
    → Ascending lo' xs
    → lo ≤ℤ lo'
    → later_than lo xs ≡ xs
unfolding later_than
later_than-all lo lo' [] h l = refl
later_than-all lo lo' (x ∷ xs) (h, hs) l =
    ground (arith, later_than-all lo x.log_id xs hs (omega arith))

-- What comes after the last of the rows already read is exactly the rest of the log.
pub later_than-final_id :
    (lo : ℤ) (xs ys : List ServiceEventLogEntry)
    → Ascending lo (xs ++ ys)
    → later_than (final_id lo xs) (xs ++ ys) ≡ ys
unfolding later_than
later_than-final_id lo [] ys h = later_than-all lo lo ys h (omega arith)
later_than-final_id lo (x ∷ xs) ys (h, hs) =
    ground (arith, le-final_id x.log_id xs ys hs, later_than-final_id x.log_id xs ys hs)
