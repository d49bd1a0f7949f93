-- ===== src/Store/Cycles.antt =====
-- The cycles of a source (src/core/state.rs): the statements on `sync_cycle`, and the operations
-- made of them. Statements succeed; a failing one ends the operation with the error of the database.
use auto_sync.Prelude.{
  ℕ, ◌+◌, Bool, true, false, not, ◌&&◌, ◌||◌, ◌==◌, Option, none, some, List, [], ◌∷◌, ◌++◌,
  if◌then◌else◌, Text, codes, bytes_eq, exists_row, select_rows, update_rows, newest_row, first_row,
}
use auto_sync.Store.Tables.{
  Cycle, Store, is_open, is_open_of, open_status, closed_status, mark_local_change,
}

abbrev pub new_cycle : ℕ → Text → ℕ → Cycle
new_cycle id source_id now = record {
  id = id;
  source_id = source_id;
  starts_at = now;
  ends_at = none;
  status = open_status;
  needs_full_rescan = false;
  manual_full_rescan = false;
  manual_changed_since_rescan = false;
}

-- `INSERT .. SELECT .. WHERE NOT EXISTS`: the test and the insert are one statement.
unfoldable pub insert_open_cycle : Text → ℕ → Store → Store
insert_open_cycle source_id now s =
    if exists_row (is_open_of source_id) s.sync_cycle then s else record s {
      sync_cycle = s.sync_cycle ++ new_cycle s.next_cycle_id source_id now ∷ [];
      next_cycle_id = s.next_cycle_id + 1;
    }

unfoldable pub current_open_cycle : Text → Store → Option Cycle
current_open_cycle source_id s =
    newest_row (λ c. c.id) (select_rows (is_open_of source_id) s.sync_cycle)

abbrev pub cycle_id_of : Option Cycle → Option ℕ
cycle_id_of none = none
cycle_id_of (some cycle) = some cycle.id

unfoldable pub current_open_cycle_id : Text → Store → Option ℕ
unfolding current_open_cycle
current_open_cycle_id source_id s = cycle_id_of (current_open_cycle source_id s)

-- What the other connections execute between the statements of an operation, by their place.
abbrev pub Gaps : Type 0
Gaps = ℕ → Store → Store

-- Nothing: the operation is in a transaction, or runs alone.
abbrev pub alone : Gaps
alone i s = s

abbrev pub reread : Text → Store → Store × Option ℕ
reread source_id s = (s, current_open_cycle_id source_id s)

abbrev pub found_or_insert : Gaps → Text → ℕ → Store → Option ℕ → Store × Option ℕ
found_or_insert gaps source_id starts_at s (some id) = (s, some id)
found_or_insert gaps source_id starts_at s none =
    reread source_id (gaps 1 (insert_open_cycle source_id starts_at (gaps 0 s)))

-- The store and the open cycle's id; `none` is the error of a cycle that could not be created: the
-- three statements are no transaction, and the new cycle can be closed before it is read.
unfoldable pub ensure_open_cycle : Gaps → Text → ℕ → Store → Store × Option ℕ
unfolding current_open_cycle_id insert_open_cycle
ensure_open_cycle gaps source_id starts_at s =
    found_or_insert gaps source_id starts_at s (current_open_cycle_id source_id s)

abbrev pub as_closed : ℕ → Cycle → Cycle
as_closed now cycle = record cycle { status = closed_status; ends_at = some now }

-- `UPDATE .. SET status='closed' .. WHERE id=?2 AND status='open'`
unfoldable pub close_cycle : ℕ → ℕ → Store → Store
close_cycle id now s = record s {
  sync_cycle = update_rows (λ c. c.id == id && is_open c) (as_closed now) s.sync_cycle;
}

abbrev pub close_found : Text → ℕ → Store → Option Cycle → Store × Option Cycle
close_found source_id now s none = (s, none)
close_found source_id now s (some cycle) = (
  mark_local_change source_id
      (ensure_open_cycle alone source_id now (close_cycle cycle.id now s)).0,
  some (as_closed now cycle),
)

-- The closed cycle is the one that was open, and a new one is open after it.
unfoldable pub close_current_cycle_for_source : Text → ℕ → Store → Store × Option Cycle
unfolding current_open_cycle ensure_open_cycle close_cycle mark_local_change
close_current_cycle_for_source source_id now s =
    close_found source_id now s (current_open_cycle source_id s)

unfoldable pub mark_cycle_status : ℕ → Text → Store → Store
mark_cycle_status cycle_id status s = record s {
  sync_cycle = update_rows (λ c. c.id == cycle_id) (λ c. record c { status = status }) s.sync_cycle;
}

unfoldable pub mark_cycle_needs_rescan : ℕ → Store → Store
mark_cycle_needs_rescan cycle_id s = record s {
  sync_cycle =
      update_rows (λ c. c.id == cycle_id) (λ c. record c { needs_full_rescan = true }) s.sync_cycle;
}

unfoldable pub mark_cycle_manual_full_rescan : ℕ → Store → Store
mark_cycle_manual_full_rescan cycle_id s = record s {
  sync_cycle =
      update_rows (λ c. c.id == cycle_id)
        (λ c. record c { needs_full_rescan = true; manual_full_rescan = true }) s.sync_cycle;
}

unfoldable pub mark_cycle_manual_incremental : ℕ → Store → Store
mark_cycle_manual_incremental cycle_id s = record s {
  sync_cycle =
      update_rows (λ c. c.id == cycle_id) (λ c. record c { manual_changed_since_rescan = true })
        s.sync_cycle;
}

-- Only where no manual full rescan has arrived.
unfoldable pub clear_cycle_needs_rescan : ℕ → Store → Store
clear_cycle_needs_rescan cycle_id s = record s {
  sync_cycle =
      update_rows (λ c. c.id == cycle_id && not c.manual_full_rescan)
        (λ c. record c { needs_full_rescan = false }) s.sync_cycle;
}

abbrev pub mark_found : Gaps → Store × Option ℕ → Store × Bool
mark_found gaps (s, none) = (s, false)
mark_found gaps (s, some cycle_id) = (mark_cycle_needs_rescan cycle_id (gaps 2 s), true)

-- The store, and whether the operation succeeded.
unfoldable pub mark_open_cycle_needs_rescan : Gaps → Text → ℕ → Store → Store × Bool
unfolding ensure_open_cycle mark_cycle_needs_rescan
mark_open_cycle_needs_rescan gaps source_id now s =
    mark_found gaps (ensure_open_cycle gaps source_id now s)

abbrev pub is_active : Text → Bool
is_active status =
    bytes_eq status closed_status
    || bytes_eq status (codes "planning")
    || bytes_eq status (codes "syncing")
    || bytes_eq status (codes "failed")

-- `ORDER BY id ASC`: the rows stand in the order of their ids.
unfoldable pub closed_cycles_for_source : Text → Store → List Cycle
closed_cycles_for_source source_id s =
    select_rows (λ c. bytes_eq c.source_id source_id && is_active c.status) s.sync_cycle

abbrev pub max_id : List Cycle → Option ℕ
max_id cycles = cycle_id_of (newest_row (λ c. c.id) cycles)

unfoldable pub latest_closed_cycle_id : Text → Store → Option ℕ
latest_closed_cycle_id source_id s =
    max_id (select_rows (λ c. bytes_eq c.source_id source_id && not (is_open c)) s.sync_cycle)

unfoldable pub cycle_by_id : Text → ℕ → Store → Option Cycle
cycle_by_id source_id cycle_id s =
    first_row (select_rows (λ c. bytes_eq c.source_id source_id && c.id == cycle_id) s.sync_cycle)
