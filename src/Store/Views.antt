-- ===== src/Store/Views.antt =====
-- What the user sees of a destination, and the rows of destinations that are no longer configured
-- (src/core/state.rs).
use auto_sync.Prelude.{
  Bool, not, ◌&&◌, ◌||◌, Option, none, some, List, [], ◌∷◌, if◌then◌else◌, Text, codes, bytes_eq,
  exists_row, select_rows, delete_rows,
}
use auto_sync.Store.Tables.{Offset, Issue, Store}
use auto_sync.Store.Offsets.{offset_of, issue_of}
use auto_sync.Store.Targets.{AppConfig, lt_option, is_none}

abbrev pub is_known : AppConfig → Offset → Bool
is_known cfg o =
    exists_row
      (λ g.
        bytes_eq g.id o.source_id
        && exists_row (λ d. bytes_eq d.id o.destination_id) g.destinations)
      cfg

abbrev pub add_name : Option Text → List Text → List Text
add_name none names = names
add_name (some name) names = name ∷ names

abbrev pub orphan_snapshots : List Offset → List Text
orphan_snapshots [] = []
orphan_snapshots (o ∷ removed) =
    add_name o.last_verified_dst_snapshot_name (orphan_snapshots removed)

unfoldable pub delete_offsets : List Offset → List Offset → List Offset
delete_offsets [] rows = rows
delete_offsets (o ∷ removed) rows =
    delete_offsets removed (delete_rows (offset_of o.source_id o.destination_id) rows)

-- The store, and the snapshots to remove on the destinations.
unfoldable pub prune_removed_destination_offsets : AppConfig → Store → Store × List Text
unfolding delete_offsets
prune_removed_destination_offsets cfg s =
    let removed = select_rows (λ o. not (is_known cfg o)) s.destination_offset in
    (
      record s { destination_offset = delete_offsets removed s.destination_offset },
      orphan_snapshots removed,
    )

abbrev pub is_source_changing : Issue → Bool
is_source_changing i = bytes_eq i.issue_kind (codes "source_changing")

-- The status in `destination_views`, from the stored row and the issues.
unfoldable pub computed_status : Bool → Offset → Text
computed_status has_source_changing o =
    if has_source_changing
    then codes "yellow"
    else if bytes_eq o.status (codes "green")
        && not (is_none o.target_cycle_id)
        && not (lt_option o.last_verified_cycle_id o.target_cycle_id)
    then codes "green"
    else if bytes_eq o.status (codes "yellow")
    then codes "yellow"
    else codes "red"

abbrev pub is_waiting_reason : Text → Bool
is_waiting_reason reason =
    bytes_eq reason (codes "not_verified")
    || bytes_eq reason (codes "pending_target_cycle")
    || bytes_eq reason (codes "verified")

unfoldable pub computed_reason : Bool → Offset → Text
computed_reason has_source_changing o =
    if has_source_changing
    then codes "source_changing"
    else if not (is_none o.target_cycle_id)
        && lt_option o.last_verified_cycle_id o.target_cycle_id
        && is_waiting_reason o.status_reason
    then codes "behind_target_cycle"
    else o.status_reason

unfoldable pub has_source_changing : Text → Text → Store → Bool
has_source_changing source_id destination_id s =
    exists_row is_source_changing
      (select_rows (issue_of source_id destination_id) s.destination_issue)
