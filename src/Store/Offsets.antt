-- ===== src/Store/Offsets.antt =====
-- The destinations' progress and their issues (src/core/state.rs).
use auto_sync.Prelude.{
  ℕ, Bool, ◌&&◌, Option, none, some, List, [], ◌∷◌, if◌then◌else◌, Text, codes, bytes_eq,
  select_rows, update_rows, delete_rows, upsert_row, first_row,
}
use auto_sync.Store.Tables.{Offset, Issue, Store, mark_local_change, insert_source}

abbrev pub offset_of : Text → Text → Offset → Bool
offset_of source_id destination_id o =
    bytes_eq o.source_id source_id && bytes_eq o.destination_id destination_id

abbrev pub issue_of : Text → Text → Issue → Bool
issue_of source_id destination_id i =
    bytes_eq i.source_id source_id && bytes_eq i.destination_id destination_id

abbrev pub new_offset : Text → Text → Option ℕ → Option ℕ → Text → Text → ℕ → Offset
new_offset source_id destination_id target verified status reason now = record {
  source_id = source_id;
  destination_id = destination_id;
  target_cycle_id = target;
  last_completed_cycle_id = verified;
  last_verified_cycle_id = verified;
  last_verified_snapshot_name = none;
  last_verified_dst_snapshot_name = none;
  status = status;
  status_reason = reason;
  updated_at = now;
}

abbrev pub coalesce : Option ℕ → Option ℕ → Option ℕ
coalesce (some a) b = some a
coalesce none b = b

unfoldable pub clear_destination_issues : Text → Text → Store → Store
clear_destination_issues source_id destination_id s = record s {
  destination_issue = delete_rows (issue_of source_id destination_id) s.destination_issue;
}

abbrev pub with_target : ℕ → ℕ → Offset → Offset
with_target target now o = record o {
  target_cycle_id = some target;
  status = codes "red";
  status_reason = codes "pending_target_cycle";
  updated_at = now;
}

unfoldable pub set_destination_target : Text → Text → ℕ → ℕ → Store → Store
unfolding clear_destination_issues mark_local_change
set_destination_target source_id destination_id target_cycle_id now s =
    let cleared = clear_destination_issues source_id destination_id s in
    mark_local_change source_id (record cleared {
      destination_offset =
          upsert_row (offset_of source_id destination_id) (with_target target_cycle_id now)
            (new_offset source_id destination_id (some target_cycle_id) none (codes "red")
              (codes "pending_target_cycle") now)
            cleared.destination_offset;
    })

unfoldable pub clear_destination_target : Text → Text → Text → ℕ → Store → Store
unfolding mark_local_change
clear_destination_target source_id destination_id reason now s =
    mark_local_change source_id (record s {
      destination_offset =
          update_rows (offset_of source_id destination_id)
            (λ o. record o {
              target_cycle_id = none;
              status = codes "red";
              status_reason = reason;
              updated_at = now;
            })
            s.destination_offset;
    })

unfoldable pub reset_destination_offset : Text → Text → Text → ℕ → Store → Store
unfolding clear_destination_issues
reset_destination_offset source_id destination_id reason now s =
    let cleared = clear_destination_issues source_id destination_id s in
    record cleared {
      destination_offset =
          upsert_row (offset_of source_id destination_id)
            (λ o. record o {
              target_cycle_id = none;
              last_completed_cycle_id = none;
              last_verified_cycle_id = none;
              last_verified_snapshot_name = none;
              last_verified_dst_snapshot_name = none;
              status = codes "red";
              status_reason = reason;
              updated_at = now;
            })
            (new_offset source_id destination_id none none (codes "red") reason now)
            cleared.destination_offset;
    }

unfoldable pub upsert_destination_status : Text → Text → Option ℕ → Text → Text → ℕ → Store → Store
unfolding mark_local_change
upsert_destination_status source_id destination_id last_verified_cycle_id status reason now s =
    mark_local_change source_id (record s {
      destination_offset =
          upsert_row (offset_of source_id destination_id)
            (λ o. record o {
              last_completed_cycle_id = coalesce last_verified_cycle_id o.last_completed_cycle_id;
              last_verified_cycle_id = coalesce last_verified_cycle_id o.last_verified_cycle_id;
              status = status;
              status_reason = reason;
              updated_at = now;
            })
            (new_offset source_id destination_id none last_verified_cycle_id status reason now)
            s.destination_offset;
    })

abbrev pub offset_or : Text → Text → ℕ → Option Offset → Offset
offset_or source_id destination_id now (some o) = o
offset_or source_id destination_id now none =
    new_offset source_id destination_id none none (codes "red") (codes "not_verified") now

-- The row, or that of a destination that was never verified.
unfoldable pub destination_offset : Text → Text → ℕ → Store → Offset
destination_offset source_id destination_id now s =
    offset_or source_id destination_id now
      (first_row (select_rows (offset_of source_id destination_id) s.destination_offset))

unfoldable pub destination_target_cycle : Text → Text → ℕ → Store → Option ℕ
unfolding destination_offset
destination_target_cycle source_id destination_id now s =
    (destination_offset source_id destination_id now s).target_cycle_id

abbrev pub verified_of : Option Offset → Option ℕ
verified_of none = none
verified_of (some o) = o.last_verified_cycle_id

unfoldable pub destination_last_verified : Text → Text → Store → Option ℕ
destination_last_verified source_id destination_id s =
    verified_of (first_row (select_rows (offset_of source_id destination_id) s.destination_offset))

abbrev pub snapshot_of : (Offset → Option Text) → Option Offset → Option Text
snapshot_of name none = none
snapshot_of name (some o) = name o

unfoldable pub destination_verified_snapshot : Text → Text → Store → Option Text
destination_verified_snapshot source_id destination_id s =
    snapshot_of (λ o. o.last_verified_snapshot_name)
      (first_row (select_rows (offset_of source_id destination_id) s.destination_offset))

unfoldable pub destination_verified_dst_snapshot : Text → Text → Store → Option Text
destination_verified_dst_snapshot source_id destination_id s =
    snapshot_of (λ o. o.last_verified_dst_snapshot_name)
      (first_row (select_rows (offset_of source_id destination_id) s.destination_offset))

unfoldable pub set_destination_verified_snapshot : Text → Text → Option Text → ℕ → Store → Store
set_destination_verified_snapshot source_id destination_id snapshot_name now s = record s {
  destination_offset =
      update_rows (offset_of source_id destination_id)
        (λ o. record o { last_verified_snapshot_name = snapshot_name; updated_at = now })
        s.destination_offset;
}

unfoldable pub set_destination_verified_dst_snapshot : Text → Text → Option Text → ℕ → Store → Store
set_destination_verified_dst_snapshot source_id destination_id snapshot_name now s = record s {
  destination_offset =
      update_rows (offset_of source_id destination_id)
        (λ o. record o { last_verified_dst_snapshot_name = snapshot_name; updated_at = now })
        s.destination_offset;
}

abbrev pub insert_name : Option Text → List Text → List Text
insert_name none names = names
insert_name (some name) names = insert_source name names

-- `SELECT DISTINCT last_verified_snapshot_name`, in no order that the code relies on.
unfoldable pub referenced : Text → List Offset → List Text
referenced source_id [] = []
referenced source_id (o ∷ offsets) =
    let rest = referenced source_id offsets in
    if bytes_eq o.source_id source_id then insert_name o.last_verified_snapshot_name rest else rest

unfoldable pub source_referenced_snapshots : Text → Store → List Text
unfolding referenced
source_referenced_snapshots source_id s = referenced source_id s.destination_offset

abbrev pub new_issue : Text → Text → ℕ → Text → Text → ℕ → Text → Issue
new_issue source_id destination_id cycle_id issue_kind message now path = record {
  source_id = source_id;
  destination_id = destination_id;
  cycle_id = cycle_id;
  rel_path = path;
  issue_kind = issue_kind;
  message = message;
  updated_at = now;
}

abbrev pub same_issue : Issue → Issue → Bool
same_issue new i =
    issue_of new.source_id new.destination_id i
    && bytes_eq i.rel_path new.rel_path
    && bytes_eq i.issue_kind new.issue_kind

abbrev pub upsert_issue : Issue → List Issue → List Issue
upsert_issue new issues =
    upsert_row (same_issue new)
      (λ i. record i {
        cycle_id = new.cycle_id;
        message = new.message;
        updated_at = new.updated_at;
      })
      new issues

unfoldable pub insert_issues : (Text → Issue) → List Text → List Issue → List Issue
insert_issues new [] issues = issues
insert_issues new (path ∷ paths) issues = insert_issues new paths (upsert_issue (new path) issues)

unfoldable pub replace_destination_issues :
    Text → Text → ℕ → Text → List Text → Text → ℕ → Store → Store
unfolding insert_issues
replace_destination_issues source_id destination_id cycle_id issue_kind paths message now s =
    record s {
      destination_issue =
          insert_issues (new_issue source_id destination_id cycle_id issue_kind message now) paths (
            delete_rows
              (λ i. issue_of source_id destination_id i && bytes_eq i.issue_kind issue_kind)
              s.destination_issue);
    }
