-- ===== src/Store/Tables.antt =====
-- The tables of src/core/state.rs. A table is the list of its rows in the order of insertion, and
-- `AUTOINCREMENT` is a counter beside it; when a cycle or an event was written is left out. Times
-- are numbers: the texts in the database are RFC 3339 in UTC, which sort as the times do. Beside
-- the tables stand the changes that the notifier has yet to send (src/core/peer_notify.rs), which
-- the statements mark.
use auto_sync.Prelude.{
  ℕ, ◌+◌, Bool, Option, List, [], ◌∷◌, ◌++◌, Text, codes, bytes_eq, ◌&&◌, exists_row, if◌then◌else◌,
}

pub record Cycle : Type 0 where
  pub id : ℕ
  pub source_id : Text
  pub starts_at : ℕ
  pub ends_at : Option ℕ
  pub status : Text
  pub needs_full_rescan : Bool
  pub manual_full_rescan : Bool
  pub manual_changed_since_rescan : Bool

-- A row of `event_log`.
pub record Event : Type 0 where
  pub event_id : ℕ
  pub source_id : Text
  pub cycle_id : ℕ
  pub observed_at : ℕ
  pub raw_mask : ℕ
  pub event_kind : Text
  pub rel_path : Option Text
  pub rescan_required : Bool

-- A row of `destination_offset`.
pub record Offset : Type 0 where
  pub source_id : Text
  pub destination_id : Text
  pub target_cycle_id : Option ℕ
  pub last_completed_cycle_id : Option ℕ
  pub last_verified_cycle_id : Option ℕ
  pub last_verified_snapshot_name : Option Text
  pub last_verified_dst_snapshot_name : Option Text
  pub status : Text
  pub status_reason : Text
  pub updated_at : ℕ

-- A row of `destination_issue`.
pub record Issue : Type 0 where
  pub source_id : Text
  pub destination_id : Text
  pub cycle_id : ℕ
  pub rel_path : Text
  pub issue_kind : Text
  pub message : Text
  pub updated_at : ℕ

pub record SourceMeta : Type 0 where
  pub source_id : Text
  pub last_event_observed_at : Option ℕ
  pub restart_notice_at : Option ℕ
  pub restart_gap_started : Option ℕ

pub record Store : Type 0 where
  pub sync_cycle : List Cycle
  pub next_cycle_id : ℕ
  pub event_log : List Event
  pub next_event_id : ℕ
  pub destination_offset : List Offset
  pub destination_issue : List Issue
  pub source_meta : List SourceMeta
  pub changed_sources : List Text
  pub status_epoch : ℕ

abbrev pub open_status : Text
open_status = codes "open"

abbrev pub closed_status : Text
closed_status = codes "closed"

unfoldable pub is_open : Cycle → Bool
is_open cycle = bytes_eq cycle.status open_status

-- `WHERE source_id=?1 AND status='open'`
unfoldable pub is_open_of : Text → Cycle → Bool
unfolding is_open
is_open_of source_id cycle = bytes_eq cycle.source_id source_id && is_open cycle

-- A set is the list of its members.
abbrev pub insert_source : Text → List Text → List Text
insert_source source_id sources =
    if exists_row (λ t. bytes_eq t source_id) sources then sources else sources ++ source_id ∷ []

unfoldable pub mark_local_change : Text → Store → Store
mark_local_change source_id s = record s {
  changed_sources = insert_source source_id s.changed_sources;
  status_epoch = s.status_epoch + 1;
}
