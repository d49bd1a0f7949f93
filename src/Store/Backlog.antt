-- ===== src/Store/Backlog.antt =====
-- No event is lost to a destination that is behind (src/core/state.rs).
use auto_sync.Prelude.{ℕ}
use auto_sync.Store.Tables.{Event, Store}
use auto_sync.Store.Between.{Between}
use auto_sync.Store.Events.{WatcherEvent}

-- The row that `record_event` adds.
abbrev pub logged_event : WatcherEvent → ℕ → ℕ → ℕ → Event
logged_event event now event_id cycle_id = record {
  event_id = event_id;
  source_id = event.source_id;
  cycle_id = cycle_id;
  observed_at = now;
  raw_mask = event.raw_mask;
  event_kind = event.event_kind;
  rel_path = event.rel_path;
  rescan_required = event.rescan_required;
}
