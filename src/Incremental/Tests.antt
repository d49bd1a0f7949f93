-- ===== src/Incremental/Tests.antt =====
-- A destination that has verified cycle 1, and two events since.
use auto_sync.Prelude.{ℕ, ◌≡◌, refl, true, false, none, some, [], ◌∷◌, Text, codes, bytes_eq}
use auto_sync.Paths.Components.{
  normalize_rel_path, rel_to_string, components, components_of, split, piece_components,
  normal_parts, join,
}
use auto_sync.Schedule.Boundary.{ScheduleMode}
use auto_sync.Store.Tables.{Cycle, Event, Store}
use auto_sync.Store.Cycles.{new_cycle, as_closed}
use auto_sync.Store.Events.{events_between_cycles}
use auto_sync.Store.Offsets.{new_offset, destination_last_verified}
use auto_sync.Store.Targets.{SourceGroupConfig}
use auto_sync.Incremental.Plan.{event_rel, event_paths, plan_loop, event_incremental_plan}
use auto_sync.Incremental.Covered.{AllPlanned, event_incremental_plan-AllPlanned}

abbrev changed : ℕ → Text → Event
changed id path = record {
  event_id = id;
  source_id = codes "src";
  cycle_id = 2;
  observed_at = id;
  raw_mask = 2;
  event_kind = codes "modify";
  rel_path = some path;
  rescan_required = false;
}

abbrev behind : Store
behind = record {
  sync_cycle = [];
  next_cycle_id = 3;
  event_log = changed 1 (codes "d/./a") ∷ changed 2 (codes "b") ∷ changed 3 (codes "d/a") ∷ [];
  next_event_id = 4;
  destination_offset =
      new_offset (codes "src") (codes "far") (some 2) (some 1) (codes "red") (codes "x") 5 ∷ [];
  destination_issue = [];
  source_meta = [];
  changed_sources = [];
  status_epoch = 0;
}

abbrev group : SourceGroupConfig
group = record {
  id = codes "src";
  enabled = true;
  destinations =
      record {
        id = codes "far";
        enabled = true;
        paused = false;
        schedule = record {
          mode = ScheduleMode.realtime;
          time = [];
          weekday = none;
          every_weeks = 1;
          anchor_date = [];
        };
      }
      ∷ [];
}

abbrev target_cycle : Cycle
target_cycle = as_closed 9 (new_cycle 2 (codes "src") 1)

event_incremental_plan-AllPlanned_example :
    AllPlanned group 2 (0 ∷ []) behind ((0, codes "d/a" ∷ codes "b" ∷ []) ∷ [])
    × (target_cycle.needs_full_rescan ≡ false)
    × (target_cycle.manual_full_rescan ≡ false)
unfolding event_incremental_plan plan_loop event_paths event_rel events_between_cycles
    destination_last_verified normalize_rel_path rel_to_string components components_of split
    piece_components normal_parts join bytes_eq
event_incremental_plan-AllPlanned_example =
    event_incremental_plan-AllPlanned group target_cycle (0 ∷ []) behind
      ((0, codes "d/a" ∷ codes "b" ∷ []) ∷ []) refl
