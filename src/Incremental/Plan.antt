-- ===== src/Incremental/Plan.antt =====
-- `event_incremental_plan` (src/core/sync/mod.rs), over the operations of the state store.
use auto_sync.Prelude.{
  ℕ, Bool, ◌||◌, Option, none, some, List, [], ◌∷◌, if◌then◌else◌, Text, Result, ok, err, ◌>>=◌,
  exists_row, select_rows, get_elem?,
}
use auto_sync.Paths.Components.{PathError, normalize_rel_path, rel_to_string, join}
use auto_sync.Store.Tables.{Cycle, Event, Store, insert_source}
use auto_sync.Store.Events.{events_between_cycles, is_present}
use auto_sync.Store.Offsets.{destination_last_verified}
use auto_sync.Store.Targets.{SourceGroupConfig, DestinationConfig}

-- `full` is a pass without a plan; `unusable` names the events' paths as its reason; `failed` is an
-- error, or a destination that does not exist.
pub data IncrementalPlan : Type 0 where
  full : IncrementalPlan
  unusable : IncrementalPlan
  failed : IncrementalPlan
  apply : List (ℕ × List Text) → IncrementalPlan

-- What the loop over a destination's events gives.
pub data EventPaths : Type 0 where
  found : List Text → EventPaths
  missing : EventPaths
  invalid_path : EventPaths

unfoldable pub event_rel : Text → Result PathError Text
unfolding normalize_rel_path rel_to_string join
event_rel rel_path = do parts ← normalize_rel_path rel_path; rel_to_string (join parts)

abbrev pub add_rel : EventPaths → Result PathError Text → EventPaths
add_rel (found paths) (ok rel) = found (insert_source rel paths)
add_rel (found paths) (err e) = invalid_path
add_rel other rel = other

abbrev pub add_event : EventPaths → Option Text → EventPaths
add_event paths (some rel_path) = add_rel paths (event_rel rel_path)
add_event (found paths) none = missing
add_event other none = other

-- The first event that gives no path ends the loop.
unfoldable pub event_paths : EventPaths → List Event → EventPaths
unfolding event_rel
event_paths paths [] = paths
event_paths paths (event ∷ events) = event_paths (add_event paths event.rel_path) events

abbrev pub is_actionable : Event → Bool
is_actionable event = is_present event.rel_path || event.rescan_required

-- The plan of one destination before those of the others.
abbrev pub add_plan : ℕ → EventPaths → IncrementalPlan → IncrementalPlan
add_plan dst_index missing rest = unusable
add_plan dst_index invalid_path rest = failed
add_plan dst_index (found paths) (apply plans) = apply ((dst_index, paths) ∷ plans)
add_plan dst_index (found paths) rest = rest

abbrev pub plan_events : ℕ → List Event → IncrementalPlan → IncrementalPlan
plan_events dst_index events rest =
    if exists_row (λ e. e.rescan_required) events
    then full
    else add_plan dst_index (event_paths (found []) events) rest

abbrev pub plan_since : Text → ℕ → ℕ → Store → IncrementalPlan → Option ℕ → IncrementalPlan
plan_since source_id cycle_id dst_index s rest none = full
plan_since source_id cycle_id dst_index s rest (some last_verified) =
    plan_events dst_index
      (select_rows is_actionable (events_between_cycles source_id last_verified cycle_id s)) rest

abbrev pub plan_destination :
    Text → ℕ → ℕ → Store → IncrementalPlan → Option DestinationConfig → IncrementalPlan
plan_destination source_id cycle_id dst_index s rest none = failed
plan_destination source_id cycle_id dst_index s rest (some dst) =
    plan_since source_id cycle_id dst_index s rest (destination_last_verified source_id dst.id s)

-- The loop over the destinations; the sets of paths are in the order of their events here.
unfoldable pub plan_loop : SourceGroupConfig → ℕ → List ℕ → Store → IncrementalPlan
unfolding event_paths events_between_cycles destination_last_verified
plan_loop source cycle_id [] s = apply []
plan_loop source cycle_id (dst_index ∷ ready) s =
    plan_destination source.id cycle_id dst_index s (plan_loop source cycle_id ready s)
      (get_elem? source.destinations dst_index)

unfoldable pub event_incremental_plan : SourceGroupConfig → Cycle → List ℕ → Store → IncrementalPlan
unfolding plan_loop
event_incremental_plan source cycle [] s = full
event_incremental_plan source cycle (dst_index ∷ ready) s =
    let plan = plan_loop source cycle.id (dst_index ∷ ready) s in
    if cycle.manual_full_rescan then full else if cycle.needs_full_rescan then full else plan
