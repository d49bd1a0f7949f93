-- ===== src/Store/Targets.antt =====
-- Which destinations are targeted, and with which cycle (src/core/state.rs). The rows that
-- `ensure_config` writes to the configuration's own tables are not read by these operations.
use auto_sync.Prelude.{
  ℕ, Bool, true, false, not, ◌&&◌, Option, none, some, List, [], ◌∷◌, map, if◌then◌else◌, Text,
  bytes_eq, ltb, exists_row, select_rows, first_row, insert_new_row, codes,
}
use auto_sync.Schedule.Boundary.{ScheduleMode, ScheduleConfig, Calendar, cycle_is_due}
use auto_sync.Store.Tables.{Cycle, Offset, Store}
use auto_sync.Store.Cycles.{
  alone, ensure_open_cycle, current_open_cycle, close_current_cycle_for_source,
  clear_cycle_needs_rescan, close_cycle, as_closed,
}
use auto_sync.Store.Events.{cycle_has_actionable_events, source_events_quiesced}
use auto_sync.Store.Offsets.{set_destination_target, destination_offset, offset_of, new_offset}

pub record DestinationConfig : Type 0 where
  pub id : Text
  pub enabled : Bool
  pub paused : Bool
  pub schedule : ScheduleConfig

pub record SourceGroupConfig : Type 0 where
  pub id : Text
  pub enabled : Bool
  pub destinations : List DestinationConfig

abbrev pub AppConfig : Type 0
AppConfig = List SourceGroupConfig

-- `ON CONFLICT DO NOTHING`: a row that is there stays.
unfoldable pub ensure_destination_offset : Text → Text → ℕ → Store → Store
ensure_destination_offset source_id destination_id now s = record s {
  destination_offset =
      insert_new_row (offset_of source_id destination_id)
        (new_offset source_id destination_id none none (codes "red") (codes "not_verified") now)
        s.destination_offset;
}

unfoldable pub ensure_destinations : Text → List DestinationConfig → ℕ → Store → Store
unfolding ensure_destination_offset
ensure_destinations source_id [] now s = s
ensure_destinations source_id (dst ∷ destinations) now s =
    ensure_destinations source_id destinations now
      (ensure_destination_offset source_id dst.id now s)

unfoldable pub ensure_sources : AppConfig → ℕ → Store → Store
unfolding ensure_destinations
ensure_sources [] now s = s
ensure_sources (source ∷ sources) now s =
    ensure_sources sources now (ensure_destinations source.id source.destinations now s)

-- `applied` says that the process has applied a configuration with this fingerprint last.
unfoldable pub ensure_config : AppConfig → Bool → ℕ → Store → Store
unfolding ensure_sources
ensure_config cfg applied now s = if applied then s else ensure_sources cfg now s

-- The enabled sources: an error of the database ends the loop, as in `ensure_open_cycle`.
unfoldable pub ensure_open_cycles : AppConfig → ℕ → Store → Store
unfolding ensure_open_cycle
ensure_open_cycles [] now s = s
ensure_open_cycles (source ∷ sources) now s =
    ensure_open_cycles sources now
      (if source.enabled then (ensure_open_cycle alone source.id now s).0 else s)

abbrev pub add_cycle : Option Cycle → Store × List Cycle → Store × List Cycle
add_cycle none r = r
add_cycle (some cycle) (s, cycles) = (s, cycle ∷ cycles)

abbrev pub close_open : Text → ℕ → Store → Option Cycle → Store × Option Cycle
close_open source_id now s none = (s, none)
close_open source_id now s (some cycle) = (
  (ensure_open_cycle alone source_id now (close_cycle cycle.id now s)).0,
  some (as_closed now cycle),
)

-- A turn of `close_due_cycles`: without `force` nothing is closed.
abbrev pub close_due_source : Bool → SourceGroupConfig → ℕ → Store → Store × Option Cycle
close_due_source force source now s =
    if source.enabled && force
    then close_open source.id now s (current_open_cycle source.id s)
    else (s, none)

unfoldable pub close_due_sources : Bool → AppConfig → ℕ → Store → Store × List Cycle
unfolding ensure_open_cycle close_cycle current_open_cycle
close_due_sources force [] now s = (s, [])
close_due_sources force (source ∷ sources) now s =
    let turn = close_due_source force source now s in
    add_cycle turn.1 (close_due_sources force sources now turn.0)

unfoldable pub close_due_cycles : AppConfig → Bool → Bool → ℕ → Store → Store × List Cycle
unfolding ensure_config ensure_open_cycles close_due_sources
close_due_cycles cfg applied force now s =
    close_due_sources force cfg now (ensure_open_cycles cfg now (ensure_config cfg applied now s))

-- `enabled && !paused`
unfoldable pub is_ready : DestinationConfig → Bool
is_ready dst = dst.enabled && not dst.paused

-- `<` on `Option<i64>`, where `None` comes first.
abbrev pub lt_option : Option ℕ → Option ℕ → Bool
lt_option none none = false
lt_option none (some b) = true
lt_option (some a) none = false
lt_option (some a) (some b) = ltb a b

abbrev pub is_none : Option ℕ → Bool
is_none none = true
is_none (some a) = false

-- A target that is not yet verified.
unfoldable pub in_flight : Offset → Bool
in_flight o = lt_option o.last_verified_cycle_id o.target_cycle_id

abbrev pub due_by_mode : Bool → Bool → ScheduleMode → Bool
due_by_mode has_events by_clock ScheduleMode.realtime = has_events
due_by_mode has_events by_clock ScheduleMode.daily = by_clock
due_by_mode has_events by_clock ScheduleMode.weekly = by_clock

-- `first_sync`, or else the events or the clock.
unfoldable pub is_due : Calendar → Cycle → Bool → ℕ → DestinationConfig → Offset → Bool
unfolding cycle_is_due
is_due cal cycle has_events now dst offset =
    if is_none offset.target_cycle_id && is_none offset.last_verified_cycle_id
    then true
    else due_by_mode has_events (cycle_is_due cal cycle.starts_at now dst.schedule)
        dst.schedule.mode

abbrev pub is_due_destination :
    Calendar → Text → Cycle → Bool → ℕ → Store → DestinationConfig → Bool
is_due_destination cal source_id cycle has_events now s dst =
    let offset = destination_offset source_id dst.id now s in
    is_ready dst && not (in_flight offset) && is_due cal cycle has_events now dst offset

unfoldable pub due_destinations :
    Calendar → SourceGroupConfig → Cycle → Bool → ℕ → Store → List Text
unfolding is_ready in_flight is_due destination_offset
due_destinations cal source cycle has_events now s =
    map (λ (d : DestinationConfig). d.id)
      (select_rows (is_due_destination cal source.id cycle has_events now s) source.destinations)

unfoldable pub set_targets : Text → List Text → ℕ → ℕ → Store → Store
unfolding set_destination_target
set_targets source_id [] cycle_id now s = s
set_targets source_id (destination_id ∷ ids) cycle_id now s =
    set_targets source_id ids cycle_id now
      (set_destination_target source_id destination_id cycle_id now s)

abbrev pub is_realtime : ScheduleMode → Bool
is_realtime ScheduleMode.realtime = true
is_realtime ScheduleMode.daily = false
is_realtime ScheduleMode.weekly = false

-- Every id is that of a realtime destination of the source.
abbrev pub all_realtime : SourceGroupConfig → List Text → Bool
all_realtime source [] = true
all_realtime source (id ∷ ids) =
    exists_row (λ d. bytes_eq d.id id && is_realtime d.schedule.mode) source.destinations
    && all_realtime source ids

abbrev pub target_closed :
    SourceGroupConfig → List Text → ℕ → Store × Option Cycle → Store × Option Cycle
target_closed source ids now (s, none) = (s, none)
target_closed source ids now (s, some closed) =
    let cleared =
      if not closed.needs_full_rescan && all_realtime source ids
      then clear_cycle_needs_rescan closed.id s
      else s in
    (set_targets source.id ids closed.id now cleared, some closed)

-- Without a due destination the cycle is closed once the events are quiet, and nothing is targeted.
abbrev pub close_or_target : SourceGroupConfig → Bool → ℕ → Store → List Text → Store × Option Cycle
close_or_target source has_events now s [] =
    if has_events && source_events_quiesced source.id now s
    then close_current_cycle_for_source source.id now s
    else (s, none)
close_or_target source has_events now s (id ∷ ids) =
    target_closed source (id ∷ ids) now (close_current_cycle_for_source source.id now s)

abbrev pub advance_open :
    Calendar → SourceGroupConfig → ℕ → Store → Option Cycle → Store × Option Cycle
advance_open cal source now s none = (s, none)
advance_open cal source now s (some cycle) =
    let has_events = cycle_has_actionable_events source.id cycle.id s in
    close_or_target source has_events now s (due_destinations cal source cycle has_events now s)

unfoldable pub advance_source : Calendar → SourceGroupConfig → ℕ → Store → Store × Option Cycle
unfolding current_open_cycle cycle_has_actionable_events source_events_quiesced
    close_current_cycle_for_source clear_cycle_needs_rescan set_targets due_destinations
advance_source cal source now s =
    if source.enabled
    then advance_open cal source now s (current_open_cycle source.id s)
    else (s, none)

unfoldable pub advance_sources : Calendar → AppConfig → ℕ → Store → Store × List Cycle
unfolding advance_source
advance_sources cal [] now s = (s, [])
advance_sources cal (source ∷ sources) now s =
    let turn = advance_source cal source now s in
    add_cycle turn.1 (advance_sources cal sources now turn.0)

unfoldable pub advance_due_destination_targets :
    Calendar → AppConfig → Bool → ℕ → Store → Store × List Cycle
unfolding ensure_config ensure_open_cycles advance_sources
advance_due_destination_targets cal cfg applied now s =
    advance_sources cal cfg now (ensure_open_cycles cfg now (ensure_config cfg applied now s))

abbrev pub ready_ids : SourceGroupConfig → List Text
ready_ids source = map (λ (d : DestinationConfig). d.id) (select_rows is_ready source.destinations)

abbrev pub target_all : Text → List Text → ℕ → Store × Option Cycle → Store × Option Cycle
target_all source_id ids now (s, none) = (s, none)
target_all source_id ids now (s, some cycle) =
    (set_targets source_id ids cycle.id now s, some cycle)

-- Close the source's cycle and target its destinations that are ready.
unfoldable pub force_source : SourceGroupConfig → ℕ → Store → Store × Option Cycle
unfolding is_ready set_targets close_current_cycle_for_source
force_source source now s =
    target_all source.id (ready_ids source) now (close_current_cycle_for_source source.id now s)

unfoldable pub force_sources : AppConfig → ℕ → Store → Store × List Cycle
unfolding force_source
force_sources [] now s = (s, [])
force_sources (source ∷ sources) now s =
    let turn = if source.enabled then force_source source now s else (s, none) in
    add_cycle turn.1 (force_sources sources now turn.0)

unfoldable pub force_target_all_destinations : AppConfig → Bool → ℕ → Store → Store × List Cycle
unfolding ensure_config ensure_open_cycles force_sources
force_target_all_destinations cfg applied now s =
    force_sources cfg now (ensure_open_cycles cfg now (ensure_config cfg applied now s))

abbrev pub find_source : Text → AppConfig → Option SourceGroupConfig
find_source source_id cfg = first_row (select_rows (λ g. bytes_eq g.id source_id && g.enabled) cfg)

abbrev pub force_found : ℕ → Store → Option SourceGroupConfig → Store × Option Cycle
force_found now s none = (s, none)
force_found now s (some source) = force_source source now s

unfoldable pub force_target_source : AppConfig → Bool → Text → ℕ → Store → Store × Option Cycle
unfolding ensure_config ensure_open_cycles force_source
force_target_source cfg applied source_id now s =
    force_found now (ensure_open_cycles cfg now (ensure_config cfg applied now s))
      (find_source source_id cfg)

abbrev pub force_one : Text → ℕ → Store → Option SourceGroupConfig → Store × Option Cycle
force_one destination_id now s none = (s, none)
force_one destination_id now s (some source) =
    if exists_row (λ d. bytes_eq d.id destination_id && d.enabled) source.destinations
    then target_all source.id (destination_id ∷ []) now
        (close_current_cycle_for_source source.id now s)
    else (s, none)

-- A paused destination is not passed over here.
unfoldable pub force_target_destination :
    AppConfig → Bool → Text → Text → ℕ → Store → Store × Option Cycle
unfolding ensure_config ensure_open_cycles set_targets close_current_cycle_for_source
force_target_destination cfg applied source_id destination_id now s =
    force_one destination_id now (ensure_open_cycles cfg now (ensure_config cfg applied now s))
      (find_source source_id cfg)
