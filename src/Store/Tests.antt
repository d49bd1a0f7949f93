-- ===== src/Store/Tests.antt =====
-- A store that has closed a cycle, with two destinations: one in flight, one that is due.
use auto_sync.Prelude.{
  ◌+◌, ◌*◌, ◌/◌, ◌%◌, ◌<◌, ◌≤◌, ◌≡◌, refl, true, false, none, some, [], ◌∷◌, length, Text, codes,
  bytes_eq, arith, Memᴰ, select_rows, delete_rows, count_rows, take,
}
use auto_sync.Schedule.Boundary.{ScheduleMode, ScheduleConfig, Calendar}
use auto_sync.Store.Tables.{Cycle, Store, is_open, is_open_of}
use auto_sync.Store.Cycles.{
  new_cycle, insert_open_cycle, close_cycle, current_open_cycle, as_closed, Gaps, alone,
}
use auto_sync.Store.Ordered.{Reached}
use auto_sync.Store.OpenCycle.{one_open-Reached, current_open_cycle_newest}
use auto_sync.Store.Events.{
  WatcherEvent, record_event, cycle_has_actionable_events, prune_event_log, is_pruned,
}
use auto_sync.Store.Pruning.{prune_event_log-delete_rows}
use auto_sync.Store.Between.{Between}
use auto_sync.Store.Offsets.{set_destination_target, destination_offset, destination_target_cycle}
use auto_sync.Store.Targets.{
  SourceGroupConfig, DestinationConfig, advance_source, advance_due_destination_targets, is_ready,
  in_flight, is_due,
}
use auto_sync.Store.Advance.{offset-advance_due_destination_targets}
use auto_sync.Store.Closing.{IsReplaced}
use auto_sync.Store.Due.{target-advance_source}
use auto_sync.Store.Tasks.{
  Task, TaskLog, task_start, task_log_keep, recent_tasks, is_finished, started_task, task_start_lem,
}
use auto_sync.Store.Gap.{record_all, raise-raise_restart_notice}
use auto_sync.Store.Notices.{
  raise_restart_notice, clear_restart_notice_if_covered, restart_notice, restart_notice-clear,
}

abbrev empty_store : Store
empty_store = record {
  sync_cycle = [];
  next_cycle_id = 1;
  event_log = [];
  next_event_id = 1;
  destination_offset = [];
  destination_issue = [];
  source_meta = [];
  changed_sources = [];
  status_epoch = 0;
}

abbrev src : Text
src = codes "src"

abbrev opened : Store
unfolding insert_open_cycle is_open_of is_open bytes_eq
opened = insert_open_cycle src 10 empty_store

-- A second connection opens a cycle too, and one is closed.
abbrev closed_once : Store
unfolding insert_open_cycle close_cycle is_open_of is_open bytes_eq
closed_once = insert_open_cycle src 30 (close_cycle 1 20 (insert_open_cycle src 11 opened))

opened-Reached : Reached opened
unfolding opened
opened-Reached = Reached.inserted src 10 empty_store (Reached.created empty_store refl)

closed_once-Reached : Reached closed_once
unfolding closed_once
closed_once-Reached =
    Reached.inserted src 30 _
      (Reached.closed 1 20 _ (Reached.inserted src 11 opened opened-Reached))

one_open-Reached_example : length (select_rows (is_open_of src) closed_once.sync_cycle) ≤ 1
one_open-Reached_example = one_open-Reached closed_once src closed_once-Reached

abbrev first_cycle : Cycle
first_cycle = as_closed 20 (new_cycle 1 src 10)

abbrev second_cycle : Cycle
second_cycle = new_cycle 2 src 30

current_open_cycle_newest_example : first_cycle.id < second_cycle.id
unfolding closed_once insert_open_cycle close_cycle current_open_cycle is_open_of is_open bytes_eq
current_open_cycle_newest_example =
    current_open_cycle_newest closed_once src second_cycle first_cycle closed_once-Reached refl
      (Memᴰ.head refl) refl refl

abbrev edit : WatcherEvent
edit = record {
  source_id = src;
  raw_mask = 2;
  event_kind = codes "modify";
  rel_path = some (codes "a");
  rescan_required = false;
}

-- A closer comes between all statements: the event lands in a cycle that is closed by then.
abbrev racing : Gaps
racing i s = close_cycle 2 39 s

racing_run : (record_event racing edit 40 closed_once).1 ≡ some 1
unfolding closed_once insert_open_cycle close_cycle record_event is_open_of is_open bytes_eq
racing_run = refl

abbrev logged : Store
unfolding opened record_event is_open_of is_open bytes_eq
logged = (record_event alone edit 12 opened).0

prune_event_log-delete_rows_example :
    prune_event_log src 2 logged
    ≡ some (
      count_rows (is_pruned src 2) logged.event_log,
      record logged { event_log = delete_rows (is_pruned src 2) logged.event_log },
    )
prune_event_log-delete_rows_example = prune_event_log-delete_rows src 2 logged

pruned_run : count_rows (is_pruned src 2) logged.event_log ≡ 1
unfolding logged opened record_event is_open_of is_open bytes_eq
pruned_run = refl

abbrev any_calendar : Calendar
any_calendar = record {
  date_naive = λ t. t / 86_400;
  max_date = 95_000_000;
  local_datetime = λ date time. some (date * 86_400 + time);
  weekday = λ date. (date + 3) % 7;
  parse_date = λ text. none;
}

abbrev realtime_schedule : ScheduleConfig
realtime_schedule = record {
  mode = ScheduleMode.realtime;
  time = [];
  weekday = none;
  every_weeks = 1;
  anchor_date = [];
}

abbrev destination : Text → DestinationConfig
destination id = record { id = id; enabled = true; paused = false; schedule = realtime_schedule }

abbrev group : SourceGroupConfig
group = record {
  id = src;
  enabled = true;
  destinations = destination (codes "far") ∷ destination (codes "near") ∷ [];
}

-- `far` has a target that it has not verified.
abbrev behind : Store
unfolding logged set_destination_target bytes_eq
behind = set_destination_target src (codes "far") 1 15 logged

offset-advance_due_destination_targets_example :
    destination_offset src
      (codes "far")
      50
      (advance_due_destination_targets any_calendar (group ∷ []) false 50 behind).0
    ≡ destination_offset src (codes "far") 50 behind
unfolding behind set_destination_target destination_offset is_ready in_flight bytes_eq
offset-advance_due_destination_targets_example =
    offset-advance_due_destination_targets any_calendar src (codes "far") (group ∷ []) false 50
      behind (λ same. (λ here. refl, (λ here. cc, tt)), tt)

behind_is_reached : Reached behind
unfolding behind logged opened set_destination_target record_event is_open_of is_open bytes_eq
behind_is_reached = Reached.other opened _ opened-Reached refl refl

target-advance_source_example :
    ((advance_source any_calendar group 50 behind).1 ≡ some (as_closed 50 (new_cycle 1 src 10)))
    × (destination_target_cycle src
          (codes "near")
          50
          (advance_source any_calendar group 50 behind).0
        ≡ some 1)
    × IsReplaced src 1 (advance_source any_calendar group 50 behind).0
unfolding behind logged opened current_open_cycle set_destination_target destination_offset is_ready
    in_flight is_due record_event is_open_of is_open cycle_has_actionable_events bytes_eq
target-advance_source_example =
    target-advance_source any_calendar group 50 behind (new_cycle 1 src 10)
      (destination (codes "near")) behind_is_reached refl refl (Memᴰ.tail (Memᴰ.head refl)) refl

abbrev tasks : TaskLog
tasks = record { tasks = started_task 1 (codes "sync") src (codes "far") 5 ∷ []; next_id = 2 }

task_start_lem_example :
    (count_rows is_finished (task_start (codes "compare") src (codes "near") 9 tasks).0.tasks
      ≤ task_log_keep)
    × ((t : Task)
        → Memᴰ t tasks.tasks
        → is_finished t ≡ false
        → Memᴰ t (task_start (codes "compare") src (codes "near") 9 tasks).0.tasks)
    × (recent_tasks task_log_keep (task_start (codes "compare") src (codes "near") 9 tasks).0
        ≡ take task_log_keep (started_task 2 (codes "compare") src (codes "near") 9 ∷ tasks.tasks))
task_start_lem_example = task_start_lem (codes "compare") src (codes "near") 9 tasks

raise-raise_restart_notice_example :
    (raise_restart_notice src 80
        (record_all ((edit, 75) ∷ []) (raise_restart_notice src 70 logged).0)
      ≡ (record_all ((edit, 75) ∷ []) (raise_restart_notice src 70 logged).0, false))
    × (restart_notice src (record_all ((edit, 75) ∷ []) (raise_restart_notice src 70 logged).0)
        ≡ restart_notice src (raise_restart_notice src 70 logged).0)
raise-raise_restart_notice_example = raise-raise_restart_notice src 70 80 ((edit, 75) ∷ []) logged

abbrev restarted : Store
unfolding logged raise_restart_notice bytes_eq
restarted = (raise_restart_notice src 70 logged).0

restart_notice-clear_example :
    restart_notice src (clear_restart_notice_if_covered src 60 restarted).0
    ≡ some (some 70, some 12)
unfolding restarted logged opened record_event is_open_of is_open raise_restart_notice
    restart_notice bytes_eq
restart_notice-clear_example = restart_notice-clear src 70 (some 12) 60 restarted refl (omega arith)
