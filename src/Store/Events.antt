-- ===== src/Store/Events.antt =====
-- The event log (src/core/state.rs): recording, the backlog of a destination, and pruning. One
-- reading of the clock serves a whole operation, and the wake-up of the scheduler has no state here.
use auto_sync.Prelude.{
  ℕ, zero, suc, ◌+◌, ◌-◌, ◌*◌, Bool, true, false, ◌&&◌, ◌||◌, ◌==◌, Option, none, some, List, [],
  ◌∷◌, ◌++◌, length, if◌then◌else◌, Text, bytes_eq, ltb, leb, max, exists_row, select_rows,
  upsert_row, first_row, newest_row,
}
use auto_sync.Prelude.Maps
use auto_sync.Prelude.Maps.{Map}
use auto_sync.Store.Tables.{Cycle, Event, SourceMeta, Store, insert_source}
use auto_sync.Store.Cycles.{
  Gaps, alone, ensure_open_cycle, current_open_cycle, mark_open_cycle_needs_rescan,
  latest_closed_cycle_id,
}

-- What a watcher reports.
pub record WatcherEvent : Type 0 where
  pub source_id : Text
  pub raw_mask : ℕ
  pub event_kind : Text
  pub rel_path : Option Text
  pub rescan_required : Bool

unfoldable pub insert_event : WatcherEvent → ℕ → ℕ → Store → Store
insert_event event cycle_id now s = record s {
  event_log =
      s.event_log
      ++ record {
        event_id = s.next_event_id;
        source_id = event.source_id;
        cycle_id = cycle_id;
        observed_at = now;
        raw_mask = event.raw_mask;
        event_kind = event.event_kind;
        rel_path = event.rel_path;
        rescan_required = event.rescan_required;
      }
        ∷ [];
  next_event_id = s.next_event_id + 1;
}

abbrev pub later_time : Option ℕ → ℕ → ℕ
later_time none now = now
later_time (some at) now = max at now

-- `MAX(COALESCE(last_event_observed_at, ''), ..)`
unfoldable pub touch_source : Text → ℕ → Store → Store
touch_source source_id now s = record s {
  source_meta =
      upsert_row (λ m. bytes_eq m.source_id source_id)
        (λ m. record m { last_event_observed_at = some (later_time m.last_event_observed_at now) })
        (record {
          source_id = source_id;
          last_event_observed_at = some now;
          restart_notice_at = none;
          restart_gap_started = none;
        })
        s.source_meta;
}

abbrev pub after_mark : ℕ → Store × Bool → Store × Option ℕ
after_mark event_id (s, true) = (s, some event_id)
after_mark event_id (s, false) = (s, none)

-- The statements after the insert; the last gaps are those of the marking.
abbrev pub after_insert : Gaps → WatcherEvent → ℕ → ℕ → Store → Store × Option ℕ
after_insert gaps event now event_id s =
    let touched = gaps 4 (touch_source event.source_id now (gaps 3 s)) in
    if event.rescan_required
    then after_mark event_id
        (mark_open_cycle_needs_rescan (λ i. gaps (i + 5)) event.source_id now touched)
    else (touched, some event_id)

abbrev pub insert_found : Gaps → WatcherEvent → ℕ → Store → ℕ → Store × Option ℕ
insert_found gaps event now s cycle_id =
    after_insert gaps event now s.next_event_id (insert_event event cycle_id now s)

abbrev pub record_found : Gaps → WatcherEvent → ℕ → Store × Option ℕ → Store × Option ℕ
record_found gaps event now (s, none) = (s, none)
record_found gaps event now (s, some cycle_id) = insert_found gaps event now (gaps 2 s) cycle_id

-- The store and the event's id. The statements are no transaction, and the write lock keeps out
-- only the other writers of the log: cycles can be closed and opened in between.
unfoldable pub record_event : Gaps → WatcherEvent → ℕ → Store → Store × Option ℕ
unfolding ensure_open_cycle insert_event touch_source mark_open_cycle_needs_rescan
record_event gaps event now s =
    record_found gaps event now (ensure_open_cycle gaps event.source_id now s)

-- The state of the loop over a batch: the store, the sources' cycles and those to rescan.
pub record Batch : Type 0 where
  pub store : Store
  pub cycles : Map ℕ
  pub rescan_sources : List Text

abbrev pub log_in_batch : WatcherEvent → ℕ → Batch → ℕ → Batch
log_in_batch event now b cycle_id = record b {
  store = insert_event event cycle_id now b.store;
  rescan_sources =
      if event.rescan_required
      then insert_source event.source_id b.rescan_sources
      else b.rescan_sources;
}

abbrev pub log_ensured : WatcherEvent → ℕ → Batch → Store × Option ℕ → Option Batch
log_ensured event now b (s, none) = none
log_ensured event now b (s, some cycle_id) = some (
    log_in_batch event now
      (record b { store = s; cycles = Maps.insert event.source_id cycle_id b.cycles }) cycle_id)

abbrev pub log_event : WatcherEvent → ℕ → Batch → Option ℕ → Option Batch
log_event event now b (some cycle_id) = some (log_in_batch event now b cycle_id)
log_event event now b none =
    log_ensured event now b (ensure_open_cycle alone event.source_id now b.store)

abbrev pub and_then : {A B : Type 0} → Option A → (A → Option B) → Option B
and_then none f = none
and_then (some a) f = f a

unfoldable pub log_batch : List WatcherEvent → ℕ → Batch → Option Batch
unfolding insert_event ensure_open_cycle Maps.insert Maps.get
log_batch [] now b = some b
log_batch (event ∷ events) now b =
    and_then (log_event event now b (Maps.get event.source_id b.cycles))
      (λ b2. log_batch events now b2)

unfoldable pub touch_sources : Map ℕ → ℕ → Store → Store
unfolding touch_source
touch_sources [] now s = s
touch_sources ((source_id, cycle_id) ∷ cycles) now s =
    touch_sources cycles now (touch_source source_id now s)

abbrev pub marked_or_error : Store × Bool → Option Store
marked_or_error (s, true) = some s
marked_or_error (s, false) = none

unfoldable pub mark_sources : List Text → ℕ → Store → Option Store
unfolding mark_open_cycle_needs_rescan
mark_sources [] now s = some s
mark_sources (source_id ∷ sources) now s =
    and_then (marked_or_error (mark_open_cycle_needs_rescan alone source_id now s))
      (mark_sources sources now)

abbrev pub commit_batch : ℕ → Batch → Option Store
commit_batch now b = mark_sources b.rescan_sources now (touch_sources b.cycles now b.store)

-- One transaction: with an error the store is as it was.
unfoldable pub record_events_batch : List WatcherEvent → ℕ → Store → Option Store
unfolding log_batch touch_sources mark_sources
record_events_batch [] now s = some s
record_events_batch (event ∷ events) now s =
    and_then
      (log_batch (event ∷ events) now (record { store = s; cycles = []; rescan_sources = [] }))
      (commit_batch now)

abbrev pub in_cycle : Text → ℕ → Event → Bool
in_cycle source_id cycle_id e = bytes_eq e.source_id source_id && e.cycle_id == cycle_id

unfoldable pub cycle_has_events : Text → ℕ → Store → Bool
cycle_has_events source_id cycle_id s = exists_row (in_cycle source_id cycle_id) s.event_log

abbrev pub is_present : Option Text → Bool
is_present none = false
is_present (some path) = true

unfoldable pub cycle_has_actionable_events : Text → ℕ → Store → Bool
cycle_has_actionable_events source_id cycle_id s =
    exists_row (λ e. in_cycle source_id cycle_id e && (is_present e.rel_path || e.rescan_required))
      s.event_log

-- `cycle_id>?2 AND cycle_id<=?3`; the log stands in the order of the events' ids.
unfoldable pub events_between_cycles : Text → ℕ → ℕ → Store → List Event
events_between_cycles source_id after_cycle_id through_cycle_id s =
    select_rows
      (λ e.
        bytes_eq e.source_id source_id
        && ltb after_cycle_id e.cycle_id
        && leb e.cycle_id through_cycle_id)
      s.event_log

unfoldable pub cycle_events : Text → ℕ → Store → List Event
cycle_events source_id cycle_id s = select_rows (in_cycle source_id cycle_id) s.event_log

abbrev pub meta_time : Option SourceMeta → Option ℕ
meta_time none = none
meta_time (some m) = m.last_event_observed_at

abbrev pub event_time : Option Event → Option ℕ
event_time none = none
event_time (some e) = some e.observed_at

abbrev pub time_or : Option ℕ → Option ℕ → Option ℕ
time_or (some at) fallback = some at
time_or none fallback = fallback

-- The scalar that survives pruning, or else the newest event of the log.
unfoldable pub latest_event_observed_at : Text → Store → Option ℕ
latest_event_observed_at source_id s =
    time_or
      (meta_time (first_row (select_rows (λ m. bytes_eq m.source_id source_id) s.source_meta)))
      (event_time (
        newest_row (λ e. e.observed_at)
          (select_rows (λ e. bytes_eq e.source_id source_id) s.event_log)))

-- Ten seconds, in the nanoseconds of the times here.
abbrev pub quiescence : ℕ
quiescence = 10 * 1_000_000_000

abbrev pub quiet_since : ℕ → Option ℕ → Bool
quiet_since now none = true
quiet_since now (some at) = leb (at + quiescence) now

unfoldable pub source_events_quiesced : Text → ℕ → Store → Bool
unfolding latest_event_observed_at
source_events_quiesced source_id now s = quiet_since now (latest_event_observed_at source_id s)

abbrev pub display_id : Option ℕ → ℕ → ℕ
display_id none id = id
display_id (some closed) id = max closed id

abbrev pub display_open : Text → Store → Option ℕ → Option Cycle → Option ℕ
display_open source_id s closed none = closed
display_open source_id s closed (some cycle) =
    if cycle_has_actionable_events source_id cycle.id s
    then some (display_id closed cycle.id)
    else closed

unfoldable pub latest_cycle_id_for_display : Text → Store → Option ℕ
unfolding cycle_has_actionable_events latest_closed_cycle_id current_open_cycle
latest_cycle_id_for_display source_id s =
    display_open source_id s (latest_closed_cycle_id source_id s) (current_open_cycle source_id s)

-- `WHERE source_id=?1 AND cycle_id<?2`
abbrev pub is_pruned : Text → ℕ → Event → Bool
is_pruned source_id keep_from_cycle e =
    bytes_eq e.source_id source_id && ltb e.cycle_id keep_from_cycle

-- One statement deletes at most `chunk` rows: how many it deleted, and the rows left.
unfoldable pub prune_chunk : (Event → Bool) → ℕ → List Event → ℕ × List Event
prune_chunk dead chunk [] = (0, [])
prune_chunk dead chunk (e ∷ log) =
    let hit = dead e && ltb 0 chunk in
    let rest = prune_chunk dead (if hit then chunk - 1 else chunk) log in
    if hit then (rest.0 + 1, rest.1) else (rest.0, e ∷ rest.1)

-- The loop, with the rows deleted so far; `none` means that the fuel ran out.
unfoldable pub prune_loop : ℕ → (Event → Bool) → ℕ → ℕ → List Event → Option (ℕ × List Event)
unfolding prune_chunk
prune_loop zero dead chunk total log = none
prune_loop (suc fuel) dead chunk total log =
    let step = prune_chunk dead chunk log in
    let more = prune_loop fuel dead chunk (total + step.0) step.1 in
    if ltb step.0 chunk then some (total + step.0, step.1) else more

abbrev pub event_prune_chunk : ℕ
event_prune_chunk = 20_000

abbrev pub pruned_log : Store → Option (ℕ × List Event) → Option (ℕ × Store)
pruned_log s none = none
pruned_log s (some (total, log)) = some (total, record s { event_log = log })

-- Each full round deletes rows, so the rows of the log bound the rounds.
unfoldable pub prune_event_log : Text → ℕ → Store → Option (ℕ × Store)
unfolding prune_loop
prune_event_log source_id keep_from_cycle s = pruned_log s (
    prune_loop (suc (length s.event_log)) (is_pruned source_id keep_from_cycle) event_prune_chunk 0
      s.event_log)
