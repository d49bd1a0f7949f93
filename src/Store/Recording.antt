-- ===== src/Store/Recording.antt =====
-- The operations that find or make the open cycle, with other connections between their statements
-- (src/core/state.rs).
use auto_sync.Prelude.{
  ℕ, ◌+◌, refl, Bool, true, false, Option, none, some, [], ◌∷◌, ◌++◌, if◌then◌else◌, Text,
}
use auto_sync.Store.Tables.{Store}
use auto_sync.Store.Cycles.{
  Gaps, alone, new_cycle, insert_open_cycle, current_open_cycle_id, ensure_open_cycle,
  found_or_insert, mark_open_cycle_needs_rescan, mark_found,
}
use auto_sync.Store.Between.{Between, IsOutside, Between-trans, insert_cases}
use auto_sync.Store.Events.{WatcherEvent, touch_source, after_insert, after_mark}

-- What a statement keeps, it keeps where the open cycle is found and where it is made.
ensure_cases :
    (P : Store → Type 0) (source_id : Text) (now : ℕ) (s : Store)
    → P s
    → P (insert_open_cycle source_id now s)
    → P (ensure_open_cycle alone source_id now s).0
unfolding ensure_open_cycle
ensure_cases P source_id now s h k = found (current_open_cycle_id source_id s)
  where
    found : (o : Option ℕ) → P (found_or_insert alone source_id now s o).0
    found (some id) = h
    found none = k

pub ensure_keeps :
    (P : Store → Type 0) (source_id : Text) (now : ℕ) (s : Store)
    → P s
    → P (record s {
      sync_cycle = s.sync_cycle ++ new_cycle s.next_cycle_id source_id now ∷ [];
      next_cycle_id = s.next_cycle_id + 1;
    })
    → P (ensure_open_cycle alone source_id now s).0
ensure_keeps P source_id now s h k =
    ensure_cases P source_id now s h (insert_cases P source_id now s h k)

-- The operations keep to the statements on the cycles, whatever comes between.
pub Between-found_or_insert :
    (gaps : Gaps) (source_id : Text) (now : ℕ) (s : Store) (o : Option ℕ)
    → IsOutside gaps
    → Between s (found_or_insert gaps source_id now s o).0
Between-found_or_insert gaps source_id now s (some id) out = Between.here
Between-found_or_insert gaps source_id now s none out =
    let t = gaps 0 s in
    Between-trans s (insert_open_cycle source_id now t) _
      (Between.inserted source_id now t (out 0 s)) (out 1 (insert_open_cycle source_id now t))

pub Between-ensure_open_cycle :
    (gaps : Gaps) (source_id : Text) (now : ℕ) (s : Store)
    → IsOutside gaps
    → Between s (ensure_open_cycle gaps source_id now s).0
unfolding ensure_open_cycle
Between-ensure_open_cycle gaps source_id now s out =
    Between-found_or_insert gaps source_id now s (current_open_cycle_id source_id s) out

pub Between-mark_open_cycle_needs_rescan :
    (gaps : Gaps) (source_id : Text) (now : ℕ) (s : Store)
    → IsOutside gaps
    → Between s (mark_open_cycle_needs_rescan gaps source_id now s).0
unfolding mark_open_cycle_needs_rescan
Between-mark_open_cycle_needs_rescan gaps source_id now s out =
    marked (ensure_open_cycle gaps source_id now s)
      (Between-ensure_open_cycle gaps source_id now s out)
  where
    marked : (e : Store × Option ℕ) → Between s e.0 → Between s (mark_found gaps e).0
    marked (t, none) k = k
    marked (t, some id) k = Between.rescan id (gaps 2 t) (Between-trans s t _ k (out 2 t))

pub Between-after_mark :
    (event_id : ℕ) (s : Store) (m : Store × Bool)
    → Between s m.0
    → Between s (after_mark event_id m).0
Between-after_mark event_id s (t, true) k = k
Between-after_mark event_id s (t, false) k = k

pub Between-after_insert :
    (gaps : Gaps) (event : WatcherEvent) (now event_id : ℕ) (s : Store)
    → IsOutside gaps
    → Between s (after_insert gaps event now event_id s).0
unfolding touch_source
Between-after_insert gaps event now event_id s out = by_test event.rescan_required
  where
    touched : Store
    touched = gaps 4 (touch_source event.source_id now (gaps 3 s))

    to_touched : Between s touched
    to_touched =
        let t = gaps 3 s in
        Between-trans s (touch_source event.source_id now t) _
          (Between.other t _ (out 3 s) refl refl refl) (out 4 (touch_source event.source_id now t))

    marked : Store × Bool
    marked = mark_open_cycle_needs_rescan (λ i. gaps (i + 5)) event.source_id now touched

    by_test :
        (b : Bool)
        → Between s (if b then after_mark event_id marked else (touched, some event_id)).0
    by_test true = Between-after_mark event_id s marked (
        Between-trans s touched _ to_touched (
          Between-mark_open_cycle_needs_rescan (λ i. gaps (i + 5)) event.source_id now touched
            (λ i t. out (i + 5) t)))
    by_test false = to_touched
