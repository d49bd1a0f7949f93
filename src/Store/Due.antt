-- ===== src/Store/Due.antt =====
-- What an advance sets for a destination that is due (src/core/state.rs).
use auto_sync.Prelude.{
  ℕ, ◌≡◌, refl, ap, sym, subst, ◌∙◌, Bool, true, Bool-cases, inl, inr, Option, none, some, List, [],
  ◌∷◌, map, if_true, Text, bytes_eq, bytes_eq_refl, arith, Memᴰ, select_rows,
}
use auto_sync.Schedule.Boundary.{Calendar}
use auto_sync.Store.Tables.{Cycle, Store}
use auto_sync.Store.Cycles.{
  current_open_cycle, close_current_cycle_for_source, close_found, as_closed,
}
use auto_sync.Store.Events.{cycle_has_actionable_events}
use auto_sync.Store.Offsets.{destination_target_cycle}
use auto_sync.Store.Targets.{
  SourceGroupConfig, DestinationConfig, is_due_destination, due_destinations, target_closed,
  close_or_target, advance_open, advance_source,
}
use auto_sync.Store.Ordered.{Reached}
use auto_sync.Store.Closing.{IsReplaced, IsReplaced-target_closed}
use auto_sync.Store.Advance.{is_listed, target-set_targets}

is_listed-due :
    (cal : Calendar) (source_id : Text) (cycle : Cycle) (has_events : Bool) (now : ℕ) (s : Store)
    (destinations : List DestinationConfig) (d : DestinationConfig)
    → Memᴰ d destinations
    → is_due_destination cal source_id cycle has_events now s d ≡ true
    → is_listed d.id (
        map
          (λ (x : DestinationConfig). x.id)
          (select_rows (is_due_destination cal source_id cycle has_events now s) destinations))
      ≡ true
is_listed-due cal source_id cycle has_events now s [] d m h = elim m [ ]
is_listed-due cal source_id cycle has_events now s (x ∷ destinations) d (Memᴰ.head e) h =
    let due = ap (is_due_destination cal source_id cycle has_events now s) (sym e) ∙ h in
    let same = ap (λ (y : DestinationConfig). bytes_eq y.id d.id) (sym e) ∙ bytes_eq_refl d.id in
    rw (due, same) refl
is_listed-due cal source_id cycle has_events now s (x ∷ destinations) d (Memᴰ.tail m) h =
    let rest = is_listed-due cal source_id cycle has_events now s destinations d m h in
    elim (Bool-cases (is_due_destination cal source_id cycle has_events now s x)) [
      | inl t ↦ rw (t, rest) (ground arith)
      | inr f ↦ rw f rest
    ]

sets_target_closed :
    (source : SourceGroupConfig) (id : Text) (ids : List Text) (now : ℕ) (s : Store)
    (closed : Cycle)
    → is_listed id ids ≡ true
    → destination_target_cycle source.id id now (target_closed source ids now (s, some closed)).0
      ≡ some closed.id
sets_target_closed source id ids now s closed h =
    target-set_targets source.id id ids closed.id now _ h

sets_close_or_target :
    (source : SourceGroupConfig) (has_events : Bool) (id : Text) (ids : List Text) (now : ℕ)
    (s t : Store) (closed : Cycle)
    → close_current_cycle_for_source source.id now s ≡ (t, some closed)
    → is_listed id ids ≡ true
    → ((ids : List Text)
        → IsReplaced source.id closed.id (target_closed source ids now (t, some closed)).0)
    → ((close_or_target source has_events now s ids).1 ≡ some closed)
      × (destination_target_cycle source.id id now (close_or_target source has_events now s ids).0
          ≡ some closed.id)
      × IsReplaced source.id closed.id (close_or_target source has_events now s ids).0
sets_close_or_target source has_events id [] now s t closed e h k = cc
sets_close_or_target source has_events id (i ∷ ids) now s t closed e h k =
    rw e (refl, sets_target_closed source id (i ∷ ids) now t closed h, k (i ∷ ids))

-- In a reached store, and with no other connection between the statements, a destination of an
-- enabled source that is ready, not in flight, and due is targeted: the source's open cycle is
-- returned as closed, and it is the destination's target; in the store its row stands and is not
-- open, and a newer cycle is the source's open one.
pub target-advance_source :
    (cal : Calendar) (source : SourceGroupConfig) (now : ℕ) (s : Store) (cycle : Cycle)
    (d : DestinationConfig)
    → Reached s
    → source.enabled ≡ true
    → current_open_cycle source.id s ≡ some cycle
    → Memᴰ d source.destinations
    → is_due_destination cal source.id cycle
        (cycle_has_actionable_events source.id cycle.id s)
        now
        s
        d
      ≡ true
    → ((advance_source cal source now s).1 ≡ some (as_closed now cycle))
      × (destination_target_cycle source.id d.id now (advance_source cal source now s).0
          ≡ some cycle.id)
      × IsReplaced source.id cycle.id (advance_source cal source now s).0
unfolding advance_source close_current_cycle_for_source due_destinations
target-advance_source cal source now s cycle d r0 on current m due =
    let has_events = cycle_has_actionable_events source.id cycle.id s in
    let e =
      if_true source.enabled (advance_open cal source now s (current_open_cycle source.id s))
        (s, none) on
      ∙ ap (advance_open cal source now s) current in
    let r =
      sets_close_or_target source has_events d.id _ now s _ (as_closed now cycle)
        (ap (close_found source.id now s) current)
        (is_listed-due cal source.id cycle has_events now s source.destinations d m due)
        (λ ids. IsReplaced-target_closed source ids now s cycle r0 current) in
    subst
      (λ (x : Store × Option Cycle).
        (x.1 ≡ some (as_closed now cycle))
        × (destination_target_cycle source.id d.id now x.0 ≡ some cycle.id)
        × IsReplaced source.id cycle.id x.0)
      (sym e) r
