-- ===== src/Store/Advance.antt =====
-- What an advance of the targets keeps (src/core/state.rs).
use auto_sync.Prelude.{
  ℕ, ◌≡◌, refl, ap, sym, subst, ◌∙◌, Bool, true, false, Bool-cases, inl, inr, not, ◌&&◌, Option,
  none, some, List, [], ◌∷◌, map, if◌then◌else◌, Text, bytes_eq, bytes_eq_iff, arith, All,
  exists_row, select_rows, first_row,
}
use auto_sync.Schedule.Boundary.{Calendar}
use auto_sync.Store.Tables.{Cycle, Store, mark_local_change}
use auto_sync.Store.Cycles.{
  alone, ensure_open_cycle, current_open_cycle, close_current_cycle_for_source, close_found,
  clear_cycle_needs_rescan, close_cycle,
}
use auto_sync.Store.Events.{cycle_has_actionable_events, source_events_quiesced}
use auto_sync.Store.Recording.{ensure_keeps}
use auto_sync.Store.Configured.{offset-ensure_config}
use auto_sync.Store.Offsets.{
  destination_offset, destination_target_cycle, set_destination_target, offset_or,
}
use auto_sync.Store.Targets.{
  SourceGroupConfig, DestinationConfig, AppConfig, ensure_open_cycles, ensure_config, is_ready,
  in_flight, is_due, is_due_destination, due_destinations, set_targets, target_closed,
  close_or_target, advance_open, advance_source, advance_sources, advance_due_destination_targets,
  all_realtime, add_cycle,
}
use auto_sync.Store.Targeting.{
  rows_of, rows_of-set_destination_target, target-set_destination_target,
}

abbrev pub is_listed : Text → List Text → Bool
is_listed id ids = exists_row (λ i. bytes_eq i id) ids

rows_of-set_targets :
    (source_id id other_source : Text) (ids : List Text) (cycle_id now : ℕ) (s : Store)
    → bytes_eq other_source source_id && is_listed id ids ≡ false
    → rows_of source_id id (set_targets other_source ids cycle_id now s) ≡ rows_of source_id id s
unfolding set_targets
rows_of-set_targets source_id id other_source [] cycle_id now s h = refl
rows_of-set_targets source_id id other_source (other ∷ ids) cycle_id now s h =
    rows_of-set_targets source_id id other_source ids cycle_id now
      (set_destination_target other_source other cycle_id now s) (ground arith)
    ∙ rows_of-set_destination_target source_id id other_source other cycle_id now s (ground arith)

target-rows_of :
    (source_id id : Text) (now : ℕ) (s t : Store)
    → rows_of source_id id s ≡ rows_of source_id id t
    → destination_target_cycle source_id id now s ≡ destination_target_cycle source_id id now t
unfolding destination_target_cycle destination_offset
target-rows_of source_id id now s t h =
    ap (λ l. (offset_or source_id id now (first_row l)).target_cycle_id) h

offset-rows_of :
    (source_id id : Text) (now : ℕ) (s t : Store)
    → rows_of source_id id s ≡ rows_of source_id id t
    → destination_offset source_id id now s ≡ destination_offset source_id id now t
unfolding destination_offset
offset-rows_of source_id id now s t h = ap (λ l. offset_or source_id id now (first_row l)) h

pub target-set_targets :
    (source_id id : Text) (ids : List Text) (cycle_id now : ℕ) (s : Store)
    → is_listed id ids ≡ true
    → destination_target_cycle source_id id now (set_targets source_id ids cycle_id now s)
      ≡ some cycle_id
unfolding set_targets
target-set_targets source_id id [] cycle_id now s h = cc
target-set_targets source_id id (other ∷ ids) cycle_id now s h =
    elim (Bool-cases (is_listed id ids)) [
      | inl later ↦
          target-set_targets source_id id ids cycle_id now
            (set_destination_target source_id other cycle_id now s) later
      | inr last ↦
          let same : other ≡ id = (bytes_eq_iff other id).0 (ground arith) in
          target-rows_of source_id id now _ _ (
            rows_of-set_targets source_id id source_id ids cycle_id now
              (set_destination_target source_id other cycle_id now s) (ground (arith, last)))
          ∙ subst
              (λ o.
                destination_target_cycle source_id id now
                  (set_destination_target source_id o cycle_id now s)
                ≡ some cycle_id)
              (sym same) (target-set_destination_target source_id id cycle_id now s)
    ]

-- Cycles are opened and closed beside the rows of the destinations.
table-close :
    (source_id : Text) (now : ℕ) (s : Store)
    → (close_current_cycle_for_source source_id now s).0.destination_offset ≡ s.destination_offset
unfolding close_current_cycle_for_source mark_local_change close_cycle
table-close source_id now s = found (current_open_cycle source_id s)
  where
    found :
        (o : Option Cycle)
        → (close_found source_id now s o).0.destination_offset ≡ s.destination_offset
    found none = refl
    found (some c) =
        ensure_keeps (λ t. t.destination_offset ≡ s.destination_offset) source_id now
          (close_cycle c.id now s) refl refl

table-ensure_open_cycles :
    (cfg : AppConfig) (now : ℕ) (s : Store)
    → (ensure_open_cycles cfg now s).destination_offset ≡ s.destination_offset
unfolding ensure_open_cycles
table-ensure_open_cycles [] now s = refl
table-ensure_open_cycles (source ∷ cfg) now s = elim (Bool-cases source.enabled) [
  | inl h ↦ rw h (
      table-ensure_open_cycles cfg now (ensure_open_cycle alone source.id now s).0
      ∙ ensure_keeps (λ t. t.destination_offset ≡ s.destination_offset) source.id now s refl refl)
  | inr h ↦ rw h (table-ensure_open_cycles cfg now s)
]

-- No destination of that source and id can be due: each is switched off, paused or in flight.
abbrev pub Held : Text → Text → ℕ → Store → SourceGroupConfig → Type 0
Held source_id id now s source =
    bytes_eq source.id source_id ≡ true
    → All
        (λ d.
          bytes_eq d.id id ≡ true
          → is_ready d && not (in_flight (destination_offset source_id id now s)) ≡ false)
        source.destinations

with_false : (a b c : Bool) → a && b ≡ false → a && b && c ≡ false
with_false a b c h = ground arith

not_due :
    (cal : Calendar) (source_id id : Text) (cycle : Cycle) (has_events : Bool) (now : ℕ) (s : Store)
    (destinations : List DestinationConfig)
    → All
        (λ d.
          bytes_eq d.id id ≡ true
          → is_ready d && not (in_flight (destination_offset source_id id now s)) ≡ false)
        destinations
    → is_listed id (
        map
          (λ (d : DestinationConfig). d.id)
          (select_rows (is_due_destination cal source_id cycle has_events now s) destinations))
      ≡ false
not_due cal source_id id cycle has_events now s [] h = refl
not_due cal source_id id cycle has_events now s (d ∷ destinations) h =
    let rest = not_due cal source_id id cycle has_events now s destinations h.1 in
    elim (Bool-cases (bytes_eq d.id id)) [
      | inl same ↦
          let held =
            subst
              (λ i. is_ready d && not (in_flight (destination_offset source_id i now s)) ≡ false)
              (sym ((bytes_eq_iff d.id id).0 same)) (h.0 same) in
          let no : is_due_destination cal source_id cycle has_events now s d ≡ false =
            with_false (is_ready d) (not (in_flight (destination_offset source_id d.id now s)))
              (is_due cal cycle has_events now d (destination_offset source_id d.id now s)) held in
          rw no rest
      | inr other ↦ elim (Bool-cases (is_due_destination cal source_id cycle has_events now s d)) [
        | inl due ↦ rw (due, other) rest
        | inr idle ↦ rw idle rest
      ]
    ]

keeps_target_closed :
    (source_id id : Text) (source : SourceGroupConfig) (ids : List Text) (now : ℕ) (s : Store)
    (r : Store × Option Cycle)
    → r.0.destination_offset ≡ s.destination_offset
    → bytes_eq source.id source_id && is_listed id ids ≡ false
    → rows_of source_id id (target_closed source ids now r).0 ≡ rows_of source_id id s
unfolding clear_cycle_needs_rescan
keeps_target_closed source_id id source ids now s (t, none) e h = ap (select_rows _) e
keeps_target_closed source_id id source ids now s (t, some closed) e h =
    rows_of-set_targets source_id id source.id ids closed.id now _ h
    ∙ (by_test (not closed.needs_full_rescan && all_realtime source ids) ∙ ap (select_rows _) e)
  where
    by_test :
        (b : Bool)
        → rows_of source_id id (if b then clear_cycle_needs_rescan closed.id t else t)
          ≡ rows_of source_id id t
    by_test true = refl
    by_test false = refl

keeps_close_or_target :
    (source_id id : Text) (source : SourceGroupConfig) (has_events : Bool) (now : ℕ) (s : Store)
    (ids : List Text)
    → bytes_eq source.id source_id && is_listed id ids ≡ false
    → rows_of source_id id (close_or_target source has_events now s ids).0 ≡ rows_of source_id id s
keeps_close_or_target source_id id source has_events now s [] h =
    by_test (has_events && source_events_quiesced source.id now s)
  where
    by_test :
        (b : Bool)
        → rows_of source_id id
            (if b then close_current_cycle_for_source source.id now s else (s, none)).0
          ≡ rows_of source_id id s
    by_test true = ap (select_rows _) (table-close source.id now s)
    by_test false = refl
keeps_close_or_target source_id id source has_events now s (i ∷ ids) h =
    keeps_target_closed source_id id source (i ∷ ids) now s
      (close_current_cycle_for_source source.id now s) (table-close source.id now s) h

keeps_advance_source :
    (cal : Calendar) (source_id id : Text) (source : SourceGroupConfig) (now : ℕ) (s : Store)
    → Held source_id id now s source
    → rows_of source_id id (advance_source cal source now s).0 ≡ rows_of source_id id s
unfolding advance_source due_destinations
keeps_advance_source cal source_id id source now s held = by_test source.enabled
  where
    listed :
        (c : Cycle) (has_events : Bool)
        → bytes_eq source.id source_id
            && is_listed id (due_destinations cal source c has_events now s)
          ≡ false
    listed c has_events = elim (Bool-cases (bytes_eq source.id source_id)) [
      | inl same ↦ rw same (
          subst
            (λ t.
              is_listed id (
                map (λ (d : DestinationConfig). d.id)
                  (select_rows (is_due_destination cal t c has_events now s) source.destinations))
              ≡ false)
            (sym ((bytes_eq_iff source.id source_id).0 same))
            (not_due cal source_id id c has_events now s source.destinations (held same)))
      | inr other ↦ rw other refl
    ]

    found :
        (o : Option Cycle)
        → rows_of source_id id (advance_open cal source now s o).0 ≡ rows_of source_id id s
    found none = refl
    found (some c) =
        keeps_close_or_target source_id id source (cycle_has_actionable_events source.id c.id s) now
          s _ (listed c (cycle_has_actionable_events source.id c.id s))

    by_test :
        (b : Bool)
        → rows_of source_id id
            (if b
              then advance_open cal source now s (current_open_cycle source.id s)
              else (s, none)).0
          ≡ rows_of source_id id s
    by_test true = found (current_open_cycle source.id s)
    by_test false = refl

-- `Held` for every source.
abbrev pub AllHeld : Text → Text → ℕ → Store → AppConfig → Type 0
AllHeld source_id id now s cfg = All (Held source_id id now s) cfg

AllHeld-offset :
    (source_id id : Text) (now : ℕ) (s t : Store) (cfg : AppConfig)
    → destination_offset source_id id now t ≡ destination_offset source_id id now s
    → AllHeld source_id id now s cfg
    → AllHeld source_id id now t cfg
AllHeld-offset source_id id now s t cfg e h =
    subst
      (λ o.
        All
          (λ source.
            bytes_eq source.id source_id ≡ true
            → All (λ d. bytes_eq d.id id ≡ true → is_ready d && not (in_flight o) ≡ false)
                source.destinations)
          cfg)
      (sym e) h

AllHeld-same :
    (source_id id : Text) (now : ℕ) (s t : Store) (cfg : AppConfig)
    → rows_of source_id id t ≡ rows_of source_id id s
    → AllHeld source_id id now s cfg
    → AllHeld source_id id now t cfg
AllHeld-same source_id id now s t cfg e h =
    AllHeld-offset source_id id now s t cfg (offset-rows_of source_id id now t s e) h

keeps_advance_sources :
    (cal : Calendar) (source_id id : Text) (cfg : AppConfig) (now : ℕ) (s : Store)
    → AllHeld source_id id now s cfg
    → rows_of source_id id (advance_sources cal cfg now s).0 ≡ rows_of source_id id s
unfolding advance_sources
keeps_advance_sources cal source_id id [] now s h = refl
keeps_advance_sources cal source_id id (source ∷ cfg) now s h =
    let e = keeps_advance_source cal source_id id source now s h.0 in
    let t = (advance_source cal source now s).0 in
    added (advance_source cal source now s).1
    ∙ (keeps_advance_sources cal source_id id cfg now t
          (AllHeld-same source_id id now s t cfg e h.1)
        ∙ e)
  where
    added :
        (o : Option Cycle)
        → rows_of source_id id
            (add_cycle o (advance_sources cal cfg now (advance_source cal source now s).0)).0
          ≡ rows_of source_id id (advance_sources cal cfg now (advance_source cal source now s).0).0
    added none = refl
    added (some c) = refl

-- A destination that is switched off or paused, or whose target is not yet verified, gets no new
-- target: whatever is due elsewhere, and whether or not the configuration is applied first, the
-- advance leaves its row as it was. A missing row reads as the one that is inserted for it.
pub offset-advance_due_destination_targets :
    (cal : Calendar) (source_id id : Text) (cfg : AppConfig) (applied : Bool) (now : ℕ) (s : Store)
    → AllHeld source_id id now s cfg
    → destination_offset source_id id now (advance_due_destination_targets cal cfg applied now s).0
      ≡ destination_offset source_id id now s
unfolding advance_due_destination_targets
offset-advance_due_destination_targets cal source_id id cfg applied now s h =
    let s1 = ensure_config cfg applied now s in
    let s2 = ensure_open_cycles cfg now s1 in
    let same = offset-ensure_config source_id id cfg applied now s in
    let e : rows_of source_id id s2 ≡ rows_of source_id id s1 =
      ap (select_rows _) (table-ensure_open_cycles cfg now s1) in
    offset-rows_of source_id id now (advance_sources cal cfg now s2).0 s1 (
      keeps_advance_sources cal source_id id cfg now s2 (
        AllHeld-same source_id id now s1 s2 cfg e (AllHeld-offset source_id id now s s1 cfg same h))
      ∙ e)
    ∙ same
