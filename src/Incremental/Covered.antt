-- ===== src/Incremental/Covered.antt =====
-- No event of the backlog is missed by an incremental pass (src/core/sync/mod.rs).
use auto_sync.Prelude.{
  ℕ, ◌≡◌, refl, ap, sym, subst, ◌∙◌, Bool, true, false, Bool-cases, inl, inr, ◌||◌, Option, none,
  some, List, [], ◌∷◌, if◌then◌else◌, if_true, if_false, Text, exists_row, select_rows, get_elem?,
  Memᴰ,
}
use auto_sync.Store.Tables.{Cycle, Event, Store}
use auto_sync.Store.Events.{events_between_cycles, is_present}
use auto_sync.Store.Offsets.{destination_last_verified}
use auto_sync.Store.Targets.{SourceGroupConfig, DestinationConfig}
use auto_sync.Incremental.Plan.{
  IncrementalPlan, EventPaths, event_paths, is_actionable, add_plan, plan_events, plan_since,
  plan_destination, plan_loop, event_incremental_plan,
}
use auto_sync.Incremental.Paths.{Covers, event_paths-Covers}

-- What the plan has for one of the destinations.
abbrev pub Planned : List (ℕ × List Text) → ℕ → Text → Type 0
Planned plans dst_index rel_path =
    (paths : List Text) × Memᴰ (dst_index, paths) plans × Covers paths rel_path

abbrev pub AllPlanned : SourceGroupConfig → ℕ → List ℕ → Store → List (ℕ × List Text) → Type 0
AllPlanned source cycle_id ready s plans =
    (dst_index : ℕ) (dst : DestinationConfig) (last_verified : ℕ) (e : Event) (rel_path : Text)
    → Memᴰ dst_index ready
    → get_elem? source.destinations dst_index ≡ some dst
    → destination_last_verified source.id dst.id s ≡ some last_verified
    → Memᴰ e (events_between_cycles source.id last_verified cycle_id s)
    → e.rel_path ≡ some rel_path
    → Planned plans dst_index rel_path

Member-select_rows :
    (p : Event → Bool) (xs : List Event) (x : Event)
    → Memᴰ x xs
    → p x ≡ true
    → Memᴰ x (select_rows p xs)
Member-select_rows p [] x m h = elim m [ ]
Member-select_rows p (y ∷ xs) x (Memᴰ.head e) h = rw (ap p (sym e) ∙ h) (Memᴰ.head e)
Member-select_rows p (y ∷ xs) x (Memᴰ.tail m) h = elim (Bool-cases (p y)) [
  | inl t ↦ rw t (Memᴰ.tail (Member-select_rows p xs x m h))
  | inr f ↦ rw f (Member-select_rows p xs x m h)
]

-- A plan of one destination and the others is one of each.
add_plan-apply :
    (dst_index : ℕ) (paths : EventPaths) (rest : IncrementalPlan) (plans : List (ℕ × List Text))
    → add_plan dst_index paths rest ≡ IncrementalPlan.apply plans
    → (here : List Text) × (later : List (ℕ × List Text)) × (paths ≡ EventPaths.found here)
      × (rest ≡ IncrementalPlan.apply later)
      × (plans ≡ (dst_index, here) ∷ later)
add_plan-apply dst_index EventPaths.missing rest plans h = cc
add_plan-apply dst_index EventPaths.invalid_path rest plans h = cc
add_plan-apply dst_index (EventPaths.found here) (IncrementalPlan.apply later) plans h =
    (here, later, refl, refl, inner plans ((dst_index, here) ∷ later) (sym h))
  where
    inner : (a b : List (ℕ × List Text)) → IncrementalPlan.apply a ≡ IncrementalPlan.apply b → a ≡ b
    inner a b k = cc
add_plan-apply dst_index (EventPaths.found here) IncrementalPlan.full plans h = cc
add_plan-apply dst_index (EventPaths.found here) IncrementalPlan.unusable plans h = cc
add_plan-apply dst_index (EventPaths.found here) IncrementalPlan.failed plans h = cc

-- The first destination of a loop that ends with a plan.
abbrev pub First : SourceGroupConfig → ℕ → ℕ → List ℕ → Store → List (ℕ × List Text) → Type 0
First source cycle_id dst_index ready s plans =
    (dst : DestinationConfig) × (last_verified : ℕ) × (here : List Text) × (later : List
      (ℕ × List Text))
    × (get_elem? source.destinations dst_index ≡ some dst)
    × (destination_last_verified source.id dst.id s ≡ some last_verified)
    × (event_paths (EventPaths.found [])
          (select_rows is_actionable (events_between_cycles source.id last_verified cycle_id s))
        ≡ EventPaths.found here)
    × (plan_loop source cycle_id ready s ≡ IncrementalPlan.apply later)
    × (plans ≡ (dst_index, here) ∷ later)

plan_loop-First :
    (source : SourceGroupConfig) (cycle_id dst_index : ℕ) (ready : List ℕ) (s : Store)
    (plans : List (ℕ × List Text))
    → plan_loop source cycle_id (dst_index ∷ ready) s ≡ IncrementalPlan.apply plans
    → First source cycle_id dst_index ready s plans
unfolding plan_loop
plan_loop-First source cycle_id dst_index ready s plans h =
    by_destination (get_elem? source.destinations dst_index) refl h
  where
    rest : IncrementalPlan
    rest = plan_loop source cycle_id ready s

    by_events :
        (dst : DestinationConfig) (last_verified : ℕ) (events : List Event)
        → get_elem? source.destinations dst_index ≡ some dst
        → destination_last_verified source.id dst.id s ≡ some last_verified
        → select_rows is_actionable (events_between_cycles source.id last_verified cycle_id s)
          ≡ events
        → plan_events dst_index events (plan_loop source cycle_id ready s)
          ≡ IncrementalPlan.apply plans
        → First source cycle_id dst_index ready s plans
    by_events dst last_verified events e1 e2 e3 h =
        elim (Bool-cases (exists_row (λ e. e.rescan_required) events)) [
          | inl t ↦ absurd (
              cc (
                if_true (exists_row (λ e. e.rescan_required) events) IncrementalPlan.full
                    (add_plan dst_index (event_paths (EventPaths.found []) events)
                      (plan_loop source cycle_id ready s))
                    t,
                h,
              ))
          | inr f ↦
              let (here, later, e4, e5, e6) =
                add_plan-apply dst_index (event_paths (EventPaths.found []) events)
                  (plan_loop source cycle_id ready s) plans
                  (sym (if_false (exists_row (λ e. e.rescan_required) events) _ _ f) ∙ h) in
              (
                dst,
                last_verified,
                here,
                later,
                e1,
                e2,
                ap (event_paths (EventPaths.found [])) e3 ∙ e4,
                e5,
                e6,
              )
        ]

    by_verified :
        (dst : DestinationConfig) (o : Option ℕ)
        → get_elem? source.destinations dst_index ≡ some dst
        → destination_last_verified source.id dst.id s ≡ o
        → plan_since source.id cycle_id dst_index s (plan_loop source cycle_id ready s) o
          ≡ IncrementalPlan.apply plans
        → First source cycle_id dst_index ready s plans
    by_verified dst none e1 e2 h = cc
    by_verified dst (some last_verified) e1 e2 h = by_events dst last_verified _ e1 e2 refl h

    by_destination :
        (o : Option DestinationConfig)
        → get_elem? source.destinations dst_index ≡ o
        → plan_destination source.id cycle_id dst_index s (plan_loop source cycle_id ready s) o
          ≡ IncrementalPlan.apply plans
        → First source cycle_id dst_index ready s plans
    by_destination none e h = cc
    by_destination (some dst) e h =
        by_verified dst (destination_last_verified source.id dst.id s) e refl h

present : (e : Event) (rel_path : Text) → e.rel_path ≡ some rel_path → is_actionable e ≡ true
present e rel_path h = ap (λ o. is_present o || e.rescan_required) h

plan_loop-AllPlanned :
    (source : SourceGroupConfig) (cycle_id : ℕ) (ready : List ℕ) (s : Store)
    (plans : List (ℕ × List Text))
    → plan_loop source cycle_id ready s ≡ IncrementalPlan.apply plans
    → AllPlanned source cycle_id ready s plans
plan_loop-AllPlanned source cycle_id [] s plans h = λ i dst v e rel_path m. elim m [ ]
plan_loop-AllPlanned source cycle_id (dst_index ∷ ready) s plans h =
    let (dst, v, here, later, e1, e2, e3, e4, e5) =
      plan_loop-First source cycle_id dst_index ready s plans h in
    by_first dst v here later e1 e2 e3 (plan_loop-AllPlanned source cycle_id ready s later e4) e5
  where
    same_dst : (a b : DestinationConfig) → some a ≡ some b → a ≡ b
    same_dst a b k = cc

    same_id : (a b : ℕ) → some a ≡ some b → a ≡ b
    same_id a b k = cc

    by_first :
        (dst : DestinationConfig) (v : ℕ) (here : List Text) (later : List (ℕ × List Text))
        → get_elem? source.destinations dst_index ≡ some dst
        → destination_last_verified source.id dst.id s ≡ some v
        → event_paths
            (EventPaths.found [])
            (select_rows is_actionable (events_between_cycles source.id v cycle_id s))
          ≡ EventPaths.found here
        → AllPlanned source cycle_id ready s later
        → plans ≡ (dst_index, here) ∷ later
        → AllPlanned source cycle_id (dst_index ∷ ready) s plans
    by_first dst v here later e1 e2 e3 rest e5 i dst2 v2 e rel_path (Memᴰ.head k) f1 f2 m f3 =
        let one = same_dst dst2 dst (sym f1 ∙ (ap (get_elem? source.destinations) k ∙ e1)) in
        let two = same_id v2 v (
          sym f2
          ∙ (ap (λ (d : DestinationConfig). destination_last_verified source.id d.id s) one
              ∙ e2)) in
        let in_backlog = subst (λ w. Memᴰ e (events_between_cycles source.id w cycle_id s)) two m in
        let covered =
          (event_paths-Covers
              (select_rows is_actionable (events_between_cycles source.id v cycle_id s)) [] here
              e3).1
            e rel_path
            (Member-select_rows is_actionable (events_between_cycles source.id v cycle_id s) e
              in_backlog (present e rel_path f3))
            f3 in
        (here, subst (Memᴰ (i, here)) (sym e5) (Memᴰ.head (ap (λ j. (j, here)) k)), covered)
    by_first dst v here later e1 e2 e3 rest e5 i dst2 v2 e rel_path (Memᴰ.tail k) f1 f2 m f3 =
        let (paths, planned, covered) = rest i dst2 v2 e rel_path k f1 f2 m f3 in
        (paths, subst (Memᴰ (i, paths)) (sym e5) (Memᴰ.tail planned), covered)

-- When a cycle is served by an incremental plan, no event of a destination's backlog is missed: for
-- every destination that is ready, each event since its last verified cycle, up to this one, that
-- has a path has it, made regular, among the paths of the plan for that destination. No full rescan
-- of the cycle was asked for.
pub event_incremental_plan-AllPlanned :
    (source : SourceGroupConfig) (cycle : Cycle) (ready : List ℕ) (s : Store)
    (plans : List (ℕ × List Text))
    → event_incremental_plan source cycle ready s ≡ IncrementalPlan.apply plans
    → AllPlanned source cycle.id ready s plans
      × (cycle.needs_full_rescan ≡ false)
      × (cycle.manual_full_rescan ≡ false)
unfolding event_incremental_plan
event_incremental_plan-AllPlanned source cycle [] s plans h = cc
event_incremental_plan-AllPlanned source cycle (dst_index ∷ ready) s plans h =
    by_flags cycle.manual_full_rescan cycle.needs_full_rescan refl refl h
  where
    by_flags :
        (manual needs : Bool)
        → cycle.manual_full_rescan ≡ manual
        → cycle.needs_full_rescan ≡ needs
        → (if manual
            then IncrementalPlan.full
            else if needs
            then IncrementalPlan.full
            else plan_loop source cycle.id (dst_index ∷ ready) s)
          ≡ IncrementalPlan.apply plans
        → AllPlanned source cycle.id (dst_index ∷ ready) s plans
          × (cycle.needs_full_rescan ≡ false)
          × (cycle.manual_full_rescan ≡ false)
    by_flags true needs e1 e2 h = cc
    by_flags false true e1 e2 h = cc
    by_flags false false e1 e2 h =
        (plan_loop-AllPlanned source cycle.id (dst_index ∷ ready) s plans h, e2, e1)
