-- ===== src/Store/Closing.antt =====
-- What is left of a cycle that an advance closes, and what is open after it (src/core/state.rs).
use auto_sync.Prelude.{
  ℕ, ◌<◌, ◌≡◌, refl, ap, sym, ◌∙◌, Bool, true, false, Bool-cases, inl, inr, not, ◌&&◌, ◌==◌, some,
  List, [], ◌∷◌, if◌then◌else◌, if_true, Text, bytes_eq, bytes_eq_iff, arith, Memᴰ, exists_row,
  update_rows,
}
use auto_sync.Store.Tables.{Cycle, Store, is_open, is_open_of, mark_local_change}
use auto_sync.Store.Cycles.{
  alone, close_cycle, close_found, current_open_cycle, ensure_open_cycle, clear_cycle_needs_rescan,
  as_closed,
}
use auto_sync.Store.Ordered.{Reached}
use auto_sync.Store.OpenCycle.{
  ensure_open_cycle-alone, exists-newest, Member-newest, current_open_cycle_newest,
}
use auto_sync.Store.Between.{
  Between, IsOutside-alone, Between-trans, Reached-Between, Shut, Shut-Between,
}
use auto_sync.Store.Recording.{Between-ensure_open_cycle}
use auto_sync.Store.Offsets.{set_destination_target}
use auto_sync.Store.Targets.{SourceGroupConfig, set_targets, target_closed, all_realtime}

module _ (p : Cycle → Bool) (f : Cycle → Cycle) where
  Member-update_rows :
      (cs : List Cycle) (c : Cycle) → Memᴰ c cs → p c ≡ true → Memᴰ (f c) (update_rows p f cs)
  Member-update_rows [] c m h = elim m [ ]
  Member-update_rows (d ∷ cs) c (Memᴰ.tail m) h = Memᴰ.tail (Member-update_rows cs c m h)
  Member-update_rows (d ∷ cs) c (Memᴰ.head e) h =
      Memᴰ.head (ap f e ∙ sym (if_true (p d) (f d) d (ap p (sym e) ∙ h)))

  exists-update_rows :
      (q : Cycle → Bool) (cs : List Cycle)
      → ((c : Cycle) → q (f c) ≡ q c)
      → exists_row q (update_rows p f cs) ≡ exists_row q cs
  exists-update_rows q [] same = refl
  exists-update_rows q (c ∷ cs) same = elim (Bool-cases (p c)) [
    | inl t ↦ rw (t, same c, exists-update_rows q cs same) refl
    | inr t ↦ rw (t, exists-update_rows q cs same) refl
  ]

exists-member :
    (p : Cycle → Bool) (cs : List Cycle) (c : Cycle)
    → Memᴰ c cs
    → p c ≡ true
    → exists_row p cs ≡ true
exists-member p [] c m h = elim m [ ]
exists-member p (d ∷ cs) c (Memᴰ.head e) h = rw (ap p (sym e) ∙ h) refl
exists-member p (d ∷ cs) c (Memᴰ.tail m) h = ground (arith, exists-member p cs c m h)

-- The row of the cycle that is closed is not open.
Shut-close_cycle :
    (source_id : Text) (now : ℕ) (s : Store) (cycle : Cycle)
    → current_open_cycle source_id s ≡ some cycle
    → Shut source_id cycle.id (close_cycle cycle.id now s).sync_cycle
unfolding current_open_cycle close_cycle is_open_of is_open bytes_eq
Shut-close_cycle source_id now s cycle current =
    let found = Member-newest (is_open_of source_id) s.sync_cycle cycle current in
    record {
      cycle = as_closed now cycle;
      member =
          Member-update_rows _ (as_closed now) s.sync_cycle cycle found.0 (ground (arith, found.1));
      of_source = (bytes_eq_iff cycle.source_id source_id).0 (ground (arith, found.1));
      same_id = refl;
      not_open = refl;
    }

closed_then_opened :
    (source_id : Text) (now : ℕ) (s : Store) (cycle : Cycle)
    → Between (close_cycle cycle.id now s) (close_found source_id now s (some cycle)).0
unfolding mark_local_change
closed_then_opened source_id now s cycle =
    let t = close_cycle cycle.id now s in
    Between.other (ensure_open_cycle alone source_id now t).0 _
      (Between-ensure_open_cycle alone source_id now t IsOutside-alone) refl refl refl

-- A source has an open cycle.
abbrev HasOpen : Text → Store → Type 0
HasOpen source_id s = exists_row (is_open_of source_id) s.sync_cycle ≡ true

HasOpen-close_found :
    (source_id : Text) (now : ℕ) (s : Store) (cycle : Cycle)
    → HasOpen source_id (close_found source_id now s (some cycle)).0
unfolding mark_local_change current_open_cycle
HasOpen-close_found source_id now s cycle =
    let t = (ensure_open_cycle alone source_id now (close_cycle cycle.id now s)).0 in
    let (c, current, id) = ensure_open_cycle-alone source_id now (close_cycle cycle.id now s) in
    let found = Member-newest (is_open_of source_id) t.sync_cycle c current in
    exists-member (is_open_of source_id) t.sync_cycle c found.0 found.1

Between-set_targets :
    (source_id : Text) (ids : List Text) (cycle_id now : ℕ) (s : Store)
    → Between s (set_targets source_id ids cycle_id now s)
unfolding set_targets set_destination_target
Between-set_targets source_id [] cycle_id now s = Between.here
Between-set_targets source_id (id ∷ ids) cycle_id now s =
    Between-trans s (set_destination_target source_id id cycle_id now s) _
      (Between.other s _ Between.here refl refl refl)
      (Between-set_targets source_id ids cycle_id now
        (set_destination_target source_id id cycle_id now s))

HasOpen-set_targets :
    (open_source source_id : Text) (ids : List Text) (cycle_id now : ℕ) (s : Store)
    → HasOpen open_source s
    → HasOpen open_source (set_targets source_id ids cycle_id now s)
unfolding set_targets set_destination_target
HasOpen-set_targets open_source source_id [] cycle_id now s h = h
HasOpen-set_targets open_source source_id (id ∷ ids) cycle_id now s h =
    HasOpen-set_targets open_source source_id ids cycle_id now
      (set_destination_target source_id id cycle_id now s) h

module _ (source : SourceGroupConfig) (ids : List Text) (now : ℕ) (s : Store) (closed : Cycle) where
  targeted : Bool → Store
  targeted b =
      set_targets source.id ids closed.id now
        (if b then clear_cycle_needs_rescan closed.id s else s)

  Between-targeted : (b : Bool) → Between s (targeted b)
  unfolding targeted
  Between-targeted true =
      Between-trans s (clear_cycle_needs_rescan closed.id s) _
        (Between.cleared closed.id s Between.here)
        (Between-set_targets source.id ids closed.id now _)
  Between-targeted false = Between-set_targets source.id ids closed.id now s

  HasOpen-targeted : (b : Bool) → HasOpen source.id s → HasOpen source.id (targeted b)
  unfolding targeted clear_cycle_needs_rescan is_open_of is_open
  HasOpen-targeted true h =
      HasOpen-set_targets source.id source.id ids closed.id now
        (clear_cycle_needs_rescan closed.id s)
        (exists-update_rows (λ c. c.id == closed.id && not c.manual_full_rescan)
            (λ c. record c { needs_full_rescan = false }) (is_open_of source.id) s.sync_cycle
            (λ c. refl)
          ∙ h)
  HasOpen-targeted false h = HasOpen-set_targets source.id source.id ids closed.id now s h

-- The closed cycle is not open, and a newer one is.
abbrev pub IsReplaced : Text → ℕ → Store → Type 0
IsReplaced source_id id s =
    Shut source_id id s.sync_cycle
    × ((opened : Cycle) × (current_open_cycle source_id s ≡ some opened) × (id < opened.id))

newer_open :
    (source_id : Text) (id : ℕ) (s : Store)
    → Reached s
    → Shut source_id id s.sync_cycle
    → HasOpen source_id s
    → IsReplaced source_id id s
unfolding current_open_cycle
newer_open source_id id s r d h =
    let (c, e) = exists-newest (is_open_of source_id) s.sync_cycle h in
    (
      d,
      (
        c,
        e,
        omega (
          arith,
          current_open_cycle_newest s source_id c d.cycle r e d.member d.of_source d.not_open,
          d.same_id,
        ),
      ),
    )

pub IsReplaced-target_closed :
    (source : SourceGroupConfig) (ids : List Text) (now : ℕ) (s : Store) (cycle : Cycle)
    → Reached s
    → current_open_cycle source.id s ≡ some cycle
    → IsReplaced source.id cycle.id
        (target_closed source ids now (close_found source.id now s (some cycle))).0
unfolding targeted
IsReplaced-target_closed source ids now s cycle r current =
    let t = (close_found source.id now s (some cycle)).0 in
    let closed = as_closed now cycle in
    let b = not closed.needs_full_rescan && all_realtime source ids in
    let shut = close_cycle cycle.id now s in
    let path =
      Between-trans shut t _ (closed_then_opened source.id now s cycle)
        (Between-targeted source ids now t closed b) in
    newer_open source.id cycle.id _ (Reached-Between shut _ (Reached.closed cycle.id now s r) path)
      (Shut-Between source.id cycle.id shut _ path (Shut-close_cycle source.id now s cycle current))
      (HasOpen-targeted source ids now t closed b (HasOpen-close_found source.id now s cycle))
