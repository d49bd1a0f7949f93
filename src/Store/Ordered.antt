-- ===== src/Store/Ordered.antt =====
-- The cycles stand in the order of their ids, and no cycle of a source follows its open one
-- (src/core/state.rs, table `sync_cycle`).
use auto_sync.Prelude.{
  ℕ, ◌+◌, ◌<◌, ◌≡◌, refl, ap, sym, subst, ◌∙◌, Bool, true, false, Bool-cases, inl, inr, List, [],
  ◌∷◌, ◌++◌, if◌then◌else◌, if_true, if_false, Text, codes, bytes_eq, bytes_eq_iff, arith, All,
  exists_row, update_rows,
}
use auto_sync.Store.Tables.{Cycle, Store, is_open, is_open_of, open_status}
use auto_sync.Store.Cycles.{
  new_cycle, insert_open_cycle, close_cycle, mark_cycle_status, mark_cycle_needs_rescan,
  mark_cycle_manual_full_rescan, mark_cycle_manual_incremental, clear_cycle_needs_rescan, as_closed,
}

abbrev pub After : Cycle → Cycle → Type 0
After c d = (c.id < d.id) × (is_open c ≡ true → bytes_eq d.source_id c.source_id ≡ false)

abbrev pub Ordered : List Cycle → Type 0
Ordered [] = Unit
Ordered (c ∷ cs) = All (After c) cs × Ordered cs

-- The rows of `sync_cycle` are in order, and the next id is new.
pub record CyclesOrdered (s : Store) : Type 0 where
  pub ordered : Ordered s.sync_cycle
  pub fresh : All (λ c. c.id < s.next_cycle_id) s.sync_cycle

-- An update that keeps the key of a row and opens none.
pub record Quiet (f : Cycle → Cycle) : Type 0 where
  pub id : (c : Cycle) → (f c).id ≡ c.id
  pub source : (c : Cycle) → (f c).source_id ≡ c.source_id
  pub opens : (c : Cycle) → is_open (f c) ≡ true → is_open c ≡ true

module _ (p : Cycle → Bool) (f : Cycle → Cycle) (q : Quiet f) where
  updated : Cycle → Cycle
  updated c = if p c then f c else c

  by_test : (b : Bool) (P : Cycle → Type 0) (c : Cycle) → P (f c) → P c → P (if b then f c else c)
  by_test true P c h k = h
  by_test false P c h k = k

  Quiet-updated : Quiet updated
  unfolding updated
  Quiet-updated = record {
    id = λ c. by_test (p c) (λ d. d.id ≡ c.id) c (q.id c) refl;
    source = λ c. by_test (p c) (λ d. d.source_id ≡ c.source_id) c (q.source c) refl;
    opens = λ c. by_test (p c) (λ d. is_open d ≡ true → is_open c ≡ true) c (q.opens c) (λ h. h);
  }

  After-update : (c d : Cycle) → After c d → After (updated c) (updated d)
  After-update c d a =
      let u = Quiet-updated in
      (
        omega (arith, a.0, u.id c, u.id d),
        λ h.
            ap (λ t. bytes_eq t (updated c).source_id) (u.source d)
            ∙ (ap (bytes_eq d.source_id) (u.source c) ∙ a.1 (u.opens c h)),
      )

  All-After-update :
      (c : Cycle) (cs : List Cycle)
      → All (After c) cs
      → All (After (updated c)) (update_rows p f cs)
  unfolding updated
  All-After-update c [] a = tt
  All-After-update c (d ∷ cs) a = (After-update c d a.0, All-After-update c cs a.1)

  Ordered-update : (cs : List Cycle) → Ordered cs → Ordered (update_rows p f cs)
  unfolding updated
  Ordered-update [] o = tt
  Ordered-update (c ∷ cs) o = (All-After-update c cs o.0, Ordered-update cs o.1)

  fresh-update :
      (n : ℕ) (cs : List Cycle) → All (λ c. c.id < n) cs → All (λ c. c.id < n) (update_rows p f cs)
  unfolding updated
  fresh-update n [] a = tt
  fresh-update n (c ∷ cs) a = (omega (arith, a.0, Quiet-updated.id c), fresh-update n cs a.1)

  pub CyclesOrdered-update :
      (s : Store)
      → CyclesOrdered s
      → CyclesOrdered (record s { sync_cycle = update_rows p f s.sync_cycle })
  CyclesOrdered-update s o = record {
    ordered = Ordered-update s.sync_cycle o.ordered;
    fresh = fresh-update s.next_cycle_id s.sync_cycle o.fresh;
  }

-- A new row, with a new id, for a source that has no open one.
All-After-new :
    (c d : Cycle) (cs : List Cycle) → All (After c) cs → After c d → All (After c) (cs ++ d ∷ [])
All-After-new c d [] a h = (h, tt)
All-After-new c d (e ∷ cs) a h = (a.0, All-After-new c d cs a.1 h)

After-new : (c d : Cycle) → c.id < d.id → is_open_of d.source_id c ≡ false → After c d
unfolding is_open_of
After-new c d lt none_open = (
  lt,
  λ opened.
      ground (arith, bytes_eq_iff c.source_id d.source_id, bytes_eq_iff d.source_id c.source_id),
)

Ordered-new :
    (cs : List Cycle) (d : Cycle)
    → All (λ c. c.id < d.id) cs
    → exists_row (is_open_of d.source_id) cs ≡ false
    → Ordered cs
    → Ordered (cs ++ d ∷ [])
Ordered-new [] d lt none_open o = (tt, tt)
Ordered-new (c ∷ cs) d lt none_open o = (
  All-After-new c d cs o.0 (After-new c d lt.0 (ground arith)),
  Ordered-new cs d lt.1 (ground arith) o.1,
)

fresh-new :
    (n : ℕ) (cs : List Cycle) (d : Cycle)
    → All (λ c. c.id < n) cs
    → d.id ≡ n
    → All (λ c. c.id < n + 1) (cs ++ d ∷ [])
fresh-new n [] d a h = (omega arith, tt)
fresh-new n (c ∷ cs) d a h = (omega (arith, a.0), fresh-new n cs d a.1 h)

pub CyclesOrdered-insert_open_cycle :
    (source_id : Text) (now : ℕ) (s : Store)
    → CyclesOrdered s
    → CyclesOrdered (insert_open_cycle source_id now s)
unfolding insert_open_cycle
CyclesOrdered-insert_open_cycle source_id now s o =
    elim (Bool-cases (exists_row (is_open_of source_id) s.sync_cycle)) [
      | inl there ↦ subst (λ t. CyclesOrdered t) (sym (if_true _ s _ there)) o
      | inr absent ↦
          subst (λ t. CyclesOrdered t) (sym (if_false _ s _ absent))
            (record {
              ordered =
                  Ordered-new s.sync_cycle (new_cycle s.next_cycle_id source_id now) o.fresh absent
                    o.ordered;
              fresh =
                  fresh-new s.next_cycle_id s.sync_cycle (new_cycle s.next_cycle_id source_id now)
                    o.fresh refl;
            })
    ]

-- The statements that update cycles in place.
pub Quiet-as_closed : (now : ℕ) → Quiet (as_closed now)
unfolding is_open bytes_eq
Quiet-as_closed now = record { id = λ c. refl; source = λ c. refl; opens = λ c h. cc h }

pub Quiet-status :
    (status : Text)
    → bytes_eq status (codes "open") ≡ false
    → Quiet (λ c. record c { status = status })
unfolding is_open
Quiet-status status h = record { id = λ c. refl; source = λ c. refl; opens = λ c k. cc (h, k) }

pub Quiet-same :
    (f : Cycle → Cycle)
    → ((c : Cycle) → (f c).id ≡ c.id)
    → ((c : Cycle) → (f c).source_id ≡ c.source_id)
    → ((c : Cycle) → is_open (f c) ≡ is_open c)
    → Quiet f
Quiet-same f id source same = record { id = id; source = source; opens = λ c h. sym (same c) ∙ h }

-- The statements on `sync_cycle`, of any connection, in any order; `other` is any statement on the
-- other tables. A status that is marked is never `open` in the program.
pub data Reached : Store → Type 0 where
  created : (s : Store) → s.sync_cycle ≡ [] → Reached s
  inserted :
      (source_id : Text) (now : ℕ) (s : Store)
      → Reached s
      → Reached (insert_open_cycle source_id now s)
  closed : (id now : ℕ) (s : Store) → Reached s → Reached (close_cycle id now s)
  marked :
      (id : ℕ) (status : Text) (s : Store)
      → bytes_eq status open_status ≡ false
      → Reached s
      → Reached (mark_cycle_status id status s)
  rescan : (id : ℕ) (s : Store) → Reached s → Reached (mark_cycle_needs_rescan id s)
  manual_full : (id : ℕ) (s : Store) → Reached s → Reached (mark_cycle_manual_full_rescan id s)
  manual_incremental :
      (id : ℕ) (s : Store) → Reached s → Reached (mark_cycle_manual_incremental id s)
  cleared : (id : ℕ) (s : Store) → Reached s → Reached (clear_cycle_needs_rescan id s)
  other :
      (s s2 : Store)
      → Reached s
      → s2.sync_cycle ≡ s.sync_cycle
      → s2.next_cycle_id ≡ s.next_cycle_id
      → Reached s2

pub CyclesOrdered-Reached : (s : Store) → Reached s → CyclesOrdered s
unfolding close_cycle mark_cycle_status mark_cycle_needs_rescan mark_cycle_manual_full_rescan
    mark_cycle_manual_incremental clear_cycle_needs_rescan is_open
CyclesOrdered-Reached s (created t h) = record {
  ordered = subst Ordered (sym h) tt;
  fresh = subst (λ l. All (λ c. c.id < s.next_cycle_id) l) (sym h) tt;
}
CyclesOrdered-Reached s (inserted source_id now t r) =
    CyclesOrdered-insert_open_cycle source_id now t (CyclesOrdered-Reached t r)
CyclesOrdered-Reached s (closed id now t r) =
    CyclesOrdered-update _ (as_closed now) (Quiet-as_closed now) t (CyclesOrdered-Reached t r)
CyclesOrdered-Reached s (marked id status t h r) =
    CyclesOrdered-update _ (λ c. record c { status = status }) (Quiet-status status h) t
      (CyclesOrdered-Reached t r)
CyclesOrdered-Reached s (rescan id t r) =
    CyclesOrdered-update _ (λ c. record c { needs_full_rescan = true })
      (Quiet-same _ (λ c. refl) (λ c. refl) (λ c. refl)) t (CyclesOrdered-Reached t r)
CyclesOrdered-Reached s (manual_full id t r) =
    CyclesOrdered-update _ (λ c. record c { needs_full_rescan = true; manual_full_rescan = true })
      (Quiet-same _ (λ c. refl) (λ c. refl) (λ c. refl)) t (CyclesOrdered-Reached t r)
CyclesOrdered-Reached s (manual_incremental id t r) =
    CyclesOrdered-update _ (λ c. record c { manual_changed_since_rescan = true })
      (Quiet-same _ (λ c. refl) (λ c. refl) (λ c. refl)) t (CyclesOrdered-Reached t r)
CyclesOrdered-Reached s (cleared id t r) =
    CyclesOrdered-update _ (λ c. record c { needs_full_rescan = false })
      (Quiet-same _ (λ c. refl) (λ c. refl) (λ c. refl)) t (CyclesOrdered-Reached t r)
CyclesOrdered-Reached s (other t t2 r e n) =
    let o = CyclesOrdered-Reached t r in
    record {
      ordered = subst Ordered (sym e) o.ordered;
      fresh =
          subst (λ l. All (λ c. c.id < s.next_cycle_id) l) (sym e)
            (subst (λ k. All (λ c. c.id < k) t.sync_cycle) (sym n) o.fresh);
    }
