-- ===== src/Store/Between.antt =====
-- What the other connections can do between two statements of `record_event` (src/core/state.rs).
use auto_sync.Prelude.{
  ℕ, ◌+◌, subst, ◌≡◌, refl, ap, sym, ◌∙◌, Bool, true, false, Bool-cases, inl, inr, List, [], ◌∷◌,
  ◌++◌, if◌then◌else◌, if_true, if_false, Text, bytes_eq, Memᴰ, Member-append_left, exists_row,
  update_rows,
}
use auto_sync.Store.Tables.{Cycle, Store, is_open, is_open_of, open_status}
use auto_sync.Store.Cycles.{
  Gaps, new_cycle, insert_open_cycle, close_cycle, mark_cycle_status, mark_cycle_needs_rescan,
  mark_cycle_manual_full_rescan, mark_cycle_manual_incremental, clear_cycle_needs_rescan, as_closed,
  alone,
}
use auto_sync.Store.Ordered.{Reached, Quiet, Quiet-as_closed, Quiet-status, Quiet-same}

-- Any statements on the cycles, in any order, and any on the other tables but the event log, whose
-- writers wait for the write lock.
pub data Between (s : Store) : Store → Type 0 where
  here : Between s s
  inserted :
      (source_id : Text) (now : ℕ) (t : Store)
      → Between s t
      → Between s (insert_open_cycle source_id now t)
  closed : (id now : ℕ) (t : Store) → Between s t → Between s (close_cycle id now t)
  marked :
      (id : ℕ) (status : Text) (t : Store)
      → bytes_eq status open_status ≡ false
      → Between s t
      → Between s (mark_cycle_status id status t)
  rescan : (id : ℕ) (t : Store) → Between s t → Between s (mark_cycle_needs_rescan id t)
  manual_full : (id : ℕ) (t : Store) → Between s t → Between s (mark_cycle_manual_full_rescan id t)
  manual_incremental :
      (id : ℕ) (t : Store) → Between s t → Between s (mark_cycle_manual_incremental id t)
  cleared : (id : ℕ) (t : Store) → Between s t → Between s (clear_cycle_needs_rescan id t)
  other :
      (t u : Store)
      → Between s t
      → u.sync_cycle ≡ t.sync_cycle
      → u.next_cycle_id ≡ t.next_cycle_id
      → u.event_log ≡ t.event_log
      → Between s u

abbrev pub IsOutside : Gaps → Type 0
IsOutside gaps = (i : ℕ) (s : Store) → Between s (gaps i s)

pub IsOutside-alone : IsOutside alone
IsOutside-alone i s = Between.here

pub Between-trans : (s t u : Store) → Between s t → Between t u → Between s u
Between-trans s t _ r here = r
Between-trans s t _ r (inserted source_id now u k) =
    Between.inserted source_id now u (Between-trans s t u r k)
Between-trans s t _ r (closed id now u k) = Between.closed id now u (Between-trans s t u r k)
Between-trans s t _ r (marked id status u h k) =
    Between.marked id status u h (Between-trans s t u r k)
Between-trans s t _ r (rescan id u k) = Between.rescan id u (Between-trans s t u r k)
Between-trans s t _ r (manual_full id u k) = Between.manual_full id u (Between-trans s t u r k)
Between-trans s t _ r (manual_incremental id u k) =
    Between.manual_incremental id u (Between-trans s t u r k)
Between-trans s t _ r (cleared id u k) = Between.cleared id u (Between-trans s t u r k)
Between-trans s t _ r (other u v k c n l) = Between.other u v (Between-trans s t u r k) c n l

pub Reached-Between : (s t : Store) → Reached s → Between s t → Reached t
Reached-Between s _ r here = r
Reached-Between s _ r (inserted source_id now u k) =
    Reached.inserted source_id now u (Reached-Between s u r k)
Reached-Between s _ r (closed id now u k) = Reached.closed id now u (Reached-Between s u r k)
Reached-Between s _ r (marked id status u h k) =
    Reached.marked id status u h (Reached-Between s u r k)
Reached-Between s _ r (rescan id u k) = Reached.rescan id u (Reached-Between s u r k)
Reached-Between s _ r (manual_full id u k) = Reached.manual_full id u (Reached-Between s u r k)
Reached-Between s _ r (manual_incremental id u k) =
    Reached.manual_incremental id u (Reached-Between s u r k)
Reached-Between s _ r (cleared id u k) = Reached.cleared id u (Reached-Between s u r k)
Reached-Between s _ r (other u v k c n l) = Reached.other u v (Reached-Between s u r k) c n

-- What holds of the store whether a cycle is inserted or not.
pub insert_cases :
    (P : Store → Type 0) (source_id : Text) (now : ℕ) (s : Store)
    → P s
    → P (record s {
      sync_cycle = s.sync_cycle ++ new_cycle s.next_cycle_id source_id now ∷ [];
      next_cycle_id = s.next_cycle_id + 1;
    })
    → P (insert_open_cycle source_id now s)
unfolding insert_open_cycle
insert_cases P source_id now s h k = by_test (exists_row (is_open_of source_id) s.sync_cycle)
  where
    by_test :
        (b : Bool)
        → P (
            if b then s else record s {
              sync_cycle = s.sync_cycle ++ new_cycle s.next_cycle_id source_id now ∷ [];
              next_cycle_id = s.next_cycle_id + 1;
            })
    by_test true = h
    by_test false = k

pub event_log-Between : (s t : Store) → Between s t → t.event_log ≡ s.event_log
unfolding close_cycle mark_cycle_status mark_cycle_needs_rescan mark_cycle_manual_full_rescan
    mark_cycle_manual_incremental clear_cycle_needs_rescan
event_log-Between s _ here = refl
event_log-Between s _ (inserted source_id now u k) =
    insert_cases (λ v. v.event_log ≡ u.event_log) source_id now u refl refl
    ∙ event_log-Between s u k
event_log-Between s _ (closed id now u k) = event_log-Between s u k
event_log-Between s _ (marked id status u h k) = event_log-Between s u k
event_log-Between s _ (rescan id u k) = event_log-Between s u k
event_log-Between s _ (manual_full id u k) = event_log-Between s u k
event_log-Between s _ (manual_incremental id u k) = event_log-Between s u k
event_log-Between s _ (cleared id u k) = event_log-Between s u k
event_log-Between s _ (other u v k c n l) = l ∙ event_log-Between s u k

-- A cycle of the source with this id stands in the table, and is not open.
pub record Shut (source_id : Text) (id : ℕ) (cs : List Cycle) : Type 0 where
  pub cycle : Cycle
  pub member : Memᴰ cycle cs
  pub of_source : cycle.source_id ≡ source_id
  pub same_id : cycle.id ≡ id
  pub not_open : is_open cycle ≡ false

module _ (source_id : Text) (id : ℕ) (p : Cycle → Bool) (f : Cycle → Cycle) (q : Quiet f) where
  stays_shut : (d : Cycle) → is_open d ≡ false → is_open (f d) ≡ false
  stays_shut d h = elim (Bool-cases (is_open (f d))) [
    | inl t ↦ absurd (cc (q.opens d t, h))
    | inr e ↦ e
  ]

  Shut-tail : (c : Cycle) (cs : List Cycle) → Shut source_id id cs → Shut source_id id (c ∷ cs)
  Shut-tail c cs d = record {
    cycle = d.cycle;
    member = Memᴰ.tail d.member;
    of_source = d.of_source;
    same_id = d.same_id;
    not_open = d.not_open;
  }

  Shut-head :
      (d c : Cycle) (cs : List Cycle)
      → d ≡ c
      → d.source_id ≡ source_id
      → d.id ≡ id
      → is_open d ≡ false
      → Shut source_id id (c ∷ cs)
  Shut-head d c cs e o i h = record {
    cycle = d;
    member = Memᴰ.head e;
    of_source = o;
    same_id = i;
    not_open = h;
  }

  Shut-row :
      (d : Cycle) (cs : List Cycle)
      → Memᴰ d cs
      → d.source_id ≡ source_id
      → d.id ≡ id
      → is_open d ≡ false
      → Shut source_id id (update_rows p f cs)
  Shut-row d [] m o i h = elim m [ ]
  Shut-row d (c ∷ cs) (Memᴰ.tail m) o i h = Shut-tail _ _ (Shut-row d cs m o i h)
  Shut-row d (c ∷ cs) (Memᴰ.head e) o i h = elim (Bool-cases (p c)) [
    | inl t ↦
        Shut-head (f d) _ _ (ap f e ∙ sym (if_true (p c) (f c) c t)) (q.source d ∙ o) (q.id d ∙ i)
          (stays_shut d h)
    | inr t ↦ Shut-head d _ _ (e ∙ sym (if_false (p c) (f c) c t)) o i h
  ]

  Shut-update : (cs : List Cycle) → Shut source_id id cs → Shut source_id id (update_rows p f cs)
  Shut-update cs d = Shut-row d.cycle cs d.member d.of_source d.same_id d.not_open

Shut-append :
    (source_id : Text) (id : ℕ) (cs ds : List Cycle)
    → Shut source_id id cs
    → Shut source_id id (cs ++ ds)
Shut-append source_id id cs ds d = record {
  cycle = d.cycle;
  member = Member-append_left d.cycle cs ds d.member;
  of_source = d.of_source;
  same_id = d.same_id;
  not_open = d.not_open;
}

-- A cycle that is not open stays in the table, and is not opened again.
pub Shut-Between :
    (source_id : Text) (id : ℕ) (s t : Store)
    → Between s t
    → Shut source_id id s.sync_cycle
    → Shut source_id id t.sync_cycle
unfolding close_cycle mark_cycle_status mark_cycle_needs_rescan mark_cycle_manual_full_rescan
    mark_cycle_manual_incremental clear_cycle_needs_rescan is_open
Shut-Between source_id id s _ here d = d
Shut-Between source_id id s _ (inserted new now u k) d =
    let d2 = Shut-Between source_id id s u k d in
    insert_cases (λ v. Shut source_id id v.sync_cycle) new now u d2
      (Shut-append source_id id u.sync_cycle (new_cycle u.next_cycle_id new now ∷ []) d2)
Shut-Between source_id id s _ (closed n now u k) d =
    Shut-update source_id id _ (as_closed now) (Quiet-as_closed now) u.sync_cycle
      (Shut-Between source_id id s u k d)
Shut-Between source_id id s _ (marked n status u h k) d =
    Shut-update source_id id _ (λ c. record c { status = status }) (Quiet-status status h)
      u.sync_cycle (Shut-Between source_id id s u k d)
Shut-Between source_id id s _ (rescan n u k) d =
    Shut-update source_id id _ (λ c. record c { needs_full_rescan = true })
      (Quiet-same _ (λ c. refl) (λ c. refl) (λ c. refl)) u.sync_cycle
      (Shut-Between source_id id s u k d)
Shut-Between source_id id s _ (manual_full n u k) d =
    Shut-update source_id id _
      (λ c. record c { needs_full_rescan = true; manual_full_rescan = true })
      (Quiet-same _ (λ c. refl) (λ c. refl) (λ c. refl)) u.sync_cycle
      (Shut-Between source_id id s u k d)
Shut-Between source_id id s _ (manual_incremental n u k) d =
    Shut-update source_id id _ (λ c. record c { manual_changed_since_rescan = true })
      (Quiet-same _ (λ c. refl) (λ c. refl) (λ c. refl)) u.sync_cycle
      (Shut-Between source_id id s u k d)
Shut-Between source_id id s _ (cleared n u k) d =
    Shut-update source_id id _ (λ c. record c { needs_full_rescan = false })
      (Quiet-same _ (λ c. refl) (λ c. refl) (λ c. refl)) u.sync_cycle
      (Shut-Between source_id id s u k d)
Shut-Between source_id id s _ (other u v k c n l) d =
    subst (Shut source_id id) (sym c) (Shut-Between source_id id s u k d)
