-- ===== src/Store/Gap.antt =====
-- The notice of a restart stands while events go on (src/core/state.rs, table `source_meta`).
use auto_sync.Prelude.{
  ℕ, subst, ◌≡◌, refl, ap, sym, ◌∙◌, Bool, true, false, Option, none, some, List, [], ◌∷◌, ◌++◌,
  if◌then◌else◌, if_true, Text, ltb, exists_row, count_rows, insert_new_row,
}
use auto_sync.Store.Tables.{Store}
use auto_sync.Store.Cycles.{
  alone, ensure_open_cycle, mark_open_cycle_needs_rescan, mark_cycle_needs_rescan, mark_found,
}
use auto_sync.Store.Recording.{ensure_keeps}
use auto_sync.Store.Events.{
  WatcherEvent, touch_source, insert_event, after_mark, record_found, record_event,
}
use auto_sync.Store.Notices.{
  of_source, unnoticed, with_notice, empty_meta, raised, restart_notice, raise_restart_notice,
}
use auto_sync.Store.Raised.{
  IsRaised, none_unnoticed, update_none, exists-update, exists-insert, IsRaised-touch_source,
}

-- Only the touch of `record_event` is on the table of the notices.
IsRaised-record_event :
    (source_id : Text) (notice : Option (Option ℕ × Option ℕ)) (event : WatcherEvent) (now : ℕ)
    (s : Store)
    → IsRaised source_id notice s.source_meta
    → IsRaised source_id notice (record_event alone event now s).0.source_meta
unfolding record_event insert_event mark_open_cycle_needs_rescan mark_cycle_needs_rescan
IsRaised-record_event source_id notice event now s r =
    recorded (ensure_open_cycle alone event.source_id now s) (
      subst (IsRaised source_id notice)
        (sym (ensure_keeps (λ t. t.source_meta ≡ s.source_meta) event.source_id now s refl refl)) r)
  where
    Raised : Store → Type 0
    Raised t = IsRaised source_id notice t.source_meta

    marked :
        (event_id : ℕ) (e : Store × Option ℕ)
        → Raised e.0
        → Raised (after_mark event_id (mark_found alone e)).0
    marked event_id (t, none) k = k
    marked event_id (t, some id) k = k

    by_test :
        (event_id : ℕ) (t : Store) (b : Bool)
        → Raised t
        → Raised
            (if b
              then after_mark event_id (mark_open_cycle_needs_rescan alone event.source_id now t)
              else (t, some event_id)).0
    by_test event_id t true k = marked event_id (ensure_open_cycle alone event.source_id now t) (
        subst (IsRaised source_id notice)
          (sym (ensure_keeps (λ u. u.source_meta ≡ t.source_meta) event.source_id now t refl refl))
          k)
    by_test event_id t false k = k

    recorded : (e : Store × Option ℕ) → Raised e.0 → Raised (record_found alone event now e).0
    recorded (t, none) k = k
    recorded (t, some cycle_id) k =
        by_test t.next_event_id
          (touch_source event.source_id now (insert_event event cycle_id now t))
          event.rescan_required
          (IsRaised-touch_source source_id notice event.source_id now
            (insert_event event cycle_id now t) k)

-- Events that are recorded one after the other, with their times.
abbrev pub record_all : List (WatcherEvent × ℕ) → Store → Store
record_all [] s = s
record_all ((event, now) ∷ events) s = record_all events (record_event alone event now s).0

IsRaised-record_all :
    (source_id : Text) (notice : Option (Option ℕ × Option ℕ)) (events : List (WatcherEvent × ℕ))
    (s : Store)
    → IsRaised source_id notice s.source_meta
    → IsRaised source_id notice (record_all events s).source_meta
IsRaised-record_all source_id notice [] s r = r
IsRaised-record_all source_id notice ((event, now) ∷ events) s r =
    IsRaised-record_all source_id notice events _
      (IsRaised-record_event source_id notice event now s r)

IsRaised-raise :
    (source_id : Text) (now : ℕ) (s : Store)
    → IsRaised source_id
        (restart_notice source_id (raise_restart_notice source_id now s).0)
        (raise_restart_notice source_id now s).0.source_meta
unfolding raise_restart_notice restart_notice
IsRaised-raise source_id now s =
    let rows = insert_new_row (of_source source_id) (empty_meta source_id) s.source_meta in
    record {
      there = exists-update source_id now rows ∙ exists-insert source_id s.source_meta;
      settled = none_unnoticed source_id now rows;
      shown = refl;
    }

raise-IsRaised :
    (source_id : Text) (notice : Option (Option ℕ × Option ℕ)) (now : ℕ) (s : Store)
    → IsRaised source_id notice s.source_meta
    → raise_restart_notice source_id now s ≡ (s, false)
unfolding raise_restart_notice
raise-IsRaised source_id notice now s r =
    let rows = s.source_meta in
    ap (λ l. (record s { source_meta = (raised source_id now l).0 }, (raised source_id now l).1))
      (if_true (exists_row (of_source source_id) rows) rows (rows ++ empty_meta source_id ∷ [])
        r.there)
    ∙ (ap (λ l. (record s { source_meta = l }, ltb 0 (count_rows (unnoticed source_id) rows)))
          (update_none (unnoticed source_id) (with_notice now) rows r.settled)
        ∙ ap (λ n. (s, ltb 0 n)) r.settled)

-- Whatever events of whatever sources are recorded, one after the other, between two restarts, the
-- second raises no notice and changes nothing, and the notice is that of the first, with the gap
-- that it found.
pub raise-raise_restart_notice :
    (source_id : Text) (first second : ℕ) (events : List (WatcherEvent × ℕ)) (s : Store)
    → (raise_restart_notice source_id second
          (record_all events (raise_restart_notice source_id first s).0)
        ≡ (record_all events (raise_restart_notice source_id first s).0, false))
      × (restart_notice source_id (record_all events (raise_restart_notice source_id first s).0)
          ≡ restart_notice source_id (raise_restart_notice source_id first s).0)
unfolding restart_notice
raise-raise_restart_notice source_id first second events s =
    let r =
      IsRaised-record_all source_id _ events (raise_restart_notice source_id first s).0
        (IsRaised-raise source_id first s) in
    (raise-IsRaised source_id _ second _ r, r.shown)
