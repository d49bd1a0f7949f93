-- ===== src/Store/Pruning.antt =====
-- What `prune_event_log` (src/core/state.rs) leaves of the log.
use auto_sync.Prelude.{
  ℕ, zero, suc, ◌+◌, ◌-◌, ◌≤◌, ◌<◌, ◌≡◌, refl, ap, sym, ◌∙◌, Bool, Bool-cases, inl, inr, some, List,
  [], ◌∷◌, length, if_true, if_false, Text, ltb, ltb→lt, ltb→ge, min, count_rows, delete_rows,
  arith,
}
use auto_sync.Store.Tables.{Event, Store}
use auto_sync.Store.Events.{
  prune_chunk, prune_loop, prune_event_log, is_pruned, event_prune_chunk, pruned_log,
}

module _ (dead : Event → Bool) where
  -- One statement: how many rows it deletes, what is left to delete, and what stays.
  record Chunk (n : ℕ) (log : List Event) (step : ℕ × List Event) : Type 0 where
    count : step.0 ≡ min n (count_rows dead log)
    left : count_rows dead step.1 + step.0 ≡ count_rows dead log
    kept : delete_rows dead step.1 ≡ delete_rows dead log

  Chunk-prune_chunk : (n : ℕ) (log : List Event) → Chunk n log (prune_chunk dead n log)
  unfolding prune_chunk
  Chunk-prune_chunk n [] = record { count = omega arith; left = refl; kept = refl }
  Chunk-prune_chunk n (e ∷ log) = elim (Bool-cases (dead e)) [
    | inl d ↦ elim (Bool-cases (ltb 0 n)) [
      | inl room ↦
          let c = Chunk-prune_chunk (n - 1) log in
          rw (d, room)
            (record {
              count = ground (arith, c.count, c.left, d, room);
              left = ground (arith, c.count, c.left, d, room);
              kept = rw d c.kept;
            })
      | inr full ↦
          let c = Chunk-prune_chunk n log in
          rw (d, full)
            (record {
              count = ground (arith, c.count, c.left, d, full);
              left = ground (arith, c.count, c.left, d, full);
              kept = rw d c.kept;
            })
    ]
    | inr alive ↦
        let c = Chunk-prune_chunk n log in
        rw alive (record {
          count = ground (arith, c.count, c.left, alive);
          left = ground (arith, c.count, c.left, alive);
          kept = rw alive (ap (λ l. e ∷ l) c.kept);
        })
  ]

  nothing_dead : (log : List Event) → count_rows dead log ≡ 0 → delete_rows dead log ≡ log
  nothing_dead [] h = refl
  nothing_dead (e ∷ log) h = elim (Bool-cases (dead e)) [
    | inl d ↦ absurd (ground (arith, d, h))
    | inr alive ↦ rw alive (ap (λ l. e ∷ l) (nothing_dead log (ground (arith, alive, h))))
  ]

  count_le_length : (log : List Event) → count_rows dead log ≤ length log
  count_le_length [] = omega arith
  count_le_length (e ∷ log) = ground (arith, count_le_length log)

  prune_loop-some :
      (fuel n total : ℕ) (log : List Event)
      → 0 < n
      → count_rows dead log < fuel
      → prune_loop fuel dead n total log ≡ some (total + count_rows dead log, delete_rows dead log)
  unfolding prune_loop
  prune_loop-some zero n total log pos enough = absurd (omega arith)
  prune_loop-some (suc fuel) n total log pos enough =
      let step = prune_chunk dead n log in
      let c = Chunk-prune_chunk n log in
      elim (Bool-cases (ltb step.0 n)) [
        | inl short ↦
            let lt = ltb→lt step.0 n short in
            let none_left : count_rows dead step.1 ≡ 0 = omega (arith, c.count, c.left) in
            let all : step.0 ≡ count_rows dead log = omega (arith, c.count) in
            if_true (ltb step.0 n) _ _ short
            ∙ ap some (
                ap (λ k. (total + k, step.1)) all
                ∙ ap (λ l. (total + count_rows dead log, l))
                    (sym (nothing_dead step.1 none_left) ∙ c.kept))
        | inr full ↦
            let ge = ltb→ge step.0 n full in
            let sum : total + step.0 + count_rows dead step.1 ≡ total + count_rows dead log =
              omega (arith, c.left) in
            if_false (ltb step.0 n) _ _ full
            ∙ (prune_loop-some fuel n (total + step.0) step.1 pos (omega (arith, c.left))
                ∙ ap some (
                    ap (λ k. (k, delete_rows dead step.1)) sum
                    ∙ ap (λ l. (total + count_rows dead log, l)) c.kept))
      ]

-- Pruning ends, and whatever the size of the log it deletes exactly the events of the source's
-- cycles before the kept one: it returns their number, and all other rows stay in their order.
pub prune_event_log-delete_rows :
    (source_id : Text) (keep_from_cycle : ℕ) (s : Store)
    → prune_event_log source_id keep_from_cycle s
      ≡ some (
        count_rows (is_pruned source_id keep_from_cycle) s.event_log,
        record s { event_log = delete_rows (is_pruned source_id keep_from_cycle) s.event_log },
      )
unfolding prune_event_log
prune_event_log-delete_rows source_id keep_from_cycle s =
    let dead = is_pruned source_id keep_from_cycle in
    let none_yet : 0 + count_rows dead s.event_log ≡ count_rows dead s.event_log = omega arith in
    ap (pruned_log s) (
      prune_loop-some dead (suc (length s.event_log)) event_prune_chunk 0 s.event_log (omega arith)
        (omega (arith, count_le_length dead s.event_log)))
    ∙ ap (λ k. some (k, record s { event_log = delete_rows dead s.event_log })) none_yet
