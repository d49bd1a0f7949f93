-- ===== src/Push/Pools.antt =====
-- The whole of `push_entries_parallel` (src/core/sync/mod.rs): from its first state to its result.
use auto_sync.Prelude.{
  ◌⊎◌, ℕ, zero, suc, ◌≤◌, ◌<◌, ◌≡◌, refl, ap, sym, subst, ◌∙◌, inl, inr, Option, none, some, List,
  [], ◌∷◌, ◌++◌, append-nil, append_assoc, arith, min, length, length-append, Memᴰ,
  Member-append_cases, Member-append_left, Member-append_right, All, ok, err,
}
use mathlib.Core.List.{Perm}
use mathlib.Core.List.Perm
use auto_sync.Push.Plan.{PushWork}
use auto_sync.Push.Retry.{resolve_parallelism, resolve_parallelism_bounds}
use auto_sync.Push.Pool.{
  ErrorOps, Shared, Worker, looking, stopped, Pool, Run, rest, step, item_list, finished,
  pool_result, TransferOutcome, no_shared, max_per_file_transfer_failures,
}
use auto_sync.Push.Runs.{upto, held, all_held, all_held-append, Taken, Moved, Moved-Move}

abbrev pub all_looking : ℕ → List Worker
all_looking zero = []
all_looking (suc n) = looking ∷ all_looking n

-- The pool when the workers are spawned, as many as `resolve_parallelism` gives.
abbrev pub spawned : {E : Type 0} → ℕ → List PushWork → Pool E
spawned configured work = record {
  shared = no_shared;
  workers = all_looking (resolve_parallelism configured (length work));
}

abbrev pub Stopped : Worker → Type 0
Stopped w = w ≡ stopped

nothing_held : (n : ℕ) → all_held (all_looking n) ≡ []
nothing_held zero = refl
nothing_held (suc n) = nothing_held n

none_stopped : (n : ℕ) → Memᴰ stopped (all_looking n) → ⊥
none_stopped zero m = elim m [ ]
none_stopped (suc n) (Memᴰ.head h) = cc h
none_stopped (suc n) (Memᴰ.tail m) = none_stopped n m

Stopped-held : (ws : List Worker) → All Stopped ws → all_held ws ≡ []
Stopped-held [] h = refl
Stopped-held (w ∷ ws) h = subst (λ v. held v ++ all_held ws ≡ []) (sym h.0) (Stopped-held ws h.1)

Member-Stopped : (ws : List Worker) → 1 ≤ length ws → All Stopped ws → Memᴰ stopped ws
Member-Stopped [] h s = absurd (omega arith)
Member-Stopped (w ∷ ws) h s = Memᴰ.head (sym s.0)

length-all_looking : (n : ℕ) → length (all_looking n) ≡ n
length-all_looking zero = refl
length-all_looking (suc n) = omega (arith, length-all_looking n)

module _ {E : Type 0} (ops : ErrorOps E) (work : List PushWork) where
  Taken-step :
      (done : List ℕ) (p : Pool E) (before after : List Worker) (w w2 : Worker) (item : Option ℕ)
      (s2 : Shared E)
      → p.workers ≡ before ++ w ∷ after
      → Moved ops work p.shared s2 w w2 item
      → Taken ops work done p
      → Taken ops work
          (done ++ item_list item)
          (record { shared = s2; workers = before ++ w2 ∷ after })
  Taken-step done p before after w w2 item s2 e m t = record {
    exact =
        subst (λ l. Perm ((done ++ item_list item) ++ l) (upto (min s2.next (length work))))
          (sym (all_held-append before (w2 ∷ after)))
          (m.exact done (all_held before) (all_held after) (
            subst (λ l. Perm (done ++ l) (upto (min p.shared.next (length work))))
              (ap all_held e ∙ all_held-append before (w ∷ after)) t.exact));
    idle = λ n k. stopped_worker n (Member-append_cases stopped before (w2 ∷ after) k);
    capped = m.capped t.capped;
  }
    where
      earlier : s2.fatal_error ≡ none → Memᴰ stopped (before ++ w ∷ after) → length work ≤ s2.next
      earlier n k =
          omega (arith, m.grows, t.idle (m.slot n) (subst (λ ws. Memᴰ stopped ws) (sym e) k))

      stopped_worker :
          s2.fatal_error ≡ none
          → Memᴰ stopped before ⊎ Memᴰ stopped (w2 ∷ after)
          → length work ≤ s2.next
      stopped_worker n (inl k) = earlier n (Member-append_left stopped before (w ∷ after) k)
      stopped_worker n (inr (Memᴰ.head h)) = m.stops n (sym h)
      stopped_worker n (inr (Memᴰ.tail k)) =
          earlier n (Member-append_right stopped before (w ∷ after) (Memᴰ.tail k))

  Taken-Run :
      (q : Pool E) {p : Pool E} (done : List ℕ) (r : Run ops work q p)
      → Taken ops work done p
      → Taken ops work (done ++ finished ops r) q
  Taken-Run q done rest t = subst (λ d. Taken ops work d q) (sym (append-nil done)) t
  Taken-Run q {p} done (step before after w w2 item s2 e move run) t =
      subst (λ d. Taken ops work d q) (append_assoc done (item_list item) (finished ops run))
        (Taken-Run q (done ++ item_list item) run (
          Taken-step done p before after w w2 item s2 e
            (Moved-Move ops work p.shared s2 w w2 item move) t))

  Taken-spawned : (configured : ℕ) → Taken ops work [] (spawned configured work)
  Taken-spawned configured =
      let n = resolve_parallelism configured (length work) in
      record {
        exact =
            subst (λ l. Perm l (upto (min 0 (length work)))) (sym (nothing_held n))
              (let none_yet : min 0 (length work) ≡ 0 = omega arith in rw none_yet (Perm.refl []));
        idle = λ h m. absurd (none_stopped n m);
        capped = omega arith;
      }

  workers-Run :
      (q : Pool E) {p : Pool E} (r : Run ops work q p) → length q.workers ≡ length p.workers
  workers-Run q rest = refl
  workers-Run q {p} (step before after w w2 item s2 e move run) =
      workers-Run q run
      ∙ (length-append before (w2 ∷ after)
          ∙ (sym (length-append before (w ∷ after)) ∙ ap length (sym e)))

  some_worker :
      (configured : ℕ) (q : Pool E)
      → Run ops work q (spawned configured work)
      → 1 ≤ length q.workers
  some_worker configured q r = omega (
    arith,
    workers-Run q r,
    length-all_looking (resolve_parallelism configured (length work)),
    (resolve_parallelism_bounds configured (length work)).0,
  )

  slot_empty :
      (s : Shared E) (outcome : TransferOutcome E)
      → pool_result s ≡ ok outcome
      → s.fatal_error ≡ none
  unfolding pool_result
  slot_empty s outcome h = go s.fatal_error h
    where
      go :
          (slot : Option E)
          → (elim slot [
            | some e ↦ err e
            | none ↦ ok (record { transferred = s.done; changing = s.changing; failed = s.failed })
          ])
            ≡ ok outcome
          → slot ≡ none
      go none k = refl
      go (some e) k = cc k

  -- However the workers interleave and whatever the transfers answer: if the pool returns an
  -- outcome when all its workers have left, then they have finished every item of the work,
  -- and each exactly once.
  pub Perm-finished :
      (configured : ℕ) (q : Pool E) (outcome : TransferOutcome E)
      (r : Run ops work q (spawned configured work))
      → All Stopped q.workers
      → pool_result q.shared ≡ ok outcome
      → Perm (finished ops r) (upto (length work))
  Perm-finished configured q outcome r stop result =
      let t = Taken-Run q [] r (Taken-spawned configured) in
      let past =
        t.idle (slot_empty q.shared outcome result)
          (Member-Stopped q.workers (some_worker configured q r) stop) in
      let all : min q.shared.next (length work) ≡ length work = omega (arith, past) in
      subst (λ n. Perm (finished ops r) (upto n)) all
        (subst (λ l. Perm l (upto (min q.shared.next (length work))))
          (ap (λ l. finished ops r ++ l) (Stopped-held q.workers stop)
            ∙ append-nil (finished ops r))
          t.exact)

  -- At every moment of every run, fewer than 20 failures are recorded.
  pub failed-Run :
      (configured : ℕ) (q : Pool E)
      → Run ops work q (spawned configured work)
      → length q.shared.failed < max_per_file_transfer_failures
  failed-Run configured q r = (Taken-Run q [] r (Taken-spawned configured)).capped
