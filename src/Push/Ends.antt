-- ===== src/Push/Ends.antt =====
-- Every run of `push_entries_parallel` (src/core/sync/mod.rs) ends: its steps are bounded.
use auto_sync.Prelude.{
  ℕ, zero, suc, ◌+◌, ◌-◌, ◌*◌, ◌≤◌, ◌≡◌, refl, ap, Bool, true, false, Option, List, [], ◌∷◌, ◌++◌,
  arith, length, ltb→lt,
}
use auto_sync.Push.Plan.{PushWork}
use auto_sync.Push.Retry.{resolve_parallelism}
use auto_sync.Push.Pool.{
  ErrorOps, Shared, Worker, looking, unfatal, ready, stopped, working, Pool, Move, saw_fatal,
  saw_none, cancelled, not_cancelled, take_item, no_item, finish, Run, rest, step, set_fatal,
  settle, after_settle, steps,
}
use auto_sync.Push.Settle.{Keeps-settle}
use auto_sync.Push.Pools.{spawned, all_looking}

-- The steps that a worker has left before it takes the next item.
abbrev rank : Worker → ℕ
rank looking = 4
rank unfatal = 3
rank ready = 2
rank stopped = 0
rank (working idx) = 5

abbrev ranks : List Worker → ℕ
ranks [] = 0
ranks (w ∷ ws) = rank w + ranks ws

ranks-append : (xs ys : List Worker) → ranks (xs ++ ys) ≡ ranks xs + ranks ys
ranks-append [] ys = omega arith
ranks-append (x ∷ xs) ys = omega (arith, ranks-append xs ys)

ranks-all_looking : (n : ℕ) → ranks (all_looking n) ≡ 4 * n
ranks-all_looking zero = refl
ranks-all_looking (suc n) = omega (arith, ranks-all_looking n)

module _ {E : Type 0} (ops : ErrorOps E) (work : List PushWork) where
  -- The items not yet taken, at five steps each.
  abbrev left : Shared E → ℕ
  left s = 5 * (length work - s.next)

  rank-after_settle : (b : Bool) → rank (after_settle b) ≤ 4
  rank-after_settle true = omega arith
  rank-after_settle false = omega arith

  drops :
      (s s2 : Shared E) (w w2 : Worker) (item : Option ℕ)
      → Move ops work s w item s2 w2
      → left s2 + rank w2 + 1 ≤ left s + rank w
  drops s s2 w w2 item (saw_fatal e h) = omega arith
  drops s s2 w w2 item (saw_none h) = omega arith
  drops s s2 w w2 item (cancelled e) = unfold set_fatal in omega arith
  drops s s2 w w2 item not_cancelled = omega arith
  drops s s2 w w2 item (take_item h) = omega (arith, ltb→lt s.next (length work) h)
  drops s s2 w w2 item (no_item h) = omega arith
  drops s s2 w w2 item (finish idx it answer h) =
      omega
        (arith, (Keeps-settle ops s it answer).next, rank-after_settle (settle ops s it answer).1)

  steps-ranks :
      (q : Pool E) {p : Pool E} (r : Run ops work q p)
      → steps ops r ≤ left p.shared + ranks p.workers
  steps-ranks q rest = omega arith
  steps-ranks q {p} (step before after w w2 item s2 e move run) = omega (
    arith,
    steps-ranks q run,
    drops p.shared s2 w w2 item move,
    ranks-append before (w2 ∷ after),
    ranks-append before (w ∷ after),
    ap ranks e,
  )

  -- No run takes more than five steps for each item of work and four for each worker.
  pub steps-spawned :
      (configured : ℕ) (q : Pool E) (r : Run ops work q (spawned configured work))
      → steps ops r ≤ 5 * length work + 4 * resolve_parallelism configured (length work)
  steps-spawned configured q r =
      omega
        (arith, steps-ranks q r, ranks-all_looking (resolve_parallelism configured (length work)))
