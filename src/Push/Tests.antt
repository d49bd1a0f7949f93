-- ===== src/Push/Tests.antt =====
-- A push of two small files, a large one and a delta; a pool with one worker; and a retried call.
use auto_sync.Prelude.{
  if◌then◌else◌, ℕ, ◌+◌, ◌*◌, ◌≤◌, ◌<◌, ◌≡◌, refl, Bool, true, false, none, some, List, [], ◌∷◌,
  ◌==◌, Text, bytes_eq, codes, pos, length, Result, ok, err, All, collect,
}
use mathlib.Core.List.{Perm}
use auto_sync.Manifest.Entry.{SnapshotEntry, file}
use auto_sync.Push.Plan.{PushWork, single, small_batch, plan_push_work}
use auto_sync.Push.Delivery.{delivers, Perm-plan_push_work}
use auto_sync.Push.Bounds.{Bounded, All-Bounded-plan_push_work}
use auto_sync.Push.Retry.{
  resolve_parallelism, with_transfer_retry, Ended, Ended-with_transfer_retry,
}
use auto_sync.Push.Pool.{
  ErrorOps, Shared, looking, unfatal, ready, stopped, working, Pool, saw_none, not_cancelled,
  take_item, no_item, finish, Run, rest, step, settle, finished, steps, pool_result,
  TransferOutcome, max_per_file_transfer_failures,
}
use auto_sync.Push.Runs.{upto}
use auto_sync.Push.Pools.{spawned, Perm-finished, failed-Run}
use auto_sync.Push.Ends.{steps-spawned}

abbrev sized : Text → ℕ → SnapshotEntry
sized path size = record {
  rel_path = path;
  file_type = file;
  size = pos size;
  mtime_ns = pos 0;
  mode = 420;
  hash = none;
}

abbrev entries : List (SnapshotEntry × Bool)
entries =
    (sized (codes "a") 10, false)
    ∷ (sized (codes "big") 1_000_000, false)
    ∷ (sized (codes "b") 20, false)
    ∷ (sized (codes "delta") 30, true)
    ∷ []

plan_run :
    plan_push_work entries
    ≡ single (sized (codes "big") 1_000_000) false
      ∷ single (sized (codes "delta") 30) true
      ∷ small_batch (sized (codes "a") 10 ∷ sized (codes "b") 20 ∷ [])
      ∷ []
unfolding plan_push_work bytes_eq
plan_run = refl

Perm-plan_push_work_example : Perm (collect delivers (plan_push_work entries)) entries
Perm-plan_push_work_example = Perm-plan_push_work entries

All-Bounded-plan_push_work_example : All Bounded (plan_push_work entries)
All-Bounded-plan_push_work_example = All-Bounded-plan_push_work entries

-- Errors are numbers: 1 is a changing source, 2 a cancellation and the end of the pool.
abbrev is_one : ℕ → Bool
is_one e = e == 1

abbrev is_two : ℕ → Bool
is_two e = e == 2

-- The first call fails, the second succeeds.
abbrev second_try : ℕ → Result {0, 0} ℕ Unit
second_try attempt = if attempt == 2 then ok tt else err 7

retry_run : with_transfer_retry is_one is_two second_try ≡ some (ok tt)
unfolding with_transfer_retry
retry_run = refl

Ended-with_transfer_retry_example :
    Ended is_one is_two second_try 1 (with_transfer_retry is_one is_two second_try)
Ended-with_transfer_retry_example = Ended-with_transfer_retry is_one is_two second_try

abbrev ops : ErrorOps ℕ
ops = record {
  is_source_changing = is_one;
  is_fatal = is_two;
  give_up = λ path e. e;
  message = λ text. 3;
  label = λ batch. codes "batch";
}

abbrev work : List PushWork
work = single (sized (codes "a") 10) false ∷ []

abbrev counted : ℕ → ℕ → Shared ℕ
counted next done = record {
  next = next;
  done = done;
  fatal_error = none;
  changing = [];
  failed = [];
}

abbrev final : Pool ℕ
final = record { shared = counted 2 1; workers = stopped ∷ [] }

-- The worker takes the item, transfers it, and finds no other.
abbrev run : Run ops work final (spawned 1 work)
unfolding resolve_parallelism settle
run = step [] [] looking unfatal none (counted 0 0) refl (saw_none refl) (
    step [] [] unfatal ready none (counted 0 0) refl not_cancelled (
      step [] [] ready (working 0) none (counted 1 0) refl (take_item refl) (
        step [] [] (working 0) looking (some 0) (counted 1 1) refl
          (finish 0 (single (sized (codes "a") 10) false) (ok tt) refl)
          (step [] [] looking unfatal none (counted 1 1) refl (saw_none refl) (
            step [] [] unfatal ready none (counted 1 1) refl not_cancelled
              (step [] [] ready stopped none (counted 2 1) refl (no_item refl) rest))))))

abbrev outcome : TransferOutcome ℕ
outcome = record { transferred = 1; changing = []; failed = [] }

result_run : pool_result final.shared ≡ ok outcome
unfolding pool_result
result_run = refl

Perm-finished_example : Perm (finished ops run) (upto (length work))
Perm-finished_example = Perm-finished ops work 1 final outcome run (refl, tt) result_run

failed-Run_example : length final.shared.failed < max_per_file_transfer_failures
failed-Run_example = failed-Run ops work 1 final run

steps-spawned_example : steps ops run ≤ 5 * length work + 4 * resolve_parallelism 1 (length work)
steps-spawned_example = steps-spawned ops work 1 final run
