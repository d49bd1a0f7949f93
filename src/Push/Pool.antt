-- ===== src/Push/Pool.antt =====
-- `push_entries_parallel` of src/core/sync/mod.rs: workers that share a counter of the work, the
-- result lists and the slot of the error that ends the pool.
use auto_sync.Prelude.{
  ℕ, ◌+◌, ◌≡◌, Bool, true, false, ◌||◌, Option, none, some, List, [], ◌∷◌, ◌++◌, if◌then◌else◌, ltb,
  leb, length, get_elem?, Text, bytes_eq, Result, ok, err,
}
use auto_sync.Manifest.Entry.{SnapshotEntry}
use auto_sync.Push.Plan.{PushWork, single, small_batch}

abbrev pub max_per_file_transfer_failures : ℕ
max_per_file_transfer_failures = 20

-- `failed` has a path and a message for each file that the batch could not deliver.
pub record TransferBatchOutcome : Type 0 where
  pub sent : ℕ
  pub changing : List Text
  pub failed : List (Text × Text)

pub record Shared (E : Type 0) : Type 0 where
  pub next : ℕ
  pub done : ℕ
  pub fatal_error : Option E
  pub changing : List Text
  pub failed : List (Text × E)

-- Where a worker stands in its loop: before the test of the error slot, before the test of the
-- cancel token, before it takes an item, at the transfer of an item, or out of the loop.
pub data Worker : Type 0 where
  looking unfatal ready stopped : Worker
  working : ℕ → Worker

pub record Pool (E : Type 0) : Type 0 where
  pub shared : Shared E
  pub workers : List Worker

abbrev pub contains : Text → List Text → Bool
contains path [] = false
contains path (p ∷ paths) = bytes_eq path p || contains path paths

-- `changing` is a set, kept here in the order of insertion.
abbrev pub insert_path : Text → List Text → List Text
insert_path path paths = if contains path paths then paths else paths ++ path ∷ []

abbrev pub insert_paths : List Text → List Text → List Text
insert_paths [] paths = paths
insert_paths (p ∷ ps) paths = insert_paths ps (insert_path p paths)

-- What comes of an item: the results of `with_transfer_retry` around the transfer.
abbrev pub Answer : Type 0 → PushWork → Type 0
Answer E (single entry use_delta) = Result E Unit
Answer E (small_batch batch) = Result E TransferBatchOutcome

abbrev pub after_settle : Bool → Worker
after_settle true = stopped
after_settle false = looking

abbrev pub item_list : Option ℕ → List ℕ
item_list none = []
item_list (some idx) = idx ∷ []

-- The slot keeps the first error.
abbrev pub keep_first : {E : Type 0} → E → Option E → Option E
keep_first e none = some e
keep_first e (some first) = some first

unfoldable pub set_fatal : {E : Type 0} → Shared E → E → Shared E
set_fatal s e = record s { fatal_error = keep_first e s.fatal_error }

-- The errors are anyhow's: `give_up` adds the context to the last failure, and `message` makes an
-- error of a text. `label` is the formatted name of a batch. The two tests are the program's.
pub record ErrorOps (E : Type 0) : Type 0 where
  pub is_source_changing : E → Bool
  pub is_fatal : E → Bool
  pub give_up : Text → E → E
  pub message : Text → E
  pub label : List SnapshotEntry → Text

module _ {E : Type 0} (ops : ErrorOps E) where
  -- With `true` the pool ends: the failure that reaches the cap is taken off the list again.
  unfoldable pub push_failed : Shared E → Text → E → Shared E × Bool
  unfolding set_fatal
  push_failed s rel_path e =
      if leb max_per_file_transfer_failures (length (s.failed ++ (rel_path, e) ∷ []))
      then (set_fatal s (ops.give_up rel_path e), true)
      else (record s { failed = s.failed ++ (rel_path, e) ∷ [] }, false)

  -- `for failure in outcome.failed`, up to the cap
  unfoldable pub push_failures : Shared E → List (Text × Text) → Shared E × Bool
  unfolding push_failed
  push_failures s [] = (s, false)
  push_failures s ((rel_path, error) ∷ failures) =
      let pushed = push_failed s rel_path (ops.message error) in
      let rest = push_failures pushed.0 failures in if pushed.1 then pushed else rest

  -- The `match` on the result; with `true` the worker leaves its loop.
  unfoldable pub settle : Shared E → (item : PushWork) → Answer E item → Shared E × Bool
  unfolding set_fatal push_failed push_failures
  settle s (single entry use_delta) (ok a) = (record s { done = s.done + 1 }, false)
  settle s (single entry use_delta) (err e) =
      if ops.is_source_changing e
      then (record s { changing = insert_path entry.rel_path s.changing }, false)
      else if ops.is_fatal e
      then (set_fatal s e, true)
      else push_failed s entry.rel_path e
  settle s (small_batch batch) (ok outcome) =
      push_failures
        (record s {
          done = s.done + outcome.sent;
          changing = insert_paths outcome.changing s.changing;
        })
        outcome.failed
  settle s (small_batch batch) (err e) =
      if ops.is_fatal e then (set_fatal s e, true) else push_failed s (ops.label batch) e

  -- A step of one worker, and the item that it finished.
  pub data Move (work : List PushWork) (s : Shared E)
      : Worker → Option ℕ → Shared E → Worker → Type 0 where
    saw_fatal : (e : E) → s.fatal_error ≡ some e → Move work s looking none s stopped
    saw_none : s.fatal_error ≡ none → Move work s looking none s unfatal
    cancelled : (e : E) → Move work s unfatal none (set_fatal s e) stopped
    not_cancelled : Move work s unfatal none s ready
    take_item :
        ltb s.next (length work) ≡ true
        → Move work s ready none (record s { next = s.next + 1 }) (working s.next)
    no_item :
        ltb s.next (length work) ≡ false
        → Move work s ready none (record s { next = s.next + 1 }) stopped
    finish :
        (idx : ℕ) (item : PushWork) (answer : Answer E item)
        → get_elem? work idx ≡ some item
        → Move work s
            (working idx)
            (some idx)
            (settle s item answer).0
            (after_settle (settle s item answer).1)

  -- Any interleaving of the workers' steps, from a pool to the pool `q`.
  pub data Run (work : List PushWork) (q : Pool E) : Pool E → Type 0 where
    rest : Run work q q
    step :
        {p : Pool E} (before after : List Worker) (w w2 : Worker) (item : Option ℕ) (s2 : Shared E)
        → p.workers ≡ before ++ w ∷ after
        → Move work p.shared w item s2 w2
        → Run work q (record { shared = s2; workers = before ++ w2 ∷ after })
        → Run work q p

  -- The items that a run finishes, in order.
  abbrev pub finished : {work : List PushWork} {q p : Pool E} → Run work q p → List ℕ
  finished rest = []
  finished (step before after w w2 item s2 e move run) = item_list item ++ finished run

  abbrev pub steps : {work : List PushWork} {q p : Pool E} → Run work q p → ℕ
  steps rest = 0
  steps (step before after w w2 item s2 e move run) = steps run + 1

pub record TransferOutcome (E : Type 0) : Type 0 where
  pub transferred : ℕ
  pub changing : List Text
  pub failed : List (Text × E)

abbrev pub no_shared : {E : Type 0} → Shared E
no_shared = record { next = 0; done = 0; fatal_error = none; changing = []; failed = [] }

-- What the function returns when every worker has left its loop.
unfoldable pub pool_result : {E : Type 0} → Shared E → Result E (TransferOutcome E)
pool_result s = elim s.fatal_error [
  | some e ↦ err e
  | none ↦ ok (record { transferred = s.done; changing = s.changing; failed = s.failed })
]

-- `TransferOutcome::into_result`: failures count before changing sources.
module _ {E : Type 0} (with_count : ℕ → Text → E → E) (source_changing_error : List Text → E) where
  abbrev changing_result : List Text → Result {0, 0} E Unit
  changing_result [] = ok tt
  changing_result (path ∷ paths) = err (source_changing_error (path ∷ paths))

  abbrev failed_result : Result {0, 0} E Unit → List (Text × E) → Result {0, 0} E Unit
  failed_result otherwise [] = otherwise
  failed_result otherwise ((path, e) ∷ more) = err (with_count (length ((path, e) ∷ more)) path e)

  unfoldable pub into_result : TransferOutcome E → Result {0, 0} E Unit
  into_result outcome = failed_result (changing_result outcome.changing) outcome.failed
