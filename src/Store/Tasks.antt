-- ===== src/Store/Tasks.antt =====
-- The log of tasks (src/core/state.rs, table `task_log`): its rows stand newest first, as the table
-- is read. The duration is computed by the database.
use auto_sync.Prelude.{
  ℕ, zero, suc, ◌+◌, ◌≤◌, ◌≡◌, refl, ap, sym, ◌∙◌, Bool, true, false, Bool-cases, inl, inr, ◌==◌,
  Option, none, some, List, [], ◌∷◌, if◌then◌else◌, Text, codes, bytes_eq, arith, Memᴰ, take,
  select_rows, update_rows, delete_rows, count_rows, first_row,
}

pub record Task : Type 0 where
  pub id : ℕ
  pub kind : Text
  pub source_id : Text
  pub destination_id : Text
  pub started_at : ℕ
  pub ended_at : Option ℕ
  pub duration_ms : Option ℕ
  pub status : Text
  pub error : Text
  pub files_synced : ℕ
  pub differences : ℕ
  pub entries_scanned : ℕ

pub record TaskLog : Type 0 where
  pub tasks : List Task
  pub next_id : ℕ

abbrev pub task_log_keep : ℕ
task_log_keep = 100

abbrev pub has_ended : Option ℕ → Bool
has_ended none = false
has_ended (some at) = true

abbrev pub is_finished : Task → Bool
is_finished t = has_ended t.ended_at

-- `WHERE ended_at IS NOT NULL AND id NOT IN (.. ORDER BY id DESC LIMIT keep)`
unfoldable pub prune_tasks : ℕ → List Task → List Task
prune_tasks keep [] = []
prune_tasks (suc keep) (t ∷ tasks) = t ∷ prune_tasks keep tasks
prune_tasks zero (t ∷ tasks) =
    let rest = prune_tasks zero tasks in if is_finished t then rest else t ∷ rest

abbrev pub started_task : ℕ → Text → Text → Text → ℕ → Task
started_task id kind source_id destination_id now = record {
  id = id;
  kind = kind;
  source_id = source_id;
  destination_id = destination_id;
  started_at = now;
  ended_at = none;
  duration_ms = none;
  status = codes "running";
  error = [];
  files_synced = 0;
  differences = 0;
  entries_scanned = 0;
}

unfoldable pub task_start : Text → Text → Text → ℕ → TaskLog → TaskLog × ℕ
unfolding prune_tasks
task_start kind source_id destination_id now log = (
  record {
    tasks =
        prune_tasks task_log_keep
          (started_task log.next_id kind source_id destination_id now ∷ log.tasks);
    next_id = log.next_id + 1;
  },
  log.next_id,
)

-- What a task ends with.
pub record Outcome : Type 0 where
  pub status : Text
  pub error : Text
  pub files_synced : ℕ
  pub differences : ℕ
  pub entries_scanned : ℕ

unfoldable pub task_finish : (ℕ → ℕ → ℕ) → ℕ → Outcome → ℕ → TaskLog → TaskLog
task_finish duration task_id o now log = record log {
  tasks =
      update_rows (λ t. t.id == task_id)
        (λ t. record t {
          ended_at = some now;
          duration_ms = some (duration now t.started_at);
          status = o.status;
          error = o.error;
          files_synced = o.files_synced;
          differences = o.differences;
          entries_scanned = o.entries_scanned;
        })
        log.tasks;
}

unfoldable pub task_discard : ℕ → TaskLog → TaskLog
task_discard task_id log = record log { tasks = delete_rows (λ t. t.id == task_id) log.tasks }

abbrev pub is_running : Task → Bool
is_running t = bytes_eq t.status (codes "running")

-- The log, and how many tasks were running.
unfoldable pub abort_stale_running_tasks : (ℕ → ℕ → ℕ) → ℕ → TaskLog → TaskLog × ℕ
abort_stale_running_tasks duration now log = (
  record log {
    tasks =
        update_rows is_running
          (λ t. record t {
            ended_at = some now;
            duration_ms = some (duration now t.started_at);
            status = codes "aborted";
            error = codes "daemon restarted while the task was running";
          })
          log.tasks;
  },
  count_rows is_running log.tasks,
)

unfoldable pub task_by_id : ℕ → TaskLog → Option Task
task_by_id task_id log = first_row (select_rows (λ t. t.id == task_id) log.tasks)

unfoldable pub recent_tasks : ℕ → TaskLog → List Task
recent_tasks limit log = take limit log.tasks

finished_le :
    (keep : ℕ) (tasks : List Task) → count_rows is_finished (prune_tasks keep tasks) ≤ keep
unfolding prune_tasks
finished_le keep [] = omega arith
finished_le (suc keep) (t ∷ tasks) = ground (arith, finished_le keep tasks)
finished_le zero (t ∷ tasks) = elim (Bool-cases (is_finished t)) [
  | inl h ↦ rw h (finished_le zero tasks)
  | inr h ↦ rw (h, h) (finished_le zero tasks)
]

running_kept :
    (keep : ℕ) (tasks : List Task) (t : Task)
    → Memᴰ t tasks
    → is_finished t ≡ false
    → Memᴰ t (prune_tasks keep tasks)
unfolding prune_tasks
running_kept keep [] t m h = elim m [ ]
running_kept (suc keep) (x ∷ tasks) t (Memᴰ.head e) h = Memᴰ.head e
running_kept (suc keep) (x ∷ tasks) t (Memᴰ.tail m) h = Memᴰ.tail (running_kept keep tasks t m h)
running_kept zero (x ∷ tasks) t (Memᴰ.head e) h = rw (ap is_finished (sym e) ∙ h) (Memᴰ.head e)
running_kept zero (x ∷ tasks) t (Memᴰ.tail m) h = elim (Bool-cases (is_finished x)) [
  | inl f ↦ rw f (running_kept zero tasks t m h)
  | inr f ↦ rw f (Memᴰ.tail (running_kept zero tasks t m h))
]

take-prune_tasks :
    (keep : ℕ) (tasks : List Task) → take keep (prune_tasks keep tasks) ≡ take keep tasks
unfolding prune_tasks
take-prune_tasks zero tasks = refl
take-prune_tasks (suc keep) [] = refl
take-prune_tasks (suc keep) (t ∷ tasks) = ap (λ l. t ∷ l) (take-prune_tasks keep tasks)

-- Starting a task keeps the log bounded without losing what is live: at most 100 finished tasks
-- stay, every task without an end stays, and the 100 newest tasks, the started one first, are read
-- as if nothing had been removed.
pub task_start_lem :
    (kind source_id destination_id : Text) (now : ℕ) (log : TaskLog)
    → (count_rows is_finished (task_start kind source_id destination_id now log).0.tasks
        ≤ task_log_keep)
      × ((t : Task)
          → Memᴰ t log.tasks
          → is_finished t ≡ false
          → Memᴰ t (task_start kind source_id destination_id now log).0.tasks)
      × (recent_tasks task_log_keep (task_start kind source_id destination_id now log).0
          ≡ take task_log_keep
              (started_task log.next_id kind source_id destination_id now ∷ log.tasks))
unfolding task_start recent_tasks
task_start_lem kind source_id destination_id now log =
    let tasks = started_task log.next_id kind source_id destination_id now ∷ log.tasks in
    (
      finished_le task_log_keep tasks,
      λ t m h. running_kept task_log_keep tasks t (Memᴰ.tail m) h,
      take-prune_tasks task_log_keep tasks,
    )
