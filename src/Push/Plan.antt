-- ===== src/Push/Plan.antt =====
-- `plan_push_work` of src/core/sync/mod.rs: small files are grouped into batches.
use auto_sync.Prelude.{
  ℕ, ◌+◌, ◌*◌, Bool, false, not, ◌&&◌, ◌||◌, List, [], ◌∷◌, ◌++◌, if◌then◌else◌, ltb, leb, length,
  pos_part,
}
use auto_sync.Manifest.Entry.{SnapshotEntry, file, is_type}

abbrev pub small_batch_file_max : ℕ
small_batch_file_max = 256 * 1024

abbrev pub small_batch_max_bytes : ℕ
small_batch_max_bytes = 8 * 1024 * 1024

abbrev pub small_batch_max_files : ℕ
small_batch_max_files = 200

pub data PushWork : Type 0 where
  single : SnapshotEntry → Bool → PushWork
  small_batch : List SnapshotEntry → PushWork

pub record Planning : Type 0 where
  pub work : List PushWork
  pub batch : List SnapshotEntry
  pub batch_bytes : ℕ

abbrev pub no_plan : Planning
no_plan = record { work = []; batch = []; batch_bytes = 0 }

-- `entry.size.max(0) as u64`
abbrev pub size_of : SnapshotEntry → ℕ
size_of entry = pos_part entry.size

abbrev pub is_small : SnapshotEntry → Bool → Bool
is_small entry use_delta =
    is_type entry file && not use_delta && leb (size_of entry) small_batch_file_max

-- The `match batch.len()`: a batch of one is an item of its own.
unfoldable pub batch_work : List SnapshotEntry → List PushWork
batch_work [] = []
batch_work (entry ∷ []) = single entry false ∷ []
batch_work (entry ∷ next ∷ batch) = small_batch (entry ∷ next ∷ batch) ∷ []

unfoldable pub flush : Planning → Planning
unfolding batch_work
flush s = record { work = s.work ++ batch_work s.batch; batch = []; batch_bytes = 0 }

unfoldable pub is_full : Planning → ℕ → Bool
is_full s size =
    leb small_batch_max_files (length s.batch) || ltb small_batch_max_bytes (s.batch_bytes + size)

unfoldable pub add_small : Planning → SnapshotEntry → Planning
add_small s entry = record s {
  batch = s.batch ++ entry ∷ [];
  batch_bytes = s.batch_bytes + size_of entry;
}

unfoldable pub plan_step : Planning → SnapshotEntry → Bool → Planning
unfolding flush is_full add_small
plan_step s entry use_delta =
    if not (is_small entry use_delta)
    then record s { work = s.work ++ single entry use_delta ∷ [] }
    else add_small (if is_full s (size_of entry) then flush s else s) entry

unfoldable pub plan_loop : Planning → List (SnapshotEntry × Bool) → Planning
unfolding plan_step
plan_loop s [] = s
plan_loop s ((entry, use_delta) ∷ entries) = plan_loop (plan_step s entry use_delta) entries

unfoldable pub plan_push_work : List (SnapshotEntry × Bool) → List PushWork
unfolding plan_loop
plan_push_work entries = (flush (plan_loop no_plan entries)).work
