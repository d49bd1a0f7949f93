-- ===== src/Report/Build.antt =====
-- `build_scan_report` of src/core/sync/mod.rs, `ScanReport` and `ScanDiffEntry` of
-- src/core/state.rs.
use auto_sync.Prelude.{
  ℕ, ◌+◌, Bool, true, false, ◌&&◌, ◌||◌, Option, none, some, List, [], ◌∷◌, ◌++◌, if◌then◌else◌,
  ltb, ◌==◌, length, Text, codes,
}
use auto_sync.Manifest.Entry.{SnapshotEntry, NativeSyncConfig}
use auto_sync.Manifest.Diff.{ManifestDiff, diff_manifests}

abbrev pub scan_diff_per_kind_cap : ℕ
scan_diff_per_kind_cap = 200

-- The static strings of the `push` calls.
pub data Kind : Type 0 where
  add update delete type_mismatch metadata : Kind

abbrev pub kind_text : Kind → Text
kind_text add = codes "add"
kind_text update = codes "update"
kind_text delete = codes "delete"
kind_text type_mismatch = codes "type_mismatch"
kind_text metadata = codes "metadata"

abbrev pub kind_index : Kind → ℕ
kind_index add = 0
kind_index update = 1
kind_index delete = 2
kind_index type_mismatch = 3
kind_index metadata = 4

pub record ScanDiffEntry : Type 0 where
  pub rel_path : Text
  pub kind : Text
  pub file_type : Text

-- Without the texts that only name the compare: the ids, its time, its method and its error.
pub record ScanReport : Type 0 where
  pub source_entries : ℕ
  pub dst_entries : ℕ
  pub in_sync : ℕ
  pub to_add : ℕ
  pub to_update : ℕ
  pub to_delete : ℕ
  pub type_mismatch : ℕ
  pub metadata : ℕ
  pub differences : List ScanDiffEntry
  pub truncated : Bool

-- The loops' state: the report, the count of the samples of each kind, and the samples.
pub record Reporting : Type 0 where
  pub report : ScanReport
  pub kind_pushed : Kind → ℕ
  pub diffs : List ScanDiffEntry

abbrev pub count_up : Kind → (Kind → ℕ) → Kind → ℕ
count_up kind pushed k = if kind_index kind == kind_index k then pushed k + 1 else pushed k

-- The closure `push`.
unfoldable pub push : Reporting → SnapshotEntry → Kind → Reporting
push s entry kind =
    if ltb (s.kind_pushed kind) scan_diff_per_kind_cap
    then record s {
      kind_pushed = count_up kind s.kind_pushed;
      diffs =
          s.diffs
          ++ record {
            rel_path = entry.rel_path;
            kind = kind_text kind;
            file_type = entry.file_type;
          }
            ∷ [];
    }
    else s

abbrev pub bump : Kind → ScanReport → ScanReport
bump add r = record r { to_add = r.to_add + 1 }
bump update r = record r { to_update = r.to_update + 1 }
bump delete r = record r { to_delete = r.to_delete + 1 }
bump type_mismatch r = record r { type_mismatch = r.type_mismatch + 1 }
bump metadata r = record r { metadata = r.metadata + 1 }

-- The body of a loop: count the entry and push it.
unfoldable pub note : Reporting → SnapshotEntry → Kind → Reporting
unfolding push
note s entry kind = push (record s { report = bump kind s.report }) entry kind

abbrev pub transfer_kind : Option SnapshotEntry → Kind
transfer_kind none = add
transfer_kind (some existing) = update

unfoldable pub note_transfer : Reporting → List (SnapshotEntry × Option SnapshotEntry) → Reporting
unfolding note
note_transfer s [] = s
note_transfer s ((entry, existing) ∷ transfer) =
    note_transfer (note s entry (transfer_kind existing)) transfer

unfoldable pub note_all : Reporting → Kind → List SnapshotEntry → Reporting
unfolding note
note_all s kind [] = s
note_all s kind (entry ∷ entries) = note_all (note s entry kind) kind entries

-- `a.rel_path.cmp(&b.rel_path)`, by bytes
abbrev pub text_before : Text → Text → Bool
text_before [] [] = false
text_before [] (c ∷ b) = true
text_before (c ∷ a) [] = false
text_before (c ∷ a) (d ∷ b) = ltb c d || (c == d && text_before a b)

-- The stable sort of the standard library, by insertion.
abbrev pub insert_sorted : ScanDiffEntry → List ScanDiffEntry → List ScanDiffEntry
insert_sorted x [] = x ∷ []
insert_sorted x (y ∷ ys) =
    let later = insert_sorted x ys in
    if text_before y.rel_path x.rel_path then y ∷ later else x ∷ y ∷ ys

abbrev pub sort_diffs : List ScanDiffEntry → List ScanDiffEntry
sort_diffs [] = []
sort_diffs (x ∷ xs) = insert_sorted x (sort_diffs xs)

abbrev pub no_report : List SnapshotEntry → List SnapshotEntry → ManifestDiff → Reporting
no_report source_snapshot dst_snapshot diff = record {
  report = record {
    source_entries = length source_snapshot;
    dst_entries = length dst_snapshot;
    in_sync = diff.in_sync;
    to_add = 0;
    to_update = 0;
    to_delete = 0;
    type_mismatch = 0;
    metadata = 0;
    differences = [];
    truncated = false;
  };
  kind_pushed = λ k. 0;
  diffs = [];
}

-- The loops in their order.
unfoldable pub note_diff : NativeSyncConfig → ManifestDiff → Reporting → Reporting
unfolding note_transfer note_all
note_diff sync diff s =
    let added = note_all (note_transfer s diff.transfer) add diff.missing_dirs in
    let mismatched = note_all added type_mismatch diff.type_mismatch in
    let fixed = note_all mismatched metadata diff.mode_fixes in
    if sync.mirror then note_all fixed delete diff.extras else fixed

abbrev pub total_of : ScanReport → ℕ
total_of r = r.to_add + r.to_update + r.to_delete + r.type_mismatch + r.metadata

-- The sorted sample, and whether it is less than all.
unfoldable pub seal : Reporting → ScanReport
seal s = record s.report {
  truncated = ltb (length (sort_diffs s.diffs)) (total_of s.report);
  differences = sort_diffs s.diffs;
}

unfoldable pub build_scan_report :
    List SnapshotEntry → List SnapshotEntry → List Text → NativeSyncConfig → Bool → ScanReport
unfolding note_diff seal
build_scan_report source_snapshot dst_snapshot excludes sync exact =
    let diff = diff_manifests source_snapshot dst_snapshot excludes sync exact in
    seal (note_diff sync diff (no_report source_snapshot dst_snapshot diff))
