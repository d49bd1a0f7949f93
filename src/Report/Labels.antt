-- ===== src/Report/Labels.antt =====
-- What the report of a comparison counts and samples of each kind (src/core/sync/mod.rs).
use auto_sync.Prelude.{
  ℕ, ◌+◌, ◌≡◌, refl, ap, ◌∙◌, Bool, true, false, Bool-cases, inl, inr, Option, none, some, List, [],
  ◌∷◌, if◌then◌else◌, length, arith,
}
use auto_sync.Manifest.Entry.{SnapshotEntry, NativeSyncConfig}
use auto_sync.Manifest.Diff.{ManifestDiff}
use auto_sync.Report.Build.{
  Kind, add, update, delete, type_mismatch, metadata, ScanDiffEntry, Reporting, count_up,
  note_transfer, note_all, transfer_kind, insert_sorted, sort_diffs, note_diff, text_before,
}
use auto_sync.Report.Kinds.{samples_of, capped, same_kind, Labelled, Labelled-note}

Labelled-same :
    (n m : Kind → ℕ) (s : Reporting) → ((k : Kind) → n k ≡ m k) → Labelled n s → Labelled m s
Labelled-same n m s same l = record {
  counted = λ k. l.counted k ∙ same k;
  pushed = λ k. l.pushed k ∙ ap capped (same k);
  sampled = λ k. l.sampled k ∙ ap capped (same k);
}

abbrev in_transfer : Kind → List (SnapshotEntry × Option SnapshotEntry) → ℕ
in_transfer k [] = 0
in_transfer k ((e, o) ∷ ts) =
    let rest = in_transfer k ts in if same_kind (transfer_kind o) k then rest + 1 else rest

abbrev of_list : Kind → List SnapshotEntry → Kind → ℕ
of_list kind es k = if same_kind kind k then length es else 0

Labelled-note_transfer :
    (n : Kind → ℕ) (s : Reporting) (ts : List (SnapshotEntry × Option SnapshotEntry))
    → Labelled n s
    → Labelled (λ k. n k + in_transfer k ts) (note_transfer s ts)
unfolding note_transfer
Labelled-note_transfer n s [] l = Labelled-same n _ s (λ k. omega arith) l
Labelled-note_transfer n s ((e, o) ∷ ts) l =
    Labelled-same (λ k. count_up (transfer_kind o) n k + in_transfer k ts) _ _ (λ k. ground arith)
      (Labelled-note_transfer (count_up (transfer_kind o) n) _ ts
        (Labelled-note n s e (transfer_kind o) l))

Labelled-note_all :
    (n : Kind → ℕ) (s : Reporting) (kind : Kind) (es : List SnapshotEntry)
    → Labelled n s
    → Labelled (λ k. n k + of_list kind es k) (note_all s kind es)
unfolding note_all
Labelled-note_all n s kind [] l = Labelled-same n _ s (λ k. ground arith) l
Labelled-note_all n s kind (e ∷ es) l =
    Labelled-same (λ k. count_up kind n k + of_list kind es k) _ _ (λ k. ground arith)
      (Labelled-note_all (count_up kind n) _ kind es (Labelled-note n s e kind l))

-- The transfers of entries that the destination does not have, and of those that it has.
abbrev pub count_new : List (SnapshotEntry × Option SnapshotEntry) → ℕ
count_new [] = 0
count_new ((e, none) ∷ ts) = count_new ts + 1
count_new ((e, some existing) ∷ ts) = count_new ts

abbrev pub count_existing : List (SnapshotEntry × Option SnapshotEntry) → ℕ
count_existing [] = 0
count_existing ((e, none) ∷ ts) = count_existing ts
count_existing ((e, some existing) ∷ ts) = count_existing ts + 1

-- How many differences of a kind the comparison found.
abbrev pub number : Bool → ManifestDiff → Kind → ℕ
number mirror diff add = count_new diff.transfer + length diff.missing_dirs
number mirror diff update = count_existing diff.transfer
number mirror diff delete = if mirror then length diff.extras else 0
number mirror diff type_mismatch = length diff.type_mismatch
number mirror diff metadata = length diff.mode_fixes

in_transfer-number :
    (ts : List (SnapshotEntry × Option SnapshotEntry))
    → (in_transfer add ts ≡ count_new ts)
      × (in_transfer update ts ≡ count_existing ts)
      × (in_transfer delete ts ≡ 0)
      × (in_transfer type_mismatch ts ≡ 0)
      × (in_transfer metadata ts ≡ 0)
in_transfer-number [] = (refl, refl, refl, refl, refl)
in_transfer-number ((e, none) ∷ ts) =
    let r = in_transfer-number ts in (ap (λ n. n + 1) r.0, r.1, r.2, r.3, r.4)
in_transfer-number ((e, some existing) ∷ ts) =
    let r = in_transfer-number ts in (r.0, ap (λ n. n + 1) r.1, r.2, r.3, r.4)

abbrev noted : Bool → ManifestDiff → Kind → ℕ
noted mirror diff k =
    0
    + in_transfer k diff.transfer
    + of_list add diff.missing_dirs k
    + of_list type_mismatch diff.type_mismatch k
    + of_list metadata diff.mode_fixes k
    + (if mirror then of_list delete diff.extras k else 0)

noted-number :
    (mirror : Bool) (diff : ManifestDiff) (k : Kind) → noted mirror diff k ≡ number mirror diff k
noted-number true diff add =
    let r = in_transfer-number diff.transfer in omega (arith, r.0, r.1, r.2, r.3, r.4)
noted-number false diff add =
    let r = in_transfer-number diff.transfer in omega (arith, r.0, r.1, r.2, r.3, r.4)
noted-number true diff update =
    let r = in_transfer-number diff.transfer in omega (arith, r.0, r.1, r.2, r.3, r.4)
noted-number false diff update =
    let r = in_transfer-number diff.transfer in omega (arith, r.0, r.1, r.2, r.3, r.4)
noted-number true diff delete =
    let r = in_transfer-number diff.transfer in omega (arith, r.0, r.1, r.2, r.3, r.4)
noted-number false diff delete =
    let r = in_transfer-number diff.transfer in omega (arith, r.0, r.1, r.2, r.3, r.4)
noted-number true diff type_mismatch =
    let r = in_transfer-number diff.transfer in omega (arith, r.0, r.1, r.2, r.3, r.4)
noted-number false diff type_mismatch =
    let r = in_transfer-number diff.transfer in omega (arith, r.0, r.1, r.2, r.3, r.4)
noted-number true diff metadata =
    let r = in_transfer-number diff.transfer in omega (arith, r.0, r.1, r.2, r.3, r.4)
noted-number false diff metadata =
    let r = in_transfer-number diff.transfer in omega (arith, r.0, r.1, r.2, r.3, r.4)

pub Labelled-note_diff :
    (sync : NativeSyncConfig) (diff : ManifestDiff) (s : Reporting)
    → Labelled (λ k. 0) s
    → Labelled (number sync.mirror diff) (note_diff sync diff s)
unfolding note_diff
Labelled-note_diff sync diff s l =
    Labelled-same (noted sync.mirror diff) _ _ (noted-number sync.mirror diff) (by_test sync.mirror)
  where
    fixed : Reporting
    fixed =
        note_all
          (note_all (note_all (note_transfer s diff.transfer) add diff.missing_dirs) type_mismatch
            diff.type_mismatch)
          metadata diff.mode_fixes

    Labelled-fixed :
        Labelled
          (λ k.
            0
            + in_transfer k diff.transfer
            + of_list add diff.missing_dirs k
            + of_list type_mismatch diff.type_mismatch k
            + of_list metadata diff.mode_fixes k)
          fixed
    Labelled-fixed = Labelled-note_all _ _ metadata diff.mode_fixes (
        Labelled-note_all _ _ type_mismatch diff.type_mismatch (
          Labelled-note_all _ _ add diff.missing_dirs
            (Labelled-note_transfer (λ k. 0) s diff.transfer l)))

    by_test :
        (b : Bool)
        → Labelled (noted b diff) (if b then note_all fixed delete diff.extras else fixed)
    by_test true = Labelled-note_all _ fixed delete diff.extras Labelled-fixed
    by_test false = Labelled-same _ _ fixed (λ k. omega arith) Labelled-fixed

samples_of-insert_sorted :
    (k : Kind) (x : ScanDiffEntry) (ys : List ScanDiffEntry)
    → samples_of k (insert_sorted x ys) ≡ samples_of k (x ∷ ys)
samples_of-insert_sorted k x [] = refl
samples_of-insert_sorted k x (y ∷ ys) = elim (Bool-cases (text_before y.rel_path x.rel_path)) [
  | inl later ↦ rw later (ground (arith, samples_of-insert_sorted k x ys))
  | inr here ↦ rw here refl
]

pub samples_of-sort_diffs :
    (k : Kind) (xs : List ScanDiffEntry) → samples_of k (sort_diffs xs) ≡ samples_of k xs
samples_of-sort_diffs k [] = refl
samples_of-sort_diffs k (x ∷ xs) =
    samples_of-insert_sorted k x (sort_diffs xs) ∙ ground (arith, samples_of-sort_diffs k xs)
