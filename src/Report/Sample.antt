-- ===== src/Report/Sample.antt =====
-- The counts and the sample of a report (`build_scan_report` of src/core/sync/mod.rs).
use auto_sync.Prelude.{
  ℕ, suc, ◌+◌, ◌≡◌, refl, ◌∙◌, Bool, true, false, Bool-cases, inl, inr, ◌||◌, Option, List, [], ◌∷◌,
  if◌then◌else◌, ltb, min, length, length-append, Text, arith,
}
use auto_sync.Manifest.Entry.{SnapshotEntry, NativeSyncConfig}
use auto_sync.Manifest.Diff.{ManifestDiff, diff_manifests}
use auto_sync.Report.Kinds.{counter, samples_of, capped}
use auto_sync.Report.Labels.{number, Labelled-note_diff, samples_of-sort_diffs}
use auto_sync.Report.Build.{
  Kind, add, update, delete, type_mismatch, metadata, ScanReport, ScanDiffEntry, Reporting, push,
  bump, note, note_transfer, note_all, transfer_kind, insert_sorted, sort_diffs, no_report,
  note_diff, seal, build_scan_report, scan_diff_per_kind_cap, text_before,
}

-- The samples of each kind are its entries up to the cap, and no others are kept.
record Tallied (s : Reporting) : Type 0 where
  of_add : s.kind_pushed add ≡ min scan_diff_per_kind_cap s.report.to_add
  of_update : s.kind_pushed update ≡ min scan_diff_per_kind_cap s.report.to_update
  of_delete : s.kind_pushed delete ≡ min scan_diff_per_kind_cap s.report.to_delete
  of_type_mismatch : s.kind_pushed type_mismatch ≡ min scan_diff_per_kind_cap s.report.type_mismatch
  of_metadata : s.kind_pushed metadata ≡ min scan_diff_per_kind_cap s.report.metadata
  sampled :
      length s.diffs
      ≡ s.kind_pushed add
        + s.kind_pushed update
        + s.kind_pushed delete
        + s.kind_pushed type_mismatch
        + s.kind_pushed metadata

-- One sample more, below the cap of its kind.
length-push :
    (s : Reporting) (e : SnapshotEntry) (k : Kind)
    → length (push s e k).diffs
      ≡ length s.diffs + (if ltb (s.kind_pushed k) scan_diff_per_kind_cap then 1 else 0)
unfolding push
length-push s e k = elim (Bool-cases (ltb (s.kind_pushed k) scan_diff_per_kind_cap)) [
  | inl room ↦ rw room (length-append s.diffs _)
  | inr full ↦ rw full (omega arith)
]

Tallied-note : (s : Reporting) (e : SnapshotEntry) (k : Kind) → Tallied s → Tallied (note s e k)
unfolding note push
Tallied-note s e add t = record {
  of_add = ground (arith, t.of_add);
  of_update = ground (arith, t.of_update);
  of_delete = ground (arith, t.of_delete);
  of_type_mismatch = ground (arith, t.of_type_mismatch);
  of_metadata = ground (arith, t.of_metadata);
  sampled = ground (arith, t.sampled, length-push (record s { report = bump add s.report }) e add);
}
Tallied-note s e update t = record {
  of_add = ground (arith, t.of_add);
  of_update = ground (arith, t.of_update);
  of_delete = ground (arith, t.of_delete);
  of_type_mismatch = ground (arith, t.of_type_mismatch);
  of_metadata = ground (arith, t.of_metadata);
  sampled =
      ground (arith, t.sampled, length-push (record s { report = bump update s.report }) e update);
}
Tallied-note s e delete t = record {
  of_add = ground (arith, t.of_add);
  of_update = ground (arith, t.of_update);
  of_delete = ground (arith, t.of_delete);
  of_type_mismatch = ground (arith, t.of_type_mismatch);
  of_metadata = ground (arith, t.of_metadata);
  sampled =
      ground (arith, t.sampled, length-push (record s { report = bump delete s.report }) e delete);
}
Tallied-note s e type_mismatch t = record {
  of_add = ground (arith, t.of_add);
  of_update = ground (arith, t.of_update);
  of_delete = ground (arith, t.of_delete);
  of_type_mismatch = ground (arith, t.of_type_mismatch);
  of_metadata = ground (arith, t.of_metadata);
  sampled = ground (
    arith,
    t.sampled,
    length-push (record s { report = bump type_mismatch s.report }) e type_mismatch,
  );
}
Tallied-note s e metadata t = record {
  of_add = ground (arith, t.of_add);
  of_update = ground (arith, t.of_update);
  of_delete = ground (arith, t.of_delete);
  of_type_mismatch = ground (arith, t.of_type_mismatch);
  of_metadata = ground (arith, t.of_metadata);
  sampled =
      ground
        (arith, t.sampled, length-push (record s { report = bump metadata s.report }) e metadata);
}

Tallied-note_transfer :
    (s : Reporting) (transfer : List (SnapshotEntry × Option SnapshotEntry))
    → Tallied s
    → Tallied (note_transfer s transfer)
unfolding note_transfer
Tallied-note_transfer s [] t = t
Tallied-note_transfer s ((e, existing) ∷ transfer) t =
    Tallied-note_transfer (note s e (transfer_kind existing)) transfer
      (Tallied-note s e (transfer_kind existing) t)

Tallied-note_all :
    (s : Reporting) (k : Kind) (es : List SnapshotEntry) → Tallied s → Tallied (note_all s k es)
unfolding note_all
Tallied-note_all s k [] t = t
Tallied-note_all s k (e ∷ es) t = Tallied-note_all (note s e k) k es (Tallied-note s e k t)

Tallied-if : (b : Bool) (x y : Reporting) → Tallied x → Tallied y → Tallied (if b then x else y)
Tallied-if true x y h k = h
Tallied-if false x y h k = k

Tallied-note_diff :
    (sync : NativeSyncConfig) (diff : ManifestDiff) (s : Reporting)
    → Tallied s
    → Tallied (note_diff sync diff s)
unfolding note_diff
Tallied-note_diff sync diff s t =
    let added =
      Tallied-note_all _ add diff.missing_dirs (Tallied-note_transfer s diff.transfer t) in
    let mismatched = Tallied-note_all _ type_mismatch diff.type_mismatch added in
    let fixed = Tallied-note_all _ metadata diff.mode_fixes mismatched in
    Tallied-if sync.mirror _ _ (Tallied-note_all _ delete diff.extras fixed) fixed

length-insert_sorted :
    (x : ScanDiffEntry) (ys : List ScanDiffEntry) → length (insert_sorted x ys) ≡ suc (length ys)
length-insert_sorted x [] = refl
length-insert_sorted x (y ∷ ys) = elim (Bool-cases (text_before y.rel_path x.rel_path)) [
  | inl later ↦ rw later (omega (arith, length-insert_sorted x ys))
  | inr here ↦ rw here refl
]

length-sort_diffs : (xs : List ScanDiffEntry) → length (sort_diffs xs) ≡ length xs
length-sort_diffs [] = refl
length-sort_diffs (x ∷ xs) =
    omega (arith, length-insert_sorted x (sort_diffs xs), length-sort_diffs xs)

-- A sum of counts cut off at the cap is smaller exactly when one of them is over the cap.
cut_off :
    (n a b c d e : ℕ)
    → n ≡ capped a + capped b + capped c + capped d + capped e
    → ltb n (a + b + c + d + e) ≡ (
        ltb scan_diff_per_kind_cap a
        || ltb scan_diff_per_kind_cap b
        || ltb scan_diff_per_kind_cap c
        || ltb scan_diff_per_kind_cap d
        || ltb scan_diff_per_kind_cap e)
cut_off n a b c d e h = ground arith

-- Sealing a report keeps its counts.
sealed :
    {n : Kind → ℕ} (s : Reporting)
    → ((k : Kind) → counter k s.report ≡ n k)
    → (k : Kind) → counter k (seal s) ≡ n k
unfolding seal
sealed s h add = h add
sealed s h update = h update
sealed s h delete = h delete
sealed s h type_mismatch = h type_mismatch
sealed s h metadata = h metadata

-- What the report of a comparison says of the differences that were found.
pub record Sampled (mirror : Bool) (diff : ManifestDiff) (r : ScanReport) : Type 0 where
  pub counted : (k : Kind) → counter k r ≡ number mirror diff k
  pub sampled : (k : Kind) → samples_of k r.differences ≡ capped (number mirror diff k)
  pub no_others :
      length r.differences
      ≡ capped r.to_add
        + capped r.to_update
        + capped r.to_delete
        + capped r.type_mismatch
        + capped r.metadata
  pub truncated : r.truncated ≡ (
      ltb scan_diff_per_kind_cap r.to_add
      || ltb scan_diff_per_kind_cap r.to_update
      || ltb scan_diff_per_kind_cap r.to_delete
      || ltb scan_diff_per_kind_cap r.type_mismatch
      || ltb scan_diff_per_kind_cap r.metadata)

-- The report counts, for each of the five kinds, the differences of that kind that the comparison
-- found: entries the destination lacks, and those it has otherwise, extras in mirror mode only,
-- other types, and modes. Under each kind's text it has as many samples, up to 200, and no other
-- samples; and it is marked as truncated exactly when some kind counts more than 200.
pub Sampled-build_scan_report :
    (source_snapshot dst_snapshot : List SnapshotEntry) (excludes : List Text)
    (sync : NativeSyncConfig) (exact : Bool)
    → Sampled sync.mirror
        (diff_manifests source_snapshot dst_snapshot excludes sync exact)
        (build_scan_report source_snapshot dst_snapshot excludes sync exact)
unfolding build_scan_report seal
Sampled-build_scan_report source_snapshot dst_snapshot excludes sync exact =
    let diff = diff_manifests source_snapshot dst_snapshot excludes sync exact in
    let begin = no_report source_snapshot dst_snapshot diff in
    let s = note_diff sync diff begin in
    let t = Tallied-note_diff sync diff begin none_yet in
    let labels =
      Labelled-note_diff sync diff begin
        (record { counted = none_counted; pushed = λ k. refl; sampled = λ k. refl }) in
    let sized : length (sort_diffs s.diffs)
        ≡ capped s.report.to_add
          + capped s.report.to_update
          + capped s.report.to_delete
          + capped s.report.type_mismatch
          + capped s.report.metadata =
      omega (
        arith,
        length-sort_diffs s.diffs,
        t.sampled,
        t.of_add,
        t.of_update,
        t.of_delete,
        t.of_type_mismatch,
        t.of_metadata,
      ) in
    record {
      counted = sealed s labels.counted;
      sampled = λ k. samples_of-sort_diffs k s.diffs ∙ labels.sampled k;
      no_others = sized;
      truncated =
          cut_off _ s.report.to_add s.report.to_update s.report.to_delete s.report.type_mismatch
            s.report.metadata sized;
    }
  where
    none_counted :
        (k : Kind)
        → counter k
            (no_report source_snapshot dst_snapshot
              (diff_manifests source_snapshot dst_snapshot excludes sync exact)).report
          ≡ 0
    none_counted add = refl
    none_counted update = refl
    none_counted delete = refl
    none_counted type_mismatch = refl
    none_counted metadata = refl

    none_yet : Tallied (
        no_report source_snapshot dst_snapshot
          (diff_manifests source_snapshot dst_snapshot excludes sync exact))
    none_yet = record {
      of_add = refl;
      of_update = refl;
      of_delete = refl;
      of_type_mismatch = refl;
      of_metadata = refl;
      sampled = refl;
    }
