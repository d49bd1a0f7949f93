-- ===== src/Report/Kinds.antt =====
-- What noting one entry adds to the counts and the samples of its kind (src/core/sync/mod.rs).
use auto_sync.Prelude.{
  ℕ, ◌+◌, ◌≡◌, refl, ap, sym, ◌∙◌, Bool, true, Bool-cases, inl, inr, ◌==◌, List, [], ◌∷◌, ◌++◌,
  if◌then◌else◌, ltb, min, bytes_eq, count_rows, arith,
}
use auto_sync.Manifest.Entry.{SnapshotEntry}
use auto_sync.Report.Build.{
  Kind, add, update, delete, type_mismatch, metadata, kind_text, kind_index, ScanReport,
  ScanDiffEntry, Reporting, push, bump, count_up, note, scan_diff_per_kind_cap,
}

-- The report's count of a kind.
abbrev pub counter : Kind → ScanReport → ℕ
counter add r = r.to_add
counter update r = r.to_update
counter delete r = r.to_delete
counter type_mismatch r = r.type_mismatch
counter metadata r = r.metadata

-- The samples whose text is that of a kind.
abbrev pub samples_of : Kind → List ScanDiffEntry → ℕ
samples_of k = count_rows (λ d. bytes_eq d.kind (kind_text k))

-- Entries of one kind up to the cap.
abbrev pub capped : ℕ → ℕ
capped n = min scan_diff_per_kind_cap n

abbrev pub same_kind : Kind → Kind → Bool
same_kind kind k = kind_index kind == kind_index k

counter-bump :
    (kind k : Kind) (r : ScanReport)
    → counter k (bump kind r) ≡ (if same_kind kind k then counter k r + 1 else counter k r)
counter-bump add add r = refl
counter-bump add update r = refl
counter-bump add delete r = refl
counter-bump add type_mismatch r = refl
counter-bump add metadata r = refl
counter-bump update add r = refl
counter-bump update update r = refl
counter-bump update delete r = refl
counter-bump update type_mismatch r = refl
counter-bump update metadata r = refl
counter-bump delete add r = refl
counter-bump delete update r = refl
counter-bump delete delete r = refl
counter-bump delete type_mismatch r = refl
counter-bump delete metadata r = refl
counter-bump type_mismatch add r = refl
counter-bump type_mismatch update r = refl
counter-bump type_mismatch delete r = refl
counter-bump type_mismatch type_mismatch r = refl
counter-bump type_mismatch metadata r = refl
counter-bump metadata add r = refl
counter-bump metadata update r = refl
counter-bump metadata delete r = refl
counter-bump metadata type_mismatch r = refl
counter-bump metadata metadata r = refl

same_text : (kind k : Kind) → bytes_eq (kind_text kind) (kind_text k) ≡ same_kind kind k
unfolding bytes_eq
same_text add add = refl
same_text add update = refl
same_text add delete = refl
same_text add type_mismatch = refl
same_text add metadata = refl
same_text update add = refl
same_text update update = refl
same_text update delete = refl
same_text update type_mismatch = refl
same_text update metadata = refl
same_text delete add = refl
same_text delete update = refl
same_text delete delete = refl
same_text delete type_mismatch = refl
same_text delete metadata = refl
same_text type_mismatch add = refl
same_text type_mismatch update = refl
same_text type_mismatch delete = refl
same_text type_mismatch type_mismatch = refl
same_text type_mismatch metadata = refl
same_text metadata add = refl
same_text metadata update = refl
same_text metadata delete = refl
same_text metadata type_mismatch = refl
same_text metadata metadata = refl

kind_of_index : (kind k : Kind) → same_kind kind k ≡ true → kind ≡ k
kind_of_index add add h = refl
kind_of_index add update h = cc h
kind_of_index add delete h = cc h
kind_of_index add type_mismatch h = cc h
kind_of_index add metadata h = cc h
kind_of_index update add h = cc h
kind_of_index update update h = refl
kind_of_index update delete h = cc h
kind_of_index update type_mismatch h = cc h
kind_of_index update metadata h = cc h
kind_of_index delete add h = cc h
kind_of_index delete update h = cc h
kind_of_index delete delete h = refl
kind_of_index delete type_mismatch h = cc h
kind_of_index delete metadata h = cc h
kind_of_index type_mismatch add h = cc h
kind_of_index type_mismatch update h = cc h
kind_of_index type_mismatch delete h = cc h
kind_of_index type_mismatch type_mismatch h = refl
kind_of_index type_mismatch metadata h = cc h
kind_of_index metadata add h = cc h
kind_of_index metadata update h = cc h
kind_of_index metadata delete h = cc h
kind_of_index metadata type_mismatch h = cc h
kind_of_index metadata metadata h = refl

-- After entries of which `n k` are of kind `k`: they are counted, and the first of each kind, up to
-- the cap, are sampled under the kind's text.
pub record Labelled (n : Kind → ℕ) (s : Reporting) : Type 0 where
  pub counted : (k : Kind) → counter k s.report ≡ n k
  pub pushed : (k : Kind) → s.kind_pushed k ≡ capped (n k)
  pub sampled : (k : Kind) → samples_of k s.diffs ≡ capped (n k)

samples_of-append :
    (k : Kind) (ds : List ScanDiffEntry) (d : ScanDiffEntry)
    → samples_of k (ds ++ d ∷ [])
      ≡ (if bytes_eq d.kind (kind_text k) then samples_of k ds + 1 else samples_of k ds)
samples_of-append k [] d = ground arith
samples_of-append k (x ∷ ds) d = ground (arith, samples_of-append k ds d)

counted-push :
    (k : Kind) (s : Reporting) (e : SnapshotEntry) (kind : Kind)
    → counter k (push s e kind).report ≡ counter k s.report
unfolding push
counted-push k s e kind = elim (Bool-cases (ltb (s.kind_pushed kind) scan_diff_per_kind_cap)) [
  | inl room ↦ rw room refl
  | inr full ↦ rw full refl
]

room_of :
    (s : Reporting) (kind k : Kind)
    → same_kind kind k ≡ true
    → ltb (s.kind_pushed kind) scan_diff_per_kind_cap ≡ ltb (s.kind_pushed k) scan_diff_per_kind_cap
room_of s kind k h = ap (λ j. ltb (s.kind_pushed j) scan_diff_per_kind_cap) (kind_of_index kind k h)

pushed-push :
    (k : Kind) (n : Kind → ℕ) (s : Reporting) (e : SnapshotEntry) (kind : Kind)
    → s.kind_pushed k ≡ capped (n k)
    → (push s e kind).kind_pushed k ≡ capped (count_up kind n k)
unfolding push
pushed-push k n s e kind h = elim (Bool-cases (ltb (s.kind_pushed kind) scan_diff_per_kind_cap)) [
  | inl room ↦ elim (Bool-cases (same_kind kind k)) [
    | inl same ↦
        let here = sym (room_of s kind k same) ∙ room in rw (room, same) (ground (arith, h, here))
    | inr other ↦ rw (room, other) h
  ]
  | inr full ↦ elim (Bool-cases (same_kind kind k)) [
    | inl same ↦
        let here = sym (room_of s kind k same) ∙ full in rw (full, same) (ground (arith, h, here))
    | inr other ↦ rw (full, other) h
  ]
]

sampled-push :
    (k : Kind) (n : Kind → ℕ) (s : Reporting) (e : SnapshotEntry) (kind : Kind)
    → s.kind_pushed k ≡ capped (n k)
    → samples_of k s.diffs ≡ capped (n k)
    → samples_of k (push s e kind).diffs ≡ capped (count_up kind n k)
unfolding push
sampled-push k n s e kind p h =
    elim (Bool-cases (ltb (s.kind_pushed kind) scan_diff_per_kind_cap)) [
      | inl room ↦ elim (Bool-cases (same_kind kind k)) [
        | inl same ↦
            let here = sym (room_of s kind k same) ∙ room in
            rw (room, samples_of-append k s.diffs _, same_text kind k, same)
              (ground (arith, h, p, here))
        | inr other ↦ rw (room, samples_of-append k s.diffs _, same_text kind k, other) h
      ]
      | inr full ↦ elim (Bool-cases (same_kind kind k)) [
        | inl same ↦
            let here = sym (room_of s kind k same) ∙ full in
            rw (full, same) (ground (arith, h, p, here))
        | inr other ↦ rw (full, other) h
      ]
    ]

pub Labelled-note :
    (n : Kind → ℕ) (s : Reporting) (e : SnapshotEntry) (kind : Kind)
    → Labelled n s
    → Labelled (count_up kind n) (note s e kind)
unfolding note
Labelled-note n s e kind l =
    let t = record s { report = bump kind s.report } in
    record {
      counted = λ k.
          counted-push k t e kind
          ∙ (counter-bump kind k s.report
              ∙ ap (λ m. if same_kind kind k then m + 1 else m) (l.counted k));
      pushed = λ k. pushed-push k n t e kind (l.pushed k);
      sampled = λ k. sampled-push k n t e kind (l.pushed k) (l.sampled k);
    }
