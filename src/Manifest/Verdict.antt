-- ===== src/Manifest/Verdict.antt =====
-- The verdict of `diff_manifests` (src/core/sync/mod.rs) on one source entry, with the tests that led
-- to it.
use auto_sync.Prelude.{
  ◌≡◌, refl, Bool, true, false, Bool-cases, inl, inr, ◌||◌, Option, none, some, List, [], ◌∷◌, Text,
  bytes_eq, arith, if_true, if_false, subst, sym,
}
use auto_sync.Prelude.Maps
use auto_sync.Prelude.Maps.{Map}
use auto_sync.Manifest.Entry.{SnapshotEntry, NativeSyncConfig, dir, is_type}
use auto_sync.Manifest.Match.{entries_match_with, entry_mode_differs}
use auto_sync.Manifest.Diff.{ManifestDiff, no_diff, excluded, diff_found}
use auto_sync.Manifest.Lists.{entry_diff}

-- `o` is the destination's entry at the path, and `d` what the entry adds to the difference.
pub data Verdict (sync : NativeSyncConfig) (exact : Bool) (e : SnapshotEntry)
    (o : Option SnapshotEntry) (d : ManifestDiff) : Type 0 where
  missing :
      o ≡ none
      → is_type e dir ≡ true
      → d ≡ record no_diff { missing_dirs = e ∷ [] }
      → Verdict sync exact e o d
  added :
      o ≡ none
      → is_type e dir ≡ false
      → d ≡ record no_diff { transfer = (e, none) ∷ [] }
      → Verdict sync exact e o d
  replaced :
      (x : SnapshotEntry)
      → o ≡ some x
      → bytes_eq x.file_type e.file_type ≡ false
      → d ≡ record no_diff { type_mismatch = e ∷ [] }
      → Verdict sync exact e o d
  synced :
      (x : SnapshotEntry)
      → o ≡ some x
      → bytes_eq x.file_type e.file_type ≡ true
      → (is_type e dir || entries_match_with e x sync exact) ≡ true
      → entry_mode_differs e x ≡ false
      → d ≡ record no_diff { in_sync = 1 }
      → Verdict sync exact e o d
  chmod :
      (x : SnapshotEntry)
      → o ≡ some x
      → bytes_eq x.file_type e.file_type ≡ true
      → (is_type e dir || entries_match_with e x sync exact) ≡ true
      → entry_mode_differs e x ≡ true
      → d ≡ record no_diff { mode_fixes = e ∷ []; in_sync = 1 }
      → Verdict sync exact e o d
  updated :
      (x : SnapshotEntry)
      → o ≡ some x
      → bytes_eq x.file_type e.file_type ≡ true
      → (is_type e dir || entries_match_with e x sync exact) ≡ false
      → d ≡ record no_diff { transfer = (e, some x) ∷ [] }
      → Verdict sync exact e o d

module _ (sync : NativeSyncConfig) (exact : Bool) (e : SnapshotEntry) where
  Verdict-found :
      (o : Option SnapshotEntry) → Verdict sync exact e o (diff_found sync exact no_diff e o)
  unfolding diff_found
  Verdict-found none = elim (Bool-cases (is_type e dir)) [
    | inl d ↦ missing refl d (if_true _ _ _ d)
    | inr f ↦ added refl f (if_false _ _ _ f)
  ]
  Verdict-found (some x) = elim (Bool-cases (bytes_eq x.file_type e.file_type)) [
    | inr t ↦ replaced x refl t (ground arith)
    | inl t ↦ elim (Bool-cases (is_type e dir || entries_match_with e x sync exact)) [
      | inr m ↦ updated x refl t m (ground arith)
      | inl m ↦ elim (Bool-cases (entry_mode_differs e x)) [
        | inl c ↦ chmod x refl t m c (ground arith)
        | inr c ↦ synced x refl t m c (ground arith)
      ]
    ]
  ]

  pub verdict :
      (dst_map : Map SnapshotEntry) (excludes : List Text)
      → excluded excludes e ≡ false
      → Verdict sync exact e
          (Maps.get e.rel_path dst_map)
          (entry_diff dst_map excludes sync exact e)
  unfolding entry_diff
  verdict dst_map excludes kept =
      subst (λ d. Verdict sync exact e (Maps.get e.rel_path dst_map) d)
        (sym (if_false _ no_diff _ kept)) (Verdict-found (Maps.get e.rel_path dst_map))

pub entry_diff_dropped :
    (dst_map : Map SnapshotEntry) (excludes : List Text) (sync : NativeSyncConfig) (exact : Bool)
    (e : SnapshotEntry)
    → excluded excludes e ≡ true
    → entry_diff dst_map excludes sync exact e ≡ no_diff
unfolding entry_diff
entry_diff_dropped dst_map excludes sync exact e h = if_true _ no_diff _ h
