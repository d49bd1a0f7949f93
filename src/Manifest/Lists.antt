-- ===== src/Manifest/Lists.antt =====
-- The lists of `diff_manifests` (src/core/sync/mod.rs), entry by entry: what the loops add for one
-- entry depends on that entry and on the maps alone.
use auto_sync.Prelude.{
  ◌+◌, ◌≡◌, refl, Bool, true, false, Option, none, some, List, [], ◌∷◌, ◌++◌, if◌then◌else◌, Text,
  append-nil, append_assoc, arith, collect, ap, sym, ◌∙◌,
}
use auto_sync.Prelude.Maps
use auto_sync.Prelude.Maps.{Map}
use auto_sync.Manifest.Entry.{SnapshotEntry, NativeSyncConfig}
use auto_sync.Manifest.Diff.{
  ManifestDiff, no_diff, excluded, diff_found, diff_source, add_extra, diff_extras,
}

-- What one source entry adds to an empty difference.
unfoldable pub entry_diff :
    Map SnapshotEntry → List Text → NativeSyncConfig → Bool → SnapshotEntry → ManifestDiff
entry_diff dst_map excludes sync exact e =
    if excluded excludes e
    then no_diff
    else diff_found sync exact no_diff e (Maps.get e.rel_path dst_map)

unfoldable pub extra_diff : Map SnapshotEntry → List Text → SnapshotEntry → ManifestDiff
extra_diff source_map excludes e =
    if excluded excludes e then no_diff else add_extra no_diff e (Maps.get e.rel_path source_map)

-- Two differences, one after the other.
abbrev pub Joins : ManifestDiff → ManifestDiff → ManifestDiff → Type 0
Joins a b c =
    (c.transfer ≡ a.transfer ++ b.transfer)
    × (c.type_mismatch ≡ a.type_mismatch ++ b.type_mismatch)
    × (c.missing_dirs ≡ a.missing_dirs ++ b.missing_dirs)
    × (c.extras ≡ a.extras ++ b.extras)
    × (c.mode_fixes ≡ a.mode_fixes ++ b.mode_fixes)
    × (c.in_sync ≡ a.in_sync + b.in_sync)

Joins-no_diff : (diff : ManifestDiff) → Joins diff no_diff diff
Joins-no_diff diff = (
  sym (append-nil diff.transfer),
  sym (append-nil diff.type_mismatch),
  sym (append-nil diff.missing_dirs),
  sym (append-nil diff.extras),
  sym (append-nil diff.mode_fixes),
  omega arith,
)

module _ (sync : NativeSyncConfig) (exact : Bool) (diff : ManifestDiff) (e : SnapshotEntry) where
  Joins-diff_found :
      (o : Option SnapshotEntry)
      → Joins diff (diff_found sync exact no_diff e o) (diff_found sync exact diff e o)
  unfolding diff_found
  Joins-diff_found none = ground (
    arith,
    append-nil diff.transfer,
    append-nil diff.type_mismatch,
    append-nil diff.missing_dirs,
    append-nil diff.extras,
    append-nil diff.mode_fixes,
  )
  Joins-diff_found (some existing) = ground (
    arith,
    append-nil diff.transfer,
    append-nil diff.type_mismatch,
    append-nil diff.missing_dirs,
    append-nil diff.extras,
    append-nil diff.mode_fixes,
  )

-- The differences of the entries, one after the other.
abbrev pub gather : (SnapshotEntry → ManifestDiff) → List SnapshotEntry → ManifestDiff
gather f [] = no_diff
gather f (e ∷ es) =
    let a = f e in
    let b = gather f es in
    record {
      transfer = a.transfer ++ b.transfer;
      type_mismatch = a.type_mismatch ++ b.type_mismatch;
      missing_dirs = a.missing_dirs ++ b.missing_dirs;
      extras = a.extras ++ b.extras;
      mode_fixes = a.mode_fixes ++ b.mode_fixes;
      in_sync = a.in_sync + b.in_sync;
    }

Joins-gather :
    (f : SnapshotEntry → ManifestDiff) (e : SnapshotEntry) (es : List SnapshotEntry)
    (a b c : ManifestDiff)
    → Joins a (f e) b
    → Joins b (gather f es) c
    → Joins a (gather f (e ∷ es)) c
Joins-gather f e es a b c j k = (
  k.0 ∙ (ap (λ l. l ++ (gather f es).transfer) j.0 ∙ append_assoc a.transfer (f e).transfer _),
  k.1
      ∙ (ap (λ l. l ++ (gather f es).type_mismatch) j.1
          ∙ append_assoc a.type_mismatch (f e).type_mismatch _),
  k.2
      ∙ (ap (λ l. l ++ (gather f es).missing_dirs) j.2
          ∙ append_assoc a.missing_dirs (f e).missing_dirs _),
  k.3 ∙ (ap (λ l. l ++ (gather f es).extras) j.3 ∙ append_assoc a.extras (f e).extras _),
  k.4
      ∙ (ap (λ l. l ++ (gather f es).mode_fixes) j.4
          ∙ append_assoc a.mode_fixes (f e).mode_fixes _),
  omega (arith, j.5, k.5),
)

module _ (dst_map : Map SnapshotEntry) (excludes : List Text) (sync : NativeSyncConfig)
    (exact : Bool) where
  Joins-step :
      (diff : ManifestDiff) (e : SnapshotEntry) (skip : Bool) (o : Option SnapshotEntry)
      → Joins diff
          (if skip then no_diff else diff_found sync exact no_diff e o)
          (if skip then diff else diff_found sync exact diff e o)
  Joins-step diff e true o = Joins-no_diff diff
  Joins-step diff e false o = Joins-diff_found sync exact diff e o

  pub Joins-diff_source :
      (es : List SnapshotEntry) (diff : ManifestDiff)
      → Joins diff
          (gather (entry_diff dst_map excludes sync exact) es)
          (diff_source dst_map excludes sync exact diff es)
  unfolding diff_source entry_diff
  Joins-diff_source [] diff = Joins-no_diff diff
  Joins-diff_source (e ∷ es) diff =
      Joins-gather (entry_diff dst_map excludes sync exact) e es diff _ _
        (Joins-step diff e (excluded excludes e) (Maps.get e.rel_path dst_map))
        (Joins-diff_source es _)

module _ (source_map : Map SnapshotEntry) (excludes : List Text) where
  Joins-extra_step :
      (diff : ManifestDiff) (e : SnapshotEntry) (skip : Bool) (o : Option SnapshotEntry)
      → Joins diff
          (if skip then no_diff else add_extra no_diff e o)
          (if skip then diff else add_extra diff e o)
  unfolding add_extra
  Joins-extra_step diff e true o = Joins-no_diff diff
  Joins-extra_step diff e false (some _) = Joins-no_diff diff
  Joins-extra_step diff e false none = ground (
    arith,
    append-nil diff.transfer,
    append-nil diff.type_mismatch,
    append-nil diff.missing_dirs,
    append-nil diff.mode_fixes,
  )

  pub Joins-diff_extras :
      (es : List SnapshotEntry) (diff : ManifestDiff)
      → Joins diff
          (gather (extra_diff source_map excludes) es)
          (diff_extras source_map excludes diff es)
  unfolding diff_extras extra_diff
  Joins-diff_extras [] diff = Joins-no_diff diff
  Joins-diff_extras (e ∷ es) diff =
      Joins-gather (extra_diff source_map excludes) e es diff _ _
        (Joins-extra_step diff e (excluded excludes e) (Maps.get e.rel_path source_map))
        (Joins-diff_extras es _)

module _ (f : SnapshotEntry → ManifestDiff) where
  pub transfer-gather :
      (es : List SnapshotEntry) → (gather f es).transfer ≡ collect (λ e. (f e).transfer) es
  transfer-gather [] = refl
  transfer-gather (e ∷ es) = ap (λ l. (f e).transfer ++ l) (transfer-gather es)

  pub type_mismatch-gather :
      (es : List SnapshotEntry)
      → (gather f es).type_mismatch ≡ collect (λ e. (f e).type_mismatch) es
  type_mismatch-gather [] = refl
  type_mismatch-gather (e ∷ es) = ap (λ l. (f e).type_mismatch ++ l) (type_mismatch-gather es)

  pub missing_dirs-gather :
      (es : List SnapshotEntry) → (gather f es).missing_dirs ≡ collect (λ e. (f e).missing_dirs) es
  missing_dirs-gather [] = refl
  missing_dirs-gather (e ∷ es) = ap (λ l. (f e).missing_dirs ++ l) (missing_dirs-gather es)

  pub mode_fixes-gather :
      (es : List SnapshotEntry) → (gather f es).mode_fixes ≡ collect (λ e. (f e).mode_fixes) es
  mode_fixes-gather [] = refl
  mode_fixes-gather (e ∷ es) = ap (λ l. (f e).mode_fixes ++ l) (mode_fixes-gather es)

  pub extras-gather :
      (es : List SnapshotEntry) → (gather f es).extras ≡ collect (λ e. (f e).extras) es
  extras-gather [] = refl
  extras-gather (e ∷ es) = ap (λ l. (f e).extras ++ l) (extras-gather es)

-- A source entry adds no extra, and a destination entry nothing else.
pub no_extras :
    (m : Map SnapshotEntry) (x : List Text) (sync : NativeSyncConfig) (exact : Bool)
    (e : SnapshotEntry)
    → (entry_diff m x sync exact e).extras ≡ []
unfolding entry_diff diff_found
no_extras m x sync exact e = ground arith

pub only_extras :
    (m : Map SnapshotEntry) (x : List Text) (e : SnapshotEntry)
    → let d = extra_diff m x e in
      (d.transfer ≡ [])
      × (d.type_mismatch ≡ [])
      × (d.missing_dirs ≡ [])
      × (d.mode_fixes ≡ [])
      × (d.in_sync ≡ 0)
unfolding extra_diff add_extra
only_extras m x e = ground arith

pub in_sync-only_extras :
    (m : Map SnapshotEntry) (x : List Text) (es : List SnapshotEntry)
    → (gather (extra_diff m x) es).in_sync ≡ 0
in_sync-only_extras m x [] = refl
in_sync-only_extras m x (e ∷ es) = omega (arith, (only_extras m x e).4, in_sync-only_extras m x es)
