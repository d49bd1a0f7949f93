-- ===== src/Manifest/Tests.antt =====
-- A small sync: a file is replaced by a directory, a file is copied, and an extra file goes.
use auto_sync.Prelude.{
  map, All, Option, ◌++◌, if◌then◌else◌, ◌||◌, Option, ap, ℕ, ◌≡◌, refl, Bool, true, false,
  Bool-cases, inl, inr, none, some, List, [], ◌∷◌, ◌==◌, Text, codes, pos, bytes_eq, bytes_eq_iff,
  arith, Memᴰ, length, subst, sym,
}
use auto_sync.Prelude.Maps
use auto_sync.Paths.Components.{slash}
use auto_sync.Paths.Excludes.{is_rel_excluded}
use auto_sync.Manifest.Entry.{SnapshotEntry, NativeSyncConfig, dir, file}
use mathlib.Core.List.{Perm}
use auto_sync.Manifest.Match.{is_known}
use auto_sync.Manifest.Diff.{diff_manifests, map_entry_refs, entries_to_copy}
use auto_sync.Manifest.Account.{kept, diff_manifests_account}
use auto_sync.Manifest.Repair.{is_below, sync_directory, remove_path, write_entry}
use auto_sync.Manifest.Trees.{IsTree, entry_at}
use auto_sync.Manifest.Mirror.{NoWork, diff_manifests-sync_directory}

abbrev of_type : Text → Text → SnapshotEntry
of_type path t = record {
  rel_path = path;
  file_type = t;
  size = pos 1;
  mtime_ns = pos 0;
  mode = 420;
  hash = none;
}

abbrev source : List SnapshotEntry
source = of_type (codes "d") dir ∷ of_type (codes "f") file ∷ []

abbrev dst : List SnapshotEntry
dst = of_type (codes "d") file ∷ of_type (codes "x") file ∷ []

abbrev settings : NativeSyncConfig
settings = record { mirror = true; checksum = false; modify_window_secs = 2 }

diff_run : diff_manifests source dst [] settings false ≡ record {
  transfer = (of_type (codes "f") file, none) ∷ [];
  type_mismatch = of_type (codes "d") dir ∷ [];
  missing_dirs = [];
  extras = of_type (codes "x") file ∷ [];
  mode_fixes = [];
  in_sync = 0;
}
unfolding diff_manifests is_rel_excluded bytes_eq Maps.get Maps.insert
diff_run = refl

diff_manifests_account_example :
    let d = diff_manifests source dst [] settings false in
    (synced : List SnapshotEntry) × (length synced ≡ d.in_sync)
    × Perm
        (map (λ (t : SnapshotEntry × Option SnapshotEntry). t.0) d.transfer
          ++ (d.type_mismatch ++ (d.missing_dirs ++ synced)))
        (kept source dst [] settings false source)
    × All (λ m. Memᴰ m synced) d.mode_fixes
diff_manifests_account_example = diff_manifests_account source dst [] settings false

below_letter : (p : Text) (c : ℕ) → (c == slash) ≡ false → is_below p (c ∷ []) ≡ false
unfolding is_below
below_letter [] c h = h
below_letter (t ∷ []) c h = ground arith
below_letter (t ∷ u ∷ p) c h = ground arith

-- The destination once the steps have run: a directory in the file's place, and the copied file.
abbrev shown : List SnapshotEntry
shown = of_type (codes "d") dir ∷ of_type (codes "f") file ∷ []

found_source : (e : SnapshotEntry) → Memᴰ e source → entry_at source e.rel_path ≡ some e
unfolding map_entry_refs Maps.get Maps.insert bytes_eq
found_source e (Memᴰ.head p) = subst (λ x. entry_at source x.rel_path ≡ some x) (sym p) refl
found_source e (Memᴰ.tail (Memᴰ.head p)) =
    subst (λ x. entry_at source x.rel_path ≡ some x) (sym p) refl
found_source e (Memᴰ.tail (Memᴰ.tail m)) = elim m [ ]

found_dst : (e : SnapshotEntry) → Memᴰ e dst → entry_at dst e.rel_path ≡ some e
unfolding map_entry_refs Maps.get Maps.insert bytes_eq
found_dst e (Memᴰ.head p) = subst (λ x. entry_at dst x.rel_path ≡ some x) (sym p) refl
found_dst e (Memᴰ.tail (Memᴰ.head p)) = subst (λ x. entry_at dst x.rel_path ≡ some x) (sym p) refl
found_dst e (Memᴰ.tail (Memᴰ.tail m)) = elim m [ ]

nothing_below :
    (p : Text) (e : SnapshotEntry) (c : ℕ)
    → (c == slash) ≡ false
    → e.rel_path ≡ c ∷ []
    → is_below p e.rel_path ≡ true
    → ⊥
nothing_below p e c h q below = cc (below, below_letter p c h, ap (is_below p) q)

none_below_source :
    (p : Text) (e : SnapshotEntry) → Memᴰ e source → is_below p e.rel_path ≡ true → ⊥
none_below_source p e (Memᴰ.head q) = nothing_below p e 100 refl (ap (λ x. x.rel_path) q)
none_below_source p e (Memᴰ.tail (Memᴰ.head q)) =
    nothing_below p e 102 refl (ap (λ x. x.rel_path) q)
none_below_source p e (Memᴰ.tail (Memᴰ.tail m)) = elim m [ ]

none_below_dst : (p : Text) (e : SnapshotEntry) → Memᴰ e dst → is_below p e.rel_path ≡ true → ⊥
none_below_dst p e (Memᴰ.head q) = nothing_below p e 100 refl (ap (λ x. x.rel_path) q)
none_below_dst p e (Memᴰ.tail (Memᴰ.head q)) = nothing_below p e 120 refl (ap (λ x. x.rel_path) q)
none_below_dst p e (Memᴰ.tail (Memᴰ.tail m)) = elim m [ ]

source_tree : IsTree source
source_tree = record {
  unique = found_source;
  parents = λ p e m below. absurd (none_below_source p e m below);
}

dst_tree : IsTree dst
dst_tree = record {
  unique = found_dst;
  parents = λ p e m below. absurd (none_below_dst p e m below);
}

known_source : (e : SnapshotEntry) → Memᴰ e source → is_known e ≡ true
unfolding bytes_eq
known_source e (Memᴰ.head p) = subst (λ x. is_known x ≡ true) (sym p) refl
known_source e (Memᴰ.tail (Memᴰ.head p)) = subst (λ x. is_known x ≡ true) (sym p) refl
known_source e (Memᴰ.tail (Memᴰ.tail m)) = elim m [ ]

-- What the steps make of a path, the comparison's result written out.
abbrev stepped : Text → Option SnapshotEntry
stepped =
    sync_directory settings source
      (record {
        transfer = (of_type (codes "f") file, none) ∷ [];
        type_mismatch = of_type (codes "d") dir ∷ [];
        missing_dirs = [];
        extras = of_type (codes "x") file ∷ [];
        mode_fixes = [];
        in_sync = 0;
      })
      (entry_at dst)

stepped_elsewhere :
    (p : Text)
    → bytes_eq (codes "d") p ≡ false
    → bytes_eq (codes "f") p ≡ false
    → entry_at shown p ≡ stepped p
unfolding sync_directory entries_to_copy map_entry_refs Maps.get Maps.insert bytes_eq remove_path
    write_entry
stepped_elsewhere p d f =
    by_tests (bytes_eq (codes "d") p) (bytes_eq (codes "f") p) (bytes_eq (codes "x") p)
      (is_below (codes "d") p) (is_below (codes "x") p) d f
  where
    by_tests :
        (d f x under_d under_x : Bool)
        → d ≡ false
        → f ≡ false
        → (if d
            then some (of_type (codes "d") dir)
            else if f
            then some (of_type (codes "f") file)
            else none)
          ≡ (if x || under_x
              then none
              else if f
              then some (of_type (codes "f") file)
              else if d
              then some (of_type (codes "d") dir)
              else if d || under_d
              then none
              else if d
              then some (of_type (codes "d") file)
              else if x
              then some (of_type (codes "x") file)
              else none)
    by_tests d f x under_d under_x no_d no_f = ground arith

stepped-shown : (p : Text) → entry_at shown p ≡ stepped p
unfolding sync_directory entries_to_copy map_entry_refs Maps.get Maps.insert bytes_eq is_below
stepped-shown p = elim (Bool-cases (bytes_eq (codes "d") p)) [
  | inl d ↦ subst (λ q. entry_at shown q ≡ stepped q) ((bytes_eq_iff (codes "d") p).0 d) refl
  | inr d ↦ elim (Bool-cases (bytes_eq (codes "f") p)) [
    | inl f ↦ subst (λ q. entry_at shown q ≡ stepped q) ((bytes_eq_iff (codes "f") p).0 f) refl
    | inr f ↦ stepped_elsewhere p d f
  ]
]

shows_dst :
    (p : Text)
    → entry_at shown p
      ≡ sync_directory settings source
          (diff_manifests source dst [] settings false)
          (entry_at dst)
          p
shows_dst p =
    subst (λ d. entry_at shown p ≡ sync_directory settings source d (entry_at dst) p) (sym diff_run)
      (stepped-shown p)

diff_manifests-sync_directory_example : NoWork (diff_manifests source shown [] settings false)
diff_manifests-sync_directory_example =
    diff_manifests-sync_directory source dst shown [] settings false source_tree dst_tree
      found_source known_source shows_dst
