-- ===== src/Manifest/Repair.antt =====
-- What the steps of `sync_directory_with_transfer` (src/core/sync/mod.rs) make of the destination's
-- manifest when every request succeeds: a view gives the entry recorded at each path.
use auto_sync.Prelude.{
  collect, ℕ, ◌≡◌, refl, Bool, true, false, ◌||◌, Option, none, some, List, [], ◌∷◌, if◌then◌else◌,
  Text, bytes_eq, bytes_eq_iff, arith, ap, Memᴰ, ◌&&◌, ◌==◌, if_false, if_true, ◌∙◌, sym, ◌⊎◌, inl,
  inr, Bool-cases,
}
use auto_sync.Paths.Components.{slash}
use auto_sync.Manifest.Entry.{SnapshotEntry, NativeSyncConfig, dir, is_type}
use auto_sync.Manifest.Diff.{ManifestDiff, entries_to_copy}

abbrev pub View : Type 0
View = Text → Option SnapshotEntry

-- `path` lies below the directory `top`: it begins with `top` and a separator.
unfoldable pub is_below : Text → Text → Bool
is_below [] [] = false
is_below [] (c ∷ path) = c == slash
is_below (t ∷ top) [] = false
is_below (t ∷ top) (c ∷ path) = t == c && is_below top path

-- Removing a path takes a directory's tree with it.
unfoldable pub remove_path : Text → View → View
remove_path p view q = if bytes_eq p q || is_below p q then none else view q

unfoldable pub remove_paths : List SnapshotEntry → View → View
unfolding remove_path
remove_paths [] view = view
remove_paths (e ∷ es) view = remove_paths es (remove_path e.rel_path view)

-- A file or symlink received, or a directory prepared and given its mode and mtime.
unfoldable pub write_entry : SnapshotEntry → View → View
write_entry e view q = if bytes_eq e.rel_path q then some e else view q

unfoldable pub write_entries : List SnapshotEntry → View → View
unfolding write_entry
write_entries [] view = view
write_entries (e ∷ es) view = write_entries es (write_entry e view)

abbrev with_mode : ℕ → Option SnapshotEntry → Option SnapshotEntry
with_mode mode none = none
with_mode mode (some e) = some (record e { mode = mode })

unfoldable pub set_modes : List SnapshotEntry → View → View
set_modes [] view = view
set_modes (e ∷ es) view =
    set_modes es (λ q. if bytes_eq e.rel_path q then with_mode e.mode (view q) else view q)

unfoldable pub dirs_of : List SnapshotEntry → List SnapshotEntry
dirs_of = collect (λ e. if is_type e dir then e ∷ [] else [])

abbrev pub copied_entries : List (SnapshotEntry × Option SnapshotEntry) → List SnapshotEntry
copied_entries [] = []
copied_entries ((e, existing) ∷ es) = e ∷ copied_entries es

-- The steps in the program's order. Within a step the program sorts the paths; the resulting
-- manifest does not depend on it.
unfoldable pub sync_directory : NativeSyncConfig → List SnapshotEntry → ManifestDiff → View → View
unfolding remove_paths write_entries set_modes dirs_of
sync_directory sync source_snapshot diff view =
    let replaced = remove_paths diff.type_mismatch view in
    let prepared = write_entries (dirs_of source_snapshot) replaced in
    let copied = write_entries (copied_entries (entries_to_copy diff)) prepared in
    let mirrored = if sync.mirror then remove_paths diff.extras copied else copied in
    set_modes diff.mode_fixes mirrored

-- A path that no removed entry hits stays; one that an entry names is gone.
pub remove_paths_keep :
    (es : List SnapshotEntry) (view : View) (q : Text)
    → ((e : SnapshotEntry) → Memᴰ e es → (bytes_eq e.rel_path q || is_below e.rel_path q) ≡ false)
    → remove_paths es view q ≡ view q
unfolding remove_paths
remove_paths_keep [] view q h = refl
remove_paths_keep (e ∷ es) view q h =
    remove_paths_keep es (remove_path e.rel_path view) q (λ x m. h x (Memᴰ.tail m))
    ∙ if_false _ none (view q) (h e (Memᴰ.head refl))

pub remove_paths-none :
    (es : List SnapshotEntry) (view : View) (q : Text)
    → view q ≡ none
    → remove_paths es view q ≡ none
unfolding remove_paths
remove_paths-none [] view q h = h
remove_paths-none (e ∷ es) view q h =
    remove_paths-none es (remove_path e.rel_path view) q (ground (arith, h))

pub remove_paths_gone :
    (es : List SnapshotEntry) (view : View) (e : SnapshotEntry)
    → Memᴰ e es
    → remove_paths es view e.rel_path ≡ none
unfolding remove_paths
remove_paths_gone [] view e m = elim m [ ]
remove_paths_gone (x ∷ es) view e (Memᴰ.head p) =
    remove_paths-none es (remove_path x.rel_path view) e.rel_path
      (ground (arith, (bytes_eq_iff x.rel_path e.rel_path).1 (ap (λ y. y.rel_path) (sym p))))
remove_paths_gone (x ∷ es) view e (Memᴰ.tail m) =
    remove_paths_gone es (remove_path x.rel_path view) e m

pub write_entries_keep :
    (es : List SnapshotEntry) (view : View) (q : Text)
    → ((e : SnapshotEntry) → Memᴰ e es → bytes_eq e.rel_path q ≡ false)
    → write_entries es view q ≡ view q
unfolding write_entries
write_entries_keep [] view q h = refl
write_entries_keep (e ∷ es) view q h =
    write_entries_keep es (write_entry e view) q (λ x m. h x (Memᴰ.tail m))
    ∙ if_false _ (some e) (view q) (h e (Memᴰ.head refl))

-- Where all written entries of one path are the same, that entry is recorded.
pub write_entries_same :
    (es : List SnapshotEntry) (view : View) (e : SnapshotEntry)
    → ((x : SnapshotEntry) → Memᴰ x es → bytes_eq x.rel_path e.rel_path ≡ true → x ≡ e)
    → view e.rel_path ≡ some e
    → write_entries es view e.rel_path ≡ some e
unfolding write_entries
write_entries_same [] view e h v = v
write_entries_same (x ∷ es) view e h v =
    write_entries_same es (write_entry x view) e (λ y m. h y (Memᴰ.tail m))
      (ground (arith, h x (Memᴰ.head refl), v))

pub write_entries_hit :
    (es : List SnapshotEntry) (view : View) (e : SnapshotEntry)
    → ((x : SnapshotEntry) → Memᴰ x es → bytes_eq x.rel_path e.rel_path ≡ true → x ≡ e)
    → Memᴰ e es
    → write_entries es view e.rel_path ≡ some e
unfolding write_entries
write_entries_hit [] view e h m = elim m [ ]
write_entries_hit (x ∷ es) view e h (Memᴰ.head p) =
    write_entries_same es (write_entry x view) e (λ y n. h y (Memᴰ.tail n))
      (if_true _ (some x) (view e.rel_path)
          ((bytes_eq_iff x.rel_path e.rel_path).1 (ap (λ y. y.rel_path) (sym p)))
        ∙ ap some (sym p))
write_entries_hit (x ∷ es) view e h (Memᴰ.tail m) =
    write_entries_hit es (write_entry x view) e (λ y n. h y (Memᴰ.tail n)) m

pub set_modes_keep :
    (es : List SnapshotEntry) (view : View) (q : Text)
    → ((e : SnapshotEntry) → Memᴰ e es → bytes_eq e.rel_path q ≡ false)
    → set_modes es view q ≡ view q
unfolding set_modes
set_modes_keep [] view q h = refl
set_modes_keep (e ∷ es) view q h =
    set_modes_keep es _ q (λ x m. h x (Memᴰ.tail m)) ∙ if_false _ _ (view q) (h e (Memᴰ.head refl))

pub set_modes-none :
    (es : List SnapshotEntry) (view : View) (q : Text) → view q ≡ none → set_modes es view q ≡ none
unfolding set_modes
set_modes-none [] view q h = h
set_modes-none (e ∷ es) view q h = set_modes-none es _ q (ground (arith, h))

still_listed :
    (x e : SnapshotEntry) (es : List SnapshotEntry) (old : SnapshotEntry)
    → bytes_eq x.rel_path e.rel_path ≡ false
    → (Memᴰ e (x ∷ es) ⊎ (old.mode ≡ e.mode))
    → (Memᴰ e es ⊎ (old.mode ≡ e.mode))
still_listed x e es old miss (inl (Memᴰ.head p)) =
    cc (miss, (bytes_eq_iff x.rel_path e.rel_path).1 (ap (λ y. y.rel_path) (sym p)))
still_listed x e es old miss (inl (Memᴰ.tail m)) = inl m
still_listed x e es old miss (inr same) = inr same

-- A listed fix gives its mode, and one listed twice gives the same again.
pub set_modes_hit :
    (es : List SnapshotEntry) (view : View) (e old : SnapshotEntry)
    → ((x : SnapshotEntry) → Memᴰ x es → bytes_eq x.rel_path e.rel_path ≡ true → x ≡ e)
    → view e.rel_path ≡ some old
    → (Memᴰ e es ⊎ (old.mode ≡ e.mode))
    → set_modes es view e.rel_path ≡ some (record old { mode = e.mode })
unfolding set_modes
set_modes_hit [] view e old h v (inl m) = elim m [ ]
set_modes_hit [] view e old h v (inr same) = v ∙ ap (λ m. some (record old { mode = m })) same
set_modes_hit (x ∷ es) view e old h v m = elim (Bool-cases (bytes_eq x.rel_path e.rel_path)) [
  | inl hit ↦
      let same : x ≡ e = h x (Memᴰ.head refl) hit in
      set_modes_hit es _ e (record old { mode = x.mode }) (λ y n. h y (Memᴰ.tail n))
        (if_true _ _ (view e.rel_path) hit ∙ ap (with_mode x.mode) v) (inr (ap (λ y. y.mode) same))
  | inr miss ↦
      set_modes_hit es _ e old (λ y n. h y (Memᴰ.tail n)) (if_false _ _ (view e.rel_path) miss ∙ v)
        (still_listed x e es old miss m)
]
