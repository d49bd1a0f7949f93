-- ===== src/Manifest/Placed.antt =====
-- Where `diff_manifests` (src/core/sync/mod.rs) puts one entry of the source.
use auto_sync.Prelude.{
  ℕ, ◌+◌, ◌≡◌, refl, sym, ◌∙◌, Bool, true, false, not, ◌||◌, Option, none, some, List, [], ◌∷◌,
  ◌++◌, if◌then◌else◌, map, length, All, All-of_member, All-member, Memᴰ, bytes_eq, arith,
}
use mathlib.Core.List.{Perm, perm_middle}
use mathlib.Core.List.Perm
use auto_sync.Manifest.Entry.{SnapshotEntry, NativeSyncConfig, dir, is_type}
use auto_sync.Manifest.Match.{entries_match_with, entry_mode_differs}
use auto_sync.Manifest.Diff.{ManifestDiff, no_diff, diff_found}

abbrev pub Transfer : Type 0
Transfer = SnapshotEntry × Option SnapshotEntry

abbrev pub entry_of : Transfer → SnapshotEntry
entry_of t = t.0

-- What an entry adds to the transfers, the type mismatches, the missing directories, the modes to
-- repair, and the count of those in sync.
pub data Placed (e : SnapshotEntry)
    : List Transfer
      → List SnapshotEntry
      → List SnapshotEntry
      → List SnapshotEntry
      → ℕ
      → Type 0 where
  transferred : (o : Option SnapshotEntry) → Placed e ((e, o) ∷ []) [] [] [] 0
  mismatched : Placed e [] (e ∷ []) [] [] 0
  created : Placed e [] [] (e ∷ []) [] 0
  matched : Placed e [] [] [] [] 1
  repaired : Placed e [] [] [] (e ∷ []) 1

pub Placed-diff_found :
    (sync : NativeSyncConfig) (exact : Bool) (e : SnapshotEntry) (o : Option SnapshotEntry)
    → Placed e
        (diff_found sync exact no_diff e o).transfer
        (diff_found sync exact no_diff e o).type_mismatch
        (diff_found sync exact no_diff e o).missing_dirs
        (diff_found sync exact no_diff e o).mode_fixes
        (diff_found sync exact no_diff e o).in_sync
unfolding diff_found
Placed-diff_found sync exact e none = by_test (is_type e dir)
  where
    chosen : Bool → ManifestDiff
    chosen b =
        if b
        then record no_diff { missing_dirs = e ∷ [] }
        else record no_diff { transfer = (e, none) ∷ [] }

    by_test :
        (b : Bool)
        → Placed e
            (chosen b).transfer
            (chosen b).type_mismatch
            (chosen b).missing_dirs
            (chosen b).mode_fixes
            (chosen b).in_sync
    by_test true = Placed.created
    by_test false = Placed.transferred none
Placed-diff_found sync exact e (some existing) =
    by_test (not (bytes_eq existing.file_type e.file_type))
      (is_type e dir || entries_match_with e existing sync exact) (entry_mode_differs e existing)
  where
    chosen : Bool → Bool → Bool → ManifestDiff
    chosen differs same mode =
        if differs
        then record no_diff { type_mismatch = e ∷ [] }
        else if same
        then (if mode
            then record no_diff { mode_fixes = e ∷ []; in_sync = 1 }
            else record no_diff { in_sync = 1 })
        else record no_diff { transfer = (e, some existing) ∷ [] }

    by_test :
        (differs same mode : Bool)
        → Placed e
            (chosen differs same mode).transfer
            (chosen differs same mode).type_mismatch
            (chosen differs same mode).missing_dirs
            (chosen differs same mode).mode_fixes
            (chosen differs same mode).in_sync
    by_test true same mode = Placed.mismatched
    by_test false true true = Placed.repaired
    by_test false true false = Placed.matched
    by_test false false mode = Placed.transferred (some existing)

-- The entries of the lists, with those in sync, are the given ones.
pub record Account (transfer : List Transfer) (mismatch missing fixes : List SnapshotEntry)
    (in_sync : ℕ) (entries : List SnapshotEntry) : Type 0 where
  pub synced : List SnapshotEntry
  pub count : length synced ≡ in_sync
  pub all : Perm (map entry_of transfer ++ (mismatch ++ (missing ++ synced))) entries
  pub fixed : All (λ m. Memᴰ m synced) fixes

pub Account-nothing : Account [] [] [] [] 0 []
Account-nothing = record { synced = []; count = refl; all = Perm.refl []; fixed = tt }

All-tail :
    (e : SnapshotEntry) (synced fixes : List SnapshotEntry)
    → All (λ m. Memᴰ m synced) fixes
    → All (λ m. Memᴰ m (e ∷ synced)) fixes
All-tail e synced fixes h = All-of_member _ fixes (λ m k. Memᴰ.tail (All-member _ fixes m h k))

pub Account-placed :
    (e : SnapshotEntry) {t t2 : List Transfer} {a b c a2 b2 c2 es : List SnapshotEntry} {n n2 : ℕ}
    → Placed e t a b c n
    → Account t2 a2 b2 c2 n2 es
    → Account (t ++ t2) (a ++ a2) (b ++ b2) (c ++ c2) (n + n2) (e ∷ es)
Account-placed e (transferred o) r = record {
  synced = r.synced;
  count = omega (arith, r.count);
  all = Perm.cons e r.all;
  fixed = r.fixed;
}
Account-placed e {t2 = t2} mismatched r = record {
  synced = r.synced;
  count = omega (arith, r.count);
  all = Perm.trans (perm_middle (map entry_of t2) _) (Perm.cons e r.all);
  fixed = r.fixed;
}
Account-placed e {t2 = t2} {a2 = a2} created r = record {
  synced = r.synced;
  count = omega (arith, r.count);
  all =
      Perm.trans (Perm.append_left (map entry_of t2) (perm_middle a2 _))
        (Perm.trans (perm_middle (map entry_of t2) _) (Perm.cons e r.all));
  fixed = r.fixed;
}
Account-placed e {t2 = t2} {a2 = a2} {b2 = b2} {c2 = c2} matched r = record {
  synced = e ∷ r.synced;
  count = omega (arith, r.count);
  all = Perm.trans (Perm.append_left (map entry_of t2) (Perm.append_left a2 (perm_middle b2 _))) (
      Perm.trans (Perm.append_left (map entry_of t2) (perm_middle a2 _))
        (Perm.trans (perm_middle (map entry_of t2) _) (Perm.cons e r.all)));
  fixed = All-tail e r.synced c2 r.fixed;
}
Account-placed e {t2 = t2} {a2 = a2} {b2 = b2} {c2 = c2} repaired r = record {
  synced = e ∷ r.synced;
  count = omega (arith, r.count);
  all = Perm.trans (Perm.append_left (map entry_of t2) (Perm.append_left a2 (perm_middle b2 _))) (
      Perm.trans (Perm.append_left (map entry_of t2) (perm_middle a2 _))
        (Perm.trans (perm_middle (map entry_of t2) _) (Perm.cons e r.all)));
  fixed = (Memᴰ.head refl, All-tail e r.synced c2 r.fixed);
}

pub Account-same :
    {t t2 : List Transfer} {a b c a2 b2 c2 es : List SnapshotEntry} {n n2 : ℕ}
    → t2 ≡ t
    → a2 ≡ a
    → b2 ≡ b
    → c2 ≡ c
    → n2 ≡ n
    → Account t a b c n es
    → Account t2 a2 b2 c2 n2 es
Account-same et ea eb ec en r = record {
  synced = r.synced;
  count = r.count ∙ sym en;
  all = rw (et, ea, eb) r.all;
  fixed = rw ec r.fixed;
}
