-- ===== src/Push/Bounds.antt =====
-- The bounds of the batches that `plan_push_work` (src/core/sync/mod.rs) makes.
use auto_sync.Prelude.{
  ℕ, ◌+◌, ◌≤◌, ◌≡◌, refl, ap, sym, subst, Bool, true, false, Bool-cases, inl, inr, not, List, [],
  ◌∷◌, ◌++◌, if◌then◌else◌, if_true, if_false, arith, length, length-append, All, leb→le,
}
use auto_sync.Manifest.Entry.{SnapshotEntry, file, is_type}
use auto_sync.Push.Plan.{
  PushWork, single, small_batch, Planning, is_small, batch_work, flush, is_full, add_small,
  plan_step, plan_loop, plan_push_work, size_of, no_plan, small_batch_file_max,
  small_batch_max_bytes, small_batch_max_files,
}

abbrev pub total : List SnapshotEntry → ℕ
total [] = 0
total (e ∷ es) = size_of e + total es

-- A file that may ride in a batch.
abbrev pub Small : SnapshotEntry → Type 0
Small e = (is_type e file ≡ true) × (size_of e ≤ small_batch_file_max)

-- A batch has several files, all small, within both of its bounds.
abbrev pub Bounded : PushWork → Type 0
Bounded (single e use_delta) = Unit
Bounded (small_batch batch) =
    (2 ≤ length batch)
    × (length batch ≤ small_batch_max_files)
    × (total batch ≤ small_batch_max_bytes)
    × All Small batch

record Filling (s : Planning) : Type 0 where
  work : All Bounded s.work
  small : All Small s.batch
  bytes : s.batch_bytes ≡ total s.batch
  max_files : length s.batch ≤ small_batch_max_files
  max_bytes : total s.batch ≤ small_batch_max_bytes

All-append {ℓ κ} :
    {A : Type ℓ} (P : A → Type κ) (xs ys : List A) → All P xs → All P ys → All P (xs ++ ys)
All-append P [] ys h k = k
All-append P (x ∷ xs) ys h k = (h.0, All-append P xs ys h.1 k)

total-append : (xs ys : List SnapshotEntry) → total (xs ++ ys) ≡ total xs + total ys
total-append [] ys = omega arith
total-append (x ∷ xs) ys = omega (arith, total-append xs ys)

Bounded-batch_work :
    (batch : List SnapshotEntry)
    → All Small batch
    → length batch ≤ small_batch_max_files
    → total batch ≤ small_batch_max_bytes
    → All Bounded (batch_work batch)
unfolding batch_work
Bounded-batch_work [] small files bytes = tt
Bounded-batch_work (e ∷ []) small files bytes = (tt, tt)
Bounded-batch_work (e ∷ f ∷ batch) small files bytes = ((omega arith, files, bytes, small), tt)

Filling-flush : (s : Planning) → Filling s → Filling (flush s)
unfolding flush
Filling-flush s h = record {
  work =
      All-append Bounded s.work (batch_work s.batch) h.work
        (Bounded-batch_work s.batch h.small h.max_files h.max_bytes);
  small = tt;
  bytes = refl;
  max_files = omega arith;
  max_bytes = omega arith;
}

Filling-add_small :
    (s : Planning) (e : SnapshotEntry)
    → Filling s
    → Small e
    → length s.batch + 1 ≤ small_batch_max_files
    → total s.batch + size_of e ≤ small_batch_max_bytes
    → Filling (add_small s e)
unfolding add_small
Filling-add_small s e h small files bytes = record {
  work = h.work;
  small = All-append Small s.batch (e ∷ []) h.small (small, tt);
  bytes = omega (arith, h.bytes, total-append s.batch (e ∷ []));
  max_files = omega (arith, length-append s.batch (e ∷ []));
  max_bytes = omega (arith, total-append s.batch (e ∷ []));
}

Small-entry : (e : SnapshotEntry) (d : Bool) → is_small e d ≡ true → Small e
Small-entry e d h = (ground arith, ground (arith, leb→le (size_of e) small_batch_file_max))

room :
    (s : Planning) (size : ℕ)
    → is_full s size ≡ false
    → (length s.batch + 1 ≤ small_batch_max_files) × (s.batch_bytes + size ≤ small_batch_max_bytes)
unfolding is_full
room s size h = (ground arith, ground arith)

Filling-single :
    (s : Planning) (e : SnapshotEntry) (d : Bool)
    → Filling s
    → Filling (record s { work = s.work ++ single e d ∷ [] })
Filling-single s e d h = record {
  work = All-append Bounded s.work (single e d ∷ []) h.work (tt, tt);
  small = h.small;
  bytes = h.bytes;
  max_files = h.max_files;
  max_bytes = h.max_bytes;
}

-- A small file joins the open batch, or a new one where it is full.
Filling-joined :
    (s : Planning) (e : SnapshotEntry)
    → Filling s
    → Small e
    → Filling (add_small (if is_full s (size_of e) then flush s else s) e)
unfolding flush
Filling-joined s e h small = elim (Bool-cases (is_full s (size_of e))) [
  | inl full ↦
      subst (λ p. Filling (add_small p e)) (sym (if_true _ (flush s) s full))
        (Filling-add_small (flush s) e (Filling-flush s h) small (omega arith)
          (omega (arith, small.1)))
  | inr more ↦
      subst (λ p. Filling (add_small p e)) (sym (if_false _ (flush s) s more))
        (Filling-add_small s e h small (room s (size_of e) more).0
          (omega (arith, (room s (size_of e) more).1, h.bytes)))
]

Filling-plan_step :
    (s : Planning) (e : SnapshotEntry) (d : Bool) → Filling s → Filling (plan_step s e d)
unfolding plan_step
Filling-plan_step s e d h = elim (Bool-cases (is_small e d)) [
  | inl small ↦
      subst (λ p. Filling p) (sym (if_false (not (is_small e d)) _ _ (ap not small)))
        (Filling-joined s e h (Small-entry e d small))
  | inr big ↦
      subst (λ p. Filling p) (sym (if_true (not (is_small e d)) _ _ (ap not big)))
        (Filling-single s e d h)
]

Filling-plan_loop :
    (s : Planning) (entries : List (SnapshotEntry × Bool))
    → Filling s
    → Filling (plan_loop s entries)
unfolding plan_loop
Filling-plan_loop s [] h = h
Filling-plan_loop s ((e, d) ∷ entries) h =
    Filling-plan_loop (plan_step s e d) entries (Filling-plan_step s e d h)

-- Every batch of the planned work has at least two files, at most 200, and at most 8 MiB of bytes
-- in all; each of its entries is a file of at most 256 KiB.
pub All-Bounded-plan_push_work :
    (entries : List (SnapshotEntry × Bool)) → All Bounded (plan_push_work entries)
unfolding plan_push_work
All-Bounded-plan_push_work entries =
    (Filling-flush (plan_loop no_plan entries) (
      Filling-plan_loop no_plan entries (record {
        work = tt;
        small = tt;
        bytes = refl;
        max_files = omega arith;
        max_bytes = omega arith;
      }))).work
