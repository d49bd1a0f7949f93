-- ===== src/Push/Delivery.antt =====
-- What the work that `plan_push_work` (src/core/sync/mod.rs) plans delivers.
use auto_sync.Prelude.{
  ◌≡◌, refl, ap, sym, ◌∙◌, subst, Bool, true, false, Bool-cases, inl, inr, not, List, [], ◌∷◌, ◌++◌,
  if◌then◌else◌, if_true, if_false, arith, collect, append-nil, append_assoc,
}
use mathlib.Core.List.{Perm, perm_append_comm}
use mathlib.Core.List.Perm
use auto_sync.Manifest.Entry.{SnapshotEntry}
use auto_sync.Push.Plan.{
  PushWork, single, small_batch, Planning, is_small, batch_work, flush, is_full, add_small,
  plan_step, plan_loop, plan_push_work, no_plan, size_of,
}

abbrev pub whole : List SnapshotEntry → List (SnapshotEntry × Bool)
whole [] = []
whole (entry ∷ entries) = (entry, false) ∷ whole entries

-- The entries that an item of work delivers, each with its choice of a delta.
abbrev pub delivers : PushWork → List (SnapshotEntry × Bool)
delivers (single entry use_delta) = (entry, use_delta) ∷ []
delivers (small_batch batch) = whole batch

whole-append : (xs ys : List SnapshotEntry) → whole (xs ++ ys) ≡ whole xs ++ whole ys
whole-append [] ys = refl
whole-append (x ∷ xs) ys = ap (λ t. (x, false) ∷ t) (whole-append xs ys)

collect-append :
    (xs ys : List PushWork)
    → collect delivers (xs ++ ys) ≡ collect delivers xs ++ collect delivers ys
collect-append [] ys = refl
collect-append (x ∷ xs) ys =
    ap (λ t. delivers x ++ t) (collect-append xs ys)
    ∙ sym (append_assoc (delivers x) (collect delivers xs) (collect delivers ys))

delivers-batch_work :
    (batch : List SnapshotEntry) → collect delivers (batch_work batch) ≡ whole batch
unfolding batch_work
delivers-batch_work [] = refl
delivers-batch_work (entry ∷ []) = refl
delivers-batch_work (entry ∷ next ∷ batch) = append-nil (whole (entry ∷ next ∷ batch))

-- What has been planned so far, the open batch included.
abbrev planned : Planning → List (SnapshotEntry × Bool)
planned s = collect delivers s.work ++ whole s.batch

planned-flush : (s : Planning) → planned (flush s) ≡ planned s
unfolding flush
planned-flush s =
    append-nil (collect delivers (s.work ++ batch_work s.batch))
    ∙ (collect-append s.work (batch_work s.batch)
        ∙ ap (λ t. collect delivers s.work ++ t) (delivers-batch_work s.batch))

planned-add_small :
    (s : Planning) (e : SnapshotEntry) → planned (add_small s e) ≡ planned s ++ (e, false) ∷ []
unfolding add_small
planned-add_small s e =
    ap (λ t. collect delivers s.work ++ t) (whole-append s.batch (e ∷ []))
    ∙ sym (append_assoc (collect delivers s.work) (whole s.batch) ((e, false) ∷ []))

planned-single :
    (s : Planning) (x : SnapshotEntry × Bool)
    → Perm ((collect delivers s.work ++ x ∷ []) ++ whole s.batch) (planned s ++ x ∷ [])
planned-single s x =
    subst (λ l. Perm l (planned s ++ x ∷ []))
      (sym (append_assoc (collect delivers s.work) (x ∷ []) (whole s.batch)))
      (subst (λ l. Perm (collect delivers s.work ++ x ∷ whole s.batch) l)
        (sym (append_assoc (collect delivers s.work) (whole s.batch) (x ∷ [])))
        (Perm.append_left (collect delivers s.work) (perm_append_comm (x ∷ []) (whole s.batch))))

not_small : (e : SnapshotEntry) (d : Bool) → is_small e d ≡ true → d ≡ false
not_small e d h = ground arith

planned-plan_step :
    (s : Planning) (e : SnapshotEntry) (d : Bool)
    → Perm (planned (plan_step s e d)) (planned s ++ (e, d) ∷ [])
unfolding plan_step
planned-plan_step s e d = elim (Bool-cases (is_small e d)) [
  | inl small ↦
      subst (λ p. Perm (planned p) (planned s ++ (e, d) ∷ []))
        (sym (if_false (not (is_small e d)) _ _ (ap not small)))
        (subst (λ l. Perm l (planned s ++ (e, d) ∷ []))
          (sym (planned-add_small (if is_full s (size_of e) then flush s else s) e ∙ grown small))
          (Perm.refl (planned s ++ (e, d) ∷ [])))
  | inr big ↦
      subst (λ p. Perm (planned p) (planned s ++ (e, d) ∷ []))
        (sym (if_true (not (is_small e d)) _ _ (ap not big)))
        (subst (λ l. Perm (l ++ whole s.batch) (planned s ++ (e, d) ∷ []))
          (sym (collect-append s.work (single e d ∷ []))) (planned-single s (e, d)))
]
  where
    grown :
        is_small e d ≡ true
        → planned (if is_full s (size_of e) then flush s else s) ++ (e, false) ∷ []
          ≡ planned s ++ (e, d) ∷ []
    grown small =
        ap (λ t. t ++ (e, false) ∷ []) (same (is_full s (size_of e)))
        ∙ ap (λ b. planned s ++ (e, b) ∷ []) (sym (not_small e d small))
      where
        same : (b : Bool) → planned (if b then flush s else s) ≡ planned s
        same true = planned-flush s
        same false = refl

planned-plan_loop :
    (s : Planning) (entries : List (SnapshotEntry × Bool))
    → Perm (planned (plan_loop s entries)) (planned s ++ entries)
unfolding plan_loop
planned-plan_loop s [] =
    subst (λ l. Perm (planned s) l) (sym (append-nil (planned s))) (Perm.refl (planned s))
planned-plan_loop s ((e, d) ∷ entries) = Perm.trans (planned-plan_loop (plan_step s e d) entries) (
    subst (λ l. Perm (planned (plan_step s e d) ++ entries) l)
      (append_assoc (planned s) ((e, d) ∷ []) entries)
      (Perm.append_right entries (planned-plan_step s e d)))

-- The planned work delivers every entry exactly once, with its choice of a delta kept.
pub Perm-plan_push_work :
    (entries : List (SnapshotEntry × Bool))
    → Perm (collect delivers (plan_push_work entries)) entries
unfolding plan_push_work
Perm-plan_push_work entries =
    subst (λ l. Perm l entries)
      (sym (planned-flush (plan_loop no_plan entries))
        ∙ append-nil (collect delivers (plan_push_work entries)))
      (planned-plan_loop no_plan entries)
