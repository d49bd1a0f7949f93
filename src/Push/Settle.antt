-- ===== src/Push/Settle.antt =====
-- What settling an item does to the shared state of `push_entries_parallel` (src/core/sync/mod.rs).
use auto_sync.Prelude.{
  ◌+◌, ◌<◌, ◌≡◌, ◌≢◌, refl, sym, ◌∙◌, Bool, true, false, Bool-cases, inl, inr, Option, none, some,
  List, [], ◌∷◌, ◌++◌, if◌then◌else◌, if_true, if_false, subst, leb, leb→gt, length, Text, ok, err,
}
use auto_sync.Push.Plan.{PushWork, single, small_batch}
use auto_sync.Push.Pool.{
  ErrorOps, Shared, Answer, keep_first, set_fatal, push_failed, push_failures, settle, insert_paths,
  max_per_file_transfer_failures,
}

-- What a change of the shared state keeps: the counter, an error in the slot, and the bound on the
-- failures; and a change that ends the worker fills the slot.
pub record Keeps {E : Type 0} (s : Shared E) (changed : Shared E × Bool) : Type 0 where
  pub next : changed.0.next ≡ s.next
  pub slot : changed.0.fatal_error ≡ none → s.fatal_error ≡ none
  pub ends : changed.1 ≡ true → changed.0.fatal_error ≢ none
  pub capped :
      length s.failed < max_per_file_transfer_failures
      → length changed.0.failed < max_per_file_transfer_failures

filled : {E : Type 0} (e : E) (slot : Option E) → keep_first e slot ≢ none
filled e none h = cc
filled e (some first) h = cc

slot_before : {E : Type 0} (e : E) (slot : Option E) → keep_first e slot ≡ none → slot ≡ none
slot_before e none h = refl
slot_before e (some first) h = h

pub Keeps-set_fatal : {E : Type 0} (s : Shared E) (e : E) → Keeps s (set_fatal s e, true)
unfolding set_fatal
Keeps-set_fatal s e = record {
  next = refl;
  slot = slot_before e s.fatal_error;
  ends = λ h. filled e s.fatal_error;
  capped = λ h. h;
}

module _ {E : Type 0} (ops : ErrorOps E) where
  Keeps-push_failed : (s : Shared E) (path : Text) (e : E) → Keeps s (push_failed ops s path e)
  unfolding push_failed set_fatal
  Keeps-push_failed s path e = elim (Bool-cases full) [
    | inl t ↦
        subst (λ c. Keeps s c) (sym (if_true full _ _ t)) (Keeps-set_fatal s (ops.give_up path e))
    | inr f ↦
        subst (λ c. Keeps s c) (sym (if_false full _ _ f))
          (record {
            next = refl;
            slot = λ h. h;
            ends = λ h. cc h;
            capped =
                λ h. leb→gt max_per_file_transfer_failures (length (s.failed ++ (path, e) ∷ [])) f;
          })
  ]
    where
      full : Bool
      full = leb max_per_file_transfer_failures (length (s.failed ++ (path, e) ∷ []))

  -- A change after a change that does not end the worker.
  Keeps-after :
      (s : Shared E) (first : Shared E × Bool) (second : Shared E × Bool)
      → Keeps s first
      → Keeps first.0 second
      → Keeps s (if first.1 then first else second)
  Keeps-after s (t, true) second h k = h
  Keeps-after s (t, false) second h k = record {
    next = k.next ∙ h.next;
    slot = λ n. h.slot (k.slot n);
    ends = k.ends;
    capped = λ n. k.capped (h.capped n);
  }

  Keeps-push_failures :
      (s : Shared E) (failures : List (Text × Text)) → Keeps s (push_failures ops s failures)
  unfolding push_failures
  Keeps-push_failures s [] = record {
    next = refl;
    slot = λ h. h;
    ends = λ h. cc h;
    capped = λ h. h;
  }
  Keeps-push_failures s ((path, error) ∷ failures) =
      Keeps-after s (push_failed ops s path (ops.message error))
        (push_failures ops (push_failed ops s path (ops.message error)).0 failures)
        (Keeps-push_failed s path (ops.message error))
        (Keeps-push_failures (push_failed ops s path (ops.message error)).0 failures)

  Keeps-if :
      (s : Shared E) (b : Bool) (x y : Shared E × Bool)
      → Keeps s x
      → Keeps s y
      → Keeps s (if b then x else y)
  Keeps-if s true x y h k = h
  Keeps-if s false x y h k = k

  pub Keeps-settle :
      (s : Shared E) (item : PushWork) (answer : Answer E item) → Keeps s (settle ops s item answer)
  unfolding settle
  Keeps-settle s (single entry d) (ok a) = record {
    next = refl;
    slot = λ h. h;
    ends = λ h. cc h;
    capped = λ h. h;
  }
  Keeps-settle s (single entry d) (err e) =
      Keeps-if s (ops.is_source_changing e) _ _
        (record { next = refl; slot = λ h. h; ends = λ h. cc h; capped = λ h. h })
        (Keeps-if s (ops.is_fatal e) _ _ (Keeps-set_fatal s e)
          (Keeps-push_failed s entry.rel_path e))
  Keeps-settle s (small_batch batch) (ok outcome) =
      let k =
        Keeps-push_failures
          (record s {
            done = s.done + outcome.sent;
            changing = insert_paths outcome.changing s.changing;
          })
          outcome.failed in
      record { next = k.next; slot = k.slot; ends = k.ends; capped = k.capped }
  Keeps-settle s (small_batch batch) (err e) =
      Keeps-if s (ops.is_fatal e) _ _ (Keeps-set_fatal s e)
        (Keeps-push_failed s (ops.label batch) e)
