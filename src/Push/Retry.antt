-- ===== src/Push/Retry.antt =====
-- `with_transfer_retry` and `resolve_parallelism` of src/core/sync/mod.rs.
use auto_sync.Prelude.{
  ℕ, zero, suc, ◌+◌, ◌≤◌, ◌<◌, ◌≡◌, refl, ap, sym, ◌∙◌, subst, Bool, true, false, Bool-cases, inl,
  inr, ◌⊎◌, not, ◌&&◌, Option, none, some, if◌then◌else◌, if_true, if_false, arith, ltb, ◌==◌, min,
  max, Result, ok, err, ==→eq, ==→ne,
}

abbrev pub transfer_retry_attempts : ℕ
transfer_retry_attempts = 3

abbrev pub default_max_parallel_transfers : ℕ
default_max_parallel_transfers = 16

-- `requested.clamp(1, work_items.max(1))`
unfoldable pub resolve_parallelism : ℕ → ℕ → ℕ
resolve_parallelism configured work_items =
    let requested = if configured == 0 then default_max_parallel_transfers else configured in
    max 1 (min requested (max work_items 1))

-- At least one worker, and no more workers than items of work unless there is no work.
pub resolve_parallelism_bounds :
    (configured work_items : ℕ)
    → (1 ≤ resolve_parallelism configured work_items)
      × (resolve_parallelism configured work_items ≤ max work_items 1)
unfolding resolve_parallelism
resolve_parallelism_bounds configured work_items = (ground arith, ground arith)

-- The errors are the program's, with its two tests of them; `attempt_fn` gives the outcome of each
-- call by its number.
module _ {E A : Type 0} (is_source_changing is_cancelled : E → Bool)
    (attempt_fn : ℕ → Result E A) where
  unfoldable pub is_retried : ℕ → E → Bool
  is_retried attempt e =
      ltb attempt transfer_retry_attempts && not (is_source_changing e) && not (is_cancelled e)

  unfoldable pub retry_after : Option (Result E A) → ℕ → Result E A → Option (Result E A)
  unfolding is_retried
  retry_after again attempt (ok a) = some (ok a)
  retry_after again attempt (err e) = if is_retried attempt e then again else some (err e)

  -- The loop, with the number of the attempt; `none` means that the fuel ran out.
  unfoldable pub retry_loop : ℕ → ℕ → Option (Result E A)
  unfolding retry_after
  retry_loop zero attempt = none
  retry_loop (suc fuel) attempt =
      retry_after (retry_loop fuel (attempt + 1)) attempt (attempt_fn attempt)

  unfoldable pub with_transfer_retry : Option (Result E A)
  unfolding retry_loop
  with_transfer_retry = retry_loop transfer_retry_attempts 1

  -- An error that another attempt may mend.
  abbrev pub Mendable : Result E A → Type 0
  Mendable (ok a) = ⊥
  Mendable (err e) = (is_source_changing e ≡ false) × (is_cancelled e ≡ false)

  -- The loop came to its end with attempt `n`: it gives that attempt's outcome, all the attempts
  -- before it failed in a way that may mend, and it is the last allowed or its outcome final.
  pub record Ended (first : ℕ) (result : Option (Result E A)) : Type 0 where
    pub last : ℕ
    pub gives : result ≡ some (attempt_fn last)
    pub from : first ≤ last
    pub within : last ≤ transfer_retry_attempts
    pub before : (k : ℕ) → first ≤ k → k < last → Mendable (attempt_fn k)
    pub final : (last ≡ transfer_retry_attempts) ⊎ (Mendable (attempt_fn last) → ⊥)

  Ended-now :
      (attempt : ℕ) (again : Option (Result E A))
      → attempt ≤ transfer_retry_attempts
      → retry_after again attempt (attempt_fn attempt) ≡ some (attempt_fn attempt)
      → (attempt ≡ transfer_retry_attempts) ⊎ (Mendable (attempt_fn attempt) → ⊥)
      → Ended attempt (retry_after again attempt (attempt_fn attempt))
  Ended-now attempt again within gives final = record {
    last = attempt;
    gives = gives;
    from = omega arith;
    within = within;
    before = λ k low high. absurd (omega arith);
    final = final;
  }

  Ended-later :
      (attempt : ℕ) (again : Option (Result E A))
      → Mendable (attempt_fn attempt)
      → retry_after again attempt (attempt_fn attempt) ≡ again
      → Ended (attempt + 1) again
      → Ended attempt (retry_after again attempt (attempt_fn attempt))
  Ended-later attempt again mends goes e = record {
    last = e.last;
    gives = goes ∙ e.gives;
    from = omega (arith, e.from);
    within = e.within;
    before = λ k low high. elim (Bool-cases (k == attempt)) [
      | inl now ↦ subst (λ i. Mendable (attempt_fn i)) (sym (==→eq k attempt now)) mends
      | inr later ↦ e.before k (grind (arith, ==→ne k attempt later)) high
    ];
    final = e.final;
  }

  mended :
      (attempt : ℕ) (e : E)
      → is_retried attempt e ≡ false
      → ltb attempt transfer_retry_attempts ≡ true
      → Mendable (err e)
      → ⊥
  unfolding is_retried
  mended attempt e stop room m = ground (arith, m.0, m.1)

  -- Whether another attempt follows the one whose outcome is `r`.
  Ended-retry_after :
      (attempt : ℕ) (again : Option (Result E A)) (r : Result E A)
      → attempt_fn attempt ≡ r
      → attempt ≤ transfer_retry_attempts
      → (attempt < transfer_retry_attempts → Ended (attempt + 1) again)
      → Ended attempt (retry_after again attempt (attempt_fn attempt))
  unfolding retry_after is_retried
  Ended-retry_after attempt again (ok a) h within later =
      Ended-now attempt again within (ap (retry_after again attempt) h ∙ ap some (sym h))
        (inr (λ m. subst Mendable h m))
  Ended-retry_after attempt again (err e) h within later =
      elim (Bool-cases (is_retried attempt e)) [
        | inl more ↦
            Ended-later attempt again (subst Mendable (sym h) (ground arith, ground arith))
              (ap (retry_after again attempt) h ∙ if_true (is_retried attempt e) again _ more)
              (later (ground arith))
        | inr stop ↦
            Ended-now attempt again within
              (ap (retry_after again attempt) h
                ∙ (if_false (is_retried attempt e) again _ stop ∙ ap some (sym h)))
              (elim (Bool-cases (ltb attempt transfer_retry_attempts)) [
                | inl room ↦ inr (λ m. mended attempt e stop room (subst Mendable h m))
                | inr last ↦ inl (ground arith)
              ])
      ]

  Ended-retry_loop :
      (fuel attempt : ℕ)
      → attempt + fuel ≡ transfer_retry_attempts + 1
      → 1 ≤ fuel
      → Ended attempt (retry_loop fuel attempt)
  unfolding retry_loop
  Ended-retry_loop zero attempt h pos = absurd (omega arith)
  Ended-retry_loop (suc fuel) attempt h pos =
      Ended-retry_after attempt (retry_loop fuel (attempt + 1)) (attempt_fn attempt) refl
        (omega arith) (λ more. Ended-retry_loop fuel (attempt + 1) (omega arith) (omega arith))

  -- At most three attempts are made. The result is the last one's outcome; every attempt before it
  -- failed with an error that is neither a changing source nor a cancellation; and fewer than three
  -- are made only where the last one succeeded or failed with such an error.
  pub Ended-with_transfer_retry : Ended 1 with_transfer_retry
  unfolding with_transfer_retry
  Ended-with_transfer_retry = Ended-retry_loop transfer_retry_attempts 1 refl (omega arith)
