-- ===== src/Memory/Budget.antt =====
-- What the budget of `acquire_transfer_memory` (src/core/sync/mod.rs) guarantees.
use auto_sync.Prelude.{
  ℕ, ◌+◌, ◌^◌, ◌≤◌, ◌<◌, ◌≡◌, refl, ap, false, Bool-cases, inl, inr, ◌⊎◌, List, [], ◌∷◌, ◌++◌, ltb,
  arith,
}
use auto_sync.Memory.Permits.{
  Memory, Reached, start, acquire, drop, must_wait, reserve, release, transfer_memory_budget,
}

abbrev pub total : List ℕ → ℕ
total [] = 0
total (x ∷ xs) = x + total xs

total-append : (xs ys : List ℕ) → total (xs ++ ys) ≡ total xs + total ys
total-append [] ys = omega arith
total-append (x ∷ xs) ys = omega (arith, total-append xs ys)

-- All permits but one are empty.
abbrev pub Alone : List ℕ → Type 0
Alone [] = Unit
Alone (x ∷ xs) = (total xs ≡ 0) ⊎ ((x ≡ 0) × Alone xs)

-- The counter is the sum of the living permits, and they fit in the budget or are one alone.
pub record Kept (m : Memory) : Type 0 where
  pub counted : m.used ≡ total m.permits
  pub fits : (total m.permits ≤ transfer_memory_budget) ⊎ Alone m.permits
  pub bounded : total m.permits < 2 ^ 64

Alone-zero : (xs : List ℕ) → total xs ≡ 0 → Alone xs
Alone-zero [] h = tt
Alone-zero (x ∷ xs) h = inl (omega arith)

Alone-drop :
    (before after : List ℕ) (bytes : ℕ) → Alone (before ++ bytes ∷ after) → Alone (before ++ after)
Alone-drop [] after bytes (inl h) = Alone-zero after h
Alone-drop [] after bytes (inr h) = h.1
Alone-drop (x ∷ before) after bytes (inl h) =
    inl (omega (arith, total-append before (bytes ∷ after), total-append before after))
Alone-drop (x ∷ before) after bytes (inr h) = inr (h.0, Alone-drop before after bytes h.1)

-- A thread that goes on found no bytes in use, or it stays within the budget.
goes_on :
    (used bytes : ℕ)
    → must_wait used bytes ≡ false
    → (used ≡ 0) ⊎ (used + bytes ≤ transfer_memory_budget)
unfolding must_wait
goes_on used bytes go = elim (Bool-cases (ltb 0 used)) [
  | inl busy ↦ inr (ground arith)
  | inr idle ↦ inl (ground arith)
]

Kept-acquire :
    (m : Memory) (bytes : ℕ)
    → Kept m
    → bytes < 2 ^ 64
    → must_wait m.used bytes ≡ false
    → Kept (record { used = reserve m.used bytes; permits = bytes ∷ m.permits })
unfolding reserve
Kept-acquire m bytes k h go = elim (goes_on m.used bytes go) [
  | inl idle ↦ record {
    counted = omega (arith, k.counted);
    fits = inr (inl (omega (arith, k.counted)));
    bounded = omega (arith, k.counted);
  }
  | inr within ↦ record {
    counted = omega (arith, k.counted);
    fits = inl (omega (arith, k.counted));
    bounded = omega (arith, k.counted);
  }
]

Kept-drop :
    (used bytes : ℕ) (before after : List ℕ)
    → Kept (record { used = used; permits = before ++ bytes ∷ after })
    → Kept (record { used = release used bytes; permits = before ++ after })
unfolding release
Kept-drop used bytes before after k = record {
  counted = omega (arith, k.counted, less, rest_of);
  fits = elim k.fits [
    | inl f ↦ inl (omega (arith, less, rest_of))
    | inr a ↦ inr (Alone-drop before after bytes a)
  ];
  bounded = omega (arith, k.bounded, less, rest_of);
}
  where
    less : total (before ++ bytes ∷ after) ≡ total before + (bytes + total after)
    less = total-append before (bytes ∷ after)

    rest_of : total (before ++ after) ≡ total before + total after
    rest_of = total-append before after

-- At every moment the counter is the sum of the living permits, and the permits fit in the budget
-- together, or all but one are empty.
pub Kept-Reached : (m : Memory) → Reached m → Kept m
Kept-Reached m start = record { counted = refl; fits = inr tt; bounded = omega arith }
Kept-Reached m (acquire n bytes r h go) = Kept-acquire n bytes (Kept-Reached n r) h go
Kept-Reached m (drop used bytes before after r) =
    Kept-drop used bytes before after
      (Kept-Reached (record { used = used; permits = before ++ bytes ∷ after }) r)

-- A thread has to wait only while bytes are in use: once every permit is dropped, a request of any
-- size goes on.
pub must_wait-Reached :
    (m : Memory) (bytes : ℕ) → Reached m → m.permits ≡ [] → must_wait m.used bytes ≡ false
unfolding must_wait
must_wait-Reached m bytes r h = ground (arith, (Kept-Reached m r).counted, ap total h)
