-- ===== src/Prelude/Lists.antt =====
-- Lists measured and sliced by native numbers, under the library's names.
use Prim.Native.Nat.{ℕ, zero, suc, ◌+◌, ◌-◌, ◌≤◌, ◌<◌, min}
use mathlib.Core.Path.{◌≡◌, refl, ap, sym, subst}
use mathlib.Core.Logic.{◌⊎◌, inl, inr}
use mathlib.Core.List.{List, [], ◌∷◌, ◌++◌, Memᴰ}
use mathlib.Core.Option.{Option, none, some}
use native.Mathlib.Omega.{arith}

module _ {ℓ} {A : Type ℓ} where
  abbrev pub length : List A → ℕ
  length [] = 0
  length (x ∷ xs) = suc (length xs)

  abbrev pub get_elem? : List A → ℕ → Option A
  get_elem? [] i = none
  get_elem? (x ∷ xs) zero = some x
  get_elem? (x ∷ xs) (suc i) = get_elem? xs i

  abbrev pub take : ℕ → List A → List A
  take zero xs = []
  take (suc n) [] = []
  take (suc n) (x ∷ xs) = x ∷ take n xs

  abbrev pub drop : ℕ → List A → List A
  drop zero xs = xs
  drop (suc n) [] = []
  drop (suc n) (x ∷ xs) = drop n xs

  pub length-append : (xs ys : List A) → length (xs ++ ys) ≡ length xs + length ys
  length-append [] ys = omega arith
  length-append (x ∷ xs) ys = omega (arith, length-append xs ys)

  pub length-take : (n : ℕ) (xs : List A) → length (take n xs) ≡ min n (length xs)
  length-take zero xs = omega arith
  length-take (suc n) [] = omega arith
  length-take (suc n) (x ∷ xs) = omega (arith, length-take n xs)

  pub length-drop : (n : ℕ) (xs : List A) → length (drop n xs) ≡ length xs - n
  length-drop zero xs = omega arith
  length-drop (suc n) [] = omega arith
  length-drop (suc n) (x ∷ xs) = omega (arith, length-drop n xs)

  pub take-append-drop : (n : ℕ) (xs : List A) → take n xs ++ drop n xs ≡ xs
  take-append-drop zero xs = refl
  take-append-drop (suc n) [] = refl
  take-append-drop (suc n) (x ∷ xs) = rw (take-append-drop n xs)

  -- The first `n` items of a longer list.
  pub take-append : (n : ℕ) (xs ys : List A) → length xs ≡ n → take n (xs ++ ys) ≡ xs
  take-append zero [] ys h = refl
  take-append zero (x ∷ xs) ys h = absurd (omega arith)
  take-append (suc n) [] ys h = absurd (omega arith)
  take-append (suc n) (x ∷ xs) ys h = ap (λ t. x ∷ t) (take-append n xs ys (omega arith))

  pub drop-append : (n : ℕ) (xs ys : List A) → length xs ≡ n → drop n (xs ++ ys) ≡ ys
  drop-append zero [] ys h = refl
  drop-append zero (x ∷ xs) ys h = absurd (omega arith)
  drop-append (suc n) [] ys h = absurd (omega arith)
  drop-append (suc n) (x ∷ xs) ys h = drop-append n xs ys (omega arith)

  pub take_all : (n : ℕ) (xs : List A) → length xs ≤ n → take n xs ≡ xs
  take_all zero [] h = refl
  take_all zero (x ∷ xs) h = absurd (omega arith)
  take_all (suc n) [] h = refl
  take_all (suc n) (x ∷ xs) h = ap (λ t. x ∷ t) (take_all n xs (omega arith))

  pub drop_all : (n : ℕ) (xs : List A) → length xs ≤ n → drop n xs ≡ []
  drop_all zero [] h = refl
  drop_all zero (x ∷ xs) h = absurd (omega arith)
  drop_all (suc n) [] h = refl
  drop_all (suc n) (x ∷ xs) h = drop_all n xs (omega arith)

  -- Two cuts in a row are one cut.
  pub drop-drop : (m n : ℕ) (xs : List A) → drop n (drop m xs) ≡ drop (m + n) xs
  drop-drop zero n xs = let e : 0 + n ≡ n = omega arith in rw e
  drop-drop (suc m) zero [] = let e : suc m + 0 ≡ suc m = omega arith in rw e
  drop-drop (suc m) (suc n) [] = let e : suc m + suc n ≡ suc (m + suc n) = omega arith in rw e
  drop-drop (suc m) n (x ∷ xs) =
      let e : suc m + n ≡ suc (m + n) = omega arith in rw e (drop-drop m n xs)

  pub take-take-drop : (m n : ℕ) (xs : List A) → take m xs ++ take n (drop m xs) ≡ take (m + n) xs
  take-take-drop zero n xs = let e : 0 + n ≡ n = omega arith in rw e
  take-take-drop (suc m) zero [] = let e : suc m + 0 ≡ suc m = omega arith in rw e
  take-take-drop (suc m) (suc n) [] = let e : suc m + suc n ≡ suc (m + suc n) = omega arith in rw e
  take-take-drop (suc m) n (x ∷ xs) =
      let e : suc m + n ≡ suc (m + n) = omega arith in
      rw e (ap (λ t. x ∷ t) (take-take-drop m n xs))

module _ {ℓ} {A : Type ℓ} where
  -- `xs[start..start + n]`
  abbrev pub slice : List A → ℕ → ℕ → List A
  slice xs start n = take n (drop start xs)

  -- `xs[i]` where a test has shown that `i` is in range; the default is never read.
  abbrev pub get_or : List A → ℕ → A → A
  get_or [] i d = d
  get_or (x ∷ xs) zero d = x
  get_or (x ∷ xs) (suc i) d = get_or xs i d

  pub length-slice :
      (xs : List A) (start n : ℕ) → start + n ≤ length xs → length (slice xs start n) ≡ n
  length-slice xs start n h = omega (arith, length-take n (drop start xs), length-drop start xs)

  -- A slice that runs one further is the old slice with its last item.
  pub slice-suc :
      (xs : List A) (start n : ℕ) (d : A)
      → start + n < length xs
      → slice xs start (suc n) ≡ slice xs start n ++ get_or xs (start + n) d ∷ []
  slice-suc [] start n d h = absurd (omega arith)
  slice-suc (x ∷ xs) zero zero d h = refl
  slice-suc (x ∷ xs) zero (suc n) d h =
      let e : 0 + suc n ≡ suc (0 + n) = omega arith in
      rw e (ap (λ t. x ∷ t) (slice-suc xs 0 n d (omega arith)))
  slice-suc (x ∷ xs) (suc start) n d h =
      let e : suc start + n ≡ suc (start + n) = omega arith in
      rw e (slice-suc xs start n d (omega arith))

  -- The first item of a slice.
  pub slice-head :
      (xs : List A) (start n : ℕ) (d : A)
      → start < length xs
      → slice xs start (suc n) ≡ get_or xs start d ∷ slice xs (suc start) n
  slice-head [] start n d h = absurd (omega arith)
  slice-head (x ∷ xs) zero n d h = refl
  slice-head (x ∷ xs) (suc start) n d h = slice-head xs start n d (omega arith)

-- Predicates on every member, by recursion, and members by the library's family.
abbrev pub All {ℓ κ} : {A : Type ℓ} → (A → Type κ) → List A → Type κ
All P [] = Unit
All P (x ∷ xs) = P x × All P xs

pub All-member {ℓ κ} :
    {A : Type ℓ} (P : A → Type κ) (xs : List A) (a : A) → All P xs → Memᴰ a xs → P a
All-member P [] a h m = elim m [ ]
All-member P (x ∷ xs) a h (Memᴰ.head e) = subst P (sym e) h.0
All-member P (x ∷ xs) a h (Memᴰ.tail m) = All-member P xs a h.1 m

pub All-of_member {ℓ κ} :
    {A : Type ℓ} (P : A → Type κ) (xs : List A) → ((a : A) → Memᴰ a xs → P a) → All P xs
All-of_member P [] h = tt
All-of_member P (x ∷ xs) h = (h x (Memᴰ.head refl), All-of_member P xs (λ a m. h a (Memᴰ.tail m)))

-- What `f` makes of each item, in order.
abbrev pub collect {ℓ κ} : {A : Type ℓ} {B : Type κ} → (A → List B) → List A → List B
collect f [] = []
collect f (x ∷ xs) = f x ++ collect f xs

module _ {ℓ} {A : Type ℓ} where
  pub Member-append_left : (a : A) (xs ys : List A) → Memᴰ a xs → Memᴰ a (xs ++ ys)
  Member-append_left a [] ys m = elim m [ ]
  Member-append_left a (x ∷ xs) ys (Memᴰ.head e) = Memᴰ.head e
  Member-append_left a (x ∷ xs) ys (Memᴰ.tail m) = Memᴰ.tail (Member-append_left a xs ys m)

  pub Member-append_right : (a : A) (xs ys : List A) → Memᴰ a ys → Memᴰ a (xs ++ ys)
  Member-append_right a [] ys m = m
  Member-append_right a (x ∷ xs) ys m = Memᴰ.tail (Member-append_right a xs ys m)

  pub Member-append_cases : (a : A) (xs ys : List A) → Memᴰ a (xs ++ ys) → Memᴰ a xs ⊎ Memᴰ a ys
  Member-append_cases a [] ys m = inr m
  Member-append_cases a (x ∷ xs) ys (Memᴰ.head e) = inl (Memᴰ.head e)
  Member-append_cases a (x ∷ xs) ys (Memᴰ.tail m) = elim (Member-append_cases a xs ys m) [
    | inl l ↦ inl (Memᴰ.tail l)
    | inr r ↦ inr r
  ]

module _ {ℓ κ} {A : Type ℓ} {B : Type κ} where
  pub Member-collect :
      (f : A → List B) (xs : List A) (a : A) (b : B)
      → Memᴰ a xs
      → Memᴰ b (f a)
      → Memᴰ b (collect f xs)
  Member-collect f [] a b h m = elim h [ ]
  Member-collect f (x ∷ xs) a b (Memᴰ.head e) m =
      Member-append_left b (f x) (collect f xs) (subst (λ y. Memᴰ b (f y)) e m)
  Member-collect f (x ∷ xs) a b (Memᴰ.tail r) m =
      Member-append_right b (f x) (collect f xs) (Member-collect f xs a b r m)

  pub Member-collect_inv :
      (f : A → List B) (xs : List A) (b : B)
      → Memᴰ b (collect f xs)
      → (a : A) × Memᴰ a xs × Memᴰ b (f a)
  Member-collect_inv f [] b m = elim m [ ]
  Member-collect_inv f (x ∷ xs) b m = elim (Member-append_cases b (f x) (collect f xs) m) [
    | inl l ↦ (x, Memᴰ.head refl, l)
    | inr r ↦ let (a, am, bm) = Member-collect_inv f xs b r in (a, Memᴰ.tail am, bm)
  ]

  pub collect-nil :
      (f : A → List B) (xs : List A) → ((a : A) → Memᴰ a xs → f a ≡ []) → collect f xs ≡ []
  collect-nil f [] h = refl
  collect-nil f (x ∷ xs) h = rw (h x (Memᴰ.head refl)) (collect-nil f xs (λ a m. h a (Memᴰ.tail m)))
