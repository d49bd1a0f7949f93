-- ===== src/Delta/Rolling.antt =====
-- `Rolling` of src/core/sync/delta.rs: the weak checksum of a window and its sliding update.
use auto_sync.Prelude.{
  ℕ, suc, ◌+◌, ◌-◌, ◌*◌, ◌%◌, ◌^◌, ◌<◌, ◌≡◌, List, [], ◌∷◌, ◌++◌, bit_and, bit_or, arith, length,
  length-append,
}

-- u32 arithmetic that wraps.
abbrev pub u32 : ℕ → ℕ
u32 n = n % 2 ^ 32

pub record Rolling : Type 0 where
  pub a : ℕ
  pub b : ℕ
  pub len : ℕ

-- The loop of `Rolling::new`: `i` is the index of the next byte, `len` the window's length as u32.
abbrev new_loop : ℕ → ℕ → ℕ → ℕ → List ℕ → Rolling
new_loop len i a b [] = record { a = a; b = b; len = len }
new_loop len i a b (byte ∷ window) =
    new_loop len (i + 1) (u32 (a + byte)) (u32 (b + u32 (u32 (len + 2 ^ 32 - u32 i) * byte))) window

unfoldable pub new : List ℕ → Rolling
new window = new_loop (u32 (length window)) 0 0 0 window

unfoldable pub digest : Rolling → ℕ
digest r = bit_or (bit_and r.a 0xffff) (u32 (r.b * 2 ^ 16))

unfoldable pub roll : Rolling → ℕ → ℕ → Rolling
roll r out inb =
    let a = u32 (u32 (r.a + 2 ^ 32 - out) + inb) in
    record r { a = a; b = u32 (u32 (r.b + 2 ^ 32 - u32 (r.len * out)) + a) }

-- The sum of a window, and the sum that weighs each byte by its distance from the end.
abbrev sum : List ℕ → ℕ
sum [] = 0
sum (x ∷ xs) = x + sum xs

abbrev weighted : List ℕ → ℕ
weighted [] = 0
weighted (x ∷ xs) = suc (length xs) * x + weighted xs

sum-append : (xs ys : List ℕ) → sum (xs ++ ys) ≡ sum xs + sum ys
sum-append [] ys = omega arith
sum-append (x ∷ xs) ys = omega (arith, sum-append xs ys)

length-snoc : (xs : List ℕ) (y : ℕ) → length (xs ++ y ∷ []) ≡ suc (length xs)
length-snoc xs y = omega (arith, length-append {0} xs (y ∷ []))

weighted-snoc : (xs : List ℕ) (y : ℕ) → weighted (xs ++ y ∷ []) ≡ weighted xs + sum xs + y
weighted-snoc [] y = omega arith
weighted-snoc (x ∷ xs) y = rw length-snoc (omega (arith, weighted-snoc xs y))

-- The weight of a byte, `len - i` in u32 arithmetic.
weight : (len i n : ℕ) → i + suc n ≡ len → len < 2 ^ 32 → u32 (len + 2 ^ 32 - u32 i) ≡ suc n
weight len i n e h = omega arith

u32_regroup : (b p w : ℕ) → u32 (u32 (b + u32 p) + w) ≡ u32 (b + (p + w))
u32_regroup b p w = omega arith

u32_regroup_one : (a x s : ℕ) → u32 (u32 (a + x) + s) ≡ u32 (a + (x + s))
u32_regroup_one a x s = omega arith

zero_plus : (n : ℕ) → u32 (0 + n) ≡ u32 n
zero_plus n = omega arith

u32_small : (a : ℕ) → a < 2 ^ 32 → a ≡ u32 (a + 0)
u32_small a h = omega arith

new_loop-sums :
    (len i a b : ℕ) (xs : List ℕ)
    → i + length xs ≡ len
    → len < 2 ^ 32
    → a < 2 ^ 32
    → b < 2 ^ 32
    → new_loop len i a b xs ≡ record { a = u32 (a + sum xs); b = u32 (b + weighted xs); len = len }
new_loop-sums len i a b [] e h ha hb = cc (u32_small a ha, u32_small b hb)
new_loop-sums len i a b (x ∷ xs) e h ha hb = rw (weight len i (length xs) e h) (
    cc (
      new_loop-sums len (i + 1) (u32 (a + x)) (u32 (b + u32 (suc (length xs) * x))) xs (omega arith)
          h (omega arith) (omega arith),
      u32_regroup_one a x (sum xs),
      u32_regroup b (suc (length xs) * x) (weighted xs),
    ))

pub new-sums :
    (xs : List ℕ)
    → length xs < 2 ^ 32
    → new xs ≡ record { a = u32 (sum xs); b = u32 (weighted xs); len = length xs }
unfolding new
new-sums xs h =
    let small : u32 (length xs) ≡ length xs = omega arith in
    rw small (
      cc (
        new_loop-sums (length xs) 0 0 0 xs (omega arith) h (omega arith) (omega arith),
        zero_plus (sum xs),
        zero_plus (weighted xs),
      ))

slide_a : (x s y : ℕ) → x < 2 ^ 32 → u32 (u32 (u32 (x + s) + 2 ^ 32 - x) + y) ≡ u32 (s + (y + 0))
slide_a x s y h = omega arith

slide_b :
    (x p w s y : ℕ)
    → x < 2 ^ 32
    → u32 (u32 (u32 (p + w) + 2 ^ 32 - u32 p) + u32 (u32 (u32 (x + s) + 2 ^ 32 - x) + y))
      ≡ u32 (w + s + y)
slide_b x p w s y h = omega arith

-- Sliding the window one byte on is the checksum of the new window computed afresh: for a byte `x`
-- that leaves, the bytes that stay and a byte `y` that enters, in a window shorter than 2 ^ 32.
pub roll-new :
    (x : ℕ) (xs : List ℕ) (y : ℕ)
    → x < 256
    → length (x ∷ xs) < 2 ^ 32
    → roll (new (x ∷ xs)) x y ≡ new (xs ++ y ∷ [])
unfolding roll
roll-new x xs y hx h =
    let short : length (xs ++ y ∷ []) < 2 ^ 32 = rw length-snoc h in
    rw (new-sums (x ∷ xs) h, new-sums (xs ++ y ∷ []) short, length-snoc, weighted-snoc, sum-append)
      λ i. record {
        a = slide_a x (sum xs) y (omega arith) i;
        b = slide_b x (length (x ∷ xs) * x) (weighted xs) (sum xs) y (omega arith) i;
        len = length (x ∷ xs);
      }
