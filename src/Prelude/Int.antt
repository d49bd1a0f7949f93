-- ===== src/Prelude/Int.antt =====
-- Signed integers over the native numbers: `negsuc n` is -(n + 1).
use Prim.Native.Nat.{ℕ, suc, ◌+◌, ◌-◌}
use mathlib.Core.Path.{◌≡◌}
use mathlib.Core.Logic.{◌↔◌}
use mathlib.Core.Bool.{Bool, true}
use native.Mathlib.Omega.{arith}
use auto_sync.Prelude.Tests.{◌==◌}

pub data ℤ : Type 0 where
  pos : ℕ → ℤ
  negsuc : ℕ → ℤ

abbrev pub pos_part : ℤ → ℕ
pos_part (pos n) = n
pos_part (negsuc n) = 0

abbrev pub neg_part : ℤ → ℕ
neg_part (pos n) = 0
neg_part (negsuc n) = suc n

-- |a - b|
unfoldable pub abs_diff : ℤ → ℤ → ℕ
abs_diff a b =
    let l = pos_part a + neg_part b in let r = pos_part b + neg_part a in (l - r) + (r - l)

unfoldable pub int_eq : ℤ → ℤ → Bool
unfolding abs_diff
int_eq a b = abs_diff a b == 0

pub abs_diff_self : (a : ℤ) → abs_diff a a ≡ 0
unfolding abs_diff
abs_diff_self a = omega arith

pub abs_diff_comm : (a b : ℤ) → abs_diff a b ≡ abs_diff b a
unfolding abs_diff
abs_diff_comm a b = omega arith

pub int_eq_refl : (a : ℤ) → int_eq a a ≡ true
unfolding int_eq
int_eq_refl a = ground arith

pub int_eq_iff : (a b : ℤ) → (int_eq a b ≡ true) ↔ (a ≡ b)
unfolding int_eq
int_eq_iff a b = (λ h. ground arith, λ h. ground arith)
