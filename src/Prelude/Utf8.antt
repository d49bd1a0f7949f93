-- ===== src/Prelude/Utf8.antt =====
-- The standard library's reading of UTF-8: `str::from_utf8` and `String::from_utf8_lossy`.
use Prim.Native.Nat.{ℕ, zero, suc}
use mathlib.Core.Path.{◌≡◌, sym, refl, ap, ◌∙◌}
use mathlib.Core.Logic.{inl, inr}
use mathlib.Core.Bool.{Bool, true, false, ◌&&◌}
use mathlib.Core.Option.{Option, none, some}
use mathlib.Core.List.{[], ◌∷◌, ◌++◌, append_assoc}
use auto_sync.Prelude.Tests.{ltb, leb, ◌==◌, if◌then◌else◌, if_true, if_false, Bool-cases}
use auto_sync.Prelude.Texts.{Text}

-- The first byte of a character: how many bytes are to come, and the bounds of the next.
abbrev pub lead : ℕ → Option (ℕ × ℕ × ℕ)
lead b =
    if ltb b 128
    then some (0, 128, 191)
    else if leb 194 b && leb b 223
    then some (1, 128, 191)
    else if b == 224
    then some (2, 160, 191)
    else if b == 237
    then some (2, 128, 159)
    else if leb 225 b && leb b 239
    then some (2, 128, 191)
    else if b == 240
    then some (3, 144, 191)
    else if leb 241 b && leb b 243
    then some (3, 128, 191)
    else if b == 244
    then some (3, 128, 143)
    else none

abbrev pub utf8_lead : (ℕ → ℕ → ℕ → Bool) → Option (ℕ × ℕ × ℕ) → Bool
utf8_lead rec none = false
utf8_lead rec (some (n, low, high)) = rec n low high

-- `str::from_utf8`, in a character of which some bytes are to come.
unfoldable pub utf8_rest : ℕ → ℕ → ℕ → Text → Bool
utf8_rest zero low high [] = true
utf8_rest (suc n) low high [] = false
utf8_rest (suc n) low high (b ∷ text) =
    let rest = utf8_rest n 128 191 text in if leb low b && leb b high then rest else false
utf8_rest zero low high (b ∷ text) =
    utf8_lead (λ n low2 high2. utf8_rest n low2 high2 text) (lead b)

abbrev pub is_utf8 : Text → Bool
is_utf8 = utf8_rest 0 128 191

-- U+FFFD.
abbrev pub replacement : Text
replacement = 239 ∷ 191 ∷ 189 ∷ []

abbrev pub started : (ℕ → ℕ → ℕ → Text → Text) → ℕ → Option (ℕ × ℕ × ℕ) → Text
started rec b none = replacement ++ rec 0 128 191 []
started rec b (some (zero, low, high)) = b ∷ rec 0 low high []
started rec b (some (suc n, low, high)) = rec (suc n) low high (b ∷ [])

-- The bytes `held` begin a character; where it breaks off, one U+FFFD takes their place, and the
-- byte that broke it is read again as a first one.
unfoldable pub lossy : ℕ → ℕ → ℕ → Text → Text → Text
lossy zero low high held [] = []
lossy (suc n) low high held [] = replacement
lossy zero low high held (b ∷ text) =
    started (λ n low2 high2 held2. lossy n low2 high2 held2 text) b (lead b)
lossy (suc zero) low high held (b ∷ text) =
    let rest = lossy 0 128 191 [] text in
    let again = started (λ n low2 high2 held2. lossy n low2 high2 held2 text) b (lead b) in
    if leb low b && leb b high then held ++ b ∷ rest else replacement ++ again
lossy (suc (suc n)) low high held (b ∷ text) =
    let rest = lossy (suc n) 128 191 (held ++ b ∷ []) text in
    let again = started (λ n low2 high2 held2. lossy n low2 high2 held2 text) b (lead b) in
    if leb low b && leb b high then rest else replacement ++ again

unfoldable pub from_utf8_lossy : Text → Text
unfolding lossy
from_utf8_lossy bytes = lossy 0 128 191 [] bytes

abbrev held_before : ℕ → Text → Text → Text
held_before zero held text = text
held_before (suc n) held text = held ++ text

lossy-utf8 :
    (text : Text) (n low high : ℕ) (held : Text)
    → utf8_rest n low high text ≡ true
    → lossy n low high held text ≡ held_before n held text
unfolding lossy utf8_rest
lossy-utf8 [] zero low high held h = refl
lossy-utf8 [] (suc n) low high held h = cc
lossy-utf8 (b ∷ text) zero low high held h =
    by_lead (λ n low2 high2 held2 k. lossy-utf8 text n low2 high2 held2 k) (lead b) h
  where
    by_lead :
        ((n low2 high2 : ℕ) (held2 : Text)
          → utf8_rest n low2 high2 text ≡ true
          → lossy n low2 high2 held2 text ≡ held_before n held2 text)
        → (o : Option (ℕ × ℕ × ℕ))
        → utf8_lead (λ n low2 high2. utf8_rest n low2 high2 text) o ≡ true
        → started (λ n low2 high2 held2. lossy n low2 high2 held2 text) b o ≡ b ∷ text
    by_lead rec none k = cc k
    by_lead rec (some (zero, low2, high2)) k = ap (λ t. b ∷ t) (rec zero low2 high2 [] k)
    by_lead rec (some (suc n, low2, high2)) k = rec (suc n) low2 high2 (b ∷ []) k
lossy-utf8 (b ∷ text) (suc zero) low high held h = elim (Bool-cases (leb low b && leb b high)) [
  | inl t ↦
      if_true (leb low b && leb b high) _ _ t
      ∙ ap (λ l. held ++ b ∷ l)
          (lossy-utf8 text zero 128 191 [] (sym (if_true (leb low b && leb b high) _ false t) ∙ h))
  | inr f ↦ absurd (cc (sym (if_false (leb low b && leb b high) _ false f) ∙ h))
]
lossy-utf8 (b ∷ text) (suc (suc n)) low high held h = elim (Bool-cases (leb low b && leb b high)) [
  | inl t ↦
      if_true (leb low b && leb b high) _ _ t
      ∙ (lossy-utf8 text (suc n) 128 191 (held ++ b ∷ [])
            (sym (if_true (leb low b && leb b high) _ false t) ∙ h)
          ∙ append_assoc held (b ∷ []) text)
  | inr f ↦ absurd (cc (sym (if_false (leb low b && leb b high) _ false f) ∙ h))
]

-- A text in UTF-8 is read as it is.
pub from_utf8_lossy-is_utf8 : (text : Text) → is_utf8 text ≡ true → from_utf8_lossy text ≡ text
unfolding from_utf8_lossy
from_utf8_lossy-is_utf8 text h = lossy-utf8 text 0 128 191 [] h
