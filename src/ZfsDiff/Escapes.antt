-- ===== src/ZfsDiff/Escapes.antt =====
-- The escapes of `zfs diff` are read back (`unescape_zfs_path` of src/core/sync/mod.rs).
use auto_sync.Prelude.{
  ℕ, ◌+◌, ◌/◌, ◌%◌, ◌^◌, ◌<◌, ◌≡◌, refl, ap, ◌∙◌, Bool, true, false, not, Bool-cases, inl, inr,
  ◌&&◌, [], ◌∷◌, ◌++◌, if◌then◌else◌, leb, ◌==◌, All, Text, arith,
}
use auto_sync.Prelude.Utf8.{is_utf8, from_utf8_lossy, from_utf8_lossy-is_utf8}
use auto_sync.ZfsDiff.Paths.{unescape_zfs_path, unescape_bytes, backslash, is_octal, octal_value}

abbrev pub IsByte : ℕ → Type 0
IsByte byte = byte < 2 ^ 8

-- Printable ASCII but the space and the backslash.
abbrev pub is_plain : ℕ → Bool
is_plain byte = leb 33 byte && leb byte 126 && not (byte == backslash)

-- The format that the function's comment documents: other bytes as three octal digits.
abbrev pub escape_byte : ℕ → Text
escape_byte byte =
    if is_plain byte
    then byte ∷ []
    else backslash ∷ (48 + byte / 64) ∷ (48 + byte / 8 % 8) ∷ (48 + byte % 8) ∷ []

abbrev pub escape_path : Text → Text
escape_path [] = []
escape_path (byte ∷ bytes) = escape_byte byte ++ escape_path bytes

unescape-plain :
    (byte : ℕ) (raw : Text)
    → (byte == backslash) ≡ false
    → unescape_bytes (byte ∷ raw) ≡ byte ∷ unescape_bytes raw
unfolding unescape_bytes
unescape-plain byte [] h = refl
unescape-plain byte (x ∷ []) h = refl
unescape-plain byte (x ∷ y ∷ []) h = refl
unescape-plain byte (x ∷ y ∷ z ∷ raw) h = rw h refl

octal_digits :
    (byte : ℕ)
    → IsByte byte
    → octal_value (48 + byte / 64) (48 + byte / 8 % 8) (48 + byte % 8) ≡ byte
octal_digits byte h = omega arith

are_octal :
    (byte : ℕ)
    → IsByte byte
    → (is_octal (48 + byte / 64) && is_octal (48 + byte / 8 % 8) && is_octal (48 + byte % 8)) ≡ true
are_octal byte h = ground arith

unescape-escape_byte :
    (byte : ℕ) (raw : Text)
    → IsByte byte
    → unescape_bytes (escape_byte byte ++ raw) ≡ byte ∷ unescape_bytes raw
unfolding unescape_bytes
unescape-escape_byte byte raw h = elim (Bool-cases (is_plain byte)) [
  | inl plain ↦ rw plain (unescape-plain byte raw (ground arith))
  | inr escaped ↦ rw (escaped, are_octal byte h, octal_digits byte h) refl
]

unescape_bytes-escape_path :
    (bytes : Text) → All IsByte bytes → unescape_bytes (escape_path bytes) ≡ bytes
unfolding unescape_bytes
unescape_bytes-escape_path [] h = refl
unescape_bytes-escape_path (byte ∷ bytes) h =
    unescape-escape_byte byte (escape_path bytes) h.0
    ∙ ap (λ t. byte ∷ t) (unescape_bytes-escape_path bytes h.1)

-- A path in UTF-8 whose bytes are escaped the documented way, three octal digits for every byte
-- that is not printable, a space or a backslash, is read back as it was.
pub unescape_zfs_path-escape_path :
    (bytes : Text)
    → All IsByte bytes
    → is_utf8 bytes ≡ true
    → unescape_zfs_path (escape_path bytes) ≡ bytes
unfolding unescape_zfs_path
unescape_zfs_path-escape_path bytes h utf8 =
    ap from_utf8_lossy (unescape_bytes-escape_path bytes h) ∙ from_utf8_lossy-is_utf8 bytes utf8
