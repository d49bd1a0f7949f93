-- ===== src/Peer/Lines.antt =====
-- `NdjsonLineSplitter` (src/core/machines.rs): a body that arrives in pieces is handed on line by
-- line. The callback keeps a state of its own, and may fail.
use auto_sync.Prelude.{ℕ, ◌==◌, ◌≡◌, refl, Option, none, some, [], ◌∷◌, ◌++◌, if◌then◌else◌, Text}

abbrev pub newline : ℕ
newline = 10

abbrev pub and_then {ℓ κ} : {A : Type ℓ} {B : Type κ} → Option A → (A → Option B) → Option B
and_then none f = none
and_then (some a) f = f a

pub and_then_assoc :
    {A B C : Type 0} (o : Option A) (f : A → Option B) (g : B → Option C)
    → and_then (and_then o f) g ≡ and_then o (λ a. and_then (f a) g)
and_then_assoc none f g = refl
and_then_assoc (some a) f g = refl

pub and_then_ext :
    {A B : Type 0} (o : Option A) (f g : A → Option B)
    → ((a : A) → o ≡ some a → f a ≡ g a)
    → and_then o f ≡ and_then o g
and_then_ext none f g h = refl
and_then_ext (some a) f g h = h a refl

-- `line.strip_suffix(b"\r").unwrap_or(line)`
unfoldable pub strip_cr : Text → Text
strip_cr [] = []
strip_cr (b ∷ []) = if b == 13 then [] else b ∷ []
strip_cr (b ∷ c ∷ line) = b ∷ strip_cr (c ∷ line)

-- The splitter: what is carried over, and the callback's state.
pub record Splitter (S : Type 0) : Type 0 where
  pub carry : Text
  pub state : S

module _ {S : Type 0} (on_line : S → Text → Option S) where
  -- The loop over the bytes that are joined, from the line that has begun.
  unfoldable pub feed_loop : Text → S → Text → Option (Splitter S)
  unfolding strip_cr
  feed_loop line s [] = some (record { carry = line; state = s })
  feed_loop line s (b ∷ data_left) =
      if b == newline
      then and_then (on_line s (strip_cr line)) (λ s2. feed_loop [] s2 data_left)
      else feed_loop (line ++ b ∷ []) s data_left

  unfoldable pub feed : Splitter S → Text → Option (Splitter S)
  unfolding feed_loop
  feed sp chunk = feed_loop [] sp.state (sp.carry ++ chunk)

  abbrev pub finish_line : Text → S → Option S
  finish_line [] s = some s
  finish_line (b ∷ line) s = on_line s (strip_cr (b ∷ line))

  unfoldable pub finish : Splitter S → Option S
  unfolding strip_cr
  finish sp = finish_line sp.carry sp.state
