-- ===== src/Prelude/Rows.antt =====
-- Tables as lists of rows: what the SQL statements of the program do to them.
use Prim.Native.Nat.{ℕ, ◌+◌}
use mathlib.Core.Bool.{Bool, false, ◌||◌}
use mathlib.Core.Option.{Option, none, some}
use mathlib.Core.List.{List, [], ◌∷◌, ◌++◌}
use auto_sync.Prelude.Tests.{if◌then◌else◌, leb}

module _ {ℓ} {A : Type ℓ} where
  -- `EXISTS(SELECT 1 .. WHERE p)`
  abbrev pub exists_row : (A → Bool) → List A → Bool
  exists_row p [] = false
  exists_row p (x ∷ xs) = p x || exists_row p xs

  -- `SELECT .. WHERE p`, in the order of the rows
  abbrev pub select_rows : (A → Bool) → List A → List A
  select_rows p [] = []
  select_rows p (x ∷ xs) = let rest = select_rows p xs in if p x then x ∷ rest else rest

  -- `SELECT COUNT(*) .. WHERE p`
  abbrev pub count_rows : (A → Bool) → List A → ℕ
  count_rows p [] = 0
  count_rows p (x ∷ xs) = let rest = count_rows p xs in if p x then rest + 1 else rest

  -- `UPDATE .. SET f WHERE p`
  abbrev pub update_rows : (A → Bool) → (A → A) → List A → List A
  update_rows p f [] = []
  update_rows p f (x ∷ xs) = (if p x then f x else x) ∷ update_rows p f xs

  -- `DELETE .. WHERE p`
  abbrev pub delete_rows : (A → Bool) → List A → List A
  delete_rows p [] = []
  delete_rows p (x ∷ xs) = let rest = delete_rows p xs in if p x then rest else x ∷ rest

  -- `INSERT .. ON CONFLICT DO UPDATE SET f`, where `p` finds the row with the new row's key
  abbrev pub upsert_row : (A → Bool) → (A → A) → A → List A → List A
  upsert_row p f new rows = if exists_row p rows then update_rows p f rows else rows ++ new ∷ []

  -- `INSERT .. ON CONFLICT DO NOTHING`
  abbrev pub insert_new_row : (A → Bool) → A → List A → List A
  insert_new_row p new rows = if exists_row p rows then rows else rows ++ new ∷ []

  -- The first row, where a query can give one at most.
  abbrev pub first_row : List A → Option A
  first_row [] = none
  first_row (x ∷ xs) = some x

  abbrev pub later_row : (A → ℕ) → A → Option A → Option A
  later_row id x none = some x
  later_row id x (some y) = if leb (id x) (id y) then some y else some x

  -- `ORDER BY id DESC LIMIT 1`
  abbrev pub newest_row : (A → ℕ) → List A → Option A
  newest_row id [] = none
  newest_row id (x ∷ xs) = later_row id x (newest_row id xs)
