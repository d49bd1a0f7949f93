-- ===== src/Delta/Sums.antt =====
-- `BlockSum`, `block_len_for` and `compute_block_sums` of src/core/sync/delta.rs.
use auto_sync.Prelude.{
  ℕ, zero, suc, ◌+◌, ◌-◌, ◌*◌, ◌%◌, ◌≤◌, ◌<◌, ◌≡◌, Option, none, some, List, [], ◌∷◌, arith, leb,
  ◌==◌, if◌then◌else◌, min, max, length, get_elem?, slice, Bool-cases, inl, inr, leb→gt, gt→leb,
  ne→==, sym, ◌∙◌,
}
use auto_sync.Delta.Rolling
use auto_sync.Delta.Rolling.{digest}

abbrev pub block_size : ℕ
block_size = 700

abbrev pub max_block_size : ℕ
max_block_size = 128 * 1024

pub record BlockSum : Type 0 where
  pub weak : ℕ
  pub strong : List ℕ

pub record BlockSums : Type 0 where
  pub block_len : ℕ
  pub file_size : ℕ
  pub blocks : List BlockSum

-- `sqrt_floor` stands for `(len as f64).sqrt() as usize`, the machine's floating-point root.
unfoldable pub block_len_for : (ℕ → ℕ) → ℕ → ℕ
block_len_for sqrt_floor len =
    if leb len (block_size * block_size)
    then block_size
    else (let blength = sqrt_floor len in
        max block_size (min (blength - blength % 8) max_block_size))

-- The block length lies between rsync's bounds, whatever the floating-point root returns.
block_len_for_bounds :
    (sqrt_floor : ℕ → ℕ) (len : ℕ)
    → (block_size ≤ block_len_for sqrt_floor len) × (block_len_for sqrt_floor len ≤ max_block_size)
unfolding block_len_for
block_len_for_bounds sqrt_floor len = ground arith

-- `strong_hash` is the truncated BLAKE3 hash of a block.
module _ (strong_hash : List ℕ → List ℕ) where
  abbrev pub block_sum : List ℕ → BlockSum
  block_sum block = record { weak = digest (Rolling.new block); strong = strong_hash block }

  -- The `while` loop; each round moves `offset` on by a block, so the bytes bound the rounds.
  sums_loop : ℕ → List ℕ → ℕ → ℕ → List BlockSum
  sums_loop zero bytes block_len offset = []
  sums_loop (suc fuel) bytes block_len offset =
      let rest = sums_loop fuel bytes block_len (offset + block_len) in
      if leb (offset + block_len) (length bytes)
      then block_sum (slice bytes offset block_len) ∷ rest
      else []

  unfoldable pub compute_block_sums : List ℕ → ℕ → List BlockSum
  unfolding sums_loop
  compute_block_sums bytes block_len =
      if block_len == 0 then [] else sums_loop (suc (length bytes)) bytes block_len 0

  -- What the sums of a file are: one for each whole block, in order, and none for the tail.
  abbrev pub sum_at : List ℕ → ℕ → ℕ → Option BlockSum
  sum_at bytes block_len offset =
      if leb (offset + block_len) (length bytes)
      then some (block_sum (slice bytes offset block_len))
      else none

  sum_at_past_end :
      (bytes : List ℕ) (block_len offset : ℕ)
      → length bytes < offset + block_len
      → sum_at bytes block_len offset ≡ none
  sum_at_past_end bytes block_len offset h = rw (gt→leb _ _ h)

  get_elem?-sums_loop :
      (fuel : ℕ) (bytes : List ℕ) (block_len offset k : ℕ)
      → 0 < block_len
      → length bytes < fuel + offset
      → get_elem? (sums_loop fuel bytes block_len offset) k
        ≡ sum_at bytes block_len (offset + k * block_len)
  unfolding sums_loop
  get_elem?-sums_loop zero bytes block_len offset k pos h =
      sym (sum_at_past_end bytes block_len (offset + k * block_len) (grind arith))
  get_elem?-sums_loop (suc fuel) bytes block_len offset zero pos h =
      let e : offset + 0 * block_len ≡ offset = omega arith in rw e (ground arith)
  get_elem?-sums_loop (suc fuel) bytes block_len offset (suc k) pos h =
      elim (Bool-cases (leb (offset + block_len) (length bytes))) [
        | inl fits ↦ rw fits (
            let e : offset + suc k * block_len ≡ offset + block_len + k * block_len = omega arith in
            rw e
              (get_elem?-sums_loop fuel bytes block_len (offset + block_len) k pos (omega arith)))
        | inr past ↦ rw past (
            sym (
              sum_at_past_end bytes block_len (offset + suc k * block_len)
                (grind (arith, leb→gt _ _ past))))
      ]

  -- For a positive block length, entry `k` of the sums describes the bytes from `k * block_len` on,
  -- and exists exactly when that whole block lies within the file; a tail is not summed.
  pub get_elem?-compute_block_sums :
      (bytes : List ℕ) (block_len k : ℕ)
      → 0 < block_len
      → get_elem? (compute_block_sums bytes block_len) k ≡ sum_at bytes block_len (k * block_len)
  unfolding compute_block_sums
  get_elem?-compute_block_sums bytes block_len k pos = rw (ne→== block_len 0 (omega arith)) (
      get_elem?-sums_loop (suc (length bytes)) bytes block_len 0 k pos (omega arith)
      ∙ (let e : 0 + k * block_len ≡ k * block_len = omega arith in rw e))
