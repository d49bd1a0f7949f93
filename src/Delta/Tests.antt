-- ===== src/Delta/Tests.antt =====
-- Runs of the delta on small files, and its theorems at concrete data.
use auto_sync.Prelude.{ℕ, ◌≡◌, ◌≢◌, refl, some, List, [], ◌∷◌, arith, bytes_eq, get_elem?}
use auto_sync.Delta.Rolling.{new, roll, digest, roll-new}
use auto_sync.Delta.Sums.{BlockSums, block_sum, compute_block_sums, get_elem?-compute_block_sums}
use auto_sync.Delta.Wire.{emit_literal, emit_copy}
use auto_sync.Delta.Apply.{apply_delta, out_of_fuel, apply_delta-ne-out_of_fuel}
use auto_sync.Delta.Build.{build_delta}
use auto_sync.Delta.RoundTrip.{Rebuilds, apply_delta-build_delta}

-- A hash without collisions.
abbrev whole : List ℕ → List ℕ
whole block = block

abbrev old_file : List ℕ
old_file = 1 ∷ 2 ∷ 3 ∷ 4 ∷ 5 ∷ []

abbrev new_file : List ℕ
new_file = 9 ∷ 3 ∷ 4 ∷ 1 ∷ 2 ∷ 7 ∷ []

sums_of_old : BlockSums
unfolding compute_block_sums new digest
sums_of_old = record { block_len = 2; file_size = 5; blocks = compute_block_sums whole old_file 2 }

delta_run :
    build_delta whole new_file sums_of_old
    ≡ some (
        0 ∷ 1 ∷ 0 ∷ 0 ∷ 0 ∷ 9 ∷ 1 ∷ 2 ∷ 0 ∷ 0 ∷ 0 ∷ 0 ∷ 0 ∷ 0 ∷ 0 ∷ 2 ∷ 0 ∷ 0 ∷ 0 ∷ 1 ∷ 0 ∷ 0 ∷ 0
        ∷ 0 ∷ 0 ∷ 0 ∷ 0 ∷ 0 ∷ 2 ∷ 0 ∷ 0 ∷ 0 ∷ 0 ∷ 1 ∷ 0 ∷ 0 ∷ 0 ∷ 7 ∷ 2 ∷ [])
unfolding build_delta bytes_eq sums_of_old roll emit_literal emit_copy
delta_run = refl

roll-new_example : roll (new (9 ∷ 3 ∷ [])) 9 4 ≡ new (3 ∷ 4 ∷ [])
roll-new_example = roll-new 9 (3 ∷ []) 4 (omega arith) (omega arith)

get_elem?-compute_block_sums_example :
    get_elem? (compute_block_sums whole old_file 2) 1 ≡ some (block_sum whole (3 ∷ 4 ∷ []))
get_elem?-compute_block_sums_example = get_elem?-compute_block_sums whole old_file 2 1 (omega arith)

apply_delta-ne-out_of_fuel_example : (apply_delta old_file (1 ∷ 2 ∷ [])).status ≢ out_of_fuel
apply_delta-ne-out_of_fuel_example = apply_delta-ne-out_of_fuel old_file (1 ∷ 2 ∷ [])

apply_delta-build_delta_example :
    Rebuilds old_file new_file (build_delta whole new_file sums_of_old)
unfolding sums_of_old
apply_delta-build_delta_example =
    apply_delta-build_delta whole old_file new_file sums_of_old refl (omega arith) (omega arith)
      (omega arith) (λ i k a b h. h)
