-- ===== src/Delta/Build.antt =====
-- `build_delta` of src/core/sync/delta.rs: the lookup map from weak sums to blocks, and the scan of
-- the new file by the rolling sum.
use auto_sync.Prelude.{
  ℕ, zero, suc, ◌+◌, ◌-◌, ◌*◌, ◌%◌, ◌^◌, Bool, true, false, ◌||◌, Option, none, some, List, [], ◌∷◌,
  ◌++◌, ltb, leb, ◌==◌, if◌then◌else◌, length, get_elem?, get_or, slice, drop, bytes_eq,
}
use auto_sync.Delta.Rolling
use auto_sync.Delta.Rolling.{Rolling, digest, roll}
use auto_sync.Delta.Sums.{BlockSum, BlockSums}
use auto_sync.Delta.Wire.{emit_literal, emit_copy, op_end}

-- The map from a weak sum to the indices of the blocks that have it, in block order.
abbrev pub WeakSumMap : Type 0
WeakSumMap = List (ℕ × List ℕ)

-- `map.entry(weak).or_default().push(idx)`
unfoldable pub push_index : ℕ → ℕ → WeakSumMap → WeakSumMap
push_index weak idx [] = (weak, idx ∷ []) ∷ []
push_index weak idx ((w, indices) ∷ map) =
    if w == weak then (w, indices ++ idx ∷ []) ∷ map else (w, indices) ∷ push_index weak idx map

unfoldable pub get : ℕ → WeakSumMap → Option (List ℕ)
get weak [] = none
get weak ((w, indices) ∷ map) = if w == weak then some indices else get weak map

unfoldable pub index_blocks : ℕ → List BlockSum → WeakSumMap → WeakSumMap
index_blocks idx [] map = map
index_blocks idx (block ∷ blocks) map =
    index_blocks (idx + 1) blocks (push_index block.weak idx map)

-- `sums.blocks[bi].strong == strong`. The map holds only indices of blocks (`get-index_blocks`), so
-- the `none` of an index out of range, a panic in the program, is never met.
abbrev pub strong_matches : Option BlockSum → List ℕ → Bool
strong_matches none strong = false
strong_matches (some block) strong = bytes_eq block.strong strong

unfoldable pub find_match : List BlockSum → List ℕ → List ℕ → Option ℕ
find_match blocks strong [] = none
find_match blocks strong (bi ∷ candidates) =
    let later = find_match blocks strong candidates in
    if strong_matches (get_elem? blocks bi) strong then some bi else later

-- A match: the literal bytes before it, if any, and the copy op.
unfoldable pub emit_match : List ℕ → ℕ → ℕ → ℕ → List ℕ → ℕ → List ℕ
emit_match new_data block_len i lit_start out bi =
    emit_copy
      (if ltb lit_start i then emit_literal out (slice new_data lit_start (i - lit_start)) else out)
      (bi * block_len % 2 ^ 64) block_len

-- One round at the window `i`, with the block that matches it: `next` is the rest of the loop, and
-- the result `lit_start` and `out` at the `break`.
unfoldable pub scan_step :
    (ℕ → ℕ → Rolling → List ℕ → Option (ℕ × List ℕ))
    → List ℕ
    → ℕ
    → ℕ
    → ℕ
    → Rolling
    → List ℕ
    → Option ℕ
    → Option (ℕ × List ℕ)
unfolding emit_match
scan_step next new_data block_len i lit_start r out (some bi) =
    let end = i + block_len in
    let written = emit_match new_data block_len i lit_start out bi in
    let more = next end end (Rolling.new (slice new_data end block_len)) written in
    if ltb (length new_data) (end + block_len) then some (end, written) else more
scan_step next new_data block_len i lit_start r out none =
    let end = i + block_len in
    let more = next (i + 1) lit_start (roll r (get_or new_data i 0) (get_or new_data end 0)) out in
    if leb (length new_data) end then some (lit_start, out) else more

-- The literal bytes after the last match, and the end op.
unfoldable pub close : List ℕ → ℕ × List ℕ → List ℕ
close new_data (lit_start, out) =
    (if ltb lit_start (length new_data) then emit_literal out (drop lit_start new_data) else out)
    ++ op_end ∷ []

unfoldable pub close_scan : List ℕ → Option (ℕ × List ℕ) → Option (List ℕ)
unfolding close
close_scan new_data none = none
close_scan new_data (some at_break) = some (close new_data at_break)

abbrev pub is_empty : List BlockSum → Bool
is_empty [] = true
is_empty (_ ∷ _) = false

unfoldable pub match_in : List BlockSum → List ℕ → Option (List ℕ) → Option ℕ
match_in blocks strong none = none
match_in blocks strong (some candidates) = find_match blocks strong candidates

module _ (strong_hash : List ℕ → List ℕ) where
  -- The block that matches the window `i .. i + block_len`, whose weak sum is `roll`.
  unfoldable pub matched : List ℕ → BlockSums → WeakSumMap → ℕ → Rolling → Option ℕ
  unfolding get find_match match_in
  matched new_data sums map i r =
      match_in sums.blocks (strong_hash (slice new_data i sums.block_len)) (get (digest r) map)

  -- The loop from the window at `i`, which grows in each round, so the bytes bound the rounds;
  -- `none` means that the fuel ran out.
  unfoldable pub scan :
      ℕ → List ℕ → BlockSums → WeakSumMap → ℕ → ℕ → Rolling → List ℕ → Option (ℕ × List ℕ)
  unfolding matched scan_step
  scan zero new_data sums map i lit_start r out = none
  scan (suc fuel) new_data sums map i lit_start r out =
      scan_step (scan fuel new_data sums map) new_data sums.block_len i lit_start r out
        (matched new_data sums map i r)

  unfoldable pub build_delta : List ℕ → BlockSums → Option (List ℕ)
  unfolding scan close_scan index_blocks push_index
  build_delta new_data sums =
      if sums.block_len == 0 || is_empty sums.blocks || ltb (length new_data) sums.block_len
      then some (emit_literal [] new_data ++ op_end ∷ [])
      else close_scan new_data (
          scan (suc (length new_data)) new_data sums (index_blocks 0 sums.blocks []) 0 0
            (Rolling.new (slice new_data 0 sums.block_len)) [])
