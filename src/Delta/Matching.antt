-- ===== src/Delta/Matching.antt =====
-- A block that `build_delta` copies is the same bytes in the old file and in the new one.
use auto_sync.Prelude.{
  ℕ, bytes_eq→eq, ◌+◌, ◌*◌, ◌≤◌, ◌<◌, ◌≡◌, refl, true, Option, none, some, List, [], ◌∷◌, ap, arith,
  length, get_elem?, slice, sym, ◌∙◌,
}
use auto_sync.Delta.Rolling.{Rolling, digest}
use auto_sync.Delta.Sums.{
  BlockSum, BlockSums, compute_block_sums, sum_at, get_elem?-compute_block_sums,
}
use auto_sync.Delta.Build.{WeakSumMap, strong_matches, find_match, match_in, get, matched}

-- Within the files `old` and `new`, blocks with the same strong hash are the same bytes. (The
-- truncated BLAKE3 hash gives this but for collisions.)
abbrev pub NoCollision : (List ℕ → List ℕ) → List ℕ → List ℕ → ℕ → Type 0
NoCollision strong_hash old new block_len =
    (i k : ℕ)
    → i + block_len ≤ length new
    → k * block_len + block_len ≤ length old
    → strong_hash (slice old (k * block_len) block_len) ≡ strong_hash (slice new i block_len)
    → slice old (k * block_len) block_len ≡ slice new i block_len

strong_matches→eq :
    (found : Option BlockSum) (strong : List ℕ)
    → strong_matches found strong ≡ true
    → (block : BlockSum) × (found ≡ some block) × (block.strong ≡ strong)
strong_matches→eq none strong h = cc
strong_matches→eq (some block) strong h = (block, refl, bytes_eq→eq block.strong strong h)

find_match→strong :
    (blocks : List BlockSum) (strong candidates : List ℕ) (bi : ℕ)
    → find_match blocks strong candidates ≡ some bi
    → strong_matches (get_elem? blocks bi) strong ≡ true
unfolding find_match
find_match→strong blocks strong [] bi h = cc
find_match→strong blocks strong (c ∷ candidates) bi h =
    ground (arith, find_match→strong blocks strong candidates bi)

sum_at→bounds :
    (strong_hash : List ℕ → List ℕ) (old : List ℕ) (block_len offset : ℕ) (block : BlockSum)
    → sum_at strong_hash old block_len offset ≡ some block
    → (offset + block_len ≤ length old) × (block.strong ≡ strong_hash (slice old offset block_len))
sum_at→bounds strong_hash old block_len offset block h = ground arith

-- A match found for a window of the new file is a block that lies within the old one.
pub record Matches (old new : List ℕ) (block_len i bi : ℕ) : Type 0 where
  pub within : bi * block_len + block_len ≤ length old
  pub same : slice old (bi * block_len) block_len ≡ slice new i block_len

module _ (strong_hash : List ℕ → List ℕ) (old new : List ℕ) (sums : BlockSums)
    (of_old : sums.blocks ≡ compute_block_sums strong_hash old sums.block_len)
    (pos : 0 < sums.block_len) (faithful : NoCollision strong_hash old new sums.block_len) where
  Matches-strong_matches :
      (i bi : ℕ)
      → i + sums.block_len ≤ length new
      → strong_matches (get_elem? sums.blocks bi) (strong_hash (slice new i sums.block_len)) ≡ true
      → Matches old new sums.block_len i bi
  Matches-strong_matches i bi h m =
      let (block, found, strong) = strong_matches→eq _ _ m in
      let at : sum_at strong_hash old sums.block_len (bi * sums.block_len) ≡ some block =
        sym (get_elem?-compute_block_sums strong_hash old sums.block_len bi pos)
        ∙ (ap (λ bs. get_elem? bs bi) (sym of_old) ∙ found) in
      let (within, hash) =
        sum_at→bounds strong_hash old sums.block_len (bi * sums.block_len) block at in
      record { within = within; same = faithful i bi h within (sym hash ∙ strong) }

  Matches-match_in :
      (candidates : Option (List ℕ)) (i bi : ℕ)
      → i + sums.block_len ≤ length new
      → match_in sums.blocks (strong_hash (slice new i sums.block_len)) candidates ≡ some bi
      → Matches old new sums.block_len i bi
  unfolding match_in
  Matches-match_in none i bi h m = cc
  Matches-match_in (some candidates) i bi h m =
      Matches-strong_matches i bi h (find_match→strong sums.blocks _ candidates bi m)

  pub Matches-matched :
      (map : WeakSumMap) (i bi : ℕ) (r : Rolling)
      → i + sums.block_len ≤ length new
      → matched strong_hash new sums map i r ≡ some bi
      → Matches old new sums.block_len i bi
  unfolding matched
  Matches-matched map i bi r h m = Matches-match_in (get (digest r) map) i bi h m
