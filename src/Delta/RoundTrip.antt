-- ===== src/Delta/RoundTrip.antt =====
-- The delta that `build_delta` makes is rebuilt by `apply_delta` into the new file.
use auto_sync.Prelude.{
  ℕ, zero, suc, ◌+◌, ◌-◌, ◌*◌, ◌^◌, ◌%◌, ◌≤◌, ◌<◌, ◌≡◌, refl, false, Bool, Option, none, some, List,
  [], ◌∷◌, ◌++◌, ap, subst, arith, ltb, leb, leb→gt, ltb→ge, ◌||◌, ◌==◌, length, take, drop, slice,
  Bool-cases, inl, inr, length-drop, length-slice, ◌∙◌, take-take-drop, take-append-drop,
  if◌then◌else◌, take_all,
}
use auto_sync.Delta.Rolling
use auto_sync.Delta.Rolling.{Rolling, digest, roll}
use auto_sync.Delta.Sums.{BlockSums, compute_block_sums}
use auto_sync.Delta.Wire.{emit_literal, op_end}
use auto_sync.Delta.Apply.{done, apply_delta}
use auto_sync.Delta.Encoding.{
  Encodes, Encodes-nil, Encodes-emit_literal, Encodes-emit_copy, apply_delta-Encodes,
}
use auto_sync.Delta.Build.{
  WeakSumMap, emit_match, matched, scan_step, scan, close, close_scan, is_empty, build_delta,
  index_blocks,
}
use auto_sync.Delta.Matching.{Matches, NoCollision, Matches-matched}

-- What has been written at the `break` stands for the new file up to `lit_start`.
record Broke (old new : List ℕ) (at_break : ℕ × List ℕ) : Type 0 where
  within : at_break.0 ≤ length new
  encodes : Encodes old at_break.1 (take at_break.0 new)

Encodes-text :
    {old bytes text text' : List ℕ}
    → text ≡ text'
    → Encodes old bytes text
    → Encodes old bytes text'
Encodes-text {old} {bytes} p e = subst (λ text. Encodes old bytes text) p e

take_further : (xs : List ℕ) (i j : ℕ) → i ≤ j → take i xs ++ slice xs i (j - i) ≡ take j xs
take_further xs i j h = rw take-take-drop (let e : i + (j - i) ≡ j = omega arith in rw e)

Encodes-close :
    (old new : List ℕ) (at_break : ℕ × List ℕ)
    → length new < 2 ^ 32
    → Broke old new at_break
    → apply_delta old (close new at_break) ≡ record { out = new; status = done }
unfolding close
Encodes-close old new (lit_start, out) short b = elim (Bool-cases (ltb lit_start (length new))) [
  | inl more ↦ rw more (
      apply_delta-Encodes (
        Encodes-text (take-append-drop lit_start new) (
          Encodes-emit_literal (drop lit_start new) (omega (arith, length-drop lit_start new))
            b.encodes)))
  | inr past ↦
      rw past
        (apply_delta-Encodes (Encodes-text (take_all lit_start new (ltb→ge _ _ past)) b.encodes))
]

module _ (old new : List ℕ) (block_len : ℕ) (old_short : length old < 2 ^ 64)
    (new_short : length new < 2 ^ 32) where
  -- Before a copy, the pending literal brings the text up to the window.
  Encodes-pending :
      (i lit_start : ℕ) (out : List ℕ)
      → lit_start ≤ i
      → i ≤ length new
      → Encodes old out (take lit_start new)
      → Encodes old
          (if ltb lit_start i then emit_literal out (slice new lit_start (i - lit_start)) else out)
          (take i new)
  Encodes-pending i lit_start out le h e = elim (Bool-cases (ltb lit_start i)) [
    | inl more ↦ rw more (
        Encodes-text (take_further new lit_start i le) (
          Encodes-emit_literal (slice new lit_start (i - lit_start))
            (omega (arith, length-slice new lit_start (i - lit_start))) e))
    | inr level ↦ rw level (
        let same : lit_start ≡ i = omega (arith, ltb→ge lit_start i level) in
        subst (λ n. Encodes old out (take n new)) same e)
  ]

  Encodes-emit_match :
      (i lit_start bi : ℕ) (out : List ℕ)
      → lit_start ≤ i
      → i + block_len ≤ length new
      → block_len < 2 ^ 32
      → Matches old new block_len i bi
      → Encodes old out (take lit_start new)
      → Encodes old (emit_match new block_len i lit_start out bi) (take (i + block_len) new)
  unfolding emit_match
  Encodes-emit_match i lit_start bi out le h small m e =
      let offset : bi * block_len % 2 ^ 64 ≡ bi * block_len = grind (arith, m.within) in
      rw offset (
        Encodes-text (ap (λ block. take i new ++ block) m.same ∙ take-take-drop i block_len new) (
          Encodes-emit_copy (bi * block_len) block_len (omega (arith, m.within)) small m.within
            (Encodes-pending i lit_start out le (omega arith) e)))

-- A delta exists, and rebuilds the new file.
abbrev pub Rebuilds : List ℕ → List ℕ → Option (List ℕ) → Type 0
Rebuilds old new result =
    (delta : List ℕ) × (result ≡ some delta)
    × (apply_delta old delta ≡ record { out = new; status = done })

Rebuilds-literal :
    (old new : List ℕ)
    → length new < 2 ^ 32
    → Rebuilds old new (some (emit_literal [] new ++ op_end ∷ []))
Rebuilds-literal old new short = (
  emit_literal [] new ++ op_end ∷ [],
  refl,
  apply_delta-Encodes (Encodes-emit_literal new short (Encodes-nil old)),
)

module _ (strong_hash : List ℕ → List ℕ) (old new : List ℕ) (sums : BlockSums)
    (of_old : sums.blocks ≡ compute_block_sums strong_hash old sums.block_len)
    (pos : 0 < sums.block_len) (small : sums.block_len < 2 ^ 32) (old_short : length old < 2 ^ 64)
    (new_short : length new < 2 ^ 32)
    (faithful : NoCollision strong_hash old new sums.block_len) where
  abbrev Scanned : Option (ℕ × List ℕ) → Type 0
  Scanned result = (at_break : ℕ × List ℕ) × (result ≡ some at_break) × Broke old new at_break

  -- The rest of the loop, from any window further on.
  abbrev Goes : ℕ → (ℕ → ℕ → Rolling → List ℕ → Option (ℕ × List ℕ)) → Type 0
  Goes i next =
      (j lit_start : ℕ) (r : Rolling) (out : List ℕ)
      → i < j
      → j + sums.block_len ≤ length new
      → lit_start ≤ j
      → Encodes old out (take lit_start new)
      → Scanned (next j lit_start r out)

  Scanned-scan_step :
      (next : ℕ → ℕ → Rolling → List ℕ → Option (ℕ × List ℕ)) (i lit_start : ℕ) (r : Rolling)
      (out : List ℕ) (found : Option ℕ)
      → Goes i next
      → ((bi : ℕ) → found ≡ some bi → Matches old new sums.block_len i bi)
      → i + sums.block_len ≤ length new
      → lit_start ≤ i
      → Encodes old out (take lit_start new)
      → Scanned (scan_step next new sums.block_len i lit_start r out found)
  unfolding scan_step
  Scanned-scan_step next i lit_start r out none go m h le e =
      elim (Bool-cases (leb (length new) (i + sums.block_len))) [
        | inl last ↦ rw last ((lit_start, out), refl, record { within = omega arith; encodes = e })
        | inr more ↦ rw more (
            go (i + 1) lit_start _ out (omega arith) (omega (arith, leb→gt _ _ more)) (omega arith)
              e)
      ]
  Scanned-scan_step next i lit_start r out (some bi) go m h le e =
      let end = i + sums.block_len in
      let written = emit_match new sums.block_len i lit_start out bi in
      let e' : Encodes old written (take end new) =
        Encodes-emit_match old new sums.block_len old_short new_short i lit_start bi out le h small
          (m bi refl) e in
      elim (Bool-cases (ltb (length new) (end + sums.block_len))) [
        | inl last ↦ rw last ((end, written), refl, record { within = h; encodes = e' })
        | inr more ↦ rw more (
            go end end (Rolling.new (slice new end sums.block_len)) written (omega arith)
              (ltb→ge _ _ more) (omega arith) e')
      ]

  Scanned-scan :
      (fuel : ℕ) (map : WeakSumMap) (i lit_start : ℕ) (r : Rolling) (out : List ℕ)
      → length new < fuel + i
      → i + sums.block_len ≤ length new
      → lit_start ≤ i
      → Encodes old out (take lit_start new)
      → Scanned (scan strong_hash fuel new sums map i lit_start r out)
  unfolding scan
  Scanned-scan zero map i lit_start r out f h le e = absurd (omega arith)
  Scanned-scan (suc fuel) map i lit_start r out f h le e =
      Scanned-scan_step (scan strong_hash fuel new sums map) i lit_start r out
        (matched strong_hash new sums map i r)
        (λ j ls r' out' further. Scanned-scan fuel map j ls r' out' (omega arith))
        (λ bi found.
          Matches-matched strong_hash old new sums of_old pos faithful map i bi r h found)
        h le e

  Rebuilds-close_scan :
      (result : Option (ℕ × List ℕ)) → Scanned result → Rebuilds old new (close_scan new result)
  unfolding close_scan
  Rebuilds-close_scan none (at_break, found, b) = cc
  Rebuilds-close_scan (some at_break) (at_break', found, b) = (
    close new at_break,
    refl,
    Encodes-close old new at_break new_short
        (let e : at_break' ≡ at_break = cc in subst (λ r. Broke old new r) e b),
  )

  -- The scan of a new file that holds a window at least.
  Rebuilds-scan :
      sums.block_len ≤ length new
      → Rebuilds old new (
          close_scan new (
            scan strong_hash
              (suc (length new))
              new
              sums
              (index_blocks 0 sums.blocks [])
              0
              0
              (Rolling.new (slice new 0 sums.block_len))
              []))
  Rebuilds-scan fits = Rebuilds-close_scan _ (
      Scanned-scan (suc (length new)) (index_blocks 0 sums.blocks []) 0 0
        (Rolling.new (slice new 0 sums.block_len)) [] (omega arith) (omega arith) (omega arith)
        (Encodes-nil old))

scans :
    (block_len len : ℕ) (nothing : Bool)
    → (block_len == 0 || nothing || ltb len block_len) ≡ false
    → (0 < block_len) × (block_len ≤ len)
scans block_len len nothing h = ground arith

-- For sums of the old file, by any hash that tells its blocks and the new file's windows apart,
-- `build_delta` ends with a delta from which `apply_delta` rebuilds exactly the new file. This
-- holds whatever the two files hold and for any block length, a zero one too, where the block
-- length fits u32, the old file's length u64 and the new file's length u32.
pub apply_delta-build_delta :
    (strong_hash : List ℕ → List ℕ) (old new : List ℕ) (sums : BlockSums)
    → sums.blocks ≡ compute_block_sums strong_hash old sums.block_len
    → sums.block_len < 2 ^ 32
    → length old < 2 ^ 64
    → length new < 2 ^ 32
    → NoCollision strong_hash old new sums.block_len
    → Rebuilds old new (build_delta strong_hash new sums)
unfolding build_delta
apply_delta-build_delta strong_hash old new sums of_old small old_short new_short faithful =
    elim (Bool-cases
      (sums.block_len == 0 || is_empty sums.blocks || ltb (length new) sums.block_len)) [
        | inl literal ↦ rw (literal, build_delta) (Rebuilds-literal old new new_short)
        | inr scanned ↦
            let (pos, fits) = scans sums.block_len (length new) (is_empty sums.blocks) scanned in
            rw (scanned, build_delta)
              (Rebuilds-scan strong_hash old new sums of_old pos small old_short new_short faithful
                fits)
      ]
