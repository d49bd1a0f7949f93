-- ===== src/Delta/Apply.antt =====
-- `apply_delta` of src/core/sync/delta.rs. The old file is its bytes, `out` what has been written;
-- a failure keeps what was written before it. `delta` is the buffer from `pos` on.
use auto_sync.Prelude.{
  ℕ, zero, suc, ◌+◌, ◌-◌, ◌*◌, ◌≤◌, ◌<◌, ◌≡◌, ◌≢◌, refl, ap, sym, List, [], ◌∷◌, ◌++◌, append_assoc,
  arith, leb, ◌==◌, if◌then◌else◌, min, length, take, drop, slice, Result, ok, err, length-drop,
  ne→==, le→leb, take-take-drop, drop-drop, append-nil,
}
use auto_sync.Delta.Wire.{
  DeltaError, truncated, literal_overrun, unexpected_eof, unknown_op, op_literal, op_copy, op_end,
  read_u32, read_u64,
}

-- `out_of_fuel` is no outcome of the program: `apply_delta-ne-out_of_fuel` excludes it.
pub data Status : Type 0 where
  done out_of_fuel : Status
  failed : DeltaError → Status

pub record Applied : Type 0 where
  pub out : List ℕ
  pub status : Status

abbrev pub copy_buffer : ℕ
copy_buffer = 64 * 1024

-- The `while remaining > 0` loop of a copy op, after the seek to `pos`. `read_exact` fails, and
-- writes nothing, if the file ends before the bytes asked for.
unfoldable pub copy_loop : ℕ → List ℕ → ℕ → ℕ → List ℕ → Applied
copy_loop zero old pos remaining out = record { out = out; status = out_of_fuel }
copy_loop (suc fuel) old pos remaining out =
    let count = min remaining copy_buffer in
    let more = copy_loop fuel old (pos + count) (remaining - count) (out ++ slice old pos count) in
    if remaining == 0
    then record { out = out; status = done }
    else (if leb (pos + count) (length old)
        then more
        else record { out = out; status = failed unexpected_eof })

-- Go on with the next op only after a copy that succeeded.
after_copy : (List ℕ → Applied) → Applied → Applied
after_copy next copied = elim copied.status [
  | done ↦ next copied.out
  | out_of_fuel ↦ copied
  | failed e ↦ copied
]

-- The cases of `match tag`; `next` is the rest of the loop.
apply_literal : (List ℕ → List ℕ → Applied) → List ℕ → Result DeltaError (ℕ × List ℕ) → Applied
apply_literal next out (err e) = record { out = out; status = failed e }
apply_literal next out (ok (len, rest)) =
    if leb len (length rest)
    then next (drop len rest) (out ++ take len rest)
    else record { out = out; status = failed literal_overrun }

apply_copy_len :
    (List ℕ → List ℕ → Applied) → List ℕ → ℕ → List ℕ → Result DeltaError (ℕ × List ℕ) → Applied
unfolding after_copy
apply_copy_len next old offset out (err e) = record { out = out; status = failed e }
apply_copy_len next old offset out (ok (len, rest)) =
    after_copy (next rest) (copy_loop (suc len) old offset len out)

apply_copy :
    (List ℕ → List ℕ → Applied) → List ℕ → List ℕ → Result DeltaError (ℕ × List ℕ) → Applied
unfolding apply_copy_len
apply_copy next old out (err e) = record { out = out; status = failed e }
apply_copy next old out (ok (offset, rest)) = apply_copy_len next old offset out (read_u32 rest)

apply_op : (List ℕ → List ℕ → Applied) → List ℕ → ℕ → List ℕ → List ℕ → Applied
unfolding apply_literal apply_copy
apply_op next old tag delta out =
    if tag == op_literal
    then apply_literal next out (read_u32 delta)
    else if tag == op_copy
    then apply_copy next old out (read_u64 delta)
    else if tag == op_end
    then record { out = out; status = done }
    else record { out = out; status = failed (unknown_op tag) }

-- The loop over the ops; each takes at least its tag, so the bytes bound the rounds.
unfoldable pub apply_loop : ℕ → List ℕ → List ℕ → List ℕ → Applied
unfolding apply_op
apply_loop zero old delta out = record { out = out; status = out_of_fuel }
apply_loop (suc fuel) old [] out = record { out = out; status = failed truncated }
apply_loop (suc fuel) old (tag ∷ delta) out = apply_op (apply_loop fuel old) old tag delta out

unfoldable pub apply_delta : List ℕ → List ℕ → Applied
apply_delta old delta = apply_loop (suc (length delta)) old delta []

slice_split :
    (xs : List ℕ) (pos count n : ℕ)
    → count ≤ n
    → slice xs pos count ++ slice xs (pos + count) (n - count) ≡ slice xs pos n
slice_split xs pos count n h =
    rw (← drop-drop pos count xs, take-take-drop count (n - count) (drop pos xs))
      (let e : count + (n - count) ≡ n = omega arith in rw e)

-- A copy within the old file appends exactly the bytes that it names, whatever the buffer's size.
pub copy_loop_within :
    (fuel : ℕ) (old : List ℕ) (pos remaining : ℕ) (out : List ℕ)
    → remaining < fuel
    → pos + remaining ≤ length old
    → copy_loop fuel old pos remaining out
      ≡ record { out = out ++ slice old pos remaining; status = done }
unfolding copy_loop
copy_loop_within zero old pos remaining out f h = absurd (omega arith)
copy_loop_within (suc fuel) old pos zero out f h =
    ap (λ o. record { out = o; status = done }) (sym (append-nil out))
copy_loop_within (suc fuel) old pos (suc remaining) out f h =
    let count = min (suc remaining) copy_buffer in
    rw
      (
        ne→== (suc remaining) 0 (omega arith),
        le→leb (pos + count) (length old) (omega arith),
        copy_loop_within fuel old (pos + count) (suc remaining - count) (out ++ slice old pos count)
            (omega arith) (omega arith),
        append_assoc,
        slice_split old pos count (suc remaining) (omega arith),
      )
      refl

-- Applying a delta ends by an outcome of the program, whatever the bytes are.
copy_loop-ne-out_of_fuel :
    (fuel : ℕ) (old : List ℕ) (pos remaining : ℕ) (out : List ℕ)
    → remaining < fuel
    → (copy_loop fuel old pos remaining out).status ≢ out_of_fuel
unfolding copy_loop
copy_loop-ne-out_of_fuel zero old pos remaining out h = absurd (omega arith)
copy_loop-ne-out_of_fuel (suc fuel) old pos remaining out h = ground (
  arith,
  copy_loop-ne-out_of_fuel fuel old (pos + min remaining copy_buffer)
      (remaining - min remaining copy_buffer) (out ++ slice old pos (min remaining copy_buffer)),
)

abbrev Ends : (List ℕ → List ℕ → Applied) → ℕ → Type 0
Ends next n = (delta out : List ℕ) → length delta ≤ n → (next delta out).status ≢ out_of_fuel

after_copy-ne-out_of_fuel :
    (next : List ℕ → Applied) (copied : Applied)
    → copied.status ≢ out_of_fuel
    → ((out : List ℕ) → (next out).status ≢ out_of_fuel)
    → (after_copy next copied).status ≢ out_of_fuel
unfolding after_copy
after_copy-ne-out_of_fuel next copied h k = ground (arith, k copied.out)

length-read_u32 :
    (delta rest : List ℕ) (len : ℕ) → read_u32 delta ≡ ok (len, rest) → length rest ≤ length delta
unfolding read_u32
length-read_u32 delta rest len h = ground (arith, length-drop 4 delta)

length-read_u64 :
    (delta rest : List ℕ) (len : ℕ) → read_u64 delta ≡ ok (len, rest) → length rest ≤ length delta
unfolding read_u64
length-read_u64 delta rest len h = ground (arith, length-drop 8 delta)

-- What a reader leaves is within `n` bytes.
abbrev Leaves : Result DeltaError (ℕ × List ℕ) → ℕ → Type 0
Leaves r n = (len : ℕ) (rest : List ℕ) → r ≡ ok (len, rest) → length rest ≤ n

apply_literal-ne-out_of_fuel :
    (next : List ℕ → List ℕ → Applied) (out : List ℕ) (r : Result DeltaError (ℕ × List ℕ)) (n : ℕ)
    → Ends next n
    → Leaves r n
    → (apply_literal next out r).status ≢ out_of_fuel
unfolding apply_literal
apply_literal-ne-out_of_fuel next out (err e) n ends h = λ p. cc
apply_literal-ne-out_of_fuel next out (ok (len, rest)) n ends h =
    ground
      (arith, h len rest refl, length-drop len rest, ends (drop len rest) (out ++ take len rest))

apply_copy_len-ne-out_of_fuel :
    (next : List ℕ → List ℕ → Applied) (old : List ℕ) (offset : ℕ) (out : List ℕ)
    (r : Result DeltaError (ℕ × List ℕ)) (n : ℕ)
    → Ends next n
    → Leaves r n
    → (apply_copy_len next old offset out r).status ≢ out_of_fuel
unfolding apply_copy_len
apply_copy_len-ne-out_of_fuel next old offset out (err e) n ends h = λ p. cc
apply_copy_len-ne-out_of_fuel next old offset out (ok (len, rest)) n ends h =
    after_copy-ne-out_of_fuel (next rest) (copy_loop (suc len) old offset len out)
      (copy_loop-ne-out_of_fuel (suc len) old offset len out (omega arith))
      (λ o. ends rest o (h len rest refl))

apply_copy-ne-out_of_fuel :
    (next : List ℕ → List ℕ → Applied) (old : List ℕ) (out : List ℕ)
    (r : Result DeltaError (ℕ × List ℕ)) (n : ℕ)
    → Ends next n
    → Leaves r n
    → (apply_copy next old out r).status ≢ out_of_fuel
unfolding apply_copy
apply_copy-ne-out_of_fuel next old out (err e) n ends h = λ p. cc
apply_copy-ne-out_of_fuel next old out (ok (offset, rest)) n ends h =
    apply_copy_len-ne-out_of_fuel next old offset out (read_u32 rest) n ends
      (λ len after e. omega (arith, length-read_u32 rest after len e, h offset rest refl))

apply_op-ne-out_of_fuel :
    (next : List ℕ → List ℕ → Applied) (old : List ℕ) (tag : ℕ) (delta out : List ℕ)
    → Ends next (length delta)
    → (apply_op next old tag delta out).status ≢ out_of_fuel
unfolding apply_op
apply_op-ne-out_of_fuel next old tag delta out ends = ground (
  arith,
  apply_literal-ne-out_of_fuel next out (read_u32 delta) (length delta) ends
      (λ len rest e. length-read_u32 delta rest len e),
  apply_copy-ne-out_of_fuel next old out (read_u64 delta) (length delta) ends
      (λ len rest e. length-read_u64 delta rest len e),
)

apply_loop-ne-out_of_fuel :
    (fuel : ℕ) (old delta out : List ℕ)
    → length delta < fuel
    → (apply_loop fuel old delta out).status ≢ out_of_fuel
unfolding apply_loop
apply_loop-ne-out_of_fuel zero old delta out h = absurd (omega arith)
apply_loop-ne-out_of_fuel (suc fuel) old [] out h = λ p. cc
apply_loop-ne-out_of_fuel (suc fuel) old (tag ∷ delta) out h =
    apply_op-ne-out_of_fuel (apply_loop fuel old) old tag delta out
      (λ d o fits. apply_loop-ne-out_of_fuel fuel old d o (omega arith))

-- Applying any bytes to any old file ends: the loops always come to success or to one of the
-- program's errors.
pub apply_delta-ne-out_of_fuel : (old delta : List ℕ) → (apply_delta old delta).status ≢ out_of_fuel
unfolding apply_delta
apply_delta-ne-out_of_fuel old delta =
    apply_loop-ne-out_of_fuel (suc (length delta)) old delta [] (omega arith)
