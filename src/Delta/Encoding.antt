-- ===== src/Delta/Encoding.antt =====
-- Op streams that stand for a text: what the emitters of src/core/sync/delta.rs write, `apply_delta`
-- of the same file turns back.
use auto_sync.Prelude.{
  ℕ, suc, ◌+◌, ◌%◌, ◌^◌, ◌≤◌, ◌<◌, ◌≡◌, refl, List, [], ◌∷◌, ◌++◌, append_assoc, append-nil, ◌-◌,
  arith, length, length-append, slice, take-append, drop-append, le→leb,
}
use auto_sync.Delta.Wire.{
  to_le_bytes, emit_literal, emit_copy, op_literal, op_copy, op_end, read_u32-to_le_bytes,
  read_u64-to_le_bytes,
}
use auto_sync.Delta.Apply.{done, apply_loop, apply_delta, copy_loop_within}

-- `bytes` is a stream of ops that makes the loop write `text`, in `rounds` rounds, whatever follows.
pub record Encodes (old bytes text : List ℕ) : Type 0 where
  pub rounds : ℕ
  pub rounds_le : rounds ≤ length bytes
  pub runs :
      (f g : ℕ) (rest out : List ℕ)
      → g ≡ rounds + f
      → apply_loop g old (bytes ++ rest) out ≡ apply_loop f old rest (out ++ text)

pub Encodes-nil : (old : List ℕ) → Encodes old [] []
Encodes-nil old = record {
  rounds = 0;
  rounds_le = omega arith;
  runs = λ f g rest out e. let e' : g ≡ f = omega arith in rw (e', append-nil out);
}

pub Encodes-append :
    {old bytes text bytes' text' : List ℕ}
    → Encodes old bytes text
    → Encodes old bytes' text'
    → Encodes old (bytes ++ bytes') (text ++ text')
Encodes-append {old} {bytes} {text} {bytes'} {text'} a b = record {
  rounds = a.rounds + b.rounds;
  rounds_le = omega (arith, length-append {0} bytes bytes', a.rounds_le, b.rounds_le);
  runs = λ f g rest out e.
      rw
        (
          append_assoc bytes bytes' rest,
          a.runs (b.rounds + f) g (bytes' ++ rest) out (omega arith),
          b.runs f (b.rounds + f) rest (out ++ text) refl,
          append_assoc out text text',
        )
        refl;
}

one_more : (f g : ℕ) → g ≡ 1 + f → g ≡ suc f
one_more f g e = omega arith

literal_op : List ℕ → List ℕ
literal_op text = op_literal ∷ (to_le_bytes 4 (length text % 2 ^ 32) ++ text)

apply_loop-literal_op :
    (f : ℕ) (old text rest out : List ℕ)
    → length text < 2 ^ 32
    → apply_loop (suc f) old (literal_op text ++ rest) out ≡ apply_loop f old rest (out ++ text)
unfolding apply_loop literal_op
apply_loop-literal_op f old text rest out h =
    let small : length text % 2 ^ 32 ≡ length text = omega arith in
    rw
      (
        small,
        append_assoc (to_le_bytes 4 (length text)) text rest,
        read_u32-to_le_bytes (length text) (text ++ rest) h,
      )
      (rw
        (
          le→leb (length text) (length (text ++ rest)) (omega (arith, length-append {0} text rest)),
          drop-append (length text) text rest refl,
          take-append (length text) text rest refl,
        )
        refl)

copy_op : ℕ → ℕ → List ℕ
copy_op offset len = op_copy ∷ (to_le_bytes 8 offset ++ to_le_bytes 4 len)

apply_loop-copy_op :
    (f : ℕ) (old : List ℕ) (offset len : ℕ) (rest out : List ℕ)
    → offset < 2 ^ 64
    → len < 2 ^ 32
    → offset + len ≤ length old
    → apply_loop (suc f) old (copy_op offset len ++ rest) out
      ≡ apply_loop f old rest (out ++ slice old offset len)
unfolding apply_loop copy_op
apply_loop-copy_op f old offset len rest out ho hl h =
    rw
      (
        append_assoc (to_le_bytes 8 offset) (to_le_bytes 4 len) rest,
        read_u64-to_le_bytes offset (to_le_bytes 4 len ++ rest) ho,
        read_u32-to_le_bytes len rest hl,
        copy_loop_within (suc len) old offset len out (omega arith) h,
      )
      refl

-- One literal, or one copy, more.
pub Encodes-emit_literal :
    {old bytes text : List ℕ} (literal : List ℕ)
    → length literal < 2 ^ 32
    → Encodes old bytes text
    → Encodes old (emit_literal bytes literal) (text ++ literal)
unfolding emit_literal literal_op
Encodes-emit_literal {text = text} [] h e = rw (append-nil text) e
Encodes-emit_literal {old} (byte ∷ literal) h e = Encodes-append e (record {
  rounds = 1;
  rounds_le = omega arith;
  runs = λ f g rest out eq.
      rw (one_more f g eq) (apply_loop-literal_op f old (byte ∷ literal) rest out h);
})

pub Encodes-emit_copy :
    {old bytes text : List ℕ} (offset len : ℕ)
    → offset < 2 ^ 64
    → len < 2 ^ 32
    → offset + len ≤ length old
    → Encodes old bytes text
    → Encodes old (emit_copy bytes offset len) (text ++ slice old offset len)
unfolding emit_copy copy_op
Encodes-emit_copy {old} offset len ho hl h e = Encodes-append e (record {
  rounds = 1;
  rounds_le = omega arith;
  runs = λ f g rest out eq.
      rw (one_more f g eq) (apply_loop-copy_op f old offset len rest out ho hl h);
})

-- A stream closed by the end op is a delta of its text.
pub apply_delta-Encodes :
    {old bytes text : List ℕ}
    → Encodes old bytes text
    → apply_delta old (bytes ++ op_end ∷ []) ≡ record { out = text; status = done }
unfolding apply_delta apply_loop
apply_delta-Encodes {old} {bytes} {text} e =
    e.runs (suc (length bytes - e.rounds + 1)) (suc (length (bytes ++ op_end ∷ []))) (op_end ∷ [])
      [] (omega (arith, e.rounds_le, length-append {0} bytes (op_end ∷ [])))
