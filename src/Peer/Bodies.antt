-- ===== src/Peer/Bodies.antt =====
-- A chunked body arrives as it was sent, however the connection cuts it (src/core/machines.rs).
use auto_sync.Prelude.{
  ℕ, zero, suc, ◌+◌, ◌≤◌, ◌<◌, ◌≡◌, refl, ap, ◌∙◌, true, false, Bool-cases, inl, inr, ◌&&◌, ◌==◌,
  Option, none, some, List, [], ◌∷◌, ◌++◌, append_assoc, if_true, if_false, Text, ltb, length,
  length-append, drop, All, arith,
}
use auto_sync.Peer.Lines.{and_then, and_then_assoc, and_then_ext}
use auto_sync.Peer.Chunked.{
  Stream, Source, line_limit, chunk_size, trailer_next, read_trailer, read_two, after_crlf,
  stream_len, chunk_end, sized, chunk_line, chunk_loop, drop_pending, stream_chunked_body,
}
use auto_sync.Peer.Reading.{
  NoReturn, Pieces, concat, reads, Left, source_of, cons_head, cons_tail, joined-some,
  read_line-some,
}
use auto_sync.Peer.Delivered.{Additive, deliver-some, rest_kept, not_zero}

-- A chunk as it was sent: the line with its size, and its bytes.
pub record Chunk : Type 0 where
  pub line : Text
  pub payload : Text

abbrev pub Sent : Chunk → Type 0
Sent c =
    NoReturn c.line
    × (length c.line < line_limit)
    × (chunk_size c.line ≡ some (length c.payload))
    × (0 < length c.payload)

-- The bytes of some chunks, of some header lines, and of a body that ends before `rest`.
abbrev pub chunks_onto : List Chunk → Text → Text
chunks_onto [] rest = rest
chunks_onto (c ∷ chunks) rest = c.line ++ 13 ∷ 10 ∷ (c.payload ++ 13 ∷ 10 ∷ chunks_onto chunks rest)

abbrev pub lines_onto : List Text → Text → Text
lines_onto [] rest = rest
lines_onto (line ∷ lines) rest = line ++ 13 ∷ 10 ∷ lines_onto lines rest

abbrev pub body_onto : List Chunk → Text → List Text → Text → Text
body_onto chunks last trailer rest =
    chunks_onto chunks (last ++ 13 ∷ 10 ∷ lines_onto trailer (13 ∷ 10 ∷ rest))

abbrev pub sink_all : {S : Type 0} → (S → Text → Option S) → S → List Chunk → Option S
sink_all sink s [] = some s
sink_all sink s (c ∷ chunks) = and_then (sink s c.payload) (λ s2. sink_all sink s2 chunks)

after_crlf-some :
    (rest pending tail : Text) (stream : Stream)
    → 2 ≤ length pending
    → pending ++ tail ≡ 13 ∷ 10 ∷ rest
    → (after_crlf (pending, stream) ≡ some (drop 2 pending, stream))
      × (drop 2 pending ++ tail ≡ rest)
after_crlf-some rest [] tail stream h e = absurd (omega (arith, h))
after_crlf-some rest (x ∷ []) tail stream h e = absurd (omega (arith, h))
after_crlf-some rest (x ∷ y ∷ pending) tail stream h e =
    let first = cons_head x 13 _ _ e in
    let e2 = cons_tail x 13 _ _ e in
    let second = cons_head y 10 _ _ e2 in
    (if_true (x == 13 && y == 10) _ _ (ground (arith, first, second)), cons_tail y 10 _ _ e2)

-- The line end after a chunk's bytes is read, and the rest is left.
chunk_end-some :
    (rest : Text) (pieces : List Text) (pending : Text)
    → Pieces pieces
    → pending ++ concat pieces ≡ 13 ∷ 10 ∷ rest
    → (left : Left rest) × (and_then (read_two pending (reads pieces)) after_crlf
        ≡ some (source_of left))
unfolding read_two
chunk_end-some rest [] pending whole e =
    let two : 2 ≤ length pending = omega (arith, ap length e, length-append pending []) in
    let (same, left) = after_crlf-some rest pending [] [] two e in
    (
      record { pending = drop 2 pending; pieces = []; whole = tt; total = left },
      ap (λ o. and_then o after_crlf) (if_false (ltb (length pending) 2) _ _ (ground (arith, two)))
          ∙ same,
    )
chunk_end-some rest (piece ∷ pieces) pending whole e = elim (Bool-cases (ltb (length pending) 2)) [
  | inl short ↦
      let (left, e2) =
        chunk_end-some rest pieces (pending ++ piece) whole.1
          (append_assoc pending piece (concat pieces) ∙ e) in
      (
        left,
        ap (λ o. and_then o after_crlf) (if_true (ltb (length pending) 2) _ _ short)
            ∙ (ap (λ o. and_then (and_then o (λ p. read_two p (reads pieces))) after_crlf)
                  (joined-some pending piece whole.0)
                ∙ e2),
      )
  | inr long ↦
      let (same, left) =
        after_crlf-some rest pending (piece ++ concat pieces) (reads (piece ∷ pieces))
          (ground (arith, long)) e in
      (
        record { pending = drop 2 pending; pieces = piece ∷ pieces; whole = whole; total = left },
        ap (λ o. and_then o after_crlf) (if_false (ltb (length pending) 2) _ _ long) ∙ same,
      )
]

-- The header lines after the last chunk are skipped.
read_trailer-some :
    (fuel : ℕ) (lines : List Text) (rest pending : Text) (pieces : List Text)
    → length lines < fuel
    → All (λ l. NoReturn l × (0 < length l)) lines
    → Pieces pieces
    → pending ++ concat pieces ≡ lines_onto lines (13 ∷ 10 ∷ rest)
    → (left : Left rest) × (read_trailer fuel (pending, reads pieces) ≡ some (source_of left))
unfolding read_trailer
read_trailer-some zero lines rest pending pieces enough h whole e = absurd (omega (arith, enough))
read_trailer-some (suc fuel) [] rest pending pieces enough h whole e =
    let (left, e2) = read_line-some false [] rest pieces pending tt (λ no. cc) whole e in
    (left, ap (λ o. and_then o (λ l. trailer_next (read_trailer fuel l.1) l.0 l.1)) e2)
read_trailer-some (suc fuel) (line ∷ lines) rest pending pieces enough h whole e =
    let (left, e2) = read_line-some false line _ pieces pending h.0.0 (λ no. cc) whole e in
    let (left2, e3) =
      read_trailer-some fuel lines rest left.pending left.pieces (omega (arith, enough)) h.1
        left.whole left.total in
    (
      left2,
      ap (λ o. and_then o (λ l. trailer_next (read_trailer fuel l.1) l.0 l.1)) e2
          ∙ (further line h.0.1 (source_of left) ∙ e3),
    )
  where
    further :
        (l : Text)
        → 0 < length l
        → (source : Source)
        → trailer_next (read_trailer fuel source) l source ≡ read_trailer fuel source
    further [] pos source = absurd (omega (arith, pos))
    further (b ∷ l) pos source = refl

length-chunks_onto :
    (chunks : List Chunk) (rest : Text)
    → length chunks + length rest ≤ length (chunks_onto chunks rest)
length-chunks_onto [] rest = omega arith
length-chunks_onto (c ∷ chunks) rest = omega (
  arith,
  length-chunks_onto chunks rest,
  length-append c.line (13 ∷ 10 ∷ (c.payload ++ 13 ∷ 10 ∷ chunks_onto chunks rest)),
  length-append c.payload (13 ∷ 10 ∷ chunks_onto chunks rest),
)

length-lines_onto :
    (lines : List Text) (rest : Text) → length lines + length rest ≤ length (lines_onto lines rest)
length-lines_onto [] rest = omega arith
length-lines_onto (l ∷ lines) rest =
    omega (arith, length-lines_onto lines rest, length-append l (13 ∷ 10 ∷ lines_onto lines rest))

stream_len-reads : (pieces : List Text) → stream_len (reads pieces) ≡ length (concat pieces)
stream_len-reads [] = refl
stream_len-reads (p ∷ pieces) =
    omega (arith, stream_len-reads pieces, length-append p (concat pieces))

module _ {S : Type 0} (sink : S → Text → Option S) (additive : Additive sink) where
  abbrev pub Arrives : ℕ → S → List Chunk → Text → Text → List Text → Type 0
  Arrives fuel s chunks rest pending pieces =
      (left : Left rest) × (chunk_loop sink fuel s (pending, reads pieces)
        ≡ and_then (sink_all sink s chunks) (λ s2. some (s2, source_of left)))

  last_chunk :
      (fuel : ℕ) (s : S) (last : Text) (trailer : List Text) (rest pending : Text)
      (pieces : List Text)
      → length trailer < fuel
      → NoReturn last × (length last < line_limit) × (chunk_size last ≡ some 0)
      → All (λ l. NoReturn l × (0 < length l)) trailer
      → Pieces pieces
      → pending ++ concat pieces ≡ last ++ 13 ∷ 10 ∷ lines_onto trailer (13 ∷ 10 ∷ rest)
      → Arrives (suc fuel) s [] rest pending pieces
  unfolding chunk_loop
  last_chunk fuel s last trailer rest pending pieces enough h ht whole e =
      let rec = λ (s2 : S) (source : Source). chunk_loop sink fuel s2 source in
      let (left, e2) = read_line-some true last _ pieces pending h.0 (λ yes. h.1) whole e in
      let (left2, e3) =
        read_trailer-some fuel trailer rest left.pending left.pieces enough ht left.whole
          left.total in
      (
        left2,
        ap (λ o. and_then o (chunk_line sink rec fuel s)) e2
            ∙ (ap (λ o. and_then o (sized sink rec fuel s (source_of left))) h.2
                ∙ ap (λ o. and_then o (λ r. some (s, r))) e3),
      )

  next_chunk :
      (fuel : ℕ) (s : S) (c : Chunk) (chunks : List Chunk) (onto rest pending : Text)
      (pieces : List Text)
      → Sent c
      → Pieces pieces
      → pending ++ concat pieces ≡ c.line ++ 13 ∷ 10 ∷ (c.payload ++ 13 ∷ 10 ∷ onto)
      → ((s2 : S) (left : Left onto) → Arrives fuel s2 chunks rest left.pending left.pieces)
      → Arrives (suc fuel) s (c ∷ chunks) rest pending pieces
  unfolding chunk_loop
  next_chunk fuel s c chunks onto rest pending pieces h whole e later =
      let rec = λ (s2 : S) (source : Source). chunk_loop sink fuel s2 source in
      let n = length c.payload in
      let (left, e2) = read_line-some true c.line _ pieces pending h.0 (λ yes. h.1) whole e in
      let (left2, e3) =
        deliver-some sink additive s c.payload _ left.pieces left.pending h.3 left.whole
          left.total in
      let (left3, e4) = chunk_end-some onto left2.pieces left2.pending left2.whole left2.total in
      let (left4, e5) = by_state left3 (sink s c.payload) in
      (
        left4,
        ap (λ o. and_then o (chunk_line sink rec fuel s)) e2
            ∙ (ap (λ o. and_then o (sized sink rec fuel s (source_of left))) h.2
                ∙ (if_false (n == 0) _ _ (not_zero sink additive n h.3)
                    ∙ (ap
                          (λ o.
                            and_then o
                              (λ (d : S × Source). and_then (chunk_end sink d.1) (λ r. rec d.0 r)))
                          e3
                        ∙ (and_then_assoc (sink s c.payload) _ _
                            ∙ (and_then_ext (sink s c.payload) _ _
                                  (λ s2 yes. ap (λ o. and_then o (λ r. rec s2 r)) e4)
                                ∙ e5))))),
      )
    where
      by_state :
          (left3 : Left onto) (o : Option S)
          → (left : Left rest) × (and_then o (λ s2. chunk_loop sink fuel s2 (source_of left3))
              ≡ and_then
                  (and_then o (λ s2. sink_all sink s2 chunks))
                  (λ s3. some (s3, source_of left)))
      by_state left3 none = (rest_kept rest, refl)
      by_state left3 (some s2) = later s2 left3

  chunk_loop-some :
      (fuel : ℕ) (s : S) (chunks : List Chunk) (last : Text) (trailer : List Text)
      (rest pending : Text) (pieces : List Text)
      → length chunks + length trailer + 1 < fuel
      → All Sent chunks
      → NoReturn last × (length last < line_limit) × (chunk_size last ≡ some 0)
      → All (λ l. NoReturn l × (0 < length l)) trailer
      → Pieces pieces
      → pending ++ concat pieces ≡ body_onto chunks last trailer rest
      → Arrives fuel s chunks rest pending pieces
  chunk_loop-some zero s chunks last trailer rest pending pieces enough h hl ht whole e =
      absurd (omega (arith, enough))
  chunk_loop-some (suc fuel) s [] last trailer rest pending pieces enough h hl ht whole e =
      last_chunk fuel s last trailer rest pending pieces (omega (arith, enough)) hl ht whole e
  chunk_loop-some (suc fuel) s (c ∷ chunks) last trailer rest pending pieces enough h hl ht whole
        e =
      next_chunk fuel s c chunks _ rest pending pieces h.0 whole e (λ s2 left.
        chunk_loop-some fuel s2 chunks last trailer rest left.pending left.pieces
          (omega (arith, enough)) h.1 hl ht left.whole left.total)

-- A chunked body that was sent as the format says arrives whole, however the connection cuts it:
-- the loops end, and the sink gets the bytes of the chunks in order, up to its first error. Of what
-- follows the body, a first part, `left.pending`, was read with the body and is dropped; exactly the
-- rest of it is still to be read from the connection. The sink does not tell one part from two; a
-- chunk's line has no carriage return, is shorter than the limit, and reads as the number of its
-- bytes.
pub stream_chunked_body-some :
    {S : Type 0} (sink : S → Text → Option S) (s : S) (chunks : List Chunk) (last : Text)
    (trailer : List Text) (rest pending : Text) (pieces : List Text)
    → Additive sink
    → All Sent chunks
    → NoReturn last × (length last < line_limit) × (chunk_size last ≡ some 0)
    → All (λ l. NoReturn l × (0 < length l)) trailer
    → Pieces pieces
    → pending ++ concat pieces ≡ body_onto chunks last trailer rest
    → (left : Left rest) × (stream_chunked_body sink s pending (reads pieces)
        ≡ and_then (sink_all sink s chunks) (λ s2. some (s2, reads left.pieces)))
unfolding stream_chunked_body
stream_chunked_body-some sink s chunks last trailer rest pending pieces additive h hl ht whole e =
    let (left, e2) =
      chunk_loop-some sink additive (suc (length pending + stream_len (reads pieces))) s chunks last
        trailer rest pending pieces
        (omega (
          arith,
          ap length e,
          length-append pending (concat pieces),
          stream_len-reads pieces,
          length-chunks_onto chunks (last ++ 13 ∷ 10 ∷ lines_onto trailer (13 ∷ 10 ∷ rest)),
          length-append last (13 ∷ 10 ∷ lines_onto trailer (13 ∷ 10 ∷ rest)),
          length-lines_onto trailer (13 ∷ 10 ∷ rest),
        ))
        h hl ht whole e in
    (
      left,
      ap (λ o. and_then o (drop_pending sink)) e2
          ∙ and_then_assoc (sink_all sink s chunks) _ (drop_pending sink),
    )
