-- ===== src/Peer/Ndjson.antt =====
-- The lines of a chunked response (src/core/machines.rs): the splitter is the sink of the body.
use auto_sync.Prelude.{
  ◌<◌, ◌≡◌, refl, ap, sym, ◌∙◌, Option, some, List, [], ◌∷◌, ◌++◌, append_assoc, Text, All, length,
  collect,
}
use auto_sync.Peer.Lines.{
  newline, and_then, and_then_assoc, and_then_ext, strip_cr, Splitter, feed_loop, feed, finish,
  finish_line,
}
use auto_sync.Peer.Framing.{
  Unbroken, feed_all, each_line, feed_loop-append, feed_loop-Unbroken, carry-Unbroken,
  read_lines-each_line,
}
use auto_sync.Peer.Chunked.{Stream, line_limit, chunk_size, stream_chunked_body}
use auto_sync.Peer.Reading.{NoReturn, Pieces, concat, reads}
use auto_sync.Peer.Delivered.{Additive}
use auto_sync.Peer.Bodies.{Chunk, Sent, body_onto, sink_all, stream_chunked_body-some}

-- The chunked branch of a request, without the mark that something was delivered: the callback's state once the body is read.
unfoldable pub ndjson_chunked : {S : Type 0} → (S → Text → Option S) → S → Text → Stream → Option S
unfolding stream_chunked_body feed finish
ndjson_chunked on_line s pending stream =
    and_then (stream_chunked_body (feed on_line) (record { carry = []; state = s }) pending stream)
      (λ r. finish on_line r.0)

module _ {S : Type 0} (on_line : S → Text → Option S) where
  -- The splitter does not tell one part from two.
  Additive-feed : Additive (feed on_line)
  unfolding feed
  Additive-feed sp a b =
      ap (feed_loop on_line [] sp.state) (sym (append_assoc sp.carry a b))
      ∙ (feed_loop-append on_line [] (sp.carry ++ a) b sp.state
          ∙ and_then_ext (feed_loop on_line [] sp.state (sp.carry ++ a)) _ _ (λ sp2 e. sym (
              feed_loop-Unbroken on_line [] sp2.carry b sp2.state
                (carry-Unbroken on_line [] (sp.carry ++ a) sp.state sp2 tt e))))

  abbrev pub payloads : List Chunk → List Text
  payloads [] = []
  payloads (c ∷ chunks) = c.payload ∷ payloads chunks

  sink_all-feed :
      (sp : Splitter S) (chunks : List Chunk)
      → sink_all (feed on_line) sp chunks ≡ feed_all on_line sp (payloads chunks)
  unfolding feed_all
  sink_all-feed sp [] = refl
  sink_all-feed sp (c ∷ chunks) =
      and_then_ext (feed on_line sp c.payload) _ _ (λ sp2 e. sink_all-feed sp2 chunks)

-- Lines that were sent in chunks, cut anywhere, over a connection that cuts them again anywhere,
-- reach the callback as they were sent, in order, up to its first error, and then the last one
-- where the body does not end with a line end.
pub ndjson_chunked-each_line :
    {S : Type 0} (on_line : S → Text → Option S) (s : S) (chunks : List Chunk) (last : Text)
    (trailer : List Text) (rest pending : Text) (pieces : List Text) (lines : List Text)
    (last_line : Text)
    → All Sent chunks
    → NoReturn last × (length last < line_limit) × (chunk_size last ≡ some 0)
    → All (λ l. NoReturn l × (0 < length l)) trailer
    → Pieces pieces
    → pending ++ concat pieces ≡ body_onto chunks last trailer rest
    → All (λ l. Unbroken l × (strip_cr l ≡ l)) lines
    → Unbroken last_line
    → collect (λ c. c) (payloads on_line chunks)
      ≡ collect (λ l. l ++ newline ∷ []) lines ++ last_line
    → ndjson_chunked on_line s pending (reads pieces)
      ≡ and_then (each_line on_line s lines) (finish_line on_line last_line)
unfolding ndjson_chunked
ndjson_chunked-each_line on_line s chunks last trailer rest pending pieces lines last_line h hl ht
      whole e hlines hlast body =
    let sp : Splitter _ = record { carry = []; state = s } in
    let (left, e2) =
      stream_chunked_body-some (feed on_line) sp chunks last trailer rest pending pieces
        (Additive-feed on_line) h hl ht whole e in
    ap (λ o. and_then o (λ r. finish on_line r.0)) e2
    ∙ (and_then_assoc (sink_all (feed on_line) sp chunks) _ _
        ∙ (ap (λ o. and_then o (finish on_line)) (sink_all-feed on_line sp chunks)
            ∙ read_lines-each_line on_line s lines last_line (payloads on_line chunks) hlines hlast
                body))
