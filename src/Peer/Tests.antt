-- ===== src/Peer/Tests.antt =====
-- Two lines in pieces that cut through a line end, and a pool of three connections.
use auto_sync.Prelude.{
  ◌≤◌, ◌<◌, ◌≡◌, refl, ap, sym, append_assoc, take, drop, length, All, Option, some, List, [], ◌∷◌,
  ◌++◌, Text, codes, bytes_eq, arith,
}
use auto_sync.Peer.Lines.{and_then, strip_cr, finish_line, feed, feed_loop, finish}
use auto_sync.Peer.Framing.{read_lines, each_line, feed_all}
use auto_sync.Paths.Components.{split}
use auto_sync.Peer.Chunked.{chunk_size, trim, trim_by, from_hex, hex_digits, stream_chunked_body}
use auto_sync.Prelude.Utf8.{utf8_rest}
use auto_sync.Peer.Reading.{NoReturn, Pieces, reads, Left}
use auto_sync.Peer.Bodies.{Chunk, Sent, body_onto, sink_all, stream_chunked_body-some}
use auto_sync.Peer.Ndjson.{ndjson_chunked, ndjson_chunked-each_line}
use auto_sync.Peer.Pool.{
  TcpConnectionKey, TcpConnectionPool, IsCounted, Pooled, put_connection, push_idle, key_eq,
  trim_to, count_idle, IsCounted-Pooled, trim_to-some,
}

abbrev gather : List Text → Text → Option (List Text)
gather lines line = some (lines ++ line ∷ [])

abbrev pieces : List Text
pieces = codes "{\"a\"" ∷ codes "}\n{" ∷ codes "}\n" ∷ codes "end" ∷ []

lines_run : read_lines gather [] pieces ≡ some (codes "{\"a\"}" ∷ codes "{}" ∷ codes "end" ∷ [])
unfolding feed_all feed feed_loop finish strip_cr
lines_run = refl

abbrev two_chunks : List Chunk
two_chunks =
    record { line = codes "6"; payload = codes "{\"a\"}\n" }
    ∷ record { line = codes "03;x"; payload = codes "{}\n" }
    ∷ []

abbrev sent_body : Text
sent_body = body_onto two_chunks (codes "0") (codes "x: y" ∷ []) (codes "HTTP")

abbrev cut_body : List Text
cut_body = take 2 sent_body ∷ take 9 (drop 2 sent_body) ∷ drop 11 sent_body ∷ []

two_chunks-Sent : All Sent two_chunks
unfolding chunk_size utf8_rest split trim trim_by from_hex hex_digits
two_chunks-Sent = (
  ((refl, tt), omega arith, refl, omega arith),
  (((refl, (refl, (refl, (refl, tt)))), omega arith, refl, omega arith), tt),
)

last_size : chunk_size (codes "0") ≡ some 0
unfolding chunk_size utf8_rest split trim trim_by from_hex hex_digits
last_size = refl

white_size : chunk_size (codes " 1aF\t") ≡ some 431
unfolding chunk_size utf8_rest split trim trim_by from_hex hex_digits
white_size = refl

cut_body-Pieces : Pieces cut_body
cut_body-Pieces = (omega arith, (omega arith, (omega arith, tt)))

abbrev join_bytes : Text → Text → Option Text
join_bytes text part = some (text ++ part)

trailer_lines : All (λ l. NoReturn l × (0 < length l)) (codes "x: y" ∷ [])
trailer_lines = (((refl, (refl, (refl, (refl, tt)))), omega arith), tt)

stream_chunked_body-some_example :
    (left : Left (codes "HTTP")) × (stream_chunked_body join_bytes [] [] (reads cut_body)
      ≡ and_then (sink_all join_bytes [] two_chunks) (λ s2. some (s2, reads left.pieces)))
stream_chunked_body-some_example =
    stream_chunked_body-some join_bytes [] two_chunks (codes "0") (codes "x: y" ∷ []) (codes "HTTP")
      [] cut_body (λ s a b. ap some (sym (append_assoc s a b))) two_chunks-Sent
      ((refl, tt), omega arith, last_size) trailer_lines cut_body-Pieces refl

ndjson_chunked-each_line_example :
    ndjson_chunked gather [] [] (reads cut_body)
    ≡ and_then (each_line gather [] (codes "{\"a\"}" ∷ codes "{}" ∷ [])) (finish_line gather [])
unfolding strip_cr
ndjson_chunked-each_line_example =
    ndjson_chunked-each_line gather [] two_chunks (codes "0") (codes "x: y" ∷ []) (codes "HTTP") []
      cut_body (codes "{\"a\"}" ∷ codes "{}" ∷ []) [] two_chunks-Sent
      ((refl, tt), omega arith, last_size) trailer_lines cut_body-Pieces refl
      (((refl, (refl, (refl, (refl, (refl, tt))))), refl), (((refl, (refl, tt)), refl), tt)) tt refl

abbrev peer : Text → TcpConnectionKey
peer host = record { host = host; port = 8080 }

abbrev two_idle : TcpConnectionPool
unfolding put_connection push_idle key_eq bytes_eq
two_idle =
    put_connection (peer (codes "b")) 2 4
      (put_connection (peer (codes "a")) 1 4 (record { idle = []; total_idle = 0 }))

two_idle-Pooled : Pooled two_idle
unfolding two_idle
two_idle-Pooled =
    Pooled.put (peer (codes "b")) 2 4 _ (Pooled.put (peer (codes "a")) 1 4 _ Pooled.created)

IsCounted-Pooled_example : IsCounted two_idle
IsCounted-Pooled_example = IsCounted-Pooled two_idle two_idle-Pooled

trim_to-some_example :
    (trimmed_pool : TcpConnectionPool) × (trim_to 1 two_idle ≡ some trimmed_pool)
    × (count_idle trimmed_pool.idle ≤ 1)
trim_to-some_example = trim_to-some 1 two_idle two_idle-Pooled
