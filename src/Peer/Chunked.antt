-- ===== src/Peer/Chunked.antt =====
-- `stream_chunked_body` (src/core/machines.rs), on the standard library's reading of white space
-- and of hexadecimal numbers. A connection is the list of what its reads give, some bytes each;
-- `none` is a failed read, and a read without bytes is the end. The result `none` is an error.
use auto_sync.Prelude.{
  ℕ, zero, suc, ◌+◌, ◌-◌, ◌*◌, ◌^◌, Bool, true, false, ◌&&◌, ◌||◌, ◌==◌, Option, none, some, List,
  [], ◌∷◌, ◌++◌, if◌then◌else◌, Text, ltb, leb, min, length, take, drop,
}
use auto_sync.Paths.Components.{split}
use auto_sync.Prelude.Utf8.{utf8_rest}
use auto_sync.Peer.Lines.{and_then}

abbrev pub Stream : Type 0
Stream = List (Option Text)

-- The bytes that wait to be decoded, and the connection.
abbrev pub Source : Type 0
Source = Text × Stream

-- What a read adds to the bytes that wait.
abbrev pub joined : Text → Option Text → Option Text
joined pending none = none
joined pending (some []) = none
joined pending (some (b ∷ bytes)) = some (pending ++ b ∷ bytes)

abbrev pub one_further : Option ℕ → Option ℕ
one_further none = none
one_further (some n) = some (suc n)

unfoldable pub find_crlf : Text → Option ℕ
find_crlf [] = none
find_crlf (a ∷ []) = none
find_crlf (a ∷ b ∷ data_left) =
    let later = find_crlf (b ∷ data_left) in
    if a == 13 && b == 10 then some 0 else one_further later

abbrev pub line_limit : ℕ
line_limit = 16 * 1024

-- The line's end is found, or more is read; `limited` bounds the bytes without one.
abbrev pub line_or_more :
    Bool → Text → Stream → Option (Text × Source) → Option ℕ → Option (Text × Source)
line_or_more limited pending stream more (some pos) =
    some (take pos pending, (drop (suc (suc pos)) pending, stream))
line_or_more limited pending stream more none =
    if limited && ltb line_limit (length pending) then none else more

-- A line, and what follows it; one round for a read.
unfoldable pub read_line : Bool → Text → Stream → Option (Text × Source)
unfolding find_crlf
read_line limited pending [] = line_or_more limited pending [] none (find_crlf pending)
read_line limited pending (piece ∷ stream) =
    line_or_more limited pending (piece ∷ stream)
      (and_then (joined pending piece) (λ p. read_line limited p stream)) (find_crlf pending)

-- The bytes of the white space that a text begins with, and that a reversed text begins with.
abbrev pub white_three : ℕ → ℕ → ℕ → Bool
white_three a b c =
    a == 225 && b == 154 && c == 128
    || a == 226 && b == 128 && (leb 128 c && leb c 138 || c == 168 || c == 169 || c == 175)
    || a == 226 && b == 129 && c == 159
    || a == 227 && b == 128 && c == 128

abbrev pub white_one : ℕ → Bool
white_one a = leb 9 a && leb a 13 || a == 32

abbrev pub white_two : ℕ → ℕ → Bool
white_two a b = a == 194 && (b == 133 || b == 160)

abbrev pub white_width : Text → ℕ
white_width [] = 0
white_width (a ∷ []) = if white_one a then 1 else 0
white_width (a ∷ b ∷ []) = if white_one a then 1 else if white_two a b then 2 else 0
white_width (a ∷ b ∷ c ∷ text) =
    if white_one a then 1 else if white_two a b then 2 else if white_three a b c then 3 else 0

abbrev pub white_width_rev : Text → ℕ
white_width_rev [] = 0
white_width_rev (a ∷ []) = if white_one a then 1 else 0
white_width_rev (a ∷ b ∷ []) = if white_one a then 1 else if white_two b a then 2 else 0
white_width_rev (a ∷ b ∷ c ∷ text) =
    if white_one a then 1 else if white_two b a then 2 else if white_three c b a then 3 else 0

unfoldable pub trim_by : (Text → ℕ) → ℕ → Text → Text
trim_by width skip [] = []
trim_by width (suc skip) (b ∷ text) = trim_by width skip text
trim_by width zero (b ∷ text) =
    let rest = trim_by width (width (b ∷ text) - 1) text in
    if width (b ∷ text) == 0 then b ∷ text else rest

abbrev pub reversed : Text → Text → Text
reversed [] onto = onto
reversed (b ∷ text) onto = reversed text (b ∷ onto)

unfoldable pub trim : Text → Text
unfolding trim_by
trim text = reversed (trim_by white_width_rev 0 (reversed (trim_by white_width 0 text) [])) []

abbrev pub hex_digit : ℕ → Option ℕ
hex_digit b =
    if leb 48 b && leb b 57
    then some (b - 48)
    else if leb 97 b && leb b 102
    then some (b - 87)
    else if leb 65 b && leb b 70
    then some (b - 55)
    else none

abbrev pub push_hex : Option ℕ → Option ℕ → Option ℕ
push_hex (some n) (some d) = if ltb (n * 16 + d) (2 ^ 64) then some (n * 16 + d) else none
push_hex _ _ = none

unfoldable pub hex_digits : Option ℕ → Text → Option ℕ
hex_digits n [] = n
hex_digits n (b ∷ text) = hex_digits (push_hex n (hex_digit b)) text

abbrev pub hex_after_sign : Text → Option ℕ
hex_after_sign [] = none
hex_after_sign (b ∷ text) = hex_digits (some 0) (b ∷ text)

-- `usize::from_str_radix(.., 16)`
unfoldable pub from_hex : Text → Option ℕ
unfolding hex_digits
from_hex [] = none
from_hex (b ∷ text) = if b == 43 then hex_after_sign text else hex_after_sign (b ∷ text)

abbrev pub first_part : List Text → Text
first_part [] = []
first_part (part ∷ parts) = part

-- The size in a chunk's first line, before its extensions.
unfoldable pub chunk_size : Text → Option ℕ
unfolding utf8_rest split trim from_hex
chunk_size line =
    if utf8_rest 0 128 191 line then from_hex (trim (first_part (split 59 line))) else none

-- The header lines after the last chunk; a line without bytes ends them.
abbrev pub trailer_next : Option Source → Text → Source → Option Source
trailer_next more [] source = some source
trailer_next more (b ∷ line) source = more

unfoldable pub read_trailer : ℕ → Source → Option Source
unfolding read_line
read_trailer zero source = none
read_trailer (suc fuel) source =
    and_then (read_line false source.0 source.1) (λ l. trailer_next (read_trailer fuel l.1) l.0 l.1)

-- `while pending.len() < 2 { fill }`
unfoldable pub read_two : Text → Stream → Option Source
read_two pending [] = if ltb (length pending) 2 then none else some (pending, [])
read_two pending (piece ∷ stream) =
    let more = and_then (joined pending piece) (λ p. read_two p stream) in
    if ltb (length pending) 2 then more else some (pending, piece ∷ stream)

abbrev pub after_crlf : Source → Option Source
after_crlf (a ∷ b ∷ pending, stream) = if a == 13 && b == 10 then some (pending, stream) else none
after_crlf _ = none

abbrev pub stream_len : Stream → ℕ
stream_len [] = 0
stream_len (none ∷ stream) = stream_len stream
stream_len (some bytes ∷ stream) = length bytes + stream_len stream

-- What follows once the bytes that wait are used up: the end of the chunk, or a read.
abbrev pub deliver_end : {S : Type 0} → S × ℕ × Text → Option (S × Source)
deliver_end (s, remaining, pending) = if remaining == 0 then some (s, (pending, [])) else none

abbrev pub deliver_more :
    {S : Type 0}
    → (S → ℕ → Text → Option (S × Source))
    → Option Text
    → Stream
    → S × ℕ × Text
    → Option (S × Source)
deliver_more rest piece stream (s, remaining, pending) =
    let more = and_then (joined pending piece) (λ p. rest s remaining p) in
    if remaining == 0 then some (s, (pending, piece ∷ stream)) else more

module _ {S : Type 0} (sink : S → Text → Option S) where
  -- The bytes that wait go to the sink, as far as they belong to the chunk.
  abbrev pub sink_pending : S → ℕ → Text → Option (S × ℕ × Text)
  sink_pending s remaining [] = some (s, remaining, [])
  sink_pending s zero (b ∷ pending) = some (s, zero, b ∷ pending)
  sink_pending s (suc n) (b ∷ pending) =
      let size = min (suc n) (length (b ∷ pending)) in
      and_then (sink s (take size (b ∷ pending)))
        (λ s2. some (s2, suc n - size, drop size (b ∷ pending)))

  -- `while remaining > 0 { .. }`; one round for a read.
  unfoldable pub deliver : S → ℕ → Text → Stream → Option (S × Source)
  deliver s remaining pending [] = and_then (sink_pending s remaining pending) deliver_end
  deliver s remaining pending (piece ∷ stream) =
      and_then (sink_pending s remaining pending)
        (deliver_more (λ s2 left p. deliver s2 left p stream) piece stream)

  abbrev pub chunk_end : Source → Option Source
  chunk_end source = and_then (read_two source.0 source.1) after_crlf

  abbrev pub ended : ℕ → S → Source → Option (S × Source)
  ended fuel s source = and_then (read_trailer fuel source) (λ rest. some (s, rest))

  -- A chunk of that size; the one without bytes is the last.
  abbrev pub sized : (S → Source → Option (S × Source)) → ℕ → S → Source → ℕ → Option (S × Source)
  sized rest fuel s source size =
      let more =
        and_then (deliver s size source.0 source.1)
          (λ d. and_then (chunk_end d.1) (λ left. rest d.0 left)) in
      if size == 0 then ended fuel s source else more

  abbrev pub chunk_line :
      (S → Source → Option (S × Source)) → ℕ → S → Text × Source → Option (S × Source)
  chunk_line rest fuel s l = and_then (chunk_size l.0) (sized rest fuel s l.1)

  unfoldable pub chunk_loop : ℕ → S → Source → Option (S × Source)
  unfolding read_line read_two deliver read_trailer
  chunk_loop zero s source = none
  chunk_loop (suc fuel) s source =
      and_then (read_line true source.0 source.1)
        (chunk_line (λ s2 left. chunk_loop fuel s2 left) fuel s)

  -- The bytes that were read with the body and not used are dropped with the call.
  abbrev pub drop_pending : S × Source → Option (S × Stream)
  drop_pending (s, (pending, stream)) = some (s, stream)

  -- The sink's state, and the connection after the call. Each round takes a line's end from the
  -- connection, so its bytes bound the rounds.
  unfoldable pub stream_chunked_body : S → Text → Stream → Option (S × Stream)
  unfolding chunk_loop
  stream_chunked_body s pending stream =
      and_then (chunk_loop (suc (length pending + stream_len stream)) s (pending, stream))
        drop_pending
