-- ===== src/Peer/Reading.antt =====
-- Lines read from a connection that cuts its bytes anywhere (src/core/machines.rs).
use auto_sync.Prelude.{
  ℕ, suc, ◌+◌, ◌≤◌, ◌<◌, ◌≡◌, refl, ap, ◌∙◌, Bool, true, false, inl, inr, ◌⊎◌, ◌&&◌, ◌==◌, Option,
  none, some, List, [], ◌∷◌, ◌++◌, map, append_assoc, if_true, if_false, Text, ltb, length, take,
  drop, All, collect, arith,
}
use auto_sync.Peer.Lines.{and_then}
use auto_sync.Peer.Chunked.{
  Stream, Source, joined, one_further, find_crlf, line_limit, line_or_more, read_line,
}

abbrev pub NoReturn : Text → Type 0
NoReturn line = All (λ b. b == 13 ≡ false) line

abbrev pub Pieces : List Text → Type 0
Pieces pieces = All (λ p. 0 < length p) pieces

abbrev pub concat : List Text → Text
concat pieces = collect (λ p. p) pieces

abbrev pub reads : List Text → Stream
reads pieces = map (λ p. some p) pieces

-- Some bytes that wait and some pieces to come, which make up the rest.
pub record Left (rest : Text) : Type 0 where
  pub pending : Text
  pub pieces : List Text
  pub whole : Pieces pieces
  pub total : pending ++ concat pieces ≡ rest

abbrev pub source_of : {rest : Text} → Left rest → Source
source_of l = (l.pending, reads l.pieces)

pub cons_head : (a b : ℕ) (x y : Text) → a ∷ x ≡ b ∷ y → a ≡ b
cons_head a b x y h = cc

pub cons_tail : (a b : ℕ) (x y : Text) → a ∷ x ≡ b ∷ y → x ≡ y
cons_tail a b x y h = cc

abbrev pub Found : Text → Text → Text → Text → Type 0
Found line rest pending tail =
    ((find_crlf pending ≡ some (length line))
      × (take (length line) pending ≡ line)
      × (drop (suc (suc (length line))) pending ++ tail ≡ rest))
    ⊎ ((find_crlf pending ≡ none) × (length pending ≤ length line + 1) × (0 < length tail))

-- Either the line's end is in the bytes that wait, or they end before it.
find_crlf-line :
    (line rest pending tail : Text)
    → NoReturn line
    → pending ++ tail ≡ line ++ 13 ∷ 10 ∷ rest
    → Found line rest pending tail
unfolding find_crlf
find_crlf-line [] rest [] tail h e = inr (refl, omega arith, omega (arith, ap length e))
find_crlf-line [] rest (x ∷ []) tail h e =
    inr (refl, omega arith, omega (arith, ap length (cons_tail x 13 _ _ e)))
find_crlf-line [] rest (x ∷ y ∷ p) tail h e =
    let first = cons_head x 13 _ _ e in
    let e2 = cons_tail x 13 _ _ e in
    let second = cons_head y 10 _ _ e2 in
    inl (
      if_true (x == 13 && y == 10) _ _ (ground (arith, first, second)),
      refl,
      cons_tail y 10 _ _ e2,
    )
find_crlf-line (a ∷ line) rest [] tail h e = inr (refl, omega arith, omega (arith, ap length e))
find_crlf-line (a ∷ line) rest (x ∷ p) tail h e =
    let same = cons_head x a _ _ e in
    onward p (find_crlf-line line rest p tail h.1 (cons_tail x a _ _ e))
      (ap (λ b. b == 13) same ∙ h.0) same
  where
    onward :
        (p : Text)
        → Found line rest p tail
        → x == 13 ≡ false
        → x ≡ a
        → Found (a ∷ line) rest (x ∷ p) tail
    onward [] (inl f) not_return same = cc (f.0)
    onward [] (inr f) not_return same = inr (refl, omega arith, f.2)
    onward (y ∷ q) (inl f) not_return same = inl (
      if_false (x == 13 && y == 10) _ _ (ground (arith, not_return)) ∙ ap one_further f.0,
      ap (λ l. x ∷ l) f.1 ∙ ap (λ b. b ∷ line) same,
      f.2,
    )
    onward (y ∷ q) (inr f) not_return same = inr (
      if_false (x == 13 && y == 10) _ _ (ground (arith, not_return)) ∙ ap one_further f.0,
      omega (arith, f.1),
      f.2,
    )

pub joined-some :
    (pending piece : Text)
    → 0 < length piece
    → joined pending (some piece) ≡ some (pending ++ piece)
joined-some pending [] h = absurd (omega (arith, h))
joined-some pending (b ∷ bytes) h = refl

within_limit :
    (limited : Bool) (line pending : ℕ)
    → (limited ≡ true → line < line_limit)
    → pending ≤ line + 1
    → limited && ltb line_limit pending ≡ false
within_limit false line pending short h = refl
within_limit true line pending short h = ground (arith, short refl, h)

-- A line is read whole, and the rest is left.
pub read_line-some :
    (limited : Bool) (line rest : Text) (pieces : List Text) (pending : Text)
    → NoReturn line
    → (limited ≡ true → length line < line_limit)
    → Pieces pieces
    → pending ++ concat pieces ≡ line ++ 13 ∷ 10 ∷ rest
    → (left : Left rest) × (read_line limited pending (reads pieces) ≡ some (line, source_of left))
unfolding read_line
read_line-some limited line rest [] pending h short whole e =
    by_found (find_crlf-line line rest pending [] h e)
  where
    by_found :
        Found line rest pending []
        → (left : Left rest) × (line_or_more limited pending [] none (find_crlf pending)
            ≡ some (line, source_of left))
    by_found (inl f) = (
      record {
        pending = drop (suc (suc (length line))) pending;
        pieces = [];
        whole = tt;
        total = f.2;
      },
      ap (line_or_more limited pending [] none) f.0
          ∙ ap (λ l. some (l, (drop (suc (suc (length line))) pending, []))) f.1,
    )
    by_found (inr f) = absurd (omega (arith, f.2))
read_line-some limited line rest (piece ∷ pieces) pending h short whole e =
    by_found (find_crlf-line line rest pending (piece ++ concat pieces) h e) (
      read_line-some limited line rest pieces (pending ++ piece) h short whole.1
        (append_assoc pending piece (concat pieces) ∙ e))
  where
    more : Option (Text × Source)
    more = and_then (joined pending (some piece)) (λ p. read_line limited p (reads pieces))

    by_found :
        Found line rest pending (piece ++ concat pieces)
        → ((left : Left rest) × (read_line limited (pending ++ piece) (reads pieces)
              ≡ some (line, source_of left)))
        → (left : Left rest) × (line_or_more limited pending
              (some piece ∷ reads pieces)
              (and_then (joined pending (some piece)) (λ p. read_line limited p (reads pieces)))
              (find_crlf pending)
            ≡ some (line, source_of left))
    by_found (inl f) later = (
      record {
        pending = drop (suc (suc (length line))) pending;
        pieces = piece ∷ pieces;
        whole = whole;
        total = f.2;
      },
      ap (line_or_more limited pending (some piece ∷ reads pieces) _) f.0
          ∙ ap (λ l. some (l, (drop (suc (suc (length line))) pending, some piece ∷ reads pieces)))
              f.1,
    )
    by_found (inr f) (left, e2) =
        let fits = within_limit limited (length line) (length pending) short f.1 in
        (
          left,
          ap (line_or_more limited pending (some piece ∷ reads pieces) _) f.0
              ∙ (if_false (limited && ltb line_limit (length pending)) _ _ fits
                  ∙ (ap (λ o. and_then o (λ p. read_line limited p (reads pieces)))
                        (joined-some pending piece whole.0)
                      ∙ e2)),
        )
