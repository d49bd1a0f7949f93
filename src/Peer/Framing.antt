-- ===== src/Peer/Framing.antt =====
-- The lines do not depend on how the body is cut into pieces (src/core/machines.rs).
use auto_sync.Prelude.{
  ◌==◌, ◌≡◌, refl, ap, sym, subst, ◌∙◌, false, Bool-cases, inl, inr, Option, none, some, List, [],
  ◌∷◌, ◌++◌, if_true, if_false, Text, All, collect, append-nil, append_assoc,
}
use auto_sync.Peer.Lines.{
  newline, and_then, and_then_assoc, and_then_ext, strip_cr, Splitter, feed_loop, feed, finish,
  finish_line,
}

-- A text without line ends.
abbrev pub Unbroken : Text → Type 0
Unbroken text = All (λ b. b == newline ≡ false) text

-- What the reader of the body hands to the splitter, piece by piece, with the end of the body.
unfoldable pub feed_all :
    {S : Type 0} → (S → Text → Option S) → Splitter S → List Text → Option (Splitter S)
unfolding feed
feed_all on_line sp [] = some sp
feed_all on_line sp (chunk ∷ chunks) =
    and_then (feed on_line sp chunk) (λ sp2. feed_all on_line sp2 chunks)

abbrev pub read_lines : {S : Type 0} → (S → Text → Option S) → S → List Text → Option S
read_lines on_line s chunks =
    and_then (feed_all on_line (record { carry = []; state = s }) chunks) (finish on_line)

-- The callback on each line.
abbrev pub each_line : {S : Type 0} → (S → Text → Option S) → S → List Text → Option S
each_line on_line s [] = some s
each_line on_line s (line ∷ lines) = and_then (on_line s line) (λ s2. each_line on_line s2 lines)

module _ {S : Type 0} (on_line : S → Text → Option S) where
  -- The loop over a line's bytes only gathers them.
  pub feed_loop-Unbroken :
      (line text rest : Text) (s : S)
      → Unbroken text
      → feed_loop on_line line s (text ++ rest) ≡ feed_loop on_line (line ++ text) s rest
  unfolding feed_loop
  feed_loop-Unbroken line [] rest s h = ap (λ l. feed_loop on_line l s rest) (sym (append-nil line))
  feed_loop-Unbroken line (b ∷ text) rest s h =
      if_false (b == newline) _ _ h.0
      ∙ (feed_loop-Unbroken (line ++ b ∷ []) text rest s h.1
          ∙ ap (λ l. feed_loop on_line l s rest) (append_assoc line (b ∷ []) text))

  pub feed_loop-append :
      (line a b : Text) (s : S)
      → feed_loop on_line line s (a ++ b)
        ≡ and_then
            (feed_loop on_line line s a)
            (λ (sp : Splitter S). feed_loop on_line sp.carry sp.state b)
  unfolding feed_loop
  feed_loop-append line [] b s = refl
  feed_loop-append line (x ∷ a) b s = elim (Bool-cases (x == newline)) [
    | inl h ↦
        if_true (x == newline) _ _ h
        ∙ (and_then_ext (on_line s (strip_cr line)) _ _ (λ s2 e. feed_loop-append [] a b s2)
            ∙ (sym (and_then_assoc (on_line s (strip_cr line)) _ _)
                ∙ ap (λ o. and_then o (λ (sp : Splitter S). feed_loop on_line sp.carry sp.state b))
                    (sym (if_true (x == newline) _ _ h))))
    | inr h ↦
        if_false (x == newline) _ _ h
        ∙ (feed_loop-append (line ++ x ∷ []) a b s
            ∙ ap (λ o. and_then o (λ (sp : Splitter S). feed_loop on_line sp.carry sp.state b))
                (sym (if_false (x == newline) _ _ h)))
  ]

  -- What is carried over has no line end.
  pub carry-Unbroken :
      (line text : Text) (s : S) (sp : Splitter S)
      → Unbroken line
      → feed_loop on_line line s text ≡ some sp
      → Unbroken sp.carry
  unfolding feed_loop
  carry-Unbroken line [] s sp h e = let same : line ≡ sp.carry = cc in subst Unbroken same h
  carry-Unbroken line (x ∷ text) s sp h e = elim (Bool-cases (x == newline)) [
    | inl t ↦
        answered (on_line s (strip_cr line)) (λ s2 e2. carry-Unbroken [] text s2 sp tt e2)
          (sym (if_true (x == newline) _ _ t) ∙ e)
    | inr t ↦
        carry-Unbroken (line ++ x ∷ []) text s sp (last line h t)
          (sym (if_false (x == newline) _ _ t) ∙ e)
  ]
    where
      last : (l : Text) → Unbroken l → x == newline ≡ false → Unbroken (l ++ x ∷ [])
      last [] u t = (t, tt)
      last (y ∷ l) u t = (u.0, last l u.1 t)

      answered :
          (o : Option S)
          → ((s2 : S) → feed_loop on_line [] s2 text ≡ some sp → Unbroken sp.carry)
          → and_then o (λ s2. feed_loop on_line [] s2 text) ≡ some sp
          → Unbroken sp.carry
      answered none rec e2 = cc
      answered (some s2) rec e2 = rec s2 e2

  feed_all-feed_loop :
      (line : Text) (s : S) (chunks : List Text)
      → Unbroken line
      → feed_all on_line (record { carry = line; state = s }) chunks
        ≡ feed_loop on_line line s (collect (λ c. c) chunks)
  unfolding feed_all feed feed_loop
  feed_all-feed_loop line s [] h = refl
  feed_all-feed_loop line s (chunk ∷ chunks) h =
      ap (λ o. and_then o (λ sp. feed_all on_line sp chunks)) (feed_loop-Unbroken [] line chunk s h)
      ∙ (and_then_ext (feed_loop on_line line s chunk) _ _ (λ sp e.
            feed_all-feed_loop sp.carry sp.state chunks (carry-Unbroken line chunk s sp h e))
          ∙ sym (feed_loop-append line chunk (collect (λ c. c) chunks) s))

  each-feed_loop :
      (s : S) (lines : List Text) (last : Text)
      → All (λ l. Unbroken l × (strip_cr l ≡ l)) lines
      → Unbroken last
      → and_then
          (feed_loop on_line [] s (collect (λ l. l ++ newline ∷ []) lines ++ last))
          (finish on_line)
        ≡ and_then (each_line on_line s lines) (finish_line on_line last)
  unfolding feed_loop finish
  each-feed_loop s [] last h u =
      ap (λ t. and_then (feed_loop on_line [] s t) (finish on_line)) (sym (append-nil last))
      ∙ ap (λ o. and_then o (finish on_line)) (feed_loop-Unbroken [] last [] s u)
  each-feed_loop s (line ∷ lines) last h u =
      let rest = collect (λ l. l ++ newline ∷ []) lines in
      let assoc : ((line ++ newline ∷ []) ++ rest) ++ last ≡ line ++ newline ∷ (rest ++ last) =
        append_assoc (line ++ newline ∷ []) rest last
        ∙ append_assoc line (newline ∷ []) (rest ++ last) in
      ap (λ t. and_then (feed_loop on_line [] s t) (finish on_line)) assoc
      ∙ (ap (λ o. and_then o (finish on_line))
            (feed_loop-Unbroken [] line (newline ∷ (rest ++ last)) s h.0.0)
          ∙ (ap
                (λ l.
                  and_then (and_then (on_line s l) (λ s2. feed_loop on_line [] s2 (rest ++ last)))
                    (finish on_line))
                h.0.1
              ∙ (and_then_assoc (on_line s line) _ _
                  ∙ (and_then_ext (on_line s line) _ _ (λ s2 e. each-feed_loop s2 lines last h.1 u)
                      ∙ sym (and_then_assoc (on_line s line) _ _)))))

-- However a body of lines is cut into pieces, the callback gets exactly those lines, in order, and
-- then the last one where the body does not end with a line end, up to its first error. A line has
-- no line end inside, and only the last may end in a carriage return.
pub read_lines-each_line :
    {S : Type 0} (on_line : S → Text → Option S) (s : S) (lines : List Text) (last : Text)
    (chunks : List Text)
    → All (λ l. Unbroken l × (strip_cr l ≡ l)) lines
    → Unbroken last
    → collect (λ c. c) chunks ≡ collect (λ l. l ++ newline ∷ []) lines ++ last
    → read_lines on_line s chunks ≡ and_then (each_line on_line s lines) (finish_line on_line last)
read_lines-each_line on_line s lines last chunks h u e =
    ap (λ o. and_then o (finish on_line))
      (feed_all-feed_loop on_line [] s chunks tt ∙ ap (feed_loop on_line [] s) e)
    ∙ each-feed_loop on_line s lines last h u
