-- ===== src/Peer/Delivered.antt =====
-- The payload of a chunk, read from a connection that cuts its bytes anywhere (src/core/machines.rs).
use auto_sync.Prelude.{
  ℕ, zero, suc, ◌+◌, ◌-◌, ◌≤◌, ◌<◌, ◌≡◌, refl, ap, sym, ◌∙◌, false, Bool-cases, inl, inr, ◌==◌,
  Option, none, some, List, [], ◌∷◌, ◌++◌, append-nil, if_false, Text, leb, min, length,
  length-append, take, drop, take_all, drop_all, arith,
}
use auto_sync.Peer.Lines.{and_then, and_then_assoc}
use auto_sync.Peer.Chunked.{Stream, sink_pending, deliver, deliver_end, deliver_more}
use auto_sync.Peer.Reading.{
  Pieces, concat, reads, Left, source_of, cons_head, cons_tail, joined-some,
}

-- A payload that ends within the bytes that wait, and one that goes on after them.
payload_within :
    (pending tail payload rest : Text)
    → pending ++ tail ≡ payload ++ rest
    → length payload ≤ length pending
    → (take (length payload) pending ≡ payload) × (drop (length payload) pending ++ tail ≡ rest)
payload_within pending tail [] rest e h = (refl, e)
payload_within [] tail (c ∷ payload) rest e h = absurd (omega (arith, h))
payload_within (b ∷ pending) tail (c ∷ payload) rest e h =
    let (same, left) =
      payload_within pending tail payload rest (cons_tail b c _ _ e) (omega (arith, h)) in
    (ap (λ l. b ∷ l) same ∙ ap (λ x. x ∷ payload) (cons_head b c _ _ e), left)

payload_beyond :
    (pending tail payload rest : Text)
    → pending ++ tail ≡ payload ++ rest
    → length pending < length payload
    → (more : Text) × (payload ≡ pending ++ more) × (tail ≡ more ++ rest) × (0 < length more)
payload_beyond [] tail payload rest e h = (payload, refl, e, h)
payload_beyond (b ∷ pending) tail [] rest e h = absurd (omega (arith, h))
payload_beyond (b ∷ pending) tail (c ∷ payload) rest e h =
    let (more, same, left, pos) =
      payload_beyond pending tail payload rest (cons_tail b c _ _ e) (omega (arith, h)) in
    (more, ap (λ x. x ∷ payload) (sym (cons_head b c _ _ e)) ∙ ap (λ l. b ∷ l) same, left, pos)

pub rest_kept : (rest : Text) → Left rest
rest_kept rest = record { pending = rest; pieces = []; whole = tt; total = append-nil rest }

-- The state after two parts is that after both at once.
abbrev pub Additive : {S : Type 0} → (S → Text → Option S) → Type 0
Additive {S} sink = (s : S) (a b : Text) → sink s (a ++ b) ≡ and_then (sink s a) (λ s2. sink s2 b)

module _ {S : Type 0} (sink : S → Text → Option S) (additive : Additive sink) where
  abbrev pub Delivered : S → Text → Text → Text → Stream → Type 0
  Delivered s payload rest pending stream =
      (left : Left rest) × (deliver sink s (length payload) pending stream
        ≡ and_then (sink s payload) (λ s2. some (s2, source_of left)))

  sink_pending-within :
      (s : S) (payload pending : Text)
      → 0 < length payload
      → length payload ≤ length pending
      → take (length payload) pending ≡ payload
      → sink_pending sink s (length payload) pending
        ≡ and_then (sink s payload) (λ s2. some (s2, 0, drop (length payload) pending))
  sink_pending-within s [] pending pos h e = absurd (omega (arith, pos))
  sink_pending-within s (c ∷ payload) [] pos h e = absurd (omega (arith, h))
  sink_pending-within s (c ∷ payload) (b ∷ pending) pos h e =
      let n = length (c ∷ payload) in
      let size : min n (length (b ∷ pending)) ≡ n = omega (arith, h) in
      let none_left : n - n ≡ 0 = omega arith in
      ap
        (λ k.
          and_then (sink s (take k (b ∷ pending))) (λ s2. some (s2, n - k, drop k (b ∷ pending))))
        size
      ∙ (ap
            (λ k.
              and_then (sink s (take n (b ∷ pending))) (λ s2. some (s2, k, drop n (b ∷ pending))))
            none_left
          ∙ ap (λ t. and_then (sink s t) (λ s2. some (s2, 0, drop n (b ∷ pending)))) e)

  sink_pending-beyond :
      (s : S) (n : ℕ) (b : ℕ) (pending more : Text)
      → n ≡ length (b ∷ pending) + length more
      → sink_pending sink s n (b ∷ pending)
        ≡ and_then (sink s (b ∷ pending)) (λ s2. some (s2, length more, []))
  sink_pending-beyond s zero b pending more e = absurd (omega (arith, e))
  sink_pending-beyond s (suc n) b pending more e =
      let whole = length (b ∷ pending) in
      let size : min (suc n) whole ≡ whole = omega (arith, e) in
      let left : suc n - whole ≡ length more = omega (arith, e) in
      ap
        (λ k.
          and_then (sink s (take k (b ∷ pending)))
            (λ s2. some (s2, suc n - k, drop k (b ∷ pending))))
        size
      ∙ (ap (λ t. and_then (sink s t) (λ s2. some (s2, suc n - whole, drop whole (b ∷ pending))))
            (take_all whole (b ∷ pending) (omega arith))
          ∙ (ap (λ t. and_then (sink s (b ∷ pending)) (λ s2. some (s2, suc n - whole, t)))
                (drop_all whole (b ∷ pending) (omega arith))
              ∙ ap (λ k. and_then (sink s (b ∷ pending)) (λ s2. some (s2, k, []))) left))

  pub not_zero : (n : ℕ) → 0 < n → n == 0 ≡ false
  not_zero n h = ground (arith, h)

  Delivered-within :
      (s : S) (payload rest pending : Text) (pieces : List Text)
      → 0 < length payload
      → length payload ≤ length pending
      → Pieces pieces
      → pending ++ concat pieces ≡ payload ++ rest
      → Delivered s payload rest pending (reads pieces)
  unfolding deliver
  Delivered-within s payload rest pending pieces pos fits whole e =
      let (same, left) = payload_within pending (concat pieces) payload rest e fits in
      (
        record {
          pending = drop (length payload) pending;
          pieces = pieces;
          whole = whole;
          total = left;
        },
        by_pieces pieces (sink_pending-within s payload pending pos fits same),
      )
    where
      by_pieces :
          (pieces : List Text)
          → sink_pending sink s (length payload) pending
            ≡ and_then (sink s payload) (λ s2. some (s2, 0, drop (length payload) pending))
          → deliver sink s (length payload) pending (reads pieces)
            ≡ and_then
                (sink s payload)
                (λ s2. some (s2, (drop (length payload) pending, reads pieces)))
      by_pieces [] h = ap (λ o. and_then o deliver_end) h ∙ and_then_assoc (sink s payload) _ _
      by_pieces (piece ∷ pieces) h =
          ap
            (λ o. and_then o (
              deliver_more (λ s2 left p. deliver sink s2 left p (reads pieces)) (some piece)
                (reads pieces)))
            h
          ∙ and_then_assoc (sink s payload) _ _

  Delivered-beyond :
      (s : S) (payload rest piece : Text) (b : ℕ) (pending more : Text) (pieces : List Text)
      → payload ≡ (b ∷ pending) ++ more
      → 0 < length more
      → 0 < length piece
      → ((s2 : S) → Delivered s2 more rest piece (reads pieces))
      → Delivered s payload rest (b ∷ pending) (reads (piece ∷ pieces))
  unfolding deliver
  Delivered-beyond s payload rest piece b pending more pieces same pos filled later =
      let next =
        deliver_more (λ s2 left p. deliver sink s2 left p (reads pieces)) (some piece)
          (reads pieces) in
      let size : length payload ≡ length (b ∷ pending) + length more =
        ap length same ∙ length-append (b ∷ pending) more in
      let (left, e) = by_state (sink s (b ∷ pending)) in
      (
        left,
        ap (λ o. and_then o next) (sink_pending-beyond s (length payload) b pending more size)
            ∙ (and_then_assoc (sink s (b ∷ pending)) _ _
                ∙ (e
                    ∙ ap (λ o. and_then o (λ s3. some (s3, source_of left)))
                        (sym (ap (sink s) same ∙ additive s (b ∷ pending) more)))),
      )
    where
      by_state :
          (o : Option S)
          → (left : Left rest) × (and_then o (λ s2.
                deliver_more
                  (λ s3 k p. deliver sink s3 k p (reads pieces))
                  (some piece)
                  (reads pieces)
                  (s2, length more, []))
              ≡ and_then (and_then o (λ s2. sink s2 more)) (λ s3. some (s3, source_of left)))
      by_state none = (rest_kept rest, refl)
      by_state (some s2) =
          let (left, e) = later s2 in
          (
            left,
            if_false (length more == 0) _ _ (not_zero (length more) pos)
                ∙ (ap (λ o. and_then o (λ p. deliver sink s2 (length more) p (reads pieces)))
                      (joined-some [] piece filled)
                    ∙ e),
          )

  Delivered-next :
      (s : S) (payload rest piece : Text) (pieces : List Text)
      → 0 < length payload
      → 0 < length piece
      → Delivered s payload rest piece (reads pieces)
      → Delivered s payload rest [] (reads (piece ∷ pieces))
  unfolding deliver
  Delivered-next s payload rest piece pieces pos filled (left, e) = (
    left,
    if_false (length payload == 0) _ _ (not_zero (length payload) pos)
        ∙ (ap (λ o. and_then o (λ p. deliver sink s (length payload) p (reads pieces)))
              (joined-some [] piece filled)
            ∙ e),
  )

  -- The payload of a chunk goes to the sink, and what follows it is left.
  pub deliver-some :
      (s : S) (payload rest : Text) (pieces : List Text) (pending : Text)
      → 0 < length payload
      → Pieces pieces
      → pending ++ concat pieces ≡ payload ++ rest
      → Delivered s payload rest pending (reads pieces)
  deliver-some s payload rest [] pending pos whole e =
      Delivered-within s payload rest pending [] pos
        (omega (arith, ap length e, length-append pending [], length-append payload rest)) tt e
  deliver-some s payload rest (piece ∷ pieces) [] pos whole e =
      Delivered-next s payload rest piece pieces pos whole.0
        (deliver-some s payload rest pieces piece pos whole.1 e)
  deliver-some s payload rest (piece ∷ pieces) (b ∷ pending) pos whole e =
      elim (Bool-cases (leb (length payload) (length (b ∷ pending)))) [
        | inl fits ↦
            Delivered-within s payload rest (b ∷ pending) (piece ∷ pieces) pos
              (ground (arith, fits)) whole e
        | inr over ↦
            let (more, same, left, more_pos) =
              payload_beyond (b ∷ pending) (piece ++ concat pieces) payload rest e
                (ground (arith, over)) in
            Delivered-beyond s payload rest piece b pending more pieces same more_pos whole.0
              (λ s2. deliver-some s2 more rest pieces piece more_pos whole.1 left)
      ]
