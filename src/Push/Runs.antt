-- ===== src/Push/Runs.antt =====
-- Runs of the pool of `push_entries_parallel` (src/core/sync/mod.rs): whatever the interleaving.
use auto_sync.Prelude.{
  ℕ, zero, suc, ◌+◌, ◌≤◌, ◌<◌, ◌≡◌, ◌≢◌, refl, ap, sym, subst, ◌∙◌, Bool, true, false, Option, none,
  some, List, [], ◌∷◌, ◌++◌, append-nil, append_assoc, arith, ltb, min, length, Memᴰ, ltb→lt,
  ltb→ge,
}
use mathlib.Core.List.{Perm, perm_append_comm}
use mathlib.Core.List.Perm
use auto_sync.Push.Plan.{PushWork}
use auto_sync.Push.Pool.{
  ErrorOps, Shared, Worker, looking, unfatal, ready, stopped, working, Pool, Move, saw_fatal,
  saw_none, cancelled, not_cancelled, take_item, no_item, finish, set_fatal, settle, after_settle,
  item_list, max_per_file_transfer_failures,
}
use auto_sync.Push.Settle.{Keeps, Keeps-settle, Keeps-set_fatal}

-- `0, 1, .., n - 1`
abbrev pub upto : ℕ → List ℕ
upto zero = []
upto (suc n) = upto n ++ n ∷ []

-- The items that the workers are at.
abbrev pub held : Worker → List ℕ
held (working idx) = idx ∷ []
held looking = []
held unfatal = []
held ready = []
held stopped = []

abbrev pub all_held : List Worker → List ℕ
all_held [] = []
all_held (w ∷ ws) = held w ++ all_held ws

pub all_held-append : (xs ys : List Worker) → all_held (xs ++ ys) ≡ all_held xs ++ all_held ys
all_held-append [] ys = refl
all_held-append (x ∷ xs) ys =
    ap (λ t. held x ++ t) (all_held-append xs ys)
    ∙ sym (append_assoc (held x) (all_held xs) (all_held ys))

-- An item moves from the middle to the end of the first part.
perm_finish :
    (done a b : List ℕ) (i : ℕ) → Perm ((done ++ i ∷ []) ++ (a ++ b)) (done ++ (a ++ i ∷ b))
perm_finish done a b i =
    subst (λ l. Perm l (done ++ (a ++ i ∷ b))) (sym (append_assoc done (i ∷ []) (a ++ b)))
      (Perm.append_left done (
        subst (λ l. Perm ((i ∷ a) ++ b) l) (append_assoc a (i ∷ []) b)
          (Perm.append_right b (perm_append_comm (i ∷ []) a))))

-- A new item in the middle.
perm_take :
    (done a b all : List ℕ) (i : ℕ)
    → Perm (done ++ (a ++ b)) all
    → Perm (done ++ (a ++ i ∷ b)) (all ++ i ∷ [])
perm_take done a b all i p = Perm.trans (Perm.symm (perm_finish done a b i)) (
    subst (λ l. Perm l (all ++ i ∷ [])) (sym (append_assoc done (i ∷ []) (a ++ b)))
      (Perm.trans (Perm.append_left done (perm_append_comm (i ∷ []) (a ++ b))) (
        subst (λ l. Perm l (all ++ i ∷ [])) (append_assoc done (a ++ b) (i ∷ []))
          (Perm.append_right (i ∷ []) p))))

module _ {E : Type 0} (ops : ErrorOps E) (work : List PushWork) where
  -- The finished items and those at hand are the items taken so far, each once; and a worker that
  -- has left while no error is recorded has found no item left.
  pub record Taken (done : List ℕ) (p : Pool E) : Type 0 where
    pub exact : Perm (done ++ all_held p.workers) (upto (min p.shared.next (length work)))
    pub idle : p.shared.fatal_error ≡ none → Memᴰ stopped p.workers → length work ≤ p.shared.next
    pub capped : length p.shared.failed < max_per_file_transfer_failures

  -- What one move does.
  pub record Moved (s s2 : Shared E) (w w2 : Worker) (item : Option ℕ) : Type 0 where
    pub slot : s2.fatal_error ≡ none → s.fatal_error ≡ none
    pub grows : s.next ≤ s2.next
    pub stops : s2.fatal_error ≡ none → w2 ≡ stopped → length work ≤ s2.next
    pub capped :
        length s.failed < max_per_file_transfer_failures
        → length s2.failed < max_per_file_transfer_failures
    pub exact :
        (done a b : List ℕ)
        → Perm (done ++ (a ++ (held w ++ b))) (upto (min s.next (length work)))
        → Perm
            ((done ++ item_list item) ++ (a ++ (held w2 ++ b)))
            (upto (min s2.next (length work)))

  still : (done l all : List ℕ) → Perm (done ++ l) all → Perm ((done ++ []) ++ l) all
  still done l all p = subst (λ d. Perm (d ++ l) all) (sym (append-nil done)) p

  after_settle-stopped : (b : Bool) → after_settle b ≡ stopped → b ≡ true
  after_settle-stopped true h = refl
  after_settle-stopped false h = cc h

  held-after_settle : (b : Bool) → held (after_settle b) ≡ []
  held-after_settle true = refl
  held-after_settle false = refl

  -- A move that changes neither the counter nor the items at hand, and stops only on an error.
  Moved-idle :
      (s s2 : Shared E) (w w2 : Worker)
      → held w ≡ []
      → held w2 ≡ []
      → s2.next ≡ s.next
      → s2.failed ≡ s.failed
      → (s2.fatal_error ≡ none → s.fatal_error ≡ none)
      → (s2.fatal_error ≡ none → w2 ≢ stopped)
      → Moved s s2 w w2 none
  Moved-idle s s2 w w2 h k next same slot stops = record {
    slot = slot;
    grows = omega arith;
    stops = λ n e. absurd (stops n e);
    capped = λ c. omega (arith, ap length same);
    exact = λ done a b p. still done (a ++ (held w2 ++ b)) (upto (min s2.next (length work))) (
        subst (λ n. Perm (done ++ (a ++ (held w2 ++ b))) (upto (min n (length work)))) (sym next)
          (subst (λ l. Perm (done ++ (a ++ (l ++ b))) (upto (min s.next (length work)))) (h ∙ sym k)
            p));
  }

  Moved-take_item :
      (s : Shared E)
      → ltb s.next (length work) ≡ true
      → Moved s (record s { next = s.next + 1 }) ready (working s.next) none
  Moved-take_item s h = record {
    slot = λ n. n;
    grows = omega arith;
    stops = λ n e. cc e;
    capped = λ c. c;
    exact = λ done a b p. still done (a ++ (s.next ∷ b)) (upto (min (s.next + 1) (length work))) (
        subst (λ n. Perm (done ++ (a ++ s.next ∷ b)) (upto n)) counted
          (perm_take done a b (upto s.next) s.next
            (subst (λ n. Perm (done ++ (a ++ b)) (upto n)) before p)));
  }
    where
      counted : suc s.next ≡ min (s.next + 1) (length work)
      counted = omega (arith, ltb→lt s.next (length work) h)

      before : min s.next (length work) ≡ s.next
      before = omega (arith, ltb→lt s.next (length work) h)

  Moved-no_item :
      (s : Shared E)
      → ltb s.next (length work) ≡ false
      → Moved s (record s { next = s.next + 1 }) ready stopped none
  Moved-no_item s h = record {
    slot = λ n. n;
    grows = omega arith;
    stops = λ n e. omega (arith, ltb→ge s.next (length work) h);
    capped = λ c. c;
    exact = λ done a b p.
        still done (a ++ b) (upto (min (s.next + 1) (length work)))
          (subst (λ n. Perm (done ++ (a ++ b)) (upto n)) counted p);
  }
    where
      counted : min s.next (length work) ≡ min (s.next + 1) (length work)
      counted = omega (arith, ltb→ge s.next (length work) h)

  Moved-finish :
      (s : Shared E) (idx : ℕ) (after : Shared E × Bool)
      → Keeps s after
      → Moved s after.0 (working idx) (after_settle after.1) (some idx)
  Moved-finish s idx after k = record {
    slot = k.slot;
    grows = omega (arith, k.next);
    stops = λ n e. absurd (k.ends (after_settle-stopped after.1 e) n);
    capped = k.capped;
    exact = λ done a b p.
        subst
          (λ n.
            Perm ((done ++ idx ∷ []) ++ (a ++ (held (after_settle after.1) ++ b)))
              (upto (min n (length work))))
          (sym k.next)
          (subst
            (λ l. Perm ((done ++ idx ∷ []) ++ (a ++ (l ++ b))) (upto (min s.next (length work))))
            (sym (held-after_settle after.1)) (Perm.trans (perm_finish done a b idx) p));
  }

  pub Moved-Move :
      (s s2 : Shared E) (w w2 : Worker) (item : Option ℕ)
      → Move ops work s w item s2 w2
      → Moved s s2 w w2 item
  Moved-Move s s2 w w2 item (saw_fatal e h) =
      Moved-idle s s looking stopped refl refl refl refl (λ n. n) (λ n t. cc (n, h))
  Moved-Move s s2 w w2 item (saw_none h) =
      Moved-idle s s looking unfatal refl refl refl refl (λ n. n) (λ n t. cc t)
  Moved-Move s s2 w w2 item (cancelled e) =
      let k = Keeps-set_fatal s e in
      Moved-idle s (set_fatal s e) unfatal stopped refl refl k.next (unfold set_fatal in refl)
        k.slot (λ n t. k.ends refl n)
  Moved-Move s s2 w w2 item not_cancelled =
      Moved-idle s s unfatal ready refl refl refl refl (λ n. n) (λ n t. cc t)
  Moved-Move s s2 w w2 item (take_item h) = Moved-take_item s h
  Moved-Move s s2 w w2 item (no_item h) = Moved-no_item s h
  Moved-Move s s2 w w2 item (finish idx it answer h) =
      Moved-finish s idx (settle ops s it answer) (Keeps-settle ops s it answer)
