-- ===== src/Cancel/Nesting.antt =====
-- Operations nest on a thread (src/core/cancel.rs).
use auto_sync.Prelude.{
  ℕ, ◌+◌, ◌%◌, ◌^◌, ◌≤◌, ◌<◌, ◌≡◌, refl, ap, sym, subst, ◌∙◌, true, false, not, ◌==◌, Option, none,
  some, List, [], ◌∷◌, ◌++◌, Text, arith, All, select_rows,
}
use auto_sync.Cancel.Ops.{
  ActiveOp, CancelToken, Registry, Thread, begin_targets, drop_op, enter, drop_token,
  add_synced_files, add_failed_files, request,
}

-- What a thread does between two moments, with each guard dropped at the end of its scope: requests
-- come from it too. The ids do not run over.
pub data Runs : Thread → Thread → Type 0 where
  done : (t : Thread) → Runs t t
  scoped :
      (kind : Text) (targets : List Text) (t inner last : Thread)
      → t.0.next_op_id + 1 < 2 ^ 64
      → Runs (begin_targets kind targets t).0 inner
      → Runs (drop_op (begin_targets kind targets t).1 inner) last
      → Runs t last
  entered :
      (token : Option CancelToken) (t inner last : Thread)
      → Runs (enter token t).0 inner
      → Runs (drop_token (enter token t).1 inner) last
      → Runs t last
  synced : (count : ℕ) (t last : Thread) → Runs (add_synced_files count t) last → Runs t last
  failed : (count : ℕ) (t last : Thread) → Runs (add_failed_files count t) last → Runs t last
  requested :
      (kind target : Option Text) (t last : Thread)
      → Runs ((request kind target t.0).0, t.1) last
      → Runs t last

abbrev pub Fresh : Registry → Type 0
Fresh g = All (λ o. o.id < g.next_op_id) g.ops

-- What a run leaves as it was.
pub record Same (t last : Thread) : Type 0 where
  pub ops : last.0.ops ≡ t.0.ops
  pub token : last.1 ≡ t.1
  pub ids : t.0.next_op_id ≤ last.0.next_op_id

Same-trans : (t u v : Thread) → Same t u → Same u v → Same t v
Same-trans t u v a b = record {
  ops = b.ops ∙ a.ops;
  token = b.token ∙ a.token;
  ids = omega (arith, a.ids, b.ids);
}

Fresh-Same : (t u : Thread) → Same t u → Fresh t.0 → Fresh u.0
Fresh-Same t u s f = subst (λ l. All (λ o. o.id < u.0.next_op_id) l) (sym s.ops) (raised t.0.ops f)
  where
    raised :
        (ops : List ActiveOp)
        → All (λ o. o.id < t.0.next_op_id) ops
        → All (λ o. o.id < u.0.next_op_id) ops
    raised [] a = tt
    raised (o ∷ ops) a = (omega (arith, a.0, s.ids), raised ops a.1)

Fresh-append :
    (n : ℕ) (ops : List ActiveOp) (op : ActiveOp)
    → All (λ o. o.id < n) ops
    → op.id ≡ n
    → All (λ o. o.id < n + 1) (ops ++ op ∷ [])
Fresh-append n [] op a h = (omega (arith, h), tt)
Fresh-append n (o ∷ ops) op a h = (omega (arith, a.0), Fresh-append n ops op a.1 h)

-- The operation that ends is the one that began last.
select-append :
    (n : ℕ) (ops : List ActiveOp) (op : ActiveOp)
    → All (λ o. o.id < n) ops
    → op.id ≡ n
    → select_rows (λ o. not (o.id == n)) (ops ++ op ∷ []) ≡ ops
select-append n [] op a h = let gone : not (op.id == n) ≡ false = ground (arith, h) in rw gone refl
select-append n (o ∷ ops) op a h =
    let stays : not (o.id == n) ≡ true = ground (arith, a.0) in
    rw stays (ap (λ l. o ∷ l) (select-append n ops op a.1 h))

-- However operations nest on a thread, once their guards are dropped the thread has its token back
-- and the registry the operations it had, where every registered id was given out before and the
-- ids do not run over.
pub Same-Runs : (t last : Thread) → Fresh t.0 → Runs t last → Same t last
unfolding begin_targets drop_op enter drop_token add_synced_files add_failed_files request
Same-Runs t last f (done u) = record { ops = refl; token = refl; ids = omega arith }
Same-Runs t last f (scoped kind targets u inner v room r1 r2) =
    let g = t.0 in
    let n = g.next_op_id in
    let op : ActiveOp = record { id = n; kind = kind; targets = targets } in
    let next : (n + 1) % 2 ^ 64 ≡ n + 1 = omega (arith, room) in
    let began = (begin_targets kind targets t).0 in
    let fresh : Fresh began.0 =
      subst (λ k. All (λ o. o.id < k) (g.ops ++ op ∷ [])) (sym next)
        (Fresh-append n g.ops op f refl) in
    let s = Same-Runs began inner fresh r1 in
    let dropped : Same t (drop_op (begin_targets kind targets t).1 inner) = record {
      ops = ap (select_rows (λ o. not (o.id == n))) s.ops ∙ select-append n g.ops op f refl;
      token = refl;
      ids = omega (arith, s.ids, next);
    } in
    Same-trans t _ last dropped (Same-Runs _ last (Fresh-Same t _ dropped f) r2)
Same-Runs t last f (entered token u inner v r1 r2) =
    let s = Same-Runs (enter token t).0 inner f r1 in
    let dropped : Same t (drop_token (enter token t).1 inner) = record {
      ops = s.ops;
      token = refl;
      ids = s.ids;
    } in
    Same-trans t _ last dropped (Same-Runs _ last (Fresh-Same t _ dropped f) r2)
Same-Runs (g, none) last f (synced count u v r) = Same-Runs (g, none) last f r
Same-Runs (g, some token) last f (synced count u v r) =
    let s = Same-Runs (add_synced_files count (g, some token)) last f r in
    record { ops = s.ops; token = s.token; ids = s.ids }
Same-Runs (g, none) last f (failed count u v r) = Same-Runs (g, none) last f r
Same-Runs (g, some token) last f (failed count u v r) =
    let s = Same-Runs (add_failed_files count (g, some token)) last f r in
    record { ops = s.ops; token = s.token; ids = s.ids }
Same-Runs t last f (requested kind target u v r) =
    let s = Same-Runs ((request kind target t.0).0, t.1) last f r in
    record { ops = s.ops; token = s.token; ids = s.ids }
