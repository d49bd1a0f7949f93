-- ===== src/Cancel/Ops.antt =====
-- The registry of operations and the tokens of the threads (src/core/cancel.rs). An operation's
-- shared flag and counters are found by its id; a token names them by it too.
use auto_sync.Prelude.{
  ℕ, ◌+◌, ◌%◌, ◌^◌, ◌≡◌, refl, ap, sym, ◌∙◌, Bool, true, false, not, ◌&&◌, ◌||◌, ◌==◌, Option, none,
  some, List, [], ◌∷◌, ◌++◌, if◌then◌else◌, Text, bytes_eq, arith, All, All-member, subst, Memᴰ,
  exists_row, select_rows, count_rows,
}

pub record ActiveOp : Type 0 where
  pub id : ℕ
  pub kind : Text
  pub targets : List Text

pub record CancelToken : Type 0 where
  pub op : ℕ
  pub target : Option Text

-- What all threads share.
pub record Registry : Type 0 where
  pub next_op_id : ℕ
  pub ops : List ActiveOp
  pub flag : ℕ → Bool
  pub files : ℕ → ℕ
  pub failed : ℕ → ℕ

-- The registry, and the token installed on a thread.
abbrev pub Thread : Type 0
Thread = Registry × Option CancelToken

pub record OpGuard : Type 0 where
  pub id : ℕ
  pub previous : Option CancelToken

abbrev pub set_at {ℓ} : {A : Type ℓ} → (ℕ → A) → ℕ → A → ℕ → A
set_at f id a i = if i == id then a else f i

-- Only a single target is carried by the token.
abbrev pub token_target : List Text → Option Text
token_target (only ∷ []) = some only
token_target _ = none

unfoldable pub begin_targets : Text → List Text → Thread → Thread × OpGuard
begin_targets kind targets (g, current) =
    let id = g.next_op_id in
    (
      (
        record {
          next_op_id = (id + 1) % 2 ^ 64;
          ops = g.ops ++ record { id = id; kind = kind; targets = targets } ∷ [];
          flag = set_at g.flag id false;
          files = set_at g.files id 0;
          failed = set_at g.failed id 0;
        },
        some (record { op = id; target = token_target targets }),
      ),
      record { id = id; previous = current },
    )

unfoldable pub drop_op : OpGuard → Thread → Thread
drop_op guard (g, current) =
    (record g { ops = select_rows (λ o. not (o.id == guard.id)) g.ops }, guard.previous)

-- The token that is installed, and the one to install when the guard drops.
unfoldable pub enter : Option CancelToken → Thread → Thread × Option CancelToken
enter token (g, current) = ((g, token), current)

unfoldable pub drop_token : Option CancelToken → Thread → Thread
drop_token previous (g, current) = (g, previous)

unfoldable pub add_synced_files : ℕ → Thread → Thread
add_synced_files count (g, none) = (g, none)
add_synced_files count (g, some token) =
    (record g { files = set_at g.files token.op (g.files token.op + count) }, some token)

unfoldable pub synced_files : Thread → ℕ
synced_files (g, none) = 0
synced_files (g, some token) = g.files token.op

unfoldable pub add_failed_files : ℕ → Thread → Thread
add_failed_files count (g, none) = (g, none)
add_failed_files count (g, some token) =
    (record g { failed = set_at g.failed token.op (g.failed token.op + count) }, some token)

unfoldable pub failed_files : Thread → ℕ
failed_files (g, none) = 0
failed_files (g, some token) = g.failed token.op

abbrev pub is_scoped : Text → ActiveOp → Bool
is_scoped target op = exists_row (λ t. bytes_eq t target) op.targets

unfoldable pub kind_target_active : Text → Text → Registry → Bool
kind_target_active kind target g =
    exists_row (λ o. bytes_eq o.kind kind && is_scoped target o) g.ops

unfoldable pub current_target : Thread → Option Text
current_target (g, none) = none
current_target (g, some token) = token.target

-- The error of a cancelled operation.
unfoldable pub is_cancelled : Thread → Bool
is_cancelled (g, none) = false
is_cancelled (g, some token) = g.flag token.op

abbrev pub none_or : (Text → Bool) → Option Text → Bool
none_or p none = true
none_or p (some text) = p text

unfoldable pub matches : Option Text → Option Text → ActiveOp → Bool
matches kind target op =
    none_or (λ k. bytes_eq op.kind k) kind && none_or (λ t. is_scoped t op) target

-- The loop over the registry, with the number of operations that are signalled.
unfoldable pub request_loop :
    Option Text → Option Text → List ActiveOp → (ℕ → Bool) → (ℕ → Bool) × ℕ
unfolding matches
request_loop kind target [] flag = (flag, 0)
request_loop kind target (op ∷ ops) flag =
    let hit = matches kind target op in
    let rest = request_loop kind target ops (if hit then set_at flag op.id true else flag) in
    (rest.0, if hit then rest.1 + 1 else rest.1)

unfoldable pub request : Option Text → Option Text → Registry → Registry × ℕ
unfolding request_loop
request kind target g =
    let r = request_loop kind target g.ops g.flag in (record g { flag = r.0 }, r.1)

flag-set :
    (flag : ℕ → Bool) (id i : ℕ) (hit : Bool)
    → (if hit then set_at flag id true else flag) i ≡ (hit && i == id || flag i)
flag-set flag id i false = refl
flag-set flag id i true = ground arith

flag-request_loop :
    (kind target : Option Text) (ops : List ActiveOp) (flag : ℕ → Bool) (i : ℕ)
    → (request_loop kind target ops flag).0 i
      ≡ (exists_row (λ o. matches kind target o && i == o.id) ops || flag i)
unfolding request_loop
flag-request_loop kind target [] flag i = refl
flag-request_loop kind target (op ∷ ops) flag i =
    let hit = matches kind target op in
    let later =
      flag-request_loop kind target ops (if hit then set_at flag op.id true else flag) i in
    later
    ∙ (ap (λ b. exists_row (λ o. matches kind target o && i == o.id) ops || b)
          (flag-set flag op.id i hit)
        ∙ shuffle (exists_row (λ o. matches kind target o && i == o.id) ops) (hit && i == op.id)
            (flag i))
  where
    shuffle : (a b c : Bool) → (a || (b || c)) ≡ ((b || a) || c)
    shuffle a b c = ground arith

count-request_loop :
    (kind target : Option Text) (ops : List ActiveOp) (flag : ℕ → Bool)
    → (request_loop kind target ops flag).1 ≡ count_rows (matches kind target) ops
unfolding request_loop
count-request_loop kind target [] flag = refl
count-request_loop kind target (op ∷ ops) flag =
    ap (λ n. if matches kind target op then n + 1 else n) (count-request_loop kind target ops _)

-- No two operations have one id.
abbrev pub Distinct : List ActiveOp → Type 0
Distinct [] = Unit
Distinct (op ∷ ops) = All (λ o. op.id == o.id ≡ false) ops × Distinct ops

none_hit :
    (p : ActiveOp → Bool) (x : ActiveOp) (ops : List ActiveOp)
    → All (λ o. x.id == o.id ≡ false) ops
    → exists_row (λ o. p o && x.id == o.id) ops ≡ false
none_hit p x [] d = refl
none_hit p x (o ∷ ops) d = ground (arith, d.0, none_hit p x ops d.1)

hit_once :
    (p : ActiveOp → Bool) (ops : List ActiveOp) (op : ActiveOp)
    → Distinct ops
    → Memᴰ op ops
    → exists_row (λ o. p o && op.id == o.id) ops ≡ p op
hit_once p [] op d m = elim m [ ]
hit_once p (x ∷ ops) op d (Memᴰ.head e) =
    subst (λ y. exists_row (λ o. p o && y.id == o.id) (x ∷ ops) ≡ p y) (sym e)
      (ground (arith, none_hit p x ops d.0))
hit_once p (x ∷ ops) op d (Memᴰ.tail m) =
    let apart = All-member (λ o. x.id == o.id ≡ false) ops op d.0 m in
    ground (arith, apart, hit_once p ops op d.1 m)

-- A request stops the operations that match it and no other: each registered operation's flag is
-- then set if it was set before or if the kind and the target of the request match, and the result
-- is the number that match.
pub request_lem :
    (kind target : Option Text) (g : Registry) (op : ActiveOp)
    → Distinct g.ops
    → Memᴰ op g.ops
    → ((request kind target g).0.flag op.id ≡ (matches kind target op || g.flag op.id))
      × ((request kind target g).1 ≡ count_rows (matches kind target) g.ops)
unfolding request
request_lem kind target g op d m = (
  flag-request_loop kind target g.ops g.flag op.id
      ∙ ap (λ b. b || g.flag op.id) (hit_once (matches kind target) g.ops op d m),
  count-request_loop kind target g.ops g.flag,
)
