-- ===== src/Peer/Pool.antt =====
-- The pool of idle connections (src/core/machines.rs): a map from the peers to their connections,
-- the newest first, and the number of them all. The order of the peers is the map's own.
use auto_sync.Prelude.{
  ℕ, zero, suc, ◌+◌, ◌-◌, ◌≤◌, ◌<◌, ◌≡◌, refl, sym, subst, ◌∙◌, Bool, true, Bool-cases, inl, inr,
  ◌&&◌, ◌==◌, Option, none, some, List, [], ◌∷◌, if◌then◌else◌, if_true, if_false, Text, bytes_eq,
  bytes_eq_refl, ltb, leb, ltb→lt, ltb→ge, length, arith,
}

pub record TcpConnectionKey : Type 0 where
  pub host : Text
  pub port : ℕ

unfoldable pub key_eq : TcpConnectionKey → TcpConnectionKey → Bool
key_eq a b = bytes_eq a.host b.host && a.port == b.port

-- A connection is a number here.
abbrev pub Idle : Type 0
Idle = List (TcpConnectionKey × List ℕ)

pub record TcpConnectionPool : Type 0 where
  pub idle : Idle
  pub total_idle : ℕ

-- A peer without connections is taken out of the map.
abbrev pub pop_streams : TcpConnectionKey → List ℕ → Idle → Option ℕ × Idle
pop_streams key [] rest = (none, rest)
pop_streams key (stream ∷ []) rest = (some stream, rest)
pop_streams key (stream ∷ next ∷ streams) rest = (some stream, (key, next ∷ streams) ∷ rest)

unfoldable pub pop_idle : TcpConnectionKey → Idle → Option ℕ × Idle
unfolding key_eq
pop_idle key [] = (none, [])
pop_idle key ((other, streams) ∷ rest) =
    let later = pop_idle key rest in
    if key_eq other key
    then pop_streams other streams rest
    else (later.0, (other, streams) ∷ later.1)

abbrev pub count_taken : Option ℕ → ℕ → ℕ
count_taken none total = total
count_taken (some stream) total = total - 1

unfoldable pub take_connection : TcpConnectionKey → TcpConnectionPool → Option ℕ × TcpConnectionPool
unfolding pop_idle
take_connection key pool =
    let r = pop_idle key pool.idle in
    (r.0, record { idle = r.1; total_idle = count_taken r.0 pool.total_idle })

unfoldable pub push_idle : TcpConnectionKey → ℕ → Idle → Idle
unfolding key_eq
push_idle key stream [] = (key, stream ∷ []) ∷ []
push_idle key stream ((other, streams) ∷ rest) =
    if key_eq other key
    then (other, stream ∷ streams) ∷ rest
    else (other, streams) ∷ push_idle key stream rest

-- A connection that does not fit is dropped.
unfoldable pub put_connection : TcpConnectionKey → ℕ → ℕ → TcpConnectionPool → TcpConnectionPool
unfolding push_idle
put_connection key stream max_idle pool =
    if leb max_idle pool.total_idle
    then pool
    else record { idle = push_idle key stream pool.idle; total_idle = pool.total_idle + 1 }

-- The loop on fuel; where no connection was taken, the peer is already out of the map.
unfoldable pub trim_loop : ℕ → ℕ → Idle → ℕ → Option TcpConnectionPool
unfolding pop_idle
trim_loop zero max_idle idle total = none
trim_loop (suc fuel) max_idle [] total =
    if ltb max_idle total
    then some (record { idle = []; total_idle = 0 })
    else some (record { idle = []; total_idle = total })
trim_loop (suc fuel) max_idle ((key, streams) ∷ rest) total =
    let r = pop_idle key ((key, streams) ∷ rest) in
    let more = trim_loop fuel max_idle r.1 (count_taken r.0 total) in
    if ltb max_idle total
    then more
    else some (record { idle = (key, streams) ∷ rest; total_idle = total })

-- Each round takes a connection or a peer away.
unfoldable pub trim_to : ℕ → TcpConnectionPool → Option TcpConnectionPool
unfolding trim_loop
trim_to max_idle pool =
    trim_loop (suc (pool.total_idle + length pool.idle)) max_idle pool.idle pool.total_idle

abbrev pub count_idle : Idle → ℕ
count_idle [] = 0
count_idle ((key, streams) ∷ rest) = length streams + count_idle rest

-- The number is that of the connections in the map.
abbrev pub IsCounted : TcpConnectionPool → Type 0
IsCounted pool = pool.total_idle ≡ count_idle pool.idle

abbrev pub one_if : Option ℕ → ℕ
one_if none = 0
one_if (some stream) = 1

count-pop_idle :
    (key : TcpConnectionKey) (idle : Idle)
    → count_idle (pop_idle key idle).1 + one_if (pop_idle key idle).0 ≡ count_idle idle
unfolding pop_idle
count-pop_idle key [] = omega arith
count-pop_idle key ((other, streams) ∷ rest) = elim (Bool-cases (key_eq other key)) [
  | inl h ↦ rw h (popped streams)
  | inr h ↦ rw h (omega (arith, count-pop_idle key rest))
]
  where
    popped :
        (streams : List ℕ)
        → count_idle (pop_streams other streams rest).1 + one_if (pop_streams other streams rest).0
          ≡ length streams + count_idle rest
    popped [] = omega arith
    popped (s ∷ []) = omega arith
    popped (s ∷ t ∷ streams) = omega arith

count-push_idle :
    (key : TcpConnectionKey) (stream : ℕ) (idle : Idle)
    → count_idle (push_idle key stream idle) ≡ count_idle idle + 1
unfolding push_idle
count-push_idle key stream [] = omega arith
count-push_idle key stream ((other, streams) ∷ rest) = elim (Bool-cases (key_eq other key)) [
  | inl h ↦ rw h (omega arith)
  | inr h ↦ rw h (omega (arith, count-push_idle key stream rest))
]

taken_total :
    (r : Option ℕ) (count total : ℕ) (before : ℕ)
    → count + one_if r ≡ before
    → total ≡ before
    → count_taken r total ≡ count
taken_total none count total before h e = omega (arith, h, e)
taken_total (some s) count total before h e = omega (arith, h, e)

IsCounted-take_connection :
    (key : TcpConnectionKey) (pool : TcpConnectionPool)
    → IsCounted pool
    → IsCounted (take_connection key pool).1
unfolding take_connection
IsCounted-take_connection key pool h =
    taken_total (pop_idle key pool.idle).0 _ pool.total_idle (count_idle pool.idle)
      (count-pop_idle key pool.idle) h

IsCounted-put_connection :
    (key : TcpConnectionKey) (stream max_idle : ℕ) (pool : TcpConnectionPool)
    → IsCounted pool
    → IsCounted (put_connection key stream max_idle pool)
unfolding put_connection
IsCounted-put_connection key stream max_idle pool h =
    elim (Bool-cases (leb max_idle pool.total_idle)) [
      | inl full ↦ subst IsCounted (sym (if_true (leb max_idle pool.total_idle) _ _ full)) h
      | inr room ↦
          subst IsCounted (sym (if_false (leb max_idle pool.total_idle) _ _ room))
            (omega (arith, h, count-push_idle key stream pool.idle))
    ]

-- The first peer of the map loses a connection, or leaves it.
pop_first :
    (key : TcpConnectionKey) (streams : List ℕ) (rest : Idle)
    → key_eq key key ≡ true
    → length (pop_idle key ((key, streams) ∷ rest)).1 + 1
      ≤ length rest + 1 + one_if (pop_idle key ((key, streams) ∷ rest)).0
unfolding pop_idle
pop_first key streams rest h = rw h (popped streams)
  where
    popped :
        (streams : List ℕ)
        → length (pop_streams key streams rest).1 + 1
          ≤ length rest + 1 + one_if (pop_streams key streams rest).0
    popped [] = omega arith
    popped (s ∷ []) = omega arith
    popped (s ∷ t ∷ streams) = omega arith

key_eq_refl : (key : TcpConnectionKey) → key_eq key key ≡ true
unfolding key_eq
key_eq_refl key = ground (arith, bytes_eq_refl key.host)

trim_loop-some :
    (fuel max_idle : ℕ) (idle : Idle) (total : ℕ)
    → total + length idle < fuel
    → total ≡ count_idle idle
    → (pool : TcpConnectionPool) × (trim_loop fuel max_idle idle total ≡ some pool)
      × IsCounted pool
      × (pool.total_idle ≤ max_idle)
unfolding trim_loop
trim_loop-some zero max_idle idle total enough h = absurd (omega arith)
trim_loop-some (suc fuel) max_idle [] total enough h = elim (Bool-cases (ltb max_idle total)) [
  | inl over ↦ (
    record { idle = []; total_idle = 0 },
    if_true (ltb max_idle total) _ _ over,
    refl,
    omega arith,
  )
  | inr fits ↦ (
    record { idle = []; total_idle = total },
    if_false (ltb max_idle total) _ _ fits,
    h,
    ltb→ge max_idle total fits,
  )
]
trim_loop-some (suc fuel) max_idle ((key, streams) ∷ rest) total enough h =
    elim (Bool-cases (ltb max_idle total)) [
      | inl over ↦
          let r = pop_idle key ((key, streams) ∷ rest) in
          let counted =
            taken_total r.0 (count_idle r.1) total _ (count-pop_idle key ((key, streams) ∷ rest))
              h in
          let (pool, e, counted2, le) =
            trim_loop-some fuel max_idle r.1 (count_taken r.0 total)
              (smaller r.0 (length r.1) (ltb→lt max_idle total over)
                (pop_first key streams rest (key_eq_refl key)))
              counted in
          (pool, if_true (ltb max_idle total) _ _ over ∙ e, counted2, le)
      | inr fits ↦ (
        record { idle = (key, streams) ∷ rest; total_idle = total },
        if_false (ltb max_idle total) _ _ fits,
        h,
        ltb→ge max_idle total fits,
      )
    ]
  where
    smaller :
        (o : Option ℕ) (left : ℕ)
        → max_idle < total
        → left + 1 ≤ length rest + 1 + one_if o
        → count_taken o total + left < fuel
    smaller none left over le = omega (arith, le, enough)
    smaller (some s) left over le = omega (arith, le, enough, over)

-- What the program makes of the pool: any calls, in any order.
pub data Pooled : TcpConnectionPool → Type 0 where
  created : Pooled (record { idle = []; total_idle = 0 })
  taken :
      (key : TcpConnectionKey) (pool : TcpConnectionPool)
      → Pooled pool
      → Pooled (take_connection key pool).1
  put :
      (key : TcpConnectionKey) (stream max_idle : ℕ) (pool : TcpConnectionPool)
      → Pooled pool
      → Pooled (put_connection key stream max_idle pool)
  trimmed :
      (max_idle : ℕ) (pool trimmed_pool : TcpConnectionPool)
      → Pooled pool
      → trim_to max_idle pool ≡ some trimmed_pool
      → Pooled trimmed_pool

-- The counter of the pool is always the number of connections in it, whatever calls were made.
pub IsCounted-Pooled : (pool : TcpConnectionPool) → Pooled pool → IsCounted pool
unfolding trim_to
IsCounted-Pooled pool created = refl
IsCounted-Pooled pool (taken key before r) =
    IsCounted-take_connection key before (IsCounted-Pooled before r)
IsCounted-Pooled pool (put key stream max_idle before r) =
    IsCounted-put_connection key stream max_idle before (IsCounted-Pooled before r)
IsCounted-Pooled pool (trimmed max_idle before after r e) =
    let (found, e2, counted, le) =
      trim_loop-some (suc (before.total_idle + length before.idle)) max_idle before.idle
        before.total_idle (omega arith) (IsCounted-Pooled before r) in
    subst IsCounted (same found (sym e2 ∙ e)) counted
  where
    same : (found : TcpConnectionPool) → some found ≡ some pool → found ≡ pool
    same found h = cc

-- Trimming a pool ends, and at most the given number of connections is left in it.
pub trim_to-some :
    (max_idle : ℕ) (pool : TcpConnectionPool)
    → Pooled pool
    → (trimmed_pool : TcpConnectionPool) × (trim_to max_idle pool ≡ some trimmed_pool)
      × (count_idle trimmed_pool.idle ≤ max_idle)
unfolding trim_to
trim_to-some max_idle pool r =
    let (found, e, counted, le) =
      trim_loop-some (suc (pool.total_idle + length pool.idle)) max_idle pool.idle pool.total_idle
        (omega arith) (IsCounted-Pooled pool r) in
    (found, e, omega (arith, counted, le))
