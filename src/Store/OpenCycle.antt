-- ===== src/Store/OpenCycle.antt =====
-- What the order of the cycles says of a source's open cycle (src/core/state.rs).
use auto_sync.Prelude.{
  ℕ, ◌≤◌, ◌<◌, ◌≡◌, refl, ap, sym, subst, ◌∙◌, Bool, true, false, Bool-cases, inl, inr, ◌⊎◌, Option,
  none, some, List, [], ◌∷◌, ◌++◌, length, if_true, if_false, Text, bytes_eq, bytes_eq_iff,
  bytes_eq_refl, arith, leb, All, Memᴰ, All-member, exists_row, select_rows, newest_row, later_row,
}
use auto_sync.Store.Tables.{Cycle, Store, is_open, is_open_of}
use auto_sync.Store.Cycles.{
  new_cycle, insert_open_cycle, current_open_cycle, current_open_cycle_id, ensure_open_cycle,
  found_or_insert, alone, cycle_id_of,
}
use auto_sync.Store.Ordered.{After, Ordered, Reached, CyclesOrdered-Reached}

not_open :
    (source_id : Text) (c d : Cycle)
    → is_open_of source_id c ≡ true
    → After c d
    → is_open_of source_id d ≡ false
unfolding is_open_of
not_open source_id c d h a = ground (
  arith,
  opened,
  a.1 opened,
  bytes_eq_iff c.source_id source_id,
  bytes_eq_iff d.source_id source_id,
  bytes_eq_iff d.source_id c.source_id,
)
  where
    opened : is_open c ≡ true
    opened = ground arith

-- After an open cycle of the source no other follows.
none_later :
    (source_id : Text) (c : Cycle) (cs : List Cycle)
    → is_open_of source_id c ≡ true
    → All (After c) cs
    → select_rows (is_open_of source_id) cs ≡ []
none_later source_id c [] h a = refl
none_later source_id c (d ∷ cs) h a =
    rw (not_open source_id c d h a.0) (none_later source_id c cs h a.1)

pub one_open :
    (source_id : Text) (cs : List Cycle)
    → Ordered cs
    → length (select_rows (is_open_of source_id) cs) ≤ 1
one_open source_id [] o = omega arith
one_open source_id (c ∷ cs) o = elim (Bool-cases (is_open_of source_id c)) [
  | inl h ↦ rw h (omega (arith, ap length (none_later source_id c cs h o.0)))
  | inr h ↦ rw h (one_open source_id cs o.1)
]

-- Whatever statements the connections execute, in any order, a source never has two open cycles.
pub one_open-Reached :
    (s : Store) (source_id : Text)
    → Reached s
    → length (select_rows (is_open_of source_id) s.sync_cycle) ≤ 1
one_open-Reached s source_id r = one_open source_id s.sync_cycle (CyclesOrdered-Reached s r).ordered

module _ (p : Cycle → Bool) where
  newest_found : (c : Cycle) (o : Option Cycle) → (d : Cycle) × (later_row (λ x. x.id) c o ≡ some d)
  newest_found c none = (c, refl)
  newest_found c (some d) = elim (Bool-cases (leb c.id d.id)) [
    | inl h ↦ (d, if_true _ (some d) (some c) h)
    | inr h ↦ (c, if_false _ (some d) (some c) h)
  ]

  pub exists-newest :
      (cs : List Cycle)
      → exists_row p cs ≡ true
      → (d : Cycle) × (newest_row (λ x. x.id) (select_rows p cs) ≡ some d)
  exists-newest [] h = cc
  exists-newest (c ∷ cs) h = elim (Bool-cases (p c)) [
    | inl t ↦ rw t (newest_found c (newest_row (λ x. x.id) (select_rows p cs)))
    | inr f ↦ rw f (exists-newest cs (ground arith))
  ]

  later_cases :
      (c : Cycle) (o : Option Cycle) (d : Cycle)
      → later_row (λ x. x.id) c o ≡ some d
      → (d ≡ c) ⊎ (o ≡ some d)
  later_cases c none d h = inl (cc)
  later_cases c (some e) d h = elim (Bool-cases (leb c.id e.id)) [
    | inl t ↦ inr (sym (if_true _ (some e) (some c) t) ∙ h)
    | inr f ↦ inl (cc (if_false (leb c.id e.id) (some e) (some c) f, h))
  ]

  -- The row that a query gives is a row of the table that the query asks for.
  pub Member-newest :
      (cs : List Cycle) (d : Cycle)
      → newest_row (λ x. x.id) (select_rows p cs) ≡ some d
      → Memᴰ d cs × (p d ≡ true)
  Member-newest [] d h = cc
  Member-newest (c ∷ cs) d h = elim (Bool-cases (p c)) [
    | inl t ↦
        here c t (λ e. Member-newest cs d e)
          (later_cases c (newest_row (λ x. x.id) (select_rows p cs)) d (
            ap (newest_row (λ x. x.id))
              (sym (if_true (p c) (c ∷ select_rows p cs) (select_rows p cs) t))
            ∙ h))
    | inr f ↦ further c (
        Member-newest cs d (
          ap (newest_row (λ x. x.id))
            (sym (if_false (p c) (c ∷ select_rows p cs) (select_rows p cs) f))
          ∙ h))
  ]
    where
      further : (c : Cycle) → Memᴰ d cs × (p d ≡ true) → Memᴰ d (c ∷ cs) × (p d ≡ true)
      further c m = (Memᴰ.tail m.0, m.1)

      here :
          (c : Cycle)
          → p c ≡ true
          → (newest_row (λ x. x.id) (select_rows p cs) ≡ some d → Memᴰ d cs × (p d ≡ true))
          → (d ≡ c) ⊎ (newest_row (λ x. x.id) (select_rows p cs) ≡ some d)
          → Memᴰ d (c ∷ cs) × (p d ≡ true)
      here c t rec (inl e) = (Memᴰ.head e, ap p e ∙ t)
      here c t rec (inr h) = further c (rec h)

exists-append :
    (p : Cycle → Bool) (cs : List Cycle) (d : Cycle)
    → p d ≡ true
    → exists_row p (cs ++ d ∷ []) ≡ true
exists-append p [] d h = ground arith
exists-append p (c ∷ cs) d h = ground (arith, exists-append p cs d h)

new_is_open :
    (id : ℕ) (source_id : Text) (now : ℕ) → is_open_of source_id (new_cycle id source_id now) ≡ true
unfolding is_open_of is_open bytes_eq
new_is_open id source_id now = rw (bytes_eq_refl source_id) refl

exists-insert :
    (source_id : Text) (now : ℕ) (s : Store)
    → exists_row (is_open_of source_id) (insert_open_cycle source_id now s).sync_cycle ≡ true
unfolding insert_open_cycle
exists-insert source_id now s = elim (Bool-cases (exists_row (is_open_of source_id) s.sync_cycle)) [
  | inl there ↦
      ap (λ t. exists_row (is_open_of source_id) t.sync_cycle) (if_true _ s _ there) ∙ there
  | inr absent ↦
      ap (λ t. exists_row (is_open_of source_id) t.sync_cycle) (if_false _ s _ absent)
      ∙ exists-append (is_open_of source_id) s.sync_cycle (new_cycle s.next_cycle_id source_id now)
          (new_is_open s.next_cycle_id source_id now)
]

-- Where no other connection comes between, an open cycle is found or made.
pub ensure_open_cycle-alone :
    (source_id : Text) (now : ℕ) (s : Store)
    → (c : Cycle) × (current_open_cycle source_id (ensure_open_cycle alone source_id now s).0
        ≡ some c)
      × ((ensure_open_cycle alone source_id now s).1 ≡ some c.id)
unfolding ensure_open_cycle current_open_cycle_id
ensure_open_cycle-alone source_id now s = found (current_open_cycle source_id s) refl
  where
    found :
        (o : Option Cycle)
        → current_open_cycle source_id s ≡ o
        → (c : Cycle) × (current_open_cycle source_id
              (found_or_insert alone source_id now s (cycle_id_of o)).0
            ≡ some c)
          × ((found_or_insert alone source_id now s (cycle_id_of o)).1 ≡ some c.id)
    found (some c) h = (c, h, refl)
    found none h =
        let (c, e) =
          exists-newest (is_open_of source_id) (insert_open_cycle source_id now s).sync_cycle
            (exists-insert source_id now s) in
        (c, unfold current_open_cycle in e, ap cycle_id_of (unfold current_open_cycle in e))

-- A cycle of the source that is not open has a smaller id than the open one.
older :
    (source_id : Text) (cs : List Cycle) (c d : Cycle)
    → Ordered cs
    → Memᴰ c cs
    → Memᴰ d cs
    → is_open_of source_id c ≡ true
    → d.source_id ≡ source_id
    → is_open d ≡ false
    → d.id < c.id
unfolding is_open_of
older source_id [] c d o m n h e k = elim m [ ]
older source_id (x ∷ cs) c d o (Memᴰ.head p) (Memᴰ.head q) h e k =
    absurd (no_clash c d (p ∙ sym q) (ground arith) k)
  where
    no_clash : (c d : Cycle) → c ≡ d → is_open c ≡ true → is_open d ≡ false → ⊥
    no_clash c d same opened shut = cc (ap is_open same, opened, shut)
older source_id (x ∷ cs) c d o (Memᴰ.head p) (Memᴰ.tail n) h e k =
    let a = subst (λ y. After y d) (sym p) (All-member (After x) cs d o.0 n) in
    absurd (apart (a.1 (ground arith)))
  where
    apart : bytes_eq d.source_id c.source_id ≡ false → ⊥
    apart differ = ground (
      arith,
      differ,
      e,
      h,
      bytes_eq_iff c.source_id source_id,
      bytes_eq_iff d.source_id c.source_id,
    )
older source_id (x ∷ cs) c d o (Memᴰ.tail m) (Memᴰ.head q) h e k =
    subst (λ y. y.id < c.id) (sym q) (All-member (After x) cs c o.0 m).0
older source_id (x ∷ cs) c d o (Memᴰ.tail m) (Memᴰ.tail n) h e k =
    older source_id cs c d o.1 m n h e k

-- In every reached store the open cycle is the newest of its source: the cycles that are not open
-- have smaller ids.
pub current_open_cycle_newest :
    (s : Store) (source_id : Text) (c d : Cycle)
    → Reached s
    → current_open_cycle source_id s ≡ some c
    → Memᴰ d s.sync_cycle
    → d.source_id ≡ source_id
    → is_open d ≡ false
    → d.id < c.id
unfolding current_open_cycle
current_open_cycle_newest s source_id c d r now m e k =
    let found = Member-newest (is_open_of source_id) s.sync_cycle c now in
    older source_id s.sync_cycle c d (CyclesOrdered-Reached s r).ordered found.0 m found.1 e k
