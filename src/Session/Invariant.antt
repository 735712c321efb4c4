-- ===== src/Session/Invariant.antt =====
-- The reference counts of the groups.
use vfio.Prelude.{
  ◌∙◌, ℕ, suc, ◌-◌, ◌<◌, ◌≤◌, ◌≡◌, ◌≢◌, subst, sym, none, some, arith, lookup, insert, erase,
  lookup-insert, lookup-erase, IsDistinct, insert-IsDistinct, erase-IsDistinct, ◌==◌, if◌then◌else◌,
  Bool-cases, inl, inr, ltb,
}
use vfio.Host.Action.{State, ArcInner, update}
use vfio.Host.Call.{Fd, Trace}

-- For `u h` users of each `Arc` besides the map: a mapped group lives under its id and is referred
-- to by the map and its users; what has users is mapped; names to come are free.
pub record Inv (u : ℕ → ℕ) (s : State) : Type 0 where
  pub distinct : IsDistinct s.groups
  pub mapped :
      (id h : ℕ)
      → lookup id s.groups ≡ some h
      → (a : ArcInner) × (s.heap h ≡ some a) × (a.value.id ≡ id) × (a.strong ≡ suc (u h))
  pub live : (h : ℕ) → 0 < u h → (id : ℕ) × (lookup id s.groups ≡ some h)
  pub fresh : (h : ℕ) → s.next ≤ h → s.heap h ≡ none

abbrev pub bump : (ℕ → ℕ) → ℕ → ℕ → ℕ
bump u h p = if p == h then suc (u p) else u p

abbrev pub lower : (ℕ → ℕ) → ℕ → ℕ → ℕ
lower u h p = if p == h then u p - 1 else u p

pub trace-Inv : (u : ℕ → ℕ) (s : State) (t : Trace) → Inv u s → Inv u (record s { trace = t })
trace-Inv u s t v = record {
  distinct = v.distinct;
  mapped = v.mapped;
  live = v.live;
  fresh = v.fresh;
}

pub same-Inv :
    (u : ℕ → ℕ) (s s' : State)
    → Inv u s
    → ((p : ℕ) → s'.heap p ≡ s.heap p)
    → s.next ≤ s'.next
    → s'.groups ≡ s.groups
    → Inv u s'
same-Inv u s s' inv heap next groups = record {
  distinct = subst IsDistinct (sym groups) inv.distinct;
  mapped = λ j p e.
      let (b, t, n, c) = inv.mapped j p (subst (λ d. lookup j d ≡ some p) groups e) in
      (b, heap p ∙ t, n, c);
  live =
      λ p pos. let (j, e) = inv.live p pos in (j, subst (λ d. lookup j d ≡ some p) (sym groups) e);
  fresh = λ p le. heap p ∙ inv.fresh p (omega arith);
}

-- Two ids are never mapped to one group.
pub mapped_once :
    (u : ℕ → ℕ) (s : State) (i j h : ℕ)
    → Inv u s
    → lookup i s.groups ≡ some h
    → lookup j s.groups ≡ some h
    → i ≡ j
mapped_once u s i j h v p q = ground (arith, v.mapped i h p, v.mapped j h q)

-- The count of one `Arc` and its users change together.
pub set-Inv :
    (u v : ℕ → ℕ) (s s' : State) (id h m : ℕ) (a : ArcInner)
    → Inv u s
    → lookup id s.groups ≡ some h
    → s.heap h ≡ some a
    → ((p : ℕ) → v p ≡ (if p == h then m else u p))
    → s'.groups ≡ s.groups
    → s.next ≤ s'.next
    → ((p : ℕ) → s'.heap p ≡ update s.heap h (some (record a { strong = suc m })) p)
    → Inv v s'
set-Inv u v s s' id h m a inv at there counts same later changed = record {
  distinct = subst IsDistinct (sym same) inv.distinct;
  mapped = λ j p e.
      let (b, t, n, c) = inv.mapped j p (subst (λ d. lookup j d ≡ some p) same e) in
      elim (Bool-cases (p == h)) [
        | inl hit ↦
            (record b { strong = suc m }, ground (arith, changed p), n, ground (arith, counts p))
        | inr miss ↦ (b, ground (arith, changed p), n, ground (arith, counts p))
      ];
  live = λ p pos. elim (Bool-cases (p == h)) [
    | inl hit ↦ (id, ground arith)
    | inr miss ↦
        let (j, e) = inv.live p (ground (arith, counts p)) in
        (j, subst (λ d. lookup j d ≡ some p) (sym same) e)
  ];
  fresh = λ p le. ground (arith, changed p, inv.fresh p, inv.fresh h);
}

pub next_unused : (u : ℕ → ℕ) (s : State) → Inv u s → u s.next ≡ 0
next_unused u s inv = elim (Bool-cases (ltb 0 (u s.next))) [
  | inl used ↦
      let (j, e) = inv.live s.next (ground arith) in
      let (b, t, n, c) = inv.mapped j s.next e in ground (arith, inv.fresh s.next)
  | inr free ↦ ground arith
]

-- A new `Arc` is mapped and has so many users.
pub create-Inv :
    (u v : ℕ → ℕ) (s s' : State) (id m : ℕ) (g : Fd)
    → Inv u s
    → lookup id s.groups ≡ none
    → ((p : ℕ) → v p ≡ (if p == s.next then m else u p))
    → s'.groups ≡ insert id s.next s.groups
    → s'.next ≡ suc s.next
    → ((p : ℕ)
        → s'.heap p
          ≡ update s.heap s.next
              (some (record { value = record { id = id; group = g }; strong = suc m }))
              p)
    → Inv v s'
create-Inv u v s s' id m g inv absent counts more later changed = record {
  distinct = subst IsDistinct (sym more) (insert-IsDistinct id s.next s.groups inv.distinct);
  mapped = λ j p e.
      let e' : lookup j (insert id s.next s.groups) ≡ some p =
        subst (λ d. lookup j d ≡ some p) more e in
      elim (Bool-cases (j == id)) [
        | inl hit ↦ (
          record { value = record { id = id; group = g }; strong = suc m },
          ground (arith, changed p, lookup-insert j id s.next s.groups),
          ground arith,
          ground (arith, counts p, lookup-insert j id s.next s.groups, next_unused u s inv),
        )
        | inr miss ↦
            let e'' : lookup j s.groups ≡ some p =
              ground (arith, lookup-insert j id s.next s.groups) in
            let (b, t, n, c) = inv.mapped j p e'' in
            let other : p ≢ s.next = λ q. ground (arith, inv.fresh p) in
            (b, ground (arith, changed p), n, ground (arith, counts p))
      ];
  live = λ p pos. elim (Bool-cases (p == s.next)) [
    | inl hit ↦ (id, rw more (ground (arith, lookup-insert id id s.next s.groups)))
    | inr miss ↦
        let (j, e) = inv.live p (ground (arith, counts p)) in
        (j, rw more (ground (arith, lookup-insert j id s.next s.groups)))
  ];
  fresh = λ p le. ground (arith, changed p, inv.fresh p);
}

-- The last user goes, and the `Arc` with it.
pub remove-Inv :
    (u v : ℕ → ℕ) (s s' : State) (id h : ℕ)
    → Inv u s
    → lookup id s.groups ≡ some h
    → ((p : ℕ) → v p ≡ (if p == h then 0 else u p))
    → s'.groups ≡ erase id s.groups
    → s'.next ≡ s.next
    → ((p : ℕ) → s'.heap p ≡ update s.heap h none p)
    → Inv v s'
remove-Inv u v s s' id h inv at counts less later changed = record {
  distinct = subst IsDistinct (sym less) (erase-IsDistinct id s.groups inv.distinct);
  mapped = λ j p e.
      let e' : lookup j (erase id s.groups) ≡ some p = subst (λ d. lookup j d ≡ some p) less e in
      let e'' : lookup j s.groups ≡ some p =
        ground (arith, lookup-erase j id s.groups inv.distinct) in
      let (b, t, n, c) = inv.mapped j p e'' in
      let other : p ≢ h = λ q.
        ground (arith, lookup-erase j id s.groups inv.distinct, mapped_once u s id j h inv at) in
      (b, ground (arith, changed p), n, ground (arith, counts p));
  live = λ p pos.
      let (j, e) = inv.live p (ground (arith, counts p)) in
      (j, rw less (ground (arith, lookup-erase j id s.groups inv.distinct, counts p)));
  fresh = λ p le. ground (arith, changed p, inv.fresh p);
}
