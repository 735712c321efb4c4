-- ===== src/Session/Threads/Shared.antt =====
-- What the container's map, the `Arc`s and the references of the threads have to do with each other.
use vfio.Prelude.{
  ℕ, suc, ◌+◌, ◌<◌, ◌≤◌, ◌≡◌, ◌≢◌, subst, sym, none, some, arith, lookup, erase, insert,
  lookup-insert, lookup-erase, IsDistinct, insert-IsDistinct, erase-IsDistinct, ◌==◌, ◌⊎◌, inl, inr,
  Bool-cases, ltb,
}
use vfio.Host.Call.{Fd}
use vfio.Host.Action.{State, ArcInner, update}

-- `r h` references of threads to an `Arc`, `w h` of them by threads that use the group. A mapped
-- group lives under its id, and the map has one reference more; an `Arc` that is not mapped has only
-- the threads' references; what is referred to lives; what is used is mapped; names to come are free.
pub record Shared (r w : ℕ → ℕ) (s : State) : Type 0 where
  pub distinct : IsDistinct s.groups
  pub mapped :
      (id h : ℕ)
      → lookup id s.groups ≡ some h
      → (a : ArcInner) × (s.heap h ≡ some a) × (a.value.id ≡ id) × (a.strong ≡ suc (r h))
  pub loose :
      (h : ℕ) (a : ArcInner)
      → s.heap h ≡ some a
      → (a.strong ≡ r h) ⊎ ((id : ℕ) × (lookup id s.groups ≡ some h))
  pub alive : (h : ℕ) → 0 < r h → (a : ArcInner) × (s.heap h ≡ some a)
  pub live : (h : ℕ) → 0 < w h → (id : ℕ) × (lookup id s.groups ≡ some h)
  pub fresh : (h : ℕ) → s.next ≤ h → s.heap h ≡ none

-- The count of one `Arc` follows its references.
pub recount-Shared :
    (r w r' w' : ℕ → ℕ) (s s' : State) (h x : ℕ) (a : ArcInner)
    → Shared r w s
    → s.heap h ≡ some a
    → x + r h ≡ a.strong + r' h
    → ((p : ℕ) → p ≢ h → r' p ≡ r p)
    → ((p : ℕ) → 0 < w' p → (id : ℕ) × (lookup id s.groups ≡ some p))
    → s'.groups ≡ s.groups
    → s'.next ≡ s.next
    → ((p : ℕ) → s'.heap p ≡ update s.heap h (some (record a { strong = x })) p)
    → Shared r' w' s'
recount-Shared r w r' w' s s' h x a v there count others used same later changed = record {
  distinct = subst IsDistinct (sym same) v.distinct;
  mapped = λ j p e.
      let (b, t, n, m) = v.mapped j p (subst (λ d. lookup j d ≡ some p) same e) in
      elim (Bool-cases (p == h)) [
        | inl hit ↦ (record b { strong = x }, ground (arith, changed p), n, ground arith)
        | inr miss ↦ (b, ground (arith, changed p), n, ground (arith, others p))
      ];
  loose = λ p b e. elim (Bool-cases (p == h)) [
    | inl hit ↦ elim (v.loose h a there) [
      | inl q ↦ inl (ground (arith, changed p))
      | inr (j, at) ↦ inr (j, rw same (ground arith))
    ]
    | inr miss ↦ elim (v.loose p b (ground (arith, changed p))) [
      | inl q ↦ inl (ground (arith, others p))
      | inr (j, at) ↦ inr (j, rw same at)
    ]
  ];
  alive = λ p pos. elim (Bool-cases (p == h)) [
    | inl hit ↦ (record a { strong = x }, ground (arith, changed p))
    | inr miss ↦ let (b, t) = v.alive p (ground (arith, others p)) in (b, ground (arith, changed p))
  ];
  live = λ p pos. let (j, e) = used p pos in (j, subst (λ d. lookup j d ≡ some p) (sym same) e);
  fresh = λ p le. ground (arith, changed p, v.fresh p, v.fresh h);
}

-- The last reference to an `Arc` that is not mapped.
pub free-Shared :
    (r w r' w' : ℕ → ℕ) (s s' : State) (h : ℕ) (a : ArcInner)
    → Shared r w s
    → s.heap h ≡ some a
    → a.strong ≡ 1
    → 0 < r h
    → r' h ≡ 0
    → ((p : ℕ) → p ≢ h → r' p ≡ r p)
    → ((p : ℕ) → 0 < w' p → (id : ℕ) × (lookup id s.groups ≡ some p))
    → s'.groups ≡ s.groups
    → s'.next ≡ s.next
    → ((p : ℕ) → s'.heap p ≡ update s.heap h none p)
    → Shared r' w' s'
free-Shared r w r' w' s s' h a v there one referred gone others used same later changed = record {
  distinct = subst IsDistinct (sym same) v.distinct;
  mapped = λ j p e.
      let (b, t, n, m) = v.mapped j p (subst (λ d. lookup j d ≡ some p) same e) in
      (b, ground (arith, changed p), n, ground (arith, others p));
  loose = λ p b e. elim (v.loose p b (ground (arith, changed p))) [
    | inl q ↦ inl (ground (arith, changed p, others p))
    | inr (j, at) ↦ inr (j, rw same at)
  ];
  alive = λ p pos.
      let (b, t) = v.alive p (ground (arith, others p)) in (b, ground (arith, changed p, others p));
  live = λ p pos. let (j, e) = used p pos in (j, subst (λ d. lookup j d ≡ some p) (sym same) e);
  fresh = λ p le. ground (arith, changed p, v.fresh p);
}

unnamed : (r w : ℕ → ℕ) (s : State) → Shared r w s → r s.next ≡ 0
unnamed r w s v = elim (Bool-cases (ltb 0 (r s.next))) [
  | inl used ↦ let (a, t) = v.alive s.next (ground arith) in ground (arith, v.fresh s.next)
  | inr free ↦ ground arith
]

-- A new `Arc`, mapped and with one reference more.
pub create-Shared :
    (r w r' w' : ℕ → ℕ) (s s' : State) (id : ℕ) (g : Fd)
    → Shared r w s
    → lookup id s.groups ≡ none
    → r' s.next ≡ suc (r s.next)
    → ((p : ℕ) → p ≢ s.next → r' p ≡ r p)
    → ((p : ℕ) → p ≢ s.next → w' p ≡ w p)
    → s'.groups ≡ insert id s.next s.groups
    → s'.next ≡ suc s.next
    → ((p : ℕ)
        → s'.heap p
          ≡ update s.heap s.next
              (some (record { value = record { id = id; group = g }; strong = 2 }))
              p)
    → Shared r' w' s'
create-Shared r w r' w' s s' id g v absent more others uses more_groups later changed = record {
  distinct = subst IsDistinct (sym more_groups) (insert-IsDistinct id s.next s.groups v.distinct);
  mapped = λ j p e.
      let e' : lookup j (insert id s.next s.groups) ≡ some p =
        subst (λ d. lookup j d ≡ some p) more_groups e in
      elim (Bool-cases (j == id)) [
        | inl hit ↦ (
          record { value = record { id = id; group = g }; strong = 2 },
          ground (arith, changed p, lookup-insert j id s.next s.groups),
          ground arith,
          ground (arith, lookup-insert j id s.next s.groups, unnamed r w s v),
        )
        | inr miss ↦
            let (b, t, n, m) = v.mapped j p (ground (arith, lookup-insert j id s.next s.groups)) in
            let other : p ≢ s.next = λ q. ground (arith, v.fresh p) in
            (b, ground (arith, changed p), n, ground (arith, others p other))
      ];
  loose = λ p b e. elim (Bool-cases (p == s.next)) [
    | inl hit ↦ inr (id, rw more_groups (ground (arith, lookup-insert id id s.next s.groups)))
    | inr miss ↦ elim (v.loose p b (ground (arith, changed p))) [
      | inl q ↦ inl (ground (arith, others p))
      | inr (j, at) ↦ inr (j, rw more_groups (ground (arith, lookup-insert j id s.next s.groups)))
    ]
  ];
  alive = λ p pos. elim (Bool-cases (p == s.next)) [
    | inl hit ↦
        (record { value = record { id = id; group = g }; strong = 2 }, ground (arith, changed p))
    | inr miss ↦ let (b, t) = v.alive p (ground (arith, others p)) in (b, ground (arith, changed p))
  ];
  live = λ p pos. elim (Bool-cases (p == s.next)) [
    | inl hit ↦ (id, rw more_groups (ground (arith, lookup-insert id id s.next s.groups)))
    | inr miss ↦
        let (j, e) = v.live p (ground (arith, uses p)) in
        (j, rw more_groups (ground (arith, lookup-insert j id s.next s.groups)))
  ];
  fresh = λ p le. ground (arith, changed p, v.fresh p);
}

once :
    (r w : ℕ → ℕ) (s : State) (i j h : ℕ)
    → Shared r w s
    → lookup i s.groups ≡ some h
    → lookup j s.groups ≡ some h
    → i ≡ j
once r w s i j h v p q = ground (arith, v.mapped i h p, v.mapped j h q)

-- The map lets a group go that only one thread refers to, twice.
pub release-Shared :
    (r w r' w' : ℕ → ℕ) (s s' : State) (id h : ℕ) (a : ArcInner)
    → Shared r w s
    → lookup id s.groups ≡ some h
    → s.heap h ≡ some a
    → r h ≡ 2
    → w' h ≡ 0
    → ((p : ℕ) → r' p ≡ r p)
    → ((p : ℕ) → p ≢ h → w' p ≡ w p)
    → s'.groups ≡ erase id s.groups
    → s'.next ≡ s.next
    → ((p : ℕ) → s'.heap p ≡ update s.heap h (some (record a { strong = 2 })) p)
    → Shared r' w' s'
release-Shared r w r' w' s s' id h a v at there two unused same uses less later changed = record {
  distinct = subst IsDistinct (sym less) (erase-IsDistinct id s.groups v.distinct);
  mapped = λ j p e.
      let e' : lookup j (erase id s.groups) ≡ some p = subst (λ d. lookup j d ≡ some p) less e in
      let e'' : lookup j s.groups ≡ some p =
        ground (arith, lookup-erase j id s.groups v.distinct) in
      let (b, t, n, m) = v.mapped j p e'' in
      let other : p ≢ h =
        λ q. ground (arith, lookup-erase j id s.groups v.distinct, once r w s id j h v at) in
      (b, ground (arith, changed p), n, ground (arith, same p));
  loose = λ p b e. elim (Bool-cases (p == h)) [
    | inl hit ↦ inl (ground (arith, changed p, same p))
    | inr miss ↦ elim (v.loose p b (ground (arith, changed p))) [
      | inl q ↦ inl (ground (arith, same p))
      | inr (j, e') ↦ inr (j, rw less (ground (arith, lookup-erase j id s.groups v.distinct)))
    ]
  ];
  alive = λ p pos. elim (Bool-cases (p == h)) [
    | inl hit ↦ (record a { strong = 2 }, ground (arith, changed p))
    | inr miss ↦ let (b, t) = v.alive p (ground (arith, same p)) in (b, ground (arith, changed p))
  ];
  live = λ p pos.
      let (j, e) = v.live p (ground (arith, uses p)) in
      (j, rw less (ground (arith, lookup-erase j id s.groups v.distinct)));
  fresh = λ p le. ground (arith, changed p, v.fresh p, v.fresh h);
}
