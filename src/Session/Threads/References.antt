-- ===== src/Session/Threads/References.antt =====
-- One `Arc` cloned or dropped.
use vfio.Prelude.{
  ℕ, suc, ◌+◌, ◌-◌, ◌<◌, ◌≤◌, ◌≡◌, ◌≢◌, subst, sym, some, arith, lookup, ◌==◌, inl, inr, Bool-cases,
  ◌∙◌, IsDistinct,
}
use vfio.Host.Action.{State, ArcInner, arc_clone, arc_drop}
use vfio.Session.Threads.Counts.{refs, uses}
use vfio.Session.Threads.Shared.{Shared, recount-Shared, free-Shared}

-- Only the record of calls changes, and nobody uses a group that was not used.
pub same-Shared :
    (r w r' w' : ℕ → ℕ) (s s' : State)
    → Shared r w s
    → ((p : ℕ) → r' p ≡ r p)
    → ((p : ℕ) → w' p ≤ w p)
    → ((p : ℕ) → s'.heap p ≡ s.heap p)
    → s.next ≤ s'.next
    → s'.groups ≡ s.groups
    → Shared r' w' s'
same-Shared r w r' w' s s' v refs uses heap next same = record {
  distinct = subst IsDistinct (sym same) v.distinct;
  mapped = λ j p e.
      let (b, t, n, m) = v.mapped j p (subst (λ d. lookup j d ≡ some p) same e) in
      (b, heap p ∙ t, n, ground (arith, refs p));
  loose = λ p b e. elim (v.loose p b (sym (heap p) ∙ e)) [
    | inl q ↦ inl (ground (arith, refs p))
    | inr (j, at) ↦ inr (j, rw same at)
  ];
  alive = λ p pos. let (b, t) = v.alive p (ground (arith, refs p)) in (b, heap p ∙ t);
  live = λ p pos. let (j, e) = v.live p (omega (arith, uses p)) in (j, rw same e);
  fresh = λ p le. heap p ∙ v.fresh p (omega arith);
}

-- A reference more to an `Arc` that lives.
pub clone-Shared :
    (r w r' w' : ℕ → ℕ) (s : State) (h : ℕ) (a : ArcInner)
    → Shared r w s
    → s.heap h ≡ some a
    → r' h ≡ suc (r h)
    → ((p : ℕ) → p ≢ h → r' p ≡ r p)
    → ((p : ℕ) → 0 < w' p → (id : ℕ) × (lookup id s.groups ≡ some p))
    → Shared r' w' (arc_clone h s).1
clone-Shared r w r' w' s h a v there more others used =
    recount-Shared r w r' w' s (arc_clone h s).1 h (a.strong + 1) a v there (omega arith) others
      used (ground arith) (ground arith) (λ p. ground arith)

-- A reference less.
pub drop-Shared :
    (r w r' w' : ℕ → ℕ) (s : State) (h : ℕ)
    → Shared r w s
    → r h ≡ suc (r' h)
    → ((p : ℕ) → p ≢ h → r' p ≡ r p)
    → ((p : ℕ) → 0 < w' p → (id : ℕ) × (lookup id s.groups ≡ some p))
    → Shared r' w' (arc_drop h s).1
drop-Shared r w r' w' s h v less others used =
    let (a, there) = v.alive h (omega arith) in
    elim (Bool-cases (a.strong == 1)) [
      | inl last ↦ elim (v.loose h a there) [
        | inl q ↦
            free-Shared r w r' w' s (arc_drop h s).1 h a v there (ground arith) (omega arith)
              (ground arith) others used (ground arith) (ground arith) (λ p. ground arith)
        | inr (j, at) ↦ absurd (ground (arith, v.mapped j h at))
      ]
      | inr more ↦
          let many : 1 ≤ a.strong = elim (v.loose h a there) [
            | inl q ↦ omega arith
            | inr (j, at) ↦ ground (arith, v.mapped j h at)
          ] in
          recount-Shared r w r' w' s (arc_drop h s).1 h (a.strong - 1) a v there (omega arith)
            others used (ground arith) (ground arith) (λ p. ground arith)
    ]
