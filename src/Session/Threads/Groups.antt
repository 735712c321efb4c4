-- ===== src/Session/Threads/Groups.antt =====
-- `get_group` and `put_group` under the lock keep map, `Arc`s and references in agreement.
use vfio.Prelude.{
  ℕ, suc, ◌<◌, ◌≤◌, ◌≡◌, ◌≢◌, refl, subst, sym, none, arith, lookup, ◌==◌, inl, inr, Bool-cases,
  Option-cases,
}
use vfio.Error.{Outcome, ok, err, fault}
use vfio.Host.Kernel.{Kernel}
use vfio.Host.Action.{State}
use vfio.Container.{VfioContainer, get_group, put_locked, create_group}
use vfio.Container.Attach.{CreatesIf, create_group-CreatesIf}
use vfio.Container.Create.{get_group_again}
use vfio.Container.Release.{release_group-Ends}
use vfio.Session.Threads.Shared.{Shared, create-Shared, release-Shared}
use vfio.Session.Threads.References.{same-Shared, clone-Shared}

module _ (k : Kernel) (c : VfioContainer) where
  -- What `get_group` leaves: a mapped group with a reference more, or all as before.
  abbrev pub Gets : (ℕ → ℕ) → (ℕ → ℕ) → Outcome ℕ × State → Type 0
  Gets r w (ok h, s') =
      (r' w' : ℕ → ℕ)
      → r' h ≡ suc (r h)
      → ((p : ℕ) → p ≢ h → r' p ≡ r p)
      → ((p : ℕ) → p ≢ h → w' p ≡ w p)
      → Shared r' w' s'
  Gets r w (err e, s') = Shared r w s'
  Gets r w (fault x, s') = ⊥

  created-Gets :
      (r w : ℕ → ℕ) (id : ℕ) (s : State) (x : Outcome ℕ × State)
      → Shared r w s
      → lookup id s.groups ≡ none
      → CreatesIf k c {P = ⊥} (λ b. absurd b) id s x
      → Gets r w x
  created-Gets r w id s (ok h, s') v free (e, g, heap, next, groups, _, _) =
      λ r' w' more others used.
        create-Shared r w r' w' s s' id g v free (ground arith) (λ p ne. others p (ground arith))
          (λ p ne. used p (ground arith)) groups next heap
  created-Gets r w id s (err e, s') v free (heap, next, groups, _, _) =
      same-Shared r w r w s s' v (λ p. refl) (λ p. omega arith) heap next groups
  created-Gets r w id s (fault x, s') v free i = i

  pub get_group-Gets :
      (r w : ℕ → ℕ) (id : ℕ) (s : State) → Shared r w s → Gets r w (get_group k c id s)
  unfolding get_group
  get_group-Gets r w id s v = elim (Option-cases (lookup id s.groups)) [
    | inl free ↦
        rw (free, get_group)
          (created-Gets r w id s (create_group k c id s) v free
            (create_group-CreatesIf k c (λ b. absurd b) id s (v.fresh s.next (omega arith))))
    | inr (h, at) ↦
        let (a, there, named, counted) = v.mapped id h at in
        subst (Gets r w) (sym (get_group_again k c id h a s at there)) (λ r' w' more others uses.
          subst (Shared r' w') (ground arith) (
            clone-Shared r w r' w' s h a v there more others (λ p pos. elim (Bool-cases (p == h)) [
              | inl hit ↦ (id, ground arith)
              | inr other ↦ v.live p (ground (arith, uses p))
            ])))
  ]

  -- `put_group` under its lock, by a thread with two references that are the last uses if they are
  -- the last references.
  pub put-Shared :
      (r w r' w' : ℕ → ℕ) (s : State) (h : ℕ)
      → Shared r w s
      → 0 < r h
      → 0 < w h
      → (r h ≡ 2 → w' h ≡ 0)
      → ((p : ℕ) → r' p ≡ r p)
      → ((p : ℕ) → w' p ≤ w p)
      → ((p : ℕ) → p ≢ h → w' p ≡ w p)
      → Shared r' w' (put_locked k c h s).1
  unfolding put_locked
  put-Shared r w r' w' s h v referred used last refs uses others =
      let (id, at) = v.live h used in
      let (a, there, named, counted) = v.mapped id h at in
      elim (Bool-cases (a.strong == 3)) [
        | inl three ↦ elim (release_group-Ends k c a.value s) [
          | inl (t, e, _, _, _) ↦
              same-Shared r w r' w' s (put_locked k c h s).1 v refs uses (λ p. ground arith)
                (ground arith) (ground arith)
          | inr (t, e, _, _) ↦
              release-Shared r w r' w' s (put_locked k c h s).1 id h a v at there (ground arith)
                (last (ground arith)) refs others (ground arith) (ground arith) (λ p. ground arith)
        ]
        | inr more ↦
            same-Shared r w r' w' s (put_locked k c h s).1 v refs uses (λ p. ground arith)
              (ground arith) (ground arith)
      ]
