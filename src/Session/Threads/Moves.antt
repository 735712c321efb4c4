-- ===== src/Session/Threads/Moves.antt =====
-- Every step of a thread keeps map, `Arc`s and references in agreement.
use vfio.Prelude.{ℕ, ◌+◌, ◌≤◌, ◌≡◌, refl, subst, some, arith, List, get_elem?}
use vfio.Host.Kernel.{Kernel}
use vfio.Host.Action.{State}
use vfio.Container.{VfioContainer}
use vfio.Session.Threads.{
  Phase, set, Move, call, get, miss, refuse, finish, close_file, clone, put_group, drop_clone,
  drop_own,
}
use vfio.Session.Threads.Counts.{refs, uses, total, total-set, le-total, total-le}
use vfio.Session.Threads.Shared.{Shared}
use vfio.Session.Threads.References.{same-Shared, clone-Shared, drop-Shared}
use vfio.Session.Threads.Groups.{Gets, get_group-Gets, put-Shared}

abbrev pub all_refs : List Phase → ℕ → ℕ
all_refs ps h = total (refs h) ps

abbrev pub all_uses : List Phase → ℕ → ℕ
all_uses ps h = total (uses h) ps

module _ (k : Kernel) (c : VfioContainer) (ps : List Phase) (i : ℕ) (p p' : Phase)
    (there : get_elem? ps i ≡ some p) where
  moved_refs : (h : ℕ) → all_refs (set ps i p') h + refs h p ≡ all_refs ps h + refs h p'
  moved_refs h = total-set (refs h) ps i p p' there

  moved_uses : (h : ℕ) → all_uses (set ps i p') h + uses h p ≡ all_uses ps h + uses h p'
  moved_uses h = total-set (uses h) ps i p p' there

  moved_le : (h : ℕ) → (refs h p ≤ all_refs ps h) × (uses h p ≤ all_uses ps h)
  moved_le h = (le-total (refs h) ps i p there, le-total (uses h) ps i p there)

  pub Move-Shared :
      (s s' : State)
      → Shared (all_refs ps) (all_uses ps) s
      → Move k c s p s' p'
      → Shared (all_refs (set ps i p')) (all_uses (set ps i p')) s'
  Move-Shared s s' v (call x e q) =
      same-Shared _ _ _ _ s s' v (λ h. ground (arith, moved_refs h))
        (λ h. ground (arith, moved_uses h)) (λ h. ground arith) (ground arith) (ground arith)
  Move-Shared s s' v (get id h e got q) =
      subst (Gets k c (all_refs ps) (all_uses ps)) got (get_group-Gets k c _ _ id s v) _ _
        (ground (arith, moved_refs h)) (λ g ne. ground (arith, moved_refs g))
        (λ g ne. ground (arith, moved_uses g))
  Move-Shared s s' v (miss id x e got q) =
      same-Shared _ _ _ _ s' s'
        (subst (Gets k c (all_refs ps) (all_uses ps)) got (get_group-Gets k c _ _ id s v))
        (λ h. ground (arith, moved_refs h)) (λ h. ground (arith, moved_uses h)) (λ h. refl)
        (omega arith) refl
  Move-Shared s s' v (refuse h e step q) = rw step (
      drop-Shared _ _ _ _ s h v (ground (arith, moved_refs h))
        (λ g ne. ground (arith, moved_refs g))
        (λ g pos. v.live g (ground (arith, moved_uses g, moved_le g))))
  Move-Shared s s' v (finish d e step q) =
      same-Shared _ _ _ _ s s' v (λ h. ground (arith, moved_refs h))
        (λ h. ground (arith, moved_uses h)) (λ h. ground arith) (ground arith) (ground arith)
  Move-Shared s s' v (close_file d e step q) =
      same-Shared _ _ _ _ s s' v (λ h. ground (arith, moved_refs h))
        (λ h. ground (arith, moved_uses h)) (λ h. ground arith) (ground arith) (ground arith)
  Move-Shared s s' v (clone d e step q) =
      let (a, alive) = v.alive d.group (ground (arith, moved_le d.group)) in
      rw step (
        clone-Shared _ _ _ _ s d.group a v alive (ground (arith, moved_refs d.group))
          (λ g ne. ground (arith, moved_refs g))
          (λ g pos. v.live g (ground (arith, moved_uses g, moved_le g))))
  Move-Shared s s' v (put_group d e step q) = rw step (
      put-Shared k c _ _ _ _ s d.group v (ground (arith, moved_le d.group))
        (ground (arith, moved_le d.group))
        (λ two. ground (arith, moved_uses d.group, moved_refs d.group, total-le d.group ps))
        (λ g. ground (arith, moved_refs g)) (λ g. ground (arith, moved_uses g))
        (λ g ne. ground (arith, moved_uses g)))
  Move-Shared s s' v (drop_clone d e step q) = rw step (
      drop-Shared _ _ _ _ s d.group v (ground (arith, moved_refs d.group))
        (λ g ne. ground (arith, moved_refs g))
        (λ g pos. v.live g (ground (arith, moved_uses g, moved_le g))))
  Move-Shared s s' v (drop_own d e step q) = rw step (
      drop-Shared _ _ _ _ s d.group v (ground (arith, moved_refs d.group))
        (λ g ne. ground (arith, moved_refs g))
        (λ g pos. v.live g (ground (arith, moved_uses g, moved_le g))))
