-- ===== src/Session/Restore.antt =====
-- Opening a device and dropping it again.
use vfio.Prelude.{
  ℕ, ◌+◌, ◌≤◌, ◌≡◌, refl, subst, ◌∙◌, none, some, arith, lookup, erase-insert, lookup-insert,
  eq_ℤ_refl,
}
use vfio.Error.{Outcome, ok, err, fault}
use vfio.Host.Call.{Fd, SysPath}
use vfio.Host.Kernel.{Kernel}
use vfio.Host.Action.{State, ArcInner}
use vfio.Host.Resources.{open_fds, attached}
use vfio.Container.{VfioContainer}
use vfio.Container.Release.{LetsGo, IsAlone, drop_device_last, drop_device_other}
use vfio.Device.Irq.{VfioDevice}
use vfio.Device.Lifecycle.{new_device, drop_device}
use vfio.Session.Effects.{IsAlive, Opening, opens_anew, opens_again, new_arc, referred}
use vfio.Session.Effects.Opened.{new_device-Opening}

module _ (k : Kernel) (c : VfioContainer) (lets : (g : Fd) → LetsGo k c g) where
  -- The same groups, in the map and living, and the same open files and attached groups.
  abbrev pub Restored : State → State → Type 0
  Restored s s' =
      (s'.groups ≡ s.groups)
      × ((h : ℕ) → s'.heap h ≡ s.heap h)
      × (open_fds k s'.trace ≡ open_fds k s.trace)
      × (attached k s'.trace ≡ attached k s.trace)

  -- Every mapped group lives and is in use.
  abbrev pub IsInUse : State → Type 0
  IsInUse s =
      (id h : ℕ)
      → lookup id s.groups ≡ some h
      → (a : ArcInner) × (s.heap h ≡ some a) × (2 ≤ a.strong)

  -- If only the map and this device refer to its group, no other device of the group is open.
  abbrev pub IsAloneIn : VfioDevice → State → Type 0
  IsAloneIn d s = (a : ArcInner) → s.heap d.group ≡ some a → a.strong ≡ 2 → IsAlone k c d a s

  -- Where a device was opened, its drop restores the state.
  abbrev Undoes : State → Outcome VfioDevice × State → Type 0
  Undoes s (ok d, s') = IsAloneIn d s' → Restored s (drop_device k c d s').1
  Undoes s (err e, s') = Unit {0}
  Undoes s (fault x, s') = Unit {0}

  Opening-Undoes :
      (s : State) (x : Outcome VfioDevice × State)
      → s.heap s.next ≡ none
      → IsInUse s
      → Opening k ⊥ s x
      → Undoes s x
  Opening-Undoes s (ok d, s') fresh used (opens_anew id g free same next groups heap files att) =
      λ alone.
        let a : ArcInner = new_arc id g 2 in
        let there : s'.heap d.group ≡ some a = ground (arith, heap d.group) in
        let at : lookup id s'.groups ≡ some d.group =
          ground (arith, lookup-insert id id s.next s.groups) in
        let (_, gone, heap', _, files', att') =
          drop_device_last k c d a s' (lets g) (alone a there refl) there refl at in
        (
          gone ∙ ground (arith, erase-insert id s.next s.groups),
          λ p. ground (arith, heap p, heap' p),
          files' ∙ rw files (ground (arith, eq_ℤ_refl g, eq_ℤ_refl d.device)),
          att' ∙ rw att (ground (arith, eq_ℤ_refl g)),
        )
  Opening-Undoes s (ok d, s') fresh used
        (opens_again id h a at there same next groups heap files att) =
      λ alone.
        let (a', there', many) = used id h at in
        let b : ArcInner = referred a (a.strong + 1) in
        let there'' : s'.heap d.group ≡ some b = ground (arith, heap h) in
        let (_, kept, heap', _, files', att') =
          drop_device_other k c d b s' there'' (ground arith) in
        (
          kept ∙ groups,
          λ p. ground (arith, heap p, heap' p),
          files' ∙ rw files (ground (arith, eq_ℤ_refl d.device)),
          att' ∙ att,
        )
  Opening-Undoes s (err e, s') fresh used o = tt
  Opening-Undoes s (fault y, s') fresh used o = tt

  IsInUse-IsAlive : (s : State) → IsInUse s → IsAlive s
  IsInUse-IsAlive s used id h at = let (a, there, many) = used id h at in (a, there, omega arith)

  -- Where the next allocation is free, every mapped group lives and is in use, the hypervisor lets
  -- groups go, and the kernel lets a group go as long as no device of it is open: if opening a
  -- device succeeds, and no other device of its group is open where only the map and this device
  -- refer to it, dropping the device at once leaves the map of groups, the living groups with their
  -- counts, the open files and the attached groups as they were before the open.
  pub new_device-drop_device :
      (path : SysPath) (s s' : State) (d : VfioDevice)
      → s.heap s.next ≡ none
      → IsInUse s
      → new_device k c path s ≡ (ok d, s')
      → IsAloneIn d s'
      → Restored s (drop_device k c d s').1
  new_device-drop_device path s s' d fresh used opens alone =
      subst (Undoes s) opens
        (Opening-Undoes s (new_device k c path s) fresh used
          (new_device-Opening k c (λ b. absurd b) path s fresh (IsInUse-IsAlive s used)))
        alone
