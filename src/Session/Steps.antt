-- ===== src/Session/Steps.antt =====
-- What opening and dropping one device does to the reference counts.
use vfio.Prelude.{ℕ, suc, ◌-◌, ◌<◌, ◌≡◌, some, arith, lookup}
use vfio.Error.{Outcome, ok, err, fault}
use vfio.Host.Call.{SysPath}
use vfio.Host.Kernel.{Kernel}
use vfio.Host.Action.{State, ArcInner}
use vfio.Container.{VfioContainer}
use vfio.Device.Irq.{VfioDevice}
use vfio.Device.Lifecycle.{new_device, drop_device}
use vfio.Session.Invariant.{
  Inv, bump, lower, same-Inv, set-Inv, next_unused, create-Inv, remove-Inv,
}
use vfio.Session.Effects.{
  IsAlive, Opening, opens_anew, opens_again, leaves_group, changes_nothing, panics, Closing,
  closes_device, releases_group,
}
use vfio.Session.Effects.Opened.{new_device-Opening}
use vfio.Session.Effects.Closed.{drop_device-Closing}

pub Inv-IsAlive : (u : ℕ → ℕ) (s : State) → Inv u s → IsAlive s
Inv-IsAlive u s inv id h at =
    let (a, there, named, counted) = inv.mapped id h at in (a, there, omega arith)

-- What `VfioDevice::new` leaves.
abbrev pub News : (ℕ → ℕ) → Outcome VfioDevice × State → Type 0
News u (ok d, s') = Inv (bump u d.group) s'
News u (err e, s') = Inv u s'
News u (fault x, s') = Unit {0}

module _ (k : Kernel) where
  Opening-News :
      (u : ℕ → ℕ) (s : State) (x : Outcome VfioDevice × State)
      → Inv u s
      → Opening k ⊥ s x
      → News u x
  Opening-News u s (ok d, s') inv (opens_anew id g free same next groups heap files att) =
      create-Inv u (bump u d.group) s s' id 1 g inv free (λ p. ground (arith, next_unused u s inv))
        groups next heap
  Opening-News u s (ok d, s') inv (opens_again id h a at there same next groups heap files att) =
      let (b, there', named, counted) = inv.mapped id h at in
      set-Inv u (bump u d.group) s s' id h (suc (u h)) a inv at there (λ p. ground arith) groups
        (omega arith) (λ p. ground (arith, heap p))
  Opening-News u s (err e, s') inv (leaves_group id g free next groups heap files att) =
      create-Inv u u s s' id 0 g inv free (λ p. ground (arith, next_unused u s inv)) groups next
        heap
  Opening-News u s (err e, s') inv (changes_nothing next groups heap files att) =
      same-Inv u s s' inv heap next groups
  Opening-News u s (fault y, s') inv panics = tt

  pub new_device-News :
      (c : VfioContainer) (u : ℕ → ℕ) (s : State) (path : SysPath)
      → Inv u s
      → News u (new_device k c path s)
  new_device-News c u s path inv = Opening-News u s (new_device k c path s) inv (
      new_device-Opening k c (λ b. absurd b) path s (inv.fresh s.next (omega arith))
        (Inv-IsAlive u s inv))

  Closing-Inv :
      (u v : ℕ → ℕ) (d : VfioDevice) (id : ℕ) (a : ArcInner) (s s' : State)
      → Inv u s
      → lookup id s.groups ≡ some d.group
      → s.heap d.group ≡ some a
      → 0 < u d.group
      → ((p : ℕ) → v p ≡ lower u d.group p)
      → Closing k d id a s s'
      → Inv v s'
  Closing-Inv u v d id a s s' inv at there used counts
        (closes_device next groups heap files att kept_empty) =
      let (b, there', named, counted) = inv.mapped id d.group at in
      set-Inv u v s s' id d.group (u d.group - 1) a inv at there (λ p. ground (arith, counts p))
        groups (omega arith) (λ p. ground (arith, heap p))
  Closing-Inv u v d id a s s' inv at there used counts
        (releases_group two next groups heap files att) =
      let (b, there', named, counted) = inv.mapped id d.group at in
      remove-Inv u v s s' id d.group inv at (λ p. ground (arith, counts p)) groups next heap

  -- The drop of a device that is in use.
  pub drop_device-Inv :
      (c : VfioContainer) (u v : ℕ → ℕ) (d : VfioDevice) (s : State)
      → Inv u s
      → 0 < u d.group
      → ((p : ℕ) → v p ≡ lower u d.group p)
      → Inv v (drop_device k c d s).1
  drop_device-Inv c u v d s inv used counts =
      let (id, at) = inv.live d.group used in
      let (a, there, named, counted) = inv.mapped id d.group at in
      Closing-Inv u v d id a s (drop_device k c d s).1 inv at there used counts
        (drop_device-Closing k c d id a s at there named (omega arith))
