-- ===== src/Session/Registry/Steps.antt =====
-- Every open and every drop of a device is a change of the registry.
use vfio.Prelude.{refl, ℕ, suc, ◌-◌, ◌<◌, ◌≡◌, some, arith, lookup}
use vfio.Error.{Outcome, ok, err, fault}
use vfio.Host.Call.{SysPath}
use vfio.Host.Kernel.{Kernel}
use vfio.Host.Action.{State, ArcInner}
use vfio.Container.{VfioContainer}
use vfio.Device.Irq.{VfioDevice}
use vfio.Device.Lifecycle.{new_device, drop_device}
use vfio.Session.{attach, detach}
use vfio.Session.Invariant.{Inv}
use vfio.Session.Steps.{Inv-IsAlive}
use vfio.Session.Effects.{
  Opening, opens_anew, opens_again, leaves_group, changes_nothing, panics, new_arc, Closing,
  closes_device, releases_group,
}
use vfio.Session.Effects.Opened.{new_device-Opening}
use vfio.Session.Effects.Closed.{drop_device-Closing}
use vfio.Session.Registry.{
  Change, opens, fails, keeps_group, closes, releases, registry, set-view, insert-view, erase-view,
  same-view, view-users,
}

-- From `n` open devices on.
abbrev pub Changes : Kernel → ℕ → SysPath → State → Outcome VfioDevice × State → Type 0
Changes k n path s (ok d, s') = Change (attach path) (registry k n s) (registry k (suc n) s')
Changes k n path s (err e, s') = Change (attach path) (registry k n s) (registry k n s')
Changes k n path s (fault x, s') = Unit {0}

module _ (k : Kernel) where
  Opening-Changes :
      (u : ℕ → ℕ) (n : ℕ) (path : SysPath) (s : State) (x : Outcome VfioDevice × State)
      → Inv u s
      → Opening k ⊥ s x
      → Changes k n path s x
  Opening-Changes u n path s (ok d, s') inv (opens_anew id g free same next groups heap files att) =
      opens id refl (λ j. ground (
        arith,
        insert-view u s s' id s.next 1 (new_arc id g 2) inv (inv.fresh s.next (omega arith)) groups
            heap j,
      ))
  Opening-Changes u n path s (ok d, s') inv
        (opens_again id h a at there same next groups heap files att) =
      let (b, there', named, counted) = inv.mapped id h at in
      opens id refl (λ j. ground (
        arith,
        view-users u s id h inv at,
        set-view u s s' id h (suc (u h)) a inv at groups (λ p. ground (arith, heap p)) j,
      ))
  Opening-Changes u n path s (err e, s') inv (leaves_group id g free next groups heap files att) =
      keeps_group id refl (ground arith) (
        insert-view u s s' id s.next 0 (new_arc id g 1) inv (inv.fresh s.next (omega arith)) groups
          heap)
  Opening-Changes u n path s (err e, s') inv (changes_nothing next groups heap files att) =
      fails (refl, same-view s s' groups heap)
  Opening-Changes u n path s (fault y, s') inv panics = tt

  pub new_device-Changes :
      (c : VfioContainer) (u : ℕ → ℕ) (n : ℕ) (s : State) (path : SysPath)
      → Inv u s
      → Changes k n path s (new_device k c path s)
  new_device-Changes c u n s path inv = Opening-Changes u n path s (new_device k c path s) inv (
      new_device-Opening k c (λ b. absurd b) path s (inv.fresh s.next (omega arith))
        (Inv-IsAlive u s inv))

  Closing-Change :
      (u : ℕ → ℕ) (i n : ℕ) (d : VfioDevice) (id : ℕ) (a : ArcInner) (s s' : State)
      → Inv u s
      → lookup id s.groups ≡ some d.group
      → s.heap d.group ≡ some a
      → 0 < u d.group
      → i < suc n
      → Closing k d id a s s'
      → Change (detach i) (registry k (suc n) s) (registry k n s')
  Closing-Change u i n d id a s s' inv at there used small
        (closes_device next groups heap files att kept_empty) =
      let (b, there', named, counted) = inv.mapped id d.group at in
      closes id (u d.group - 1) small refl (ground (arith, view-users u s id d.group inv at))
        (λ last. kept_empty (ground arith))
        (set-view u s s' id d.group (u d.group - 1) a inv at groups (λ p. ground (arith, heap p)))
  Closing-Change u i n d id a s s' inv at there used small
        (releases_group two next groups heap files att) =
      let (b, there', named, counted) = inv.mapped id d.group at in
      releases id small refl (ground (arith, view-users u s id d.group inv at))
        (erase-view u s s' id d.group inv at groups heap)

  pub drop_device-Change :
      (c : VfioContainer) (u : ℕ → ℕ) (i n : ℕ) (d : VfioDevice) (s : State)
      → Inv u s
      → 0 < u d.group
      → i < suc n
      → Change (detach i) (registry k (suc n) s) (registry k n (drop_device k c d s).1)
  drop_device-Change c u i n d s inv used small =
      let (id, at) = inv.live d.group used in
      let (a, there, named, counted) = inv.mapped id d.group at in
      Closing-Change u i n d id a s (drop_device k c d s).1 inv at there used small
        (drop_device-Closing k c d id a s at there named (omega arith))
