-- ===== src/Session/Effects/Closed.antt =====
-- What the drop of a device does, through `put_group`.
use vfio.Prelude.{ℕ, ◌≤◌, ◌≡◌, sym, some, arith, lookup, ◌==◌, Bool-cases, inl, inr}
use vfio.Host.Kernel.{Kernel}
use vfio.Host.Action.{State, ArcInner}
use vfio.Container.{VfioContainer}
use vfio.Container.Release.{drop_device_cases, drop_device_other}
use vfio.Device.Irq.{VfioDevice}
use vfio.Device.Lifecycle.{drop_device}
use vfio.Session.Effects.{Closing, closes_device, releases_group}

module _ (k : Kernel) where
  pub drop_device-Closing :
      (c : VfioContainer) (d : VfioDevice) (id : ℕ) (a : ArcInner) (s : State)
      → lookup id s.groups ≡ some d.group
      → s.heap d.group ≡ some a
      → a.value.id ≡ id
      → 2 ≤ a.strong
      → Closing k d id a s (drop_device k c d s).1
  drop_device-Closing c d id a s at there named used = elim (Bool-cases (a.strong == 2)) [
    | inl last ↦
        let two : a.strong ≡ 2 = ground arith in
        elim (drop_device_cases k c d a s there two (rw named at)) [
          | inl (groups, heap, next, files, att) ↦
              releases_group two next (rw (sym named) groups) heap files att
          | inr (groups, heap, next, files, att, refused) ↦
              closes_device next groups heap files att (λ e. refused)
        ]
    | inr more ↦
        let (_, groups, heap, next, files, att) =
          drop_device_other k c d a s there (ground arith) in
        closes_device next groups heap files att (λ e. absurd (ground arith))
  ]
