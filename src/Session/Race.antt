-- ===== src/Session/Race.antt =====
-- Two threads that drop devices of one group: the steps of `Drop for VfioDevice` in
-- crates/vfio-ioctls/src/vfio_device.rs, in any order that keeps each thread's own. What holds the
-- container's mutex is one step.
use vfio.Prelude.{ℕ, ◌≡◌, some, List, [], ◌∷◌, arith}
use vfio.Error.{Outcome, ok}
use vfio.Host.Kernel.{Kernel}
use vfio.Host.Action.{Action, State, ArcInner, pure, ◌>>◌, close, arc_clone, arc_drop}
use vfio.Container.{VfioContainer, put_locked, put_group}
use vfio.Device.Irq.{VfioDevice}
use vfio.Device.Lifecycle.{drop_device}

-- The third list has the elements of the others, each list's in order.
pub data IsMerge {ℓ} {A : Type ℓ} : List A → List A → List A → Type ℓ where
  done : IsMerge [] [] []
  left : {xs ys zs : List A} (x : A) → IsMerge xs ys zs → IsMerge (x ∷ xs) ys (x ∷ zs)
  right : {xs ys zs : List A} (y : A) → IsMerge xs ys zs → IsMerge xs (y ∷ ys) (y ∷ zs)

abbrev pub run_steps : List (Action (Unit {0})) → Action (Unit {0})
run_steps [] = pure tt
run_steps (m ∷ ms) = m >> run_steps ms

module _ (k : Kernel) (c : VfioContainer) where
  -- The statements of `drop_device` and `put_group`, one step each: the device's file is closed, the `Arc` cloned, `put_group` holds the lock, then drops
  -- the clone, and last the device's own reference goes.
  unfoldable pub drop_steps : VfioDevice → List (Action (Unit {0}))
  drop_steps d =
      close d.device
      ∷ arc_clone d.group
      ∷ put_locked k c d.group
      ∷ arc_drop d.group
      ∷ arc_drop d.group
      ∷ []

  -- A group that the map and nothing else refers to.
  abbrev pub Leaked : ℕ → ArcInner → State → Outcome (Unit {0}) × State → Type 0
  Leaked h a s x =
      (x.0 ≡ ok tt) × (x.1.groups ≡ s.groups) × (x.1.heap h ≡ some (record a { strong = 1 }))

  -- For two devices of one group that the map and they alone refer to, some order of the two drops'
  -- steps, each thread's own order kept, ends with the group still in the map and the map's as its
  -- only reference, whatever the kernel answers.
  pub drop_steps-Leaked :
      (d e : VfioDevice) (a : ArcInner) (s : State)
      → d.group ≡ e.group
      → s.heap d.group ≡ some a
      → a.strong ≡ 3
      → (steps : List (Action (Unit {0}))) × IsMerge (drop_steps d) (drop_steps e) steps
        × Leaked d.group a s (run_steps steps s)
  unfolding drop_steps put_locked
  drop_steps-Leaked d e a s same there three = (
    close d.device
        ∷ arc_clone d.group
        ∷ close e.device
        ∷ arc_clone e.group
        ∷ put_locked k c d.group
        ∷ arc_drop d.group
        ∷ put_locked k c e.group
        ∷ arc_drop e.group
        ∷ arc_drop d.group
        ∷ arc_drop e.group
        ∷ [],
    left _
        (left _ (right _ (right _ (left _ (left _ (right _ (right _ (left _ (right _ done))))))))),
    ground arith,
  )

  -- The steps of one drop, taken one after another, do what the drop of a device does.
  drop_steps_lem : (d : VfioDevice) (s : State) → run_steps (drop_steps d) s ≡ drop_device k c d s
  unfolding drop_steps drop_device put_group
  drop_steps_lem d s = ground arith
