-- ===== src/Session/Devices.antt =====
-- Opening, using and dropping devices keeps the reference counts right.
use vfio.Prelude.{
  sym, subst, ℕ, zero, suc, ◌<◌, ◌≡◌, Option, none, some, arith, Option-cases, inl, inr, List, [],
  ◌∷◌, get_elem?,
}
use vfio.Error.{Outcome, ok, err, fault}
use vfio.Host.Kernel.{Kernel}
use vfio.Host.Action.{Action, State}
use vfio.Container.{VfioContainer}
use vfio.Device.Irq.{VfioDevice}
use vfio.Device.Lifecycle.{new_device, drop_device}
use vfio.Session.{
  Session, users, remove_at, attached_to, left_with, run_op, run, Op, attach, detach, operating,
  mapping, unmapping,
}
use vfio.Host.Calm.{Calm}
use vfio.Device.Operation.{operate}
use vfio.Device.Operation.Careful.{operate-Careful}
use vfio.Dma.{vfio_map_guest_memory, vfio_unmap_guest_memory}
use vfio.Dma.Careful.{vfio_map_guest_memory-Careful, vfio_unmap_guest_memory-Careful}
use vfio.Session.Invariant.{trace-Inv, Inv, lower}
use vfio.Session.Steps.{News, new_device-News, drop_device-Inv}

module _ (k : Kernel) (c : VfioContainer) where
  pub users-remove_at :
      (i : ℕ) (ds : List VfioDevice) (d : VfioDevice) (p : ℕ)
      → get_elem? ds i ≡ some d
      → (users (remove_at i ds) p ≡ lower (users ds) d.group p) × (0 < users ds d.group)
  unfolding remove_at
  users-remove_at i [] d p e = cc
  users-remove_at zero (x ∷ ds) d p e = ground arith
  users-remove_at (suc i) (x ∷ ds) d p e = ground (arith, users-remove_at i ds d p e)

  abbrev pub IsCounted : Option Session → Type 0
  IsCounted none = Unit {0}
  IsCounted (some n) = Inv (users n.devices) n.state

  left-IsCounted :
      (ds : List VfioDevice) (x : Outcome (Unit {0}) × State)
      → Inv (users ds) x.1
      → IsCounted (left_with ds x)
  left-IsCounted ds (ok r, s) inv = inv
  left-IsCounted ds (err e, s) inv = inv
  left-IsCounted ds (fault y, s) inv = tt

  Calm-IsCounted :
      (m : Action (Unit {0})) (n : Session)
      → Calm k m
      → Inv (users n.devices) n.state
      → IsCounted (left_with n.devices (m n.state))
  Calm-IsCounted m n calm inv = left-IsCounted n.devices (m n.state) (
      subst (Inv (users n.devices)) (sym (calm.apply n.state).0)
        (trace-Inv (users n.devices) n.state (m n.state).1.trace inv))

  attached-IsCounted :
      (ds : List VfioDevice) (x : Outcome VfioDevice × State)
      → News (users ds) x
      → IsCounted (attached_to ds x)
  attached-IsCounted ds (ok d, s) inv = inv
  attached-IsCounted ds (err e, s) inv = inv
  attached-IsCounted ds (fault y, s) inv = tt

  pub run_op-IsCounted :
      (op : Op) (n : Session) → Inv (users n.devices) n.state → IsCounted (run_op k c op n)
  unfolding run_op
  run_op-IsCounted (attach path) n inv =
      attached-IsCounted n.devices (new_device k c path n.state)
        (new_device-News k c (users n.devices) n.state path inv)
  run_op-IsCounted (detach i) n inv = elim (Option-cases (get_elem? n.devices i)) [
    | inl gone ↦ rw (gone, run_op) inv
    | inr (d, e) ↦
        rw (e, run_op)
          (left-IsCounted (remove_at i n.devices) (drop_device k c d n.state) (
            drop_device-Inv k c (users n.devices) _ d n.state inv
              (users-remove_at i n.devices d 0 e).1 (λ p. (users-remove_at i n.devices d p e).0)))
  ]
  run_op-IsCounted (operating i o) n inv = elim (Option-cases (get_elem? n.devices i)) [
    | inl gone ↦ rw (gone, run_op) inv
    | inr (d, e) ↦
        rw (e, run_op)
          (Calm-IsCounted (operate k d o) n (operate-Careful k c.container d o).calm inv)
  ]
  run_op-IsCounted (mapping mem) n inv =
      Calm-IsCounted (vfio_map_guest_memory k c mem) n
        (vfio_map_guest_memory-Careful k c.container c mem).calm inv
  run_op-IsCounted (unmapping mem) n inv =
      Calm-IsCounted (vfio_unmap_guest_memory k c mem) n
        (vfio_unmap_guest_memory-Careful k c.container c mem).calm inv

  -- Any history of opens, operations and drops of devices and of mappings and unmappings of guest
  -- memory, begun in a state whose reference counts are right, that no panic ends leaves them
  -- right: the id of every group in the container's map leads to a living group with this id whose
  -- strong count is one, for the map, plus the number of open devices of the group; every open
  -- device's group is in the map; no id stands twice in the map. This holds whatever the kernel
  -- answers.
  pub run-IsCounted :
      (ops : List Op) (n : Session) → Inv (users n.devices) n.state → IsCounted (run k c ops n)
  unfolding run
  run-IsCounted [] n inv = inv
  run-IsCounted (op ∷ ops) n inv =
      step (run_op k c op n) (run_op-IsCounted op n inv) (run-IsCounted ops)
    where
      step :
          (o : Option Session)
          → IsCounted o
          → ((m : Session) → Inv (users m.devices) m.state → IsCounted (run k c ops m))
          → IsCounted (elim o [ none ↦ none | some m ↦ run k c ops m ])
      step none h f = tt
      step (some m) h f = f m h
