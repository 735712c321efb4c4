-- ===== src/Session/Files/Runs.antt =====
-- No descriptor is lost: what is open is what the devices and the mapped groups hold, and what is
-- attached are the mapped groups.
use vfio.Prelude.{
  ℕ, ◌≡◌, subst, Option, none, some, List, [], ◌∷◌, arith, Option-cases, inl, inr, get_elem?,
}
use vfio.Error.{Outcome, ok, err, fault}
use vfio.Host.Call.{Fd}
use vfio.Host.Kernel.{Kernel}
use vfio.Host.Action.{Action, State}
use vfio.Container.{VfioContainer}
use vfio.Container.Attach.{Detaches}
use vfio.Device.Irq.{VfioDevice}
use vfio.Device.Lifecycle.{new_device, drop_device}
use vfio.Session.{
  Session, Op, attach, detach, operating, mapping, unmapping, users, remove_at, attached_to,
  left_with, run_op, run,
}
use vfio.Host.Calm.{Calm}
use vfio.Device.Operation.{operate}
use vfio.Device.Operation.Careful.{operate-Careful}
use vfio.Dma.{vfio_map_guest_memory, vfio_unmap_guest_memory}
use vfio.Dma.Careful.{vfio_map_guest_memory-Careful, vfio_unmap_guest_memory-Careful}
use vfio.Session.Invariant.{Inv}
use vfio.Session.Steps.{Inv-IsAlive}
use vfio.Session.Devices.{IsCounted, run_op-IsCounted, users-remove_at}
use vfio.Session.Effects.Opened.{new_device-Opening}
use vfio.Session.Effects.Closed.{drop_device-Closing}
use vfio.Session.Files.Holds.{
  HoldsFiles, HoldsGroups, Holds, HoldsAfter, Opening-HoldsAfter, Closing-Holds, SameButCalls-Holds,
}

module _ (k : Kernel) (base base' : Fd → ℕ) (P Q : Type 0) (c : VfioContainer)
    (detaches : P → Detaches k c) where
  abbrev pub HoldsThen : Option Session → Type 0
  HoldsThen none = Unit {0}
  HoldsThen (some n) = Holds k base base' P Q n.devices n.state

  attached-HoldsThen :
      (ds : List VfioDevice) (x : Outcome VfioDevice × State)
      → HoldsAfter k base base' P Q ds x
      → HoldsThen (attached_to ds x)
  attached-HoldsThen ds (ok d, s) holds = holds
  attached-HoldsThen ds (err e, s) holds = holds
  attached-HoldsThen ds (fault y, s) holds = tt

  left-HoldsThen :
      (ds : List VfioDevice) (x : Outcome (Unit {0}) × State)
      → Holds k base base' P Q ds x.1
      → HoldsThen (left_with ds x)
  left-HoldsThen ds (ok u, s) holds = holds
  left-HoldsThen ds (err e, s) holds = holds
  left-HoldsThen ds (fault y, s) holds = tt

  Calm-HoldsThen :
      (m : Action (Unit {0})) (n : Session)
      → Calm k m
      → Holds k base base' P Q n.devices n.state
      → HoldsThen (left_with n.devices (m n.state))
  Calm-HoldsThen m n calm holds = left-HoldsThen n.devices (m n.state) (
      SameButCalls-Holds k base base' P Q n.devices n.state (m n.state).1 holds
        (calm.apply n.state))

  pub run_op-HoldsThen :
      (op : Op) (n : Session)
      → Inv (users n.devices) n.state
      → Holds k base base' P Q n.devices n.state
      → HoldsThen (run_op k c op n)
  unfolding run_op
  run_op-HoldsThen (attach path) n inv holds =
      attached-HoldsThen n.devices (new_device k c path n.state) (
        Opening-HoldsAfter k base base' P Q (users n.devices) n.devices n.state
          (new_device k c path n.state) inv holds
          (new_device-Opening k c detaches path n.state (inv.fresh n.state.next (omega arith))
            (Inv-IsAlive (users n.devices) n.state inv)))
  run_op-HoldsThen (detach i) n inv holds = elim (Option-cases (get_elem? n.devices i)) [
    | inl gone ↦ rw (gone, run_op) holds
    | inr (d, e) ↦
        let used = (users-remove_at k c i n.devices d 0 e).1 in
        let (id, at) = inv.live d.group used in
        let (a, there, named, counted) = inv.mapped id d.group at in
        rw (e, run_op)
          (left-HoldsThen (remove_at i n.devices) (drop_device k c d n.state) (
            Closing-Holds k base base' P Q (users n.devices) n.devices i id d a n.state
              (drop_device k c d n.state).1 inv holds e at there
              (drop_device-Closing k c d id a n.state at there named (omega arith))))
  ]
  run_op-HoldsThen (operating i o) n inv holds = elim (Option-cases (get_elem? n.devices i)) [
    | inl gone ↦ rw (gone, run_op) holds
    | inr (d, e) ↦
        rw (e, run_op)
          (Calm-HoldsThen (operate k d o) n (operate-Careful k c.container d o).calm holds)
  ]
  run_op-HoldsThen (mapping mem) n inv holds =
      Calm-HoldsThen (vfio_map_guest_memory k c mem) n
        (vfio_map_guest_memory-Careful k c.container c mem).calm holds
  run_op-HoldsThen (unmapping mem) n inv holds =
      Calm-HoldsThen (vfio_unmap_guest_memory k c mem) n
        (vfio_unmap_guest_memory-Careful k c.container c mem).calm holds

  run-HoldsThen :
      (ops : List Op) (n : Session)
      → Inv (users n.devices) n.state
      → Holds k base base' P Q n.devices n.state
      → HoldsThen (run k c ops n)
  unfolding run
  run-HoldsThen [] n inv holds = holds
  run-HoldsThen (op ∷ ops) n inv holds =
      go (run_op k c op n) (run_op-IsCounted k c op n inv) (run_op-HoldsThen op n inv holds)
        (run-HoldsThen ops)
    where
      go :
          (o : Option Session)
          → IsCounted k c o
          → HoldsThen o
          → ((m : Session)
              → Inv (users m.devices) m.state
              → Holds k base base' P Q m.devices m.state
              → HoldsThen (run k c ops m))
          → HoldsThen (elim o [ none ↦ none | some m ↦ run k c ops m ])
      go none counted holds rest = tt
      go (some m) counted holds rest = rest m counted holds

module _ (k : Kernel) (c : VfioContainer) (base : Fd → ℕ) (ops : List Op) (n m : Session) where
  -- A sequence of opens, operations and drops of devices and of mappings and unmappings of guest
  -- memory that no panic ends, begun in a state whose reference counts are right, loses and leaves
  -- open no descriptor, whatever the kernel answers: if at its begin each descriptor is open as
  -- often as it is in `base`, in the open devices and in the groups of the container's map
  -- together, for any `base`, it is so at its end.
  pub run-HoldsFiles :
      Inv (users n.devices) n.state
      → HoldsFiles k base n.devices n.state
      → run k c ops n ≡ some m
      → HoldsFiles k base m.devices m.state
  run-HoldsFiles inv files runs =
      (subst (HoldsThen k base base ⊥ (Unit {0}) c (λ b. absurd b)) runs (
          run-HoldsThen k base base ⊥ (Unit {0}) c (λ b. absurd b) ops n inv
            (λ q. files, λ b. absurd b))).0
        tt

  -- If the kernel does detach the group attached last when it is asked to: a sequence of opens,
  -- operations and drops of devices and of mappings and unmappings of guest memory that no panic
  -- ends, begun in a state whose reference counts are right, keeps the attached groups those of the
  -- container's map: if at its begin each descriptor is attached as often as it is in `base` and in
  -- the groups of the map together, for any `base`, it is so at its end.
  pub run-HoldsGroups :
      Detaches k c
      → Inv (users n.devices) n.state
      → HoldsGroups k base n.state
      → run k c ops n ≡ some m
      → HoldsGroups k base m.state
  run-HoldsGroups detaches inv groups runs =
      (subst (HoldsThen k base base (Unit {0}) ⊥ c (λ p. detaches)) runs (
          run-HoldsThen k base base (Unit {0}) ⊥ c (λ p. detaches) ops n inv
            (λ b. absurd b, λ p. groups))).1
        tt
