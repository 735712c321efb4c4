-- ===== src/Session/Usage/Runs.antt =====
-- The calls of any sequence of opens, uses and drops.
use vfio.Prelude.{
  ℕ, ◌≤◌, ◌≡◌, subst, eq_ℤ_refl, true, Option, none, some, List, [], ◌∷◌, arith, lookup,
  Option-cases, inl, inr, get_elem?,
}
use vfio.Error.{Outcome, ok, err, fault}
use vfio.Host.Call.{Fd}
use vfio.Host.Kernel.{Kernel}
use vfio.Host.Action.{State, ArcInner}
use vfio.Host.Careful.{all_open, has_fd}
use vfio.Host.Resources.{open_fds, without}
use vfio.Container.{VfioContainer}
use vfio.Container.Careful.{drop_device-all_open}
use vfio.Device.Irq.{VfioDevice}
use vfio.Device.Lifecycle.{new_device, drop_device}
use vfio.Session.{
  Session, Op, attach, detach, users, operating, mapping, unmapping, remove_at, attached_to,
  left_with, run_op, run,
}
use vfio.Device.Operation.{operate}
use vfio.Device.Operation.Careful.{operate-Careful}
use vfio.Dma.{vfio_map_guest_memory, vfio_unmap_guest_memory}
use vfio.Dma.Careful.{vfio_map_guest_memory-Careful, vfio_unmap_guest_memory-Careful}
use vfio.Session.Invariant.{Inv}
use vfio.Session.Steps.{Inv-IsAlive}
use vfio.Session.Devices.{IsCounted, run_op-IsCounted, users-remove_at}
use vfio.Session.Files.{count, count-without, group_files-erase, device_files-remove_at}
use vfio.Session.Files.Holds.{HoldsFiles, Holds}
use vfio.Session.Files.Runs.{HoldsThen, run_op-HoldsThen}
use vfio.Session.Usage.{HasOpenGroups}
use vfio.Session.Usage.Opened.{new_device-all_open}

has_fd-count : (x : Fd) (fds : List Fd) → 1 ≤ count x fds → has_fd x fds ≡ true
has_fd-count x [] some_open = absurd (omega arith)
has_fd-count x (y ∷ fds) some_open = ground (arith, has_fd-count x fds)

module _ (k : Kernel) (c : VfioContainer) (base : Fd → ℕ) where
  HoldsFiles-HasOpenGroups :
      (ds : List VfioDevice) (s : State) → HoldsFiles k base ds s → HasOpenGroups k s
  HoldsFiles-HasOpenGroups ds s files id h a at there =
      has_fd-count a.value.group (open_fds k s.trace) (
        ground (
          arith,
          files a.value.group,
          eq_ℤ_refl a.value.group,
          group_files-erase a.value.group s.heap id h s.groups at,
        ))

  HoldsFiles-count :
      (i : ℕ) (ds : List VfioDevice) (d : VfioDevice) (s : State)
      → HoldsFiles k base ds s
      → get_elem? ds i ≡ some d
      → 1 ≤ count d.device (open_fds k s.trace)
  HoldsFiles-count i ds d s files e =
      ground (arith, files d.device, eq_ℤ_refl d.device, device_files-remove_at d.device i ds d e)

  detach-all_open :
      (i id : ℕ) (ds : List VfioDevice) (d : VfioDevice) (a : ArcInner) (s : State)
      → HoldsFiles k base ds s
      → get_elem? ds i ≡ some d
      → lookup a.value.id s.groups ≡ some d.group
      → s.heap d.group ≡ some a
      → 2 ≤ a.strong
      → all_open k c.container s.trace ≡ true
      → all_open k c.container (drop_device k c d s).1.trace ≡ true
  detach-all_open i id ds d a s files e at there used sound =
      let device_open : 1 ≤ count d.device (open_fds k s.trace) =
        HoldsFiles-count i ds d s files e in
      let group_open : 1 ≤ count a.value.group (without d.device (open_fds k s.trace)) = ground (
        arith,
        files a.value.group,
        eq_ℤ_refl a.value.group,
        count-without a.value.group d.device (open_fds k s.trace),
        device_files-remove_at a.value.group i ds d e,
        group_files-erase a.value.group s.heap a.value.id d.group s.groups at,
      ) in
      drop_device-all_open k c d a s there at used
        (has_fd-count d.device (open_fds k s.trace) device_open)
        (has_fd-count a.value.group (without d.device (open_fds k s.trace)) group_open) sound

  abbrev SoundThen : Option Session → Type 0
  SoundThen none = Unit {0}
  SoundThen (some n) = all_open k c.container n.state.trace ≡ true

  attached-SoundThen :
      (ds : List VfioDevice) (x : Outcome VfioDevice × State)
      → all_open k c.container x.1.trace ≡ true
      → SoundThen (attached_to ds x)
  attached-SoundThen ds (ok d, s) sound = sound
  attached-SoundThen ds (err e, s) sound = sound
  attached-SoundThen ds (fault y, s) sound = tt

  left-SoundThen :
      (ds : List VfioDevice) (x : Outcome (Unit {0}) × State)
      → all_open k c.container x.1.trace ≡ true
      → SoundThen (left_with ds x)
  left-SoundThen ds (ok u, s) sound = sound
  left-SoundThen ds (err e, s) sound = sound
  left-SoundThen ds (fault y, s) sound = tt

  run_op-SoundThen :
      (op : Op) (n : Session)
      → Inv (users n.devices) n.state
      → HoldsFiles k base n.devices n.state
      → all_open k c.container n.state.trace ≡ true
      → SoundThen (run_op k c op n)
  unfolding run_op
  run_op-SoundThen (attach path) n inv files sound =
      attached-SoundThen n.devices (new_device k c path n.state) (
        new_device-all_open k c path n.state (inv.fresh n.state.next (omega arith))
          (Inv-IsAlive (users n.devices) n.state inv)
          (HoldsFiles-HasOpenGroups n.devices n.state files) sound)
  run_op-SoundThen (detach i) n inv files sound = elim (Option-cases (get_elem? n.devices i)) [
    | inl gone ↦ rw (gone, run_op) sound
    | inr (d, e) ↦
        let used = (users-remove_at k c i n.devices d 0 e).1 in
        let (id, at) = inv.live d.group used in
        let (a, there, named, counted) = inv.mapped id d.group at in
        rw (e, run_op)
          (left-SoundThen (remove_at i n.devices) (drop_device k c d n.state) (
            detach-all_open i id n.devices d a n.state files e (rw named at) there (omega arith)
              sound))
  ]
  run_op-SoundThen (operating i o) n inv files sound = elim (Option-cases (get_elem? n.devices i)) [
    | inl gone ↦ rw (gone, run_op) sound
    | inr (d, e) ↦
        let held : has_fd d.device (open_fds k n.state.trace) ≡ true =
          has_fd-count d.device (open_fds k n.state.trace)
            (HoldsFiles-count i n.devices d n.state files e) in
        rw (e, run_op)
          (left-SoundThen n.devices (operate k d o n.state)
            ((operate-Careful k c.container d o).sound n.state (ground (arith, held)) sound))
  ]
  run_op-SoundThen (mapping mem) n inv files sound =
      left-SoundThen n.devices (vfio_map_guest_memory k c mem n.state) (
        (vfio_map_guest_memory-Careful k c.container c mem).sound n.state
          (ground (arith, eq_ℤ_refl c.container)) sound)
  run_op-SoundThen (unmapping mem) n inv files sound =
      left-SoundThen n.devices (vfio_unmap_guest_memory k c mem n.state) (
        (vfio_unmap_guest_memory-Careful k c.container c mem).sound n.state
          (ground (arith, eq_ℤ_refl c.container)) sound)

  abbrev HoldsAll : Option Session → Type 0
  HoldsAll = HoldsThen k base base ⊥ (Unit {0}) c (λ b. absurd b)

  run-SoundThen :
      (ops : List Op) (n : Session)
      → Inv (users n.devices) n.state
      → Holds k base base ⊥ (Unit {0}) n.devices n.state
      → all_open k c.container n.state.trace ≡ true
      → SoundThen (run k c ops n)
  unfolding run
  run-SoundThen [] n inv holds sound = sound
  run-SoundThen (op ∷ ops) n inv holds sound =
      go (run_op k c op n) (run_op-IsCounted k c op n inv)
        (run_op-HoldsThen k base base ⊥ (Unit {0}) c (λ b. absurd b) op n inv holds)
        (run_op-SoundThen op n inv (holds.0 tt) sound) (run-SoundThen ops)
    where
      go :
          (o : Option Session)
          → IsCounted k c o
          → HoldsAll o
          → SoundThen o
          → ((m : Session)
              → Inv (users m.devices) m.state
              → Holds k base base ⊥ (Unit {0}) m.devices m.state
              → all_open k c.container m.state.trace ≡ true
              → SoundThen (run k c ops m))
          → SoundThen (elim o [ none ↦ none | some m ↦ run k c ops m ])
      go none counted holds sound rest = tt
      go (some m) counted holds sound rest = rest m counted holds sound

module _ (k : Kernel) (c : VfioContainer) (base : Fd → ℕ) (ops : List Op) (n m : Session) where
  -- A sequence of opens, operations and drops of devices and of mappings and unmappings of guest
  -- memory that no panic ends, begun in a state whose reference counts are right and where each
  -- descriptor is open as often as it is in `base`, in the open devices and in the groups of the
  -- container's map together, for any `base`, uses open descriptors only, whatever the kernel
  -- answers: if so far each call was made on a descriptor that was open then, or on the container's
  -- own or the hypervisor's, it is so at the end. So none is used after it is closed, none is
  -- closed twice, and the hypervisor is told of open groups only.
  pub run-all_open :
      Inv (users n.devices) n.state
      → HoldsFiles k base n.devices n.state
      → all_open k c.container n.state.trace ≡ true
      → run k c ops n ≡ some m
      → all_open k c.container m.state.trace ≡ true
  run-all_open inv files sound runs =
      subst (SoundThen k c base) runs
        (run-SoundThen k c base ops n inv (λ q. files, λ b. absurd b) sound)
