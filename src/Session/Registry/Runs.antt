-- ===== src/Session/Registry/Runs.antt =====
-- A session refines the registry.
use vfio.Prelude.{
  zero, suc, ◌≤◌, ◌<◌, arith, length, ap, ℕ, ◌≡◌, refl, subst, Option, none, some, lookup, List, [],
  ◌∷◌, Option-cases, inl, inr, get_elem?,
}
use vfio.Error.{Outcome, ok, err, fault}
use vfio.Host.Call.{SysPath}
use vfio.Host.Kernel.{Kernel}
use vfio.Host.Action.{Action, State}
use vfio.Container.{VfioContainer}
use vfio.Device.Irq.{VfioDevice}
use vfio.Device.Lifecycle.{new_device, drop_device}
use vfio.Session.{
  Session, Op, attach, detach, operating, mapping, unmapping, users, remove_at, attached_to,
  left_with, run_op, run,
}
use vfio.Host.Calm.{Calm}
use vfio.Device.Operation.{operate}
use vfio.Device.Operation.Careful.{operate-Careful}
use vfio.Dma.{vfio_map_guest_memory, vfio_unmap_guest_memory}
use vfio.Dma.Careful.{vfio_map_guest_memory-Careful, vfio_unmap_guest_memory-Careful}
use vfio.Session.Invariant.{Inv}
use vfio.Session.Devices.{IsCounted, run_op-IsCounted, run-IsCounted, users-remove_at}
use vfio.Session.Registry.{Registry, Change, misses, uses, IsUse, view, registry, view-users}
use vfio.Session.Registry.Steps.{Changes, new_device-Changes, drop_device-Change}

-- So many changes lead from one registry to another.
pub data History : List Op → Registry → Registry → Type 0 where
  none_yet : {r : Registry} → History [] r r
  and_then :
      {op : Op} {ops : List Op} {r r' r'' : Registry}
      → Change op r r'
      → History ops r' r''
      → History (op ∷ ops) r r''

get_elem?-lt :
    (i : ℕ) (ds : List VfioDevice) (d : VfioDevice)
    → get_elem? ds i ≡ some d
    → (i < length ds) × (suc (length (remove_at i ds)) ≡ length ds)
unfolding remove_at
get_elem?-lt i [] d e = cc
get_elem?-lt zero (x ∷ ds) d e = (omega arith, refl)
get_elem?-lt (suc i) (x ∷ ds) d e = ground (arith, get_elem?-lt i ds d)

get_elem?-ge : (i : ℕ) (ds : List VfioDevice) → get_elem? ds i ≡ none → length ds ≤ i
get_elem?-ge i [] e = omega arith
get_elem?-ge zero (x ∷ ds) e = cc
get_elem?-ge (suc i) (x ∷ ds) e = ground (arith, get_elem?-ge i ds)

module _ (k : Kernel) (c : VfioContainer) where
  abbrev pub registry_of : Session → Registry
  registry_of n = registry k (length n.devices) n.state

  abbrev ChangesTo : Op → Session → Option Session → Type 0
  ChangesTo op n none = Unit {0}
  ChangesTo op n (some m) = Change op (registry_of n) (registry_of m)

  attached-ChangesTo :
      (path : SysPath) (n : Session) (x : Outcome VfioDevice × State)
      → Changes k (length n.devices) path n.state x
      → ChangesTo (attach path) n (attached_to n.devices x)
  attached-ChangesTo path n (ok d, s) change = change
  attached-ChangesTo path n (err e, s) change = change
  attached-ChangesTo path n (fault y, s) change = tt

  left-ChangesTo :
      (op : Op) (n : Session) (ds : List VfioDevice) (x : Outcome (Unit {0}) × State)
      → Change op (registry_of n) (registry k (length ds) x.1)
      → ChangesTo op n (left_with ds x)
  left-ChangesTo op n ds (ok u, s) change = change
  left-ChangesTo op n ds (err e, s) change = change
  left-ChangesTo op n ds (fault y, s) change = tt

  Calm-ChangesTo :
      (op : Op) (m : Action (Unit {0})) (n : Session)
      → IsUse op
      → Calm k m
      → ChangesTo op n (left_with n.devices (m n.state))
  Calm-ChangesTo op m n is_use calm =
      left-ChangesTo op n n.devices (m n.state)
        (uses is_use (refl, λ j. ap {A = State} (λ s. view s j) (calm.apply n.state).0))

  run_op-ChangesTo :
      (op : Op) (n : Session) → Inv (users n.devices) n.state → ChangesTo op n (run_op k c op n)
  unfolding run_op
  run_op-ChangesTo (attach path) n inv =
      attached-ChangesTo path n (new_device k c path n.state)
        (new_device-Changes k c (users n.devices) (length n.devices) n.state path inv)
  run_op-ChangesTo (detach i) n inv = elim (Option-cases (get_elem? n.devices i)) [
    | inl gone ↦ rw (gone, run_op) (misses (get_elem?-ge i n.devices gone) (refl, λ j. refl))
    | inr (d, e) ↦
        let (small, less) = get_elem?-lt i n.devices d e in
        rw (e, run_op)
          (left-ChangesTo (detach i) n (remove_at i n.devices) (drop_device k c d n.state) (
            subst
              (λ l.
                Change (detach i) (registry k l n.state)
                  (registry k (length (remove_at i n.devices)) (drop_device k c d n.state).1))
              less
              (drop_device-Change k c (users n.devices) i (length (remove_at i n.devices)) d n.state
                inv (users-remove_at k c i n.devices d 0 e).1 (omega arith))))
  ]
  run_op-ChangesTo (operating i o) n inv = elim (Option-cases (get_elem? n.devices i)) [
    | inl gone ↦ rw (gone, run_op) (uses tt (refl, λ j. refl))
    | inr (d, e) ↦
        rw (e, run_op)
          (Calm-ChangesTo (operating i o) (operate k d o) n tt
            (operate-Careful k c.container d o).calm)
  ]
  run_op-ChangesTo (mapping mem) n inv =
      Calm-ChangesTo (mapping mem) (vfio_map_guest_memory k c mem) n tt
        (vfio_map_guest_memory-Careful k c.container c mem).calm
  run_op-ChangesTo (unmapping mem) n inv =
      Calm-ChangesTo (unmapping mem) (vfio_unmap_guest_memory k c mem) n tt
        (vfio_unmap_guest_memory-Careful k c.container c mem).calm

  abbrev Leads : List Op → Session → Option Session → Type 0
  Leads ops n none = Unit {0}
  Leads ops n (some m) = History ops (registry_of n) (registry_of m)

  run-Leads :
      (ops : List Op) (n : Session) → Inv (users n.devices) n.state → Leads ops n (run k c ops n)
  unfolding run
  run-Leads [] n inv = none_yet
  run-Leads (op ∷ ops) n inv =
      go (run_op k c op n) (run_op-IsCounted k c op n inv) (run_op-ChangesTo op n inv)
        (run-Leads ops)
    where
      after :
          (m : Session) (o : Option Session)
          → Change op (registry_of n) (registry_of m)
          → Leads ops m o
          → Leads (op ∷ ops) n o
      after m none change rest = tt
      after m (some l) change rest = and_then change rest

      go :
          (o : Option Session)
          → IsCounted k c o
          → ChangesTo op n o
          → ((m : Session) → Inv (users m.devices) m.state → Leads ops m (run k c ops m))
          → Leads (op ∷ ops) n (elim o [ none ↦ none | some m ↦ run k c ops m ])
      go none counted change rest = tt
      go (some m) counted change rest = after m (run k c ops m) change (rest m counted)

  -- A sequence of opens, operations and drops of devices and of mappings and unmappings of guest
  -- memory that no panic ends, begun in a state whose reference counts are right, is a history of
  -- the abstract container, which knows the number of all open devices, the number of open devices
  -- of each group that it has, and whether the last call was refused. An open makes one device
  -- more, of one group, or changes none of these numbers, or leaves a group that the container did
  -- not have, without devices. A drop of an open device makes one device less, of one group, and
  -- takes the group with its last device unless the drop's last call was refused; a drop of no
  -- device, and everything else, changes no number.
  pub run-History :
      (ops : List Op) (n m : Session)
      → Inv (users n.devices) n.state
      → run k c ops n ≡ some m
      → History ops (registry_of n) (registry_of m)
  run-History ops n m inv runs = subst (Leads ops n) runs (run-Leads ops n inv)

  -- After a sequence of operations that no panic ends, begun in a state whose
  -- reference counts are right, the abstract container's number for a group that is in the map is
  -- the number of open devices that refer to the group.
  run-view :
      (ops : List Op) (n m : Session)
      → Inv (users n.devices) n.state
      → run k c ops n ≡ some m
      → (id h : ℕ) → lookup id m.state.groups ≡ some h
      → view m.state id ≡ some (users m.devices h)
  run-view ops n m inv runs id h at =
      view-users (users m.devices) m.state id h
        (subst (IsCounted k c) runs (run-IsCounted k c ops n inv)) at
