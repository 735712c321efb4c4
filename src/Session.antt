-- ===== src/Session.antt =====
-- The life of a container in one thread: devices are opened in it, used and
-- dropped again, in any order. Race
-- and Threads are about several threads.
pub mod Invariant
pub mod Steps
pub mod Devices
pub mod Race
pub mod Registry
pub mod Opening
pub mod Drain
pub mod Restore
pub mod Threads
pub mod Leak
pub mod Forgotten
pub mod Ends
pub mod Effects
pub mod Files
pub mod Usage
use vfio.Prelude.{ℕ, zero, suc, Option, none, some, List, [], ◌∷◌, get_elem?, ◌==◌, if◌then◌else◌}
use vfio.Error.{Outcome, ok, err, fault}
use vfio.Host.Call.{SysPath}
use vfio.Host.Kernel.{Kernel}
use vfio.Host.Action.{State}
use vfio.Container.{VfioContainer}
use vfio.Device.Irq.{VfioDevice}
use vfio.Device.Operation.{DeviceOp, operate}
use vfio.Dma.{GuestRegion, vfio_map_guest_memory, vfio_unmap_guest_memory}
use vfio.Device.Lifecycle.{new_device, drop_device}

pub record Session : Type 0 where
  pub devices : List VfioDevice
  pub state : State

-- `attach` opens the device at a path; `detach` drops the device at a position, and `operating`
-- calls one of its methods. The other two map guest memory into the container and unmap it.
pub data Op : Type 0 where
  attach : SysPath → Op
  detach : ℕ → Op
  operating : ℕ → DeviceOp → Op
  mapping unmapping : List GuestRegion → Op

unfoldable pub remove_at : ℕ → List VfioDevice → List VfioDevice
remove_at i [] = []
remove_at zero (d ∷ ds) = ds
remove_at (suc i) (d ∷ ds) = d ∷ remove_at i ds

-- How many of the devices hold this `Arc`.
abbrev pub users : List VfioDevice → ℕ → ℕ
users [] h = 0
users (d ∷ ds) h = if h == d.group then suc (users ds h) else users ds h

-- A panic ends the session.
abbrev pub attached_to : List VfioDevice → Outcome VfioDevice × State → Option Session
attached_to ds (ok d, s) = some (record { devices = d ∷ ds; state = s })
attached_to ds (err e, s) = some (record { devices = ds; state = s })
attached_to ds (fault x, s) = none

abbrev pub left_with : List VfioDevice → Outcome (Unit {0}) × State → Option Session
left_with ds (ok u, s) = some (record { devices = ds; state = s })
left_with ds (err e, s) = some (record { devices = ds; state = s })
left_with ds (fault x, s) = none

module _ (k : Kernel) (c : VfioContainer) where
  unfoldable pub run_op : Op → Session → Option Session
  unfolding remove_at
  run_op (attach path) n = attached_to n.devices (new_device k c path n.state)
  run_op (detach i) n = elim (get_elem? n.devices i) [
    | none ↦ some n
    | some d ↦ left_with (remove_at i n.devices) (drop_device k c d n.state)
  ]
  run_op (operating i o) n = elim (get_elem? n.devices i) [
    | none ↦ some n
    | some d ↦ left_with n.devices (operate k d o n.state)
  ]
  run_op (mapping mem) n = left_with n.devices (vfio_map_guest_memory k c mem n.state)
  run_op (unmapping mem) n = left_with n.devices (vfio_unmap_guest_memory k c mem n.state)

  unfoldable pub run : List Op → Session → Option Session
  run [] n = some n
  run (op ∷ ops) n = elim (run_op op n) [ none ↦ none | some n' ↦ run ops n' ]
