-- ===== src/Session/Threads.antt =====
-- Any number of threads that open and drop devices in one container: `VfioDevice::new` and `Drop for
-- VfioDevice` of crates/vfio-ioctls/src/vfio_device.rs as steps that interleave in any order. What
-- holds the container's mutex is one step.
pub mod Counts
pub mod Shared
pub mod References
pub mod Groups
pub mod Moves
pub mod Safety
use vfio.Prelude.{ℕ, zero, suc, ◌≡◌, Option, some, List, [], ◌∷◌, ◌++◌, get_elem?}
use vfio.Error.{VfioError, ok, err}
use vfio.Host.Call.{Call}
use vfio.Host.Kernel.{Kernel}
use vfio.Host.Action.{State, issue, close, arc_clone, arc_drop}
use vfio.Container.{VfioContainer, get_group, put_locked}
use vfio.Device.Irq.{VfioDevice}

-- Where a thread stands. `holding`: `new` has got the group with this name, and is opening the device.
-- Then the steps of a drop: its file is closed, the `Arc` cloned, `put_group` is past its lock, and
-- has dropped the clone.
pub data Phase : Type 0 where
  idle : Phase
  holding : ℕ → Phase
  opened closed cloned put unput : VfioDevice → Phase

pub record System : Type 0 where
  pub state : State
  pub threads : List Phase

abbrev pub set {ℓ} : {A : Type ℓ} → List A → ℕ → A → List A
set [] i v = []
set (x ∷ xs) zero v = v ∷ xs
set (x ∷ xs) (suc i) v = x ∷ set xs i v

module _ (k : Kernel) (c : VfioContainer) where
  -- A thread in a phase takes a step, which leaves a state and a phase. `call` is any of the system
  -- calls that `new` makes between its steps, and those of the device's other operations.
  pub data Move (s : State) (p : Phase) (s' : State) (p' : Phase) : Type 0 where
    call : (x : Call) → s' ≡ (issue k x s).1 → p' ≡ p → Move s p s' p'
    get : (id h : ℕ) → p ≡ idle → get_group k c id s ≡ (ok h, s') → p' ≡ holding h → Move s p s' p'
    miss :
        (id : ℕ) (e : VfioError)
        → p ≡ idle
        → get_group k c id s ≡ (err e, s')
        → p' ≡ idle
        → Move s p s' p'
    refuse : (h : ℕ) → p ≡ holding h → s' ≡ (arc_drop h s).1 → p' ≡ idle → Move s p s' p'
    finish : (d : VfioDevice) → p ≡ holding d.group → s' ≡ s → p' ≡ opened d → Move s p s' p'
    close_file :
        (d : VfioDevice) → p ≡ opened d → s' ≡ (close d.device s).1 → p' ≡ closed d → Move s p s' p'
    clone :
        (d : VfioDevice)
        → p ≡ closed d
        → s' ≡ (arc_clone d.group s).1
        → p' ≡ cloned d
        → Move s p s' p'
    put_group :
        (d : VfioDevice)
        → p ≡ cloned d
        → s' ≡ (put_locked k c d.group s).1
        → p' ≡ put d
        → Move s p s' p'
    drop_clone :
        (d : VfioDevice) → p ≡ put d → s' ≡ (arc_drop d.group s).1 → p' ≡ unput d → Move s p s' p'
    drop_own :
        (d : VfioDevice) → p ≡ unput d → s' ≡ (arc_drop d.group s).1 → p' ≡ idle → Move s p s' p'

  pub data Step (m : System) (m' : System) : Type 0 where
    spawn : m' ≡ record m { threads = idle ∷ m.threads } → Step m m'
    pick :
        (i : ℕ) (p p' : Phase)
        → get_elem? m.threads i ≡ some p
        → Move m.state p m'.state p'
        → m'.threads ≡ set m.threads i p'
        → Step m m'

  -- From a container with no group and no thread.
  pub data Reach : System → Type 0 where
    start :
        {m : System}
        → m.threads ≡ []
        → m.state.groups ≡ []
        → ((h : ℕ) → m.state.heap h ≡ Option.none)
        → Reach m
    later : {n m : System} → Reach n → Step n m → Reach m
