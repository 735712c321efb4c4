-- ===== src/Tests/Threads.antt =====
-- The theorems about threads that open and drop devices, at concrete inputs.
use vfio.Prelude.{ℕ, suc, ◌≡◌, refl, pos, none, some, [], ◌∷◌, lookup}
use vfio.Error.{ok}
use vfio.Host.Action.{State, ArcInner}
use vfio.Group.{new_group}
use vfio.Container.{VfioContainer, get_group, create_group, install_group, bind_group}
use vfio.Device.Irq.{VfioDevice}
use vfio.Session.Threads.{
  System, idle, holding, opened, spawn, pick, Reach, start, later, get, finish,
}
use vfio.Session.Threads.Counts.{refs, total}
use vfio.Session.Threads.Safety.{open_device_mapped}
use vfio.TestDouble.{test_kernel, idle_state}

abbrev container : VfioContainer
container = record { container = pos 3; device_fd = none }

-- One thread has opened a device of group 3.
abbrev device : VfioDevice
device = record { device = pos 11; flags = 2; regions = []; irqs = []; group = 0 }

abbrev with_group : State
unfolding get_group create_group install_group bind_group new_group
with_group = (get_group test_kernel container 3 idle_state).1

group_opened : get_group test_kernel container 3 idle_state ≡ (ok 0, with_group)
unfolding get_group create_group install_group bind_group new_group
group_opened = refl

abbrev one_device : System
one_device = record { state = with_group; threads = opened device ∷ [] }

one_device_reached : Reach test_kernel container one_device
one_device_reached =
    later {n = record { state = with_group; threads = holding 0 ∷ [] }}
      (later {n = record { state = idle_state; threads = idle ∷ [] }}
        (later {n = record { state = idle_state; threads = [] }} (start refl refl (λ h. refl))
          (spawn refl))
        (pick 0 idle (holding 0) refl (get 3 0 refl group_opened refl) refl))
      (pick 0 (holding 0) (opened device) refl (finish device refl refl refl) refl)

open_device_mapped_example :
    (id : ℕ) × (a : ArcInner) × (lookup id with_group.groups ≡ some 0)
    × (with_group.heap 0 ≡ some a)
    × (a.value.id ≡ id)
    × (a.strong ≡ suc (total (refs 0) (opened device ∷ [])))
open_device_mapped_example =
    open_device_mapped test_kernel container one_device 0 device one_device_reached refl
