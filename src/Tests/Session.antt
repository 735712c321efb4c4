-- ===== src/Tests/Session.antt =====
-- The theorems about single opens and drops, at concrete inputs.
use vfio.Prelude.{ℕ, ◌≡◌, refl, ℤ, pos, none, some, List, [], ◌∷◌, if◌then◌else◌, ◌==◌}
use vfio.Error.{VfioError, ok, err}
use vfio.Host.Kernel.{Kernel}
use vfio.Host.Action.{Action, State, ArcInner}
use vfio.Group.{new_group, get_device}
use vfio.Group.Open.{Opened, get_device-Opened}
use vfio.Group.Text.{is_utf8, parse_u32}
use vfio.Container.{
  VfioContainer, get_group, create_group, install_group, bind_group, new_container,
}
use vfio.Container.New.{IsNew, new_container-IsNew}
use vfio.Device.Irq.{VfioDevice}
use vfio.Device.Lifecycle.{new_device, drop_device, get_group_id_from_path}
use vfio.Host.Call.{Call, Trace, ioctl, kvm}
use vfio.Syscall.Requests
use vfio.Session.Forgotten.{IsForgotten, drop_device-IsForgotten}
use vfio.Session.Leak.{LeftBehind, new_device_refused}
use vfio.Session.Race.{IsMerge, run_steps, drop_steps, Leaked, drop_steps-Leaked}
use vfio.TestDouble.{test_kernel, idle_state}

abbrev container : VfioContainer
container = record { container = pos 3; device_fd = none }

new_container-IsNew_example :
    IsNew test_kernel none idle_state (new_container test_kernel none idle_state)
new_container-IsNew_example = new_container-IsNew test_kernel none idle_state

get_device-Opened_example :
    Opened test_kernel
      ([] ∷ [])
      idle_state
      (get_device test_kernel (record { id = 3; group = pos 10 }) ([] ∷ []) idle_state)
get_device-Opened_example =
    get_device-Opened test_kernel (record { id = 3; group = pos 10 }) ([] ∷ []) idle_state

-- A kernel that says nothing of its devices.
abbrev mute_kernel : Kernel
mute_kernel = record test_kernel { device_info = λ t fd i. i }

abbrev group_3 : ArcInner
group_3 = record { value = record { id = 3; group = pos 10 }; strong = 2 }

abbrev with_group : State
unfolding get_group create_group install_group bind_group new_group
with_group = (get_group mute_kernel container 3 idle_state).1

abbrev with_refusal : State
unfolding get_device
with_refusal = (get_device mute_kernel group_3.value ([] ∷ []) with_group).1

path_named : get_group_id_from_path mute_kernel ([] ∷ []) idle_state ≡ (ok 3, idle_state)
unfolding get_group_id_from_path is_utf8 parse_u32
path_named = refl

group_opened : get_group mute_kernel container 3 idle_state ≡ (ok 0, with_group)
unfolding get_group create_group install_group bind_group new_group
group_opened = refl

group_there : with_group.heap 0 ≡ some group_3
unfolding get_group create_group install_group bind_group new_group
group_there = refl

device_refused :
    get_device mute_kernel group_3.value ([] ∷ []) with_group
    ≡ (err VfioError.vfio_device_get_info, with_refusal)
unfolding get_device is_utf8
device_refused = refl

new_device_refused_example :
    LeftBehind mute_kernel container 3 VfioError.vfio_device_get_info idle_state
      (new_device mute_kernel container ([] ∷ []) idle_state)
new_device_refused_example =
    new_device_refused mute_kernel container ([] ∷ []) 3 0 group_3 VfioError.vfio_device_get_info
      idle_state with_group with_refusal path_named refl refl group_opened group_there
      device_refused

-- Two devices of group 3, with the map's reference.
abbrev shared_state : State
shared_state = record {
  trace = [];
  heap = λ h. if h == 7 then some (record group_3 { strong = 3 }) else none;
  next = 8;
  groups = (3, 7) ∷ [];
}

abbrev device : ℕ → VfioDevice
device n = record { device = pos n; flags = 2; regions = []; irqs = []; group = 7 }

drop_steps-Leaked_example :
    (steps : List (Action (Unit {0}))) × IsMerge
      (drop_steps test_kernel container (device 11))
      (drop_steps test_kernel container (device 12))
      steps
    × Leaked test_kernel container 7
        (record group_3 { strong = 3 })
        shared_state
        (run_steps steps shared_state)
drop_steps-Leaked_example =
    drop_steps-Leaked test_kernel container (device 11) (device 12) (record group_3 { strong = 3 })
      shared_state refl refl refl

-- A kernel that does not detach the group of the device.
abbrev keeping_ret : Trace → Call → ℤ
keeping_ret t (ioctl fd request arg) =
    if request == Requests.vfio_group_unset_container then ℤ.negsuc 21 else pos 0
keeping_ret t call = pos 0

abbrev keeping_kernel : Kernel
keeping_kernel = record test_kernel { ret = keeping_ret }

abbrev kvm_container : VfioContainer
kvm_container = record { container = pos 3; device_fd = some (kvm (pos 4)) }

abbrev last_state : State
last_state = record shared_state { heap = λ h. if h == 7 then some group_3 else none }

drop_device-IsForgotten_example :
    IsForgotten keeping_kernel kvm_container
      (kvm (pos 4))
      (device 11)
      3
      group_3
      last_state
      (drop_device keeping_kernel kvm_container (device 11) last_state).1
drop_device-IsForgotten_example =
    drop_device-IsForgotten keeping_kernel kvm_container (kvm (pos 4)) (device 11) 3 group_3
      last_state refl refl refl refl refl refl
