-- ===== src/Tests/Runs.antt =====
-- The theorems about sequences of opens, uses and drops, at concrete inputs.
use vfio.Prelude.{
  ap, ◌+◌, ℕ, ◌≡◌, refl, subst, true, Option, ℤ, pos, none, some, List, [], ◌∷◌, arith,
}
use vfio.Error.{Outcome, ok, err, fault}
use vfio.Host.Call.{SysPath}
use vfio.Host.Action.{State, ArcInner}
use vfio.Group.{new_group, get_device}
use vfio.Group.Text.{is_utf8, parse_u32}
use vfio.Container.{
  VfioContainer, get_group, create_group, install_group, bind_group, put_group, release_group,
}
use vfio.Container.Release.{LetsGo, IsAlone}
use vfio.Host.Resources.{open_devices, close_device, has_device}
use vfio.Device.Info.{get_regions, get_irqs}
use vfio.Device.Irq.{VfioDevice}
use vfio.Device.Caps.{read_header, read_cap}
use vfio.Device.Lifecycle.{new_device, drop_device, open_device, get_group_id_from_path}
use vfio.Device.Operation.{operate, triggering, reading}
use vfio.Device.Region.{region_read}
use vfio.Device.Irq.{trigger_irq, send_irq_set}
use vfio.Dma.{
  GuestRegion, try_for_each, map_region, unmap_region, vfio_map_guest_memory,
  vfio_unmap_guest_memory,
}
use vfio.Session.{
  Session, Op, attach, detach, operating, mapping, unmapping, users, remove_at, run_op, run,
}
use vfio.Session.Invariant.{Inv}
use vfio.Session.Devices.{IsCounted, run-IsCounted}
use vfio.Host.Call.{Fd}
use vfio.Container.Attach.{Detaches}
use vfio.Host.Careful.{all_open}
use vfio.Session.Usage.Runs.{run-all_open}
use vfio.Session.Files.Holds.{HoldsFiles, HoldsGroups}
use vfio.Session.Files.Runs.{run-HoldsFiles, run-HoldsGroups}
use vfio.Session.Drain.{NoneLeft, run-drains}
use vfio.Session.Restore.{Restored, IsInUse, new_device-drop_device}
use vfio.Session.Registry.Runs.{History, registry_of, run-History}
use vfio.TestDouble.{test_kernel, idle_state}

abbrev container : VfioContainer
container = record { container = pos 3; device_fd = none }

test_kernel-LetsGo : (g : ℤ) → LetsGo test_kernel container g
test_kernel-LetsGo g = record { deletes = λ t fd. refl; detaches = λ t none_open. refl }

abbrev path : SysPath
path = [] ∷ []

abbrev no_device : VfioDevice
no_device = record { device = pos 0; flags = 0; regions = []; irqs = []; group = 0 }

abbrev device_of : Outcome VfioDevice × State → VfioDevice
device_of (ok d, s) = d
device_of (err e, s) = no_device
device_of (fault x, s) = no_device

abbrev device : VfioDevice
unfolding new_device get_group_id_from_path get_group create_group new_group install_group
    bind_group open_device get_device get_regions get_irqs read_header read_cap is_utf8 parse_u32
device = device_of (new_device test_kernel container path idle_state)

abbrev with_device : State
unfolding new_device get_group_id_from_path get_group create_group new_group install_group
    bind_group open_device get_device get_regions get_irqs read_header read_cap is_utf8 parse_u32
with_device = (new_device test_kernel container path idle_state).1

device_opened : new_device test_kernel container path idle_state ≡ (ok device, with_device)
unfolding new_device get_group_id_from_path get_group create_group new_group install_group
    bind_group open_device get_device get_regions get_irqs read_header read_cap is_utf8 parse_u32
device_opened = refl

-- No device but this one is open.
device_alone : close_device device.device (open_devices test_kernel with_device.trace) ≡ []
unfolding with_device device new_device get_group_id_from_path get_group create_group new_group
    install_group bind_group open_device get_device get_regions get_irqs read_header read_cap
    is_utf8 parse_u32
device_alone = refl

device-IsAlone : (a : ArcInner) → IsAlone test_kernel container device a with_device
device-IsAlone a = ap (has_device a.value.group) device_alone

idle-IsInUse : IsInUse test_kernel container test_kernel-LetsGo idle_state
idle-IsInUse id h e = ground arith

new_device-drop_device_example :
    Restored test_kernel container test_kernel-LetsGo idle_state
      (drop_device test_kernel container device with_device).1
new_device-drop_device_example =
    new_device-drop_device test_kernel container test_kernel-LetsGo path idle_state with_device
      device refl idle-IsInUse device_opened (λ a there two. device-IsAlone a)

abbrev idle : Session
idle = record { devices = []; state = idle_state }

idle_Inv : Inv (users []) idle_state
idle_Inv = record {
  distinct = tt;
  mapped = λ id h e. ground arith;
  live = λ h pos. absurd (omega arith);
  fresh = λ h le. refl;
}

abbrev one_device : Session
one_device = record { devices = device ∷ []; state = with_device }

one_device-run : run test_kernel container (attach path ∷ []) idle ≡ some one_device
unfolding run run_op
one_device-run = ground (arith, device_opened)

abbrev memory : GuestRegion
memory = record {
  start_addr = 4096;
  len = 8192;
  get_host_address = λ offset. some (65536 + offset);
}

-- Two devices are opened and used, memory is mapped, and the second device is dropped.
abbrev ops : List Op
ops =
    attach path
    ∷ attach path
    ∷ operating 0 (triggering 2 0)
    ∷ operating 1 (reading 1 (0 ∷ 0 ∷ []) 4)
    ∷ mapping (memory ∷ [])
    ∷ detach 0
    ∷ unmapping (memory ∷ [])
    ∷ []

abbrev or_idle : Option Session → Session
or_idle none = idle
or_idle (some m) = m

abbrev after_ops : Session
unfolding run run_op remove_at new_device get_group_id_from_path get_group create_group new_group
    install_group bind_group open_device get_device get_regions get_irqs read_header read_cap
    is_utf8 parse_u32 drop_device put_group release_group operate trigger_irq send_irq_set
    region_read vfio_map_guest_memory vfio_unmap_guest_memory try_for_each map_region unmap_region
after_ops = or_idle (run test_kernel container ops idle)

ops-run : run test_kernel container ops idle ≡ some after_ops
unfolding run run_op remove_at new_device get_group_id_from_path get_group create_group new_group
    install_group bind_group open_device get_device get_regions get_irqs read_header read_cap
    is_utf8 parse_u32 drop_device put_group release_group operate trigger_irq send_irq_set
    region_read vfio_map_guest_memory vfio_unmap_guest_memory try_for_each map_region unmap_region
ops-run = refl

run-History_example :
    History ops
      (registry_of test_kernel container idle)
      (registry_of test_kernel container after_ops)
run-History_example = run-History test_kernel container ops idle after_ops idle_Inv ops-run

one_device_Inv : Inv (users (device ∷ [])) with_device
one_device_Inv =
    subst (IsCounted test_kernel container) one_device-run
      (run-IsCounted test_kernel container (attach path ∷ []) idle idle_Inv)

one_device-NoneLeft : NoneLeft one_device
unfolding with_device device
one_device-NoneLeft id h at = ground arith

run-drains_example :
    (s' : State) × (run test_kernel container (detach 0 ∷ []) one_device
      ≡ some (record { devices = []; state = s' }))
    × (s'.groups ≡ [])
run-drains_example =
    run-drains test_kernel container test_kernel-LetsGo (device ∷ []) with_device one_device_Inv
      one_device-NoneLeft ((λ a last there. device-IsAlone a), tt)

abbrev nowhere : Fd → ℕ
nowhere x = 0

run-HoldsFiles_example : HoldsFiles test_kernel nowhere after_ops.devices after_ops.state
run-HoldsFiles_example =
    run-HoldsFiles test_kernel container nowhere ops idle after_ops idle_Inv (λ x. refl) ops-run

container-Detaches : Detaches test_kernel container
container-Detaches t g rest e = refl

run-HoldsGroups_example : HoldsGroups test_kernel nowhere after_ops.state
run-HoldsGroups_example =
    run-HoldsGroups test_kernel container nowhere ops idle after_ops container-Detaches idle_Inv
      (λ x. refl) ops-run

run-all_open_example : all_open test_kernel container.container after_ops.state.trace ≡ true
run-all_open_example =
    run-all_open test_kernel container nowhere ops idle after_ops idle_Inv (λ x. refl) refl ops-run
