-- ===== src/Tests/Container.antt =====
-- The theorems about containers, mappings and vectors, at concrete inputs.
use vfio.Prelude.{
  ℕ, ◌+◌, ◌*◌, ◌-◌, ◌^◌, ◌≤◌, ◌<◌, ◌≡◌, refl, pos, none, some, List, [], ◌∷◌, arith, length,
  if◌then◌else◌, ◌==◌,
}
use vfio.Error.{ok}
use vfio.Fam.{vec_with_array_field}
use vfio.Fam.Bounds.{vec_with_array_field_fits, vec_with_array_field_wraps}
use vfio.Host.Action.{State, ArcInner}
use vfio.Container.{VfioContainer, create_group}
use vfio.Container.Attach.{Detaches}
use vfio.Container.Create.{Creates, create_group-Creates}
use vfio.Container.Release.{LetsGo, Gone, Kept, drop_device_last, drop_device_other}
use vfio.Device.Irq.{VfioDevice}
use vfio.Device.Lifecycle.{drop_device}
use vfio.Dma.{
  try_for_each, GuestRegion, vfio_map_guest_memory, vfio_unmap_guest_memory, map_region,
  unmap_region,
}
use vfio.Dma.Mapped.{Maps, vfio_map_guest_memory-Maps}
use vfio.Dma.RoundTrip.{mapping_count, map-unmap_guest_memory}
use vfio.Session.{attach, detach, users, run}
use vfio.Session.Invariant.{Inv}
use vfio.Session.Devices.{IsCounted, run-IsCounted}
use vfio.TestDouble.{test_kernel, idle_state}

abbrev container : VfioContainer
container = record { container = pos 3; device_fd = none }

idle_Inv : Inv (users []) idle_state
idle_Inv = record {
  distinct = tt;
  mapped = λ id h e. ground arith;
  live = λ h pos. absurd (omega arith);
  fresh = λ h le. refl;
}

run-IsCounted_example : IsCounted test_kernel container (
    run test_kernel container
      (attach ([] ∷ []) ∷ attach ([] ∷ []) ∷ detach 0 ∷ detach 0 ∷ [])
      (record { devices = []; state = idle_state }))
run-IsCounted_example =
    run-IsCounted test_kernel container
      (attach ([] ∷ []) ∷ attach ([] ∷ []) ∷ detach 0 ∷ detach 0 ∷ [])
      (record { devices = []; state = idle_state }) idle_Inv

container-Detaches : Detaches test_kernel container
container-Detaches t g rest e = refl

create_group-Creates_example :
    Creates test_kernel 3 idle_state (create_group test_kernel container 3 idle_state)
create_group-Creates_example =
    create_group-Creates test_kernel container 3 idle_state container-Detaches refl

-- Group 3, open, with so many references.
abbrev group : ℕ → ArcInner
group n = record { value = record { id = 3; group = pos 10 }; strong = n }

abbrev mapped_state : ℕ → State
mapped_state n = record {
  trace = [];
  heap = λ h. if h == 7 then some (group n) else none;
  next = 8;
  groups = (3, 7) ∷ [];
}

abbrev device : VfioDevice
device = record { device = pos 11; flags = 2; regions = []; irqs = []; group = 7 }

group-LetsGo : LetsGo test_kernel container (pos 10)
group-LetsGo = record { deletes = λ t fd. refl; detaches = λ t none_open. refl }

drop_device_last_example :
    Gone test_kernel container device
      (group 2)
      (mapped_state 2)
      (drop_device test_kernel container device (mapped_state 2))
drop_device_last_example =
    drop_device_last test_kernel container device (group 2) (mapped_state 2) group-LetsGo refl refl
      refl refl

drop_device_other_example :
    Kept test_kernel container device
      (group 3)
      (mapped_state 3)
      (drop_device test_kernel container device (mapped_state 3))
drop_device_other_example =
    drop_device_other test_kernel container device (group 3) (mapped_state 3) refl (omega arith)

abbrev memory : List GuestRegion
memory =
    record { start_addr = 0x1000; len = 0x1000; get_host_address = λ offset. some 0x7f0000 } ∷ []

vfio_map_guest_memory-Maps_example :
    Maps test_kernel container memory []
      (vfio_map_guest_memory test_kernel container memory idle_state)
vfio_map_guest_memory-Maps_example =
    vfio_map_guest_memory-Maps test_kernel container memory idle_state

abbrev when_mapped : State
unfolding vfio_map_guest_memory
when_mapped = (vfio_map_guest_memory test_kernel container memory idle_state).1

abbrev when_unmapped : State
unfolding vfio_unmap_guest_memory
when_unmapped = (vfio_unmap_guest_memory test_kernel container memory when_mapped).1

memory_mapped : vfio_map_guest_memory test_kernel container memory idle_state ≡ (ok tt, when_mapped)
unfolding vfio_map_guest_memory try_for_each map_region
memory_mapped = refl

memory_unmapped :
    vfio_unmap_guest_memory test_kernel container memory when_mapped ≡ (ok tt, when_unmapped)
unfolding vfio_map_guest_memory vfio_unmap_guest_memory try_for_each unmap_region
memory_unmapped = refl

map-unmap_guest_memory_example :
    mapping_count test_kernel when_unmapped.trace 0x1000 0x1000
    ≡ mapping_count test_kernel [] 0x1000 0x1000
map-unmap_guest_memory_example =
    map-unmap_guest_memory test_kernel container memory idle_state when_mapped when_unmapped
      memory_mapped memory_unmapped 0x1000 0x1000

vec_with_array_field_fits_example :
    (v : List ℕ) × (vec_with_array_field 8 0 16 5 ≡ some v)
    × (8 + 5 * 16 ≤ length v * 8)
    × (length v * 8 < 8 + 5 * 16 + 8)
vec_with_array_field_fits_example = vec_with_array_field_fits 8 0 16 5 (omega arith) (omega arith)

vec_with_array_field_wraps_example : vec_with_array_field {T = ℕ} 8 0 1 (2 ^ 64 - 12) ≡ some []
vec_with_array_field_wraps_example =
    vec_with_array_field_wraps 8 0 1 (2 ^ 64 - 12) (omega arith) (omega arith) (omega arith)
