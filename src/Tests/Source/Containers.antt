-- ===== src/Tests/Source/Containers.antt =====
-- The unit tests of crates/vfio-ioctls/src/vfio_device.rs about containers and their mappings.
use vfio.Prelude.{ℕ, pos, some, List, [], ◌∷◌, length, ◌==◌, refl, is_negative, not, ◌||◌, eq_ℤ}
use vfio.Bindings.Constants.{vfio_type1v2_iommu}
use vfio.Host.Action.{Action, strong_count, gets, ◌>>=◌, ◌>>◌}
use vfio.Container.{
  check_api_version, check_extension, get_group, put_group, create_group, install_group, bind_group,
  release_group,
}
use vfio.DeviceFd.{device_add_group, device_del_group}
use vfio.Dma.{
  GuestRegion, vfio_dma_map, vfio_dma_unmap, vfio_map_guest_memory, vfio_unmap_guest_memory,
  try_for_each, map_region, unmap_region,
}
use vfio.Group.{new_group}
use vfio.TestDouble.{test_kernel}
use vfio.Tests.Source.{assert, unwrap, unwrap_err, create_vfio_container, Passes}

-- `assert_eq!(Arc::strong_count(&group), n)`, and the number of groups in the map.
abbrev assert_strong_count : ℕ → ℕ → Action (Unit {0})
assert_strong_count group n = do count ← gets (λ s. strong_count s group); assert (count == n)

abbrev pub assert_groups : ℕ → Action (Unit {0})
assert_groups n = do len ← gets (λ s. length s.groups); assert (len == n)

abbrev test_vfio_container : Action (Unit {0})
test_vfio_container = do
  let container = create_vfio_container
  assert (not (is_negative container.container || eq_ℤ container.container (pos 0)))
  unwrap (check_api_version test_kernel container)
  unwrap (check_extension test_kernel container vfio_type1v2_iommu)
  group_1 ← unwrap (new_group test_kernel 1)
  unwrap (device_add_group test_kernel container.device_fd group_1.group)
  unwrap (device_del_group test_kernel container.device_fd group_1.group)
  group ← unwrap (get_group test_kernel container 3)
  assert_strong_count group 2
  assert_groups 1
  group2 ← unwrap (get_group test_kernel container 4)
  assert_strong_count group2 2
  assert_groups 2
  group3 ← unwrap (get_group test_kernel container 3)
  assert_strong_count group 3
  group4 ← unwrap (get_group test_kernel container 3)
  assert_strong_count group 4
  put_group test_kernel container group4
  assert_strong_count group 3
  put_group test_kernel container group3
  assert_strong_count group 1
  unwrap (vfio_dma_map test_kernel container 0x1000 0x1000 0x8000)
  unwrap_err (vfio_dma_map test_kernel container 0x2000 0x2000 0x8000)
  unwrap (vfio_dma_unmap test_kernel container 0x1000 0x1000)
  unwrap_err (vfio_dma_unmap test_kernel container 0x2000 0x2000)

test_vfio_container-Passes : Passes test_vfio_container
unfolding check_api_version check_extension new_group device_add_group device_del_group get_group
    create_group install_group bind_group put_group release_group vfio_dma_map vfio_dma_unmap
test_vfio_container-Passes = refl

-- `GuestMemoryMmap::from_ranges` with one range, at some host address.
abbrev from_range : ℕ → ℕ → List GuestRegion
from_range start_addr len =
    record { start_addr = start_addr; len = len; get_host_address = λ offset. some 0x7f0000 } ∷ []

abbrev test_vfio_map_guest_memory : Action (Unit {0})
test_vfio_map_guest_memory = do
  let container = create_vfio_container
  unwrap (vfio_map_guest_memory test_kernel container (from_range 0x1000 0x1000))
  unwrap_err (vfio_unmap_guest_memory test_kernel container (from_range 0x3000 0x1000))
  unwrap_err (vfio_unmap_guest_memory test_kernel container (from_range 0x1000 0x2000))
  unwrap (vfio_unmap_guest_memory test_kernel container (from_range 0x1000 0x1000))

test_vfio_map_guest_memory-Passes : Passes test_vfio_map_guest_memory
unfolding vfio_map_guest_memory vfio_unmap_guest_memory try_for_each map_region unmap_region
test_vfio_map_guest_memory-Passes = refl
