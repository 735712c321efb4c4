-- ===== src/Tests/Source/Info.antt =====
-- The unit tests of crates/vfio-ioctls/src/vfio_device.rs about what a device reports.
use vfio.Prelude.{ℕ, Option, List, [], ◌∷◌, length, get_elem?, lookup, ◌==◌, is_negative, not, refl}
use vfio.Bindings.Constants.{
  vfio_irq_info_maskable, vfio_irq_info_eventfd, vfio_region_info_flag_caps,
}
use vfio.Bindings.Structs.{VfioDeviceInfo, size_of_region_info}
use vfio.Host.Action.{Action, stop, ◌>>=◌, ◌>>◌}
use vfio.Error.{panic}
use vfio.Group.{new_device_info, new_group, get_device}
use vfio.Group.Text.{is_utf8}
use vfio.Device.Caps.{
  VfioRegionInfoCap, sparse_mmap, cap_type, msix_mappable, read_header, read_cap,
}
use vfio.Device.Info.{VfioIrq, default_region_info, from_region_info, get_irqs, get_regions}
use vfio.TestDouble.{test_kernel}
use vfio.Tests.Source.{assert, unwrap, unwrap_some, tmp_file, tmp_fd, Passes}

abbrev test_vfio_region_info_with_cap : Action (Unit {0})
test_vfio_region_info_with_cap = do
  (len, cap) ← unwrap_some (
      from_region_info
        (record { argsz = 129; flags = 0; index = 5; cap_offset = 0; size = 0; offset = 0 }))
  assert (size_of_region_info == 32)
  assert (len == 5)
  assert (cap.region_info.argsz == 129)
  assert (cap.region_info.index == 5)
  assert (default_region_info.index == 0)
  assert (default_region_info.argsz == 0)

test_vfio_region_info_with_cap-Passes : Passes test_vfio_region_info_with_cap
unfolding from_region_info
test_vfio_region_info_with_cap-Passes = refl

abbrev create_dev_info_for_test : VfioDeviceInfo
create_dev_info_for_test = record { argsz = 0; flags = 0; num_regions = 2; num_irqs = 4 }

abbrev assert_irq : Option VfioIrq → ℕ → ℕ → ℕ → Action (Unit {0})
assert_irq o flags count index = do
  irq ← unwrap_some o
  assert (irq.flags == flags)
  assert (irq.count == count)
  assert (irq.index == index)

abbrev assert_caps : List VfioRegionInfoCap → Action (Unit {0})
assert_caps (msix_mappable ∷ cap_type t st ∷ sparse_mmap (area ∷ []) ∷ []) = do
  assert (t == 5)
  assert (st == 6)
  assert (area.size == 3)
  assert (area.offset == 4)
assert_caps caps = stop panic

abbrev test_vfio_device_info : Action (Unit {0})
test_vfio_device_info = do
  let device_info = new_device_info tmp_fd create_dev_info_for_test
  irqs ← unwrap (get_irqs test_kernel device_info)
  assert (length irqs == 3)
  assert_irq (lookup 0 irqs) vfio_irq_info_maskable 1 0
  assert_irq (lookup 1 irqs) vfio_irq_info_eventfd 32 1
  assert_irq (lookup 2 irqs) vfio_irq_info_eventfd 2048 2
  regions ← unwrap (get_regions test_kernel device_info)
  assert (length regions == 2)
  region_0 ← unwrap_some (get_elem? regions 0)
  assert (region_0.flags == 0)
  assert (region_0.offset == 0x10000)
  assert (region_0.size == 0x1000)
  assert (length region_0.caps == 0)
  region_1 ← unwrap_some (get_elem? regions 1)
  assert (region_1.flags == vfio_region_info_flag_caps)
  assert (region_1.offset == 0x20000)
  assert (region_1.size == 0x2000)
  assert (length region_1.caps == 3)
  assert_caps region_1.caps

test_vfio_device_info-Passes : Passes test_vfio_device_info
unfolding get_irqs get_regions read_header read_cap
test_vfio_device_info-Passes = refl

abbrev test_vfio_group : Action (Unit {0})
test_vfio_group = do
  group ← unwrap (new_group test_kernel 1)
  assert (group.id == 1)
  assert (not (is_negative group.group))
  device ← unwrap (get_device test_kernel group tmp_file)
  assert (device.num_irqs == 3)
  assert (device.num_regions == 8)
  regions ← unwrap (get_regions test_kernel device)
  assert (length regions == 7)

test_vfio_group-Passes : Passes test_vfio_group
unfolding new_group get_device is_utf8 get_regions read_header read_cap
test_vfio_group-Passes = refl
