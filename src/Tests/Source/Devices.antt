-- ===== src/Tests/Source/Devices.antt =====
-- The unit test of crates/vfio-ioctls/src/vfio_device.rs that opens, uses and drops a device.
use vfio.Prelude.{
  ℕ, pos, List, [], length, replicate, ◌==◌, ◌||◌, refl, is_negative, not, eq_ℤ, is_none,
}
use vfio.Bindings.Constants.{vfio_region_info_flag_caps}
use vfio.Host.Action.{Action, ◌>>=◌, ◌>>◌}
use vfio.Container.{get_group, put_group, create_group, install_group, bind_group, release_group}
use vfio.Device.Caps.{read_header, read_cap}
use vfio.Device.Caps.Bytes.{to_le}
use vfio.Device.Info.{get_irqs, get_regions}
use vfio.Device.Irq.{
  VfioDevice, get_irq_info, trigger_irq, enable_irq, disable_irq, unmask_irq, enable_msi,
  disable_msi, enable_msix, disable_msix, reset_device, max_interrupts, send_irq_set,
}
use vfio.Device.Lifecycle.{new_device, drop_device, open_device, get_group_id_from_path}
use vfio.Device.Region.{
  get_region_flags, get_region_offset, get_region_size, get_region_caps, region_read, region_write,
}
use vfio.Group.{new_group, get_device}
use vfio.Group.Text.{is_utf8, parse_u32}
use vfio.TestDouble.{test_kernel}
use vfio.Tests.Source.{
  assert, unwrap, unwrap_err, unwrap_some, tmp_file, create_vfio_container, Passes,
}
use vfio.Tests.Source.Containers.{assert_groups}

-- byteorder's `write_u32` on a little-endian machine
abbrev write_u32 : List ℕ → ℕ → List ℕ
write_u32 bytes n = to_le 4 n

-- The interrupts of the device.
abbrev use_irqs : VfioDevice → Action (Unit {0})
use_irqs device = do
  assert (is_none (get_irq_info device 3))
  irq ← unwrap_some (get_irq_info device 2)
  assert (irq.count == 2048)
  unwrap_err (trigger_irq test_kernel device 3 0)
  unwrap_err (trigger_irq test_kernel device 2 2048)
  unwrap (trigger_irq test_kernel device 2 2047)
  unwrap (trigger_irq test_kernel device 2 0)
  unwrap_err (enable_irq test_kernel write_u32 device 3 [])
  unwrap_err (enable_irq test_kernel write_u32 device 0 [])
  unwrap (enable_irq test_kernel write_u32 device 1 [])
  unwrap_err (disable_irq test_kernel device 3)
  unwrap_err (disable_irq test_kernel device 0)
  unwrap (disable_irq test_kernel device 1)
  unwrap_err (unmask_irq test_kernel device 3)
  unwrap_err (unmask_irq test_kernel device 1)
  unwrap (unmask_irq test_kernel device 0)
  unwrap (enable_msi test_kernel write_u32 device [])
  unwrap (disable_msi test_kernel device)
  unwrap (enable_msix test_kernel write_u32 device [])
  unwrap (disable_msix test_kernel device)

-- The regions of the device.
abbrev use_regions : VfioDevice → Action (Unit {0})
use_regions device = do
  assert (get_region_flags device 1 == vfio_region_info_flag_caps)
  assert (get_region_flags device 7 == 0)
  assert (get_region_offset device 1 == 0x20000)
  assert (get_region_offset device 7 == 0)
  assert (get_region_size device 1 == 0x2000)
  assert (get_region_size device 7 == 0)
  assert (length (get_region_caps device 1) == 3)
  assert (length (get_region_caps device 7) == 0)
  buf ← region_read test_kernel device 7 (replicate 16 0) 0x30000
  buf' ← region_read test_kernel device 1 buf 0x30000
  region_write test_kernel device 7 buf' 0x30000
  region_write test_kernel device 1 buf' 0x30000

abbrev test_vfio_device : Action (Unit {0})
test_vfio_device = do
  let container = create_vfio_container
  device ← unwrap (new_device test_kernel container tmp_file)
  assert (not (is_negative device.device || eq_ℤ device.device (pos 0)))
  assert (max_interrupts device == 2048)
  reset_device test_kernel device
  assert (length device.regions == 7)
  assert (length device.irqs == 3)
  use_irqs device
  use_regions device
  reset_device test_kernel device
  drop_device test_kernel container device
  assert_groups 0

test_vfio_device-Passes : Passes test_vfio_device
unfolding new_device get_group_id_from_path get_group create_group new_group install_group
    bind_group open_device get_device get_regions get_irqs read_header read_cap is_utf8 parse_u32
    max_interrupts reset_device trigger_irq enable_irq disable_irq unmask_irq send_irq_set
    get_region_flags get_region_offset get_region_size get_region_caps region_read region_write
    drop_device put_group release_group
test_vfio_device-Passes = refl
