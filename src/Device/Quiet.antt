-- ===== src/Device/Quiet.antt =====
-- Opening a device, and everything done with an open one, leaves the container's groups and the
-- reference counts alone.
use vfio.Prelude.{Option, none, some, ℕ, zero, suc, Dict, List}
use vfio.Host.Kernel.{Kernel}
use vfio.Host.Call.{Fd, SysPath, VfioRegionInfoWithCap}
use vfio.Host.Action.{VfioGroup}
use vfio.Host.Quiet.{Quiet, quiet, >>=-Quiet}
use vfio.Bindings.Structs.{VfioDeviceInfo, VfioIrqInfo, VfioRegionInfo}
use vfio.Syscall.{
  get_device_info, get_device_irq_info, get_device_region_info, get_device_region_info_cap,
  get_group_device_fd,
}
use vfio.Group.{get_device}
use vfio.Device.Info.{
  fetch_caps, VfioIrq, VfioRegion, irq_step, irqs_from, get_irqs, get_region_map, region_step,
  regions_from, get_regions,
}
use vfio.Device.Lifecycle.{open_device}

module _ (k : Kernel) where
  get_device_info-Quiet : (fd : Fd) (i : VfioDeviceInfo) → Quiet (get_device_info k fd i)
  unfolding get_device_info
  get_device_info-Quiet fd i = search quiet depth 12

  get_device_irq_info-Quiet : (fd : Fd) (i : VfioIrqInfo) → Quiet (get_device_irq_info k fd i)
  unfolding get_device_irq_info
  get_device_irq_info-Quiet fd i = search quiet depth 12

  get_device_region_info-Quiet :
      (fd : Fd) (i : VfioRegionInfo) → Quiet (get_device_region_info k fd i)
  unfolding get_device_region_info
  get_device_region_info-Quiet fd i = search quiet depth 12

  get_device_region_info_cap-Quiet :
      (fd : Fd) (len : ℕ) (r : VfioRegionInfoWithCap)
      → Quiet (get_device_region_info_cap k fd len r)
  unfolding get_device_region_info_cap
  get_device_region_info_cap-Quiet fd len r = search quiet depth 12

  get_group_device_fd-Quiet : (fd : Fd) (path : List ℕ) → Quiet (get_group_device_fd k fd path)
  unfolding get_group_device_fd
  get_group_device_fd-Quiet fd path = search quiet depth 12

  irq_step-Quiet : (fd : Fd) (i : ℕ) (irqs : Dict VfioIrq) → Quiet (irq_step k fd i irqs)
  unfolding irq_step
  irq_step-Quiet fd i irqs = search (quiet, get_device_irq_info-Quiet) depth 12

  irqs_from-Quiet : (fd : Fd) (n i : ℕ) (irqs : Dict VfioIrq) → Quiet (irqs_from k fd n i irqs)
  unfolding irqs_from
  irqs_from-Quiet fd zero i irqs = search quiet
  irqs_from-Quiet fd (suc n) i irqs =
      >>=-Quiet (irq_step-Quiet fd i irqs) (irqs_from-Quiet fd n (suc i))

  fetch_caps-Quiet :
      (fd : Fd) (region : VfioRegion) (r : Option (ℕ × VfioRegionInfoWithCap))
      → Quiet (fetch_caps k fd region r)
  unfolding fetch_caps
  fetch_caps-Quiet fd region none = search quiet
  fetch_caps-Quiet fd region (some (len, r)) =
      search (quiet, get_device_region_info_cap-Quiet) depth 12

  get_region_map-Quiet :
      (fd : Fd) (region : VfioRegion) (info : VfioRegionInfo)
      → Quiet (get_region_map k fd region info)
  unfolding get_region_map
  get_region_map-Quiet fd region info = search (quiet, fetch_caps-Quiet) depth 12

  region_step-Quiet :
      (fd : Fd) (i : ℕ) (regions : List VfioRegion) → Quiet (region_step k fd i regions)
  unfolding region_step
  region_step-Quiet fd i regions =
      search (quiet, get_device_region_info-Quiet, get_region_map-Quiet) depth 12

  regions_from-Quiet :
      (fd : Fd) (n i : ℕ) (regions : List VfioRegion) → Quiet (regions_from k fd n i regions)
  unfolding regions_from
  regions_from-Quiet fd zero i regions = search quiet
  regions_from-Quiet fd (suc n) i regions =
      >>=-Quiet (region_step-Quiet fd i regions) (regions_from-Quiet fd n (suc i))

  get_device-Quiet : (group : VfioGroup) (name : SysPath) → Quiet (get_device k group name)
  unfolding get_device
  get_device-Quiet group name =
      search (quiet, get_group_device_fd-Quiet, get_device_info-Quiet) depth 16

  pub open_device-Quiet :
      (value : VfioGroup) (group : ℕ) (path : SysPath) → Quiet (open_device k value group path)
  unfolding open_device get_regions get_irqs
  open_device-Quiet value group path =
      search (quiet, get_device-Quiet, regions_from-Quiet, irqs_from-Quiet) depth 16
