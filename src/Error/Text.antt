-- ===== src/Error/Text.antt =====
-- What thiserror derives for `VfioError` from its attributes in crates/vfio-ioctls/src/lib.rs: the text
-- of an error and its source. The texts of numbers, of an `io::Error` and of a `SysError` are std's
-- and vmm-sys-util's.
use Prim.Native.String.{String, ◌++◌}
use vfio.Prelude.{ℕ, ℤ, Option, none, some}
use vfio.Error.{
  VfioError, open_container, open_group, get_group_status, group_viable, vfio_api_version,
  vfio_extension, vfio_invalid_type, vfio_type1_v2, group_set_container, unset_container,
  container_set_iommu, group_get_device_fd, set_device_attr, vfio_device_get_info,
  vfio_device_get_region_info, invalid_path, iommu_dma_map, iommu_dma_unmap,
  vfio_device_get_irq_info, vfio_device_set_irq, vfio_device_enable_irq, vfio_device_disable_irq,
  vfio_device_unmask_irq, vfio_device_trigger_irq, vfio_device_dup_fd, vfio_device_fd_wrong_type,
  get_host_address, invalid_dma_unmap_size,
}

module _ (to_string : ℕ → String) (io_text sys_text : ℤ → String) where
  abbrev pub fmt : VfioError → String
  fmt (open_container e) = "failed to open /dev/vfio/vfio container: " ++ io_text e
  fmt (open_group e id) = "failed to open /dev/vfio/" ++ (to_string id ++ (" group: " ++ io_text e))
  fmt get_group_status = "failed to get Group Status"
  fmt group_viable = "group is not viable"
  fmt vfio_api_version =
      "vfio API version doesn't match with VFIO_API_VERSION defined in vfio-bindings"
  fmt vfio_extension = "failed to check VFIO extension"
  fmt vfio_invalid_type = "invalid VFIO type"
  fmt vfio_type1_v2 = "container doesn't support VfioType1V2 IOMMU driver type"
  fmt group_set_container = "failed to add vfio group into vfio container"
  fmt unset_container = "failed to unset vfio container"
  fmt container_set_iommu = "failed to set container's IOMMU driver type as VfioType1V2"
  fmt group_get_device_fd = "failed to get vfio device fd"
  fmt (set_device_attr e) = "failed to set vfio device's attribute: " ++ sys_text e
  fmt vfio_device_get_info = "failed to get vfio device's info or info doesn't match"
  fmt (vfio_device_get_region_info e) = "failed to get vfio device's region info: " ++ sys_text e
  fmt invalid_path = "invalid file path"
  fmt (iommu_dma_map e) = "failed to add guest memory map into iommu table: " ++ sys_text e
  fmt (iommu_dma_unmap e) = "failed to remove guest memory map from iommu table: " ++ sys_text e
  fmt vfio_device_get_irq_info = "failed to get vfio device irq info"
  fmt vfio_device_set_irq = "failed to set vfio device irq"
  fmt vfio_device_enable_irq = "failed to enable vfio device irq"
  fmt vfio_device_disable_irq = "failed to disable vfio device irq"
  fmt vfio_device_unmask_irq = "failed to unmask vfio device irq"
  fmt vfio_device_trigger_irq = "failed to trigger vfio device irq"
  fmt vfio_device_dup_fd = "failed to duplicate fd"
  fmt vfio_device_fd_wrong_type = "wrong device fd type"
  fmt get_host_address = "failed to get host address"
  fmt invalid_dma_unmap_size = "invalid dma unmap size"

abbrev pub source : VfioError → Option ℤ
source (open_container e) = some e
source (open_group e id) = some e
source get_group_status = none
source group_viable = none
source vfio_api_version = none
source vfio_extension = none
source vfio_invalid_type = none
source vfio_type1_v2 = none
source group_set_container = none
source unset_container = none
source container_set_iommu = none
source group_get_device_fd = none
source (set_device_attr e) = some e
source vfio_device_get_info = none
source (vfio_device_get_region_info e) = some e
source invalid_path = none
source (iommu_dma_map e) = some e
source (iommu_dma_unmap e) = some e
source vfio_device_get_irq_info = none
source vfio_device_set_irq = none
source vfio_device_enable_irq = none
source vfio_device_disable_irq = none
source vfio_device_unmask_irq = none
source vfio_device_trigger_irq = none
source vfio_device_dup_fd = none
source vfio_device_fd_wrong_type = none
source get_host_address = none
source invalid_dma_unmap_size = none
