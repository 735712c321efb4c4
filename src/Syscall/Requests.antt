-- ===== src/Syscall/Requests.antt =====
-- The request numbers that `ioctl_io_nr!` makes in crates/vfio-ioctls/src/vfio_ioctls.rs: no
-- direction and no size, so the type in the second byte and the number in the first.
use vfio.Prelude.{ℕ, ◌+◌, ◌*◌, ◌^◌}
use vfio.Bindings.Constants.{vfio_type, vfio_base}

abbrev pub io : ℕ → ℕ
io nr = vfio_type * 2 ^ 8 + (vfio_base + nr)

abbrev pub vfio_get_api_version : ℕ
vfio_get_api_version = io 0

abbrev pub vfio_check_extension : ℕ
vfio_check_extension = io 1

abbrev pub vfio_set_iommu : ℕ
vfio_set_iommu = io 2

abbrev pub vfio_group_get_status : ℕ
vfio_group_get_status = io 3

abbrev pub vfio_group_set_container : ℕ
vfio_group_set_container = io 4

abbrev pub vfio_group_unset_container : ℕ
vfio_group_unset_container = io 5

abbrev pub vfio_group_get_device_fd : ℕ
vfio_group_get_device_fd = io 6

abbrev pub vfio_device_get_info : ℕ
vfio_device_get_info = io 7

abbrev pub vfio_device_get_region_info : ℕ
vfio_device_get_region_info = io 8

abbrev pub vfio_device_get_irq_info : ℕ
vfio_device_get_irq_info = io 9

abbrev pub vfio_device_set_irqs : ℕ
vfio_device_set_irqs = io 10

abbrev pub vfio_device_reset : ℕ
vfio_device_reset = io 11

abbrev pub vfio_device_get_pci_hot_reset_info : ℕ
vfio_device_get_pci_hot_reset_info = io 12

abbrev pub vfio_device_pci_hot_reset : ℕ
vfio_device_pci_hot_reset = io 13

abbrev pub vfio_device_query_gfx_plane : ℕ
vfio_device_query_gfx_plane = io 14

abbrev pub vfio_device_get_gfx_dmabuf : ℕ
vfio_device_get_gfx_dmabuf = io 15

abbrev pub vfio_device_ioeventfd : ℕ
vfio_device_ioeventfd = io 16

abbrev pub vfio_iommu_get_info : ℕ
vfio_iommu_get_info = io 12

abbrev pub vfio_iommu_map_dma : ℕ
vfio_iommu_map_dma = io 13

abbrev pub vfio_iommu_unmap_dma : ℕ
vfio_iommu_unmap_dma = io 14

abbrev pub vfio_iommu_enable : ℕ
vfio_iommu_enable = io 15

abbrev pub vfio_iommu_disable : ℕ
vfio_iommu_disable = io 16
