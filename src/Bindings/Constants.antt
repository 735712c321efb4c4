-- ===== src/Bindings/Constants.antt =====
-- The constants of the kernel interface that crates/vfio-ioctls uses, from
-- crates/vfio-bindings/src/bindings_v5_0_0/vfio.rs.
use vfio.Prelude.{ℕ}

abbrev pub vfio_api_version : ℕ
vfio_api_version = 0

abbrev pub vfio_type1_iommu : ℕ
vfio_type1_iommu = 1

abbrev pub vfio_type1v2_iommu : ℕ
vfio_type1v2_iommu = 3

abbrev pub vfio_type : ℕ
vfio_type = 59

abbrev pub vfio_base : ℕ
vfio_base = 100

abbrev pub vfio_group_flags_viable : ℕ
vfio_group_flags_viable = 1

abbrev pub vfio_device_flags_reset : ℕ
vfio_device_flags_reset = 1

abbrev pub vfio_device_flags_pci : ℕ
vfio_device_flags_pci = 2

abbrev pub vfio_region_info_flag_write : ℕ
vfio_region_info_flag_write = 2

abbrev pub vfio_region_info_flag_caps : ℕ
vfio_region_info_flag_caps = 8

abbrev pub vfio_region_info_cap_sparse_mmap : ℕ
vfio_region_info_cap_sparse_mmap = 1

abbrev pub vfio_region_info_cap_type : ℕ
vfio_region_info_cap_type = 2

abbrev pub vfio_region_info_cap_msix_mappable : ℕ
vfio_region_info_cap_msix_mappable = 3

abbrev pub vfio_region_info_cap_nvlink2_ssatgt : ℕ
vfio_region_info_cap_nvlink2_ssatgt = 4

abbrev pub vfio_region_info_cap_nvlink2_lnkspd : ℕ
vfio_region_info_cap_nvlink2_lnkspd = 5

abbrev pub vfio_irq_info_eventfd : ℕ
vfio_irq_info_eventfd = 1

abbrev pub vfio_irq_info_maskable : ℕ
vfio_irq_info_maskable = 2

abbrev pub vfio_irq_set_data_none : ℕ
vfio_irq_set_data_none = 1

abbrev pub vfio_irq_set_data_eventfd : ℕ
vfio_irq_set_data_eventfd = 4

abbrev pub vfio_irq_set_action_unmask : ℕ
vfio_irq_set_action_unmask = 16

abbrev pub vfio_irq_set_action_trigger : ℕ
vfio_irq_set_action_trigger = 32

abbrev pub vfio_dma_map_flag_read : ℕ
vfio_dma_map_flag_read = 1

abbrev pub vfio_dma_map_flag_write : ℕ
vfio_dma_map_flag_write = 2

abbrev pub vfio_pci_bar0_region_index : ℕ
vfio_pci_bar0_region_index = 0

abbrev pub vfio_pci_config_region_index : ℕ
vfio_pci_config_region_index = 7

abbrev pub vfio_pci_intx_irq_index : ℕ
vfio_pci_intx_irq_index = 0

abbrev pub vfio_pci_msi_irq_index : ℕ
vfio_pci_msi_irq_index = 1

abbrev pub vfio_pci_msix_irq_index : ℕ
vfio_pci_msix_irq_index = 2
