-- ===== src/Bindings/Structs.antt =====
-- The structs of crates/vfio-bindings/src/bindings_v5_0_0/vfio.rs that the ioctls of
-- crates/vfio-ioctls exchange with the kernel. Every field is an unsigned number of the width given
-- there; `Fields` has their layout.
use vfio.Prelude.{ℕ}
use vfio.Bindings.Layout.{size_of}
use vfio.Bindings.Fields.{
  vfio_info_cap_header_fields, vfio_group_status_fields, vfio_device_info_fields,
  vfio_region_info_fields, vfio_region_sparse_mmap_area_fields, vfio_irq_info_fields,
  vfio_irq_set_fields, vfio_iommu_type1_dma_map_fields, vfio_iommu_type1_dma_unmap_fields,
}

pub record VfioInfoCapHeader : Type 0 where
  pub id : ℕ
  pub version : ℕ
  pub next : ℕ

pub record VfioGroupStatus : Type 0 where
  pub argsz : ℕ
  pub flags : ℕ

pub record VfioDeviceInfo : Type 0 where
  pub argsz : ℕ
  pub flags : ℕ
  pub num_regions : ℕ
  pub num_irqs : ℕ

pub record VfioRegionInfo : Type 0 where
  pub argsz : ℕ
  pub flags : ℕ
  pub index : ℕ
  pub cap_offset : ℕ
  pub size : ℕ
  pub offset : ℕ

pub record VfioIrqInfo : Type 0 where
  pub argsz : ℕ
  pub flags : ℕ
  pub index : ℕ
  pub count : ℕ

-- The fixed part of `vfio_irq_set`; its `data` array takes no space in the struct.
pub record VfioIrqSet : Type 0 where
  pub argsz : ℕ
  pub flags : ℕ
  pub index : ℕ
  pub start : ℕ
  pub count : ℕ

pub record VfioIommuType1DmaMap : Type 0 where
  pub argsz : ℕ
  pub flags : ℕ
  pub vaddr : ℕ
  pub iova : ℕ
  pub size : ℕ

pub record VfioIommuType1DmaUnmap : Type 0 where
  pub argsz : ℕ
  pub flags : ℕ
  pub iova : ℕ
  pub size : ℕ

abbrev pub size_of_cap_header : ℕ
size_of_cap_header = size_of vfio_info_cap_header_fields

abbrev pub size_of_group_status : ℕ
size_of_group_status = size_of vfio_group_status_fields

abbrev pub size_of_device_info : ℕ
size_of_device_info = size_of vfio_device_info_fields

abbrev pub size_of_region_info : ℕ
size_of_region_info = size_of vfio_region_info_fields

abbrev pub size_of_sparse_mmap_area : ℕ
size_of_sparse_mmap_area = size_of vfio_region_sparse_mmap_area_fields

abbrev pub size_of_irq_info : ℕ
size_of_irq_info = size_of vfio_irq_info_fields

abbrev pub size_of_irq_set : ℕ
size_of_irq_set = size_of vfio_irq_set_fields

abbrev pub size_of_dma_map : ℕ
size_of_dma_map = size_of vfio_iommu_type1_dma_map_fields

abbrev pub size_of_dma_unmap : ℕ
size_of_dma_unmap = size_of vfio_iommu_type1_dma_unmap_fields
