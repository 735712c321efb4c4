-- ===== src/Bindings/LayoutTests.antt =====
-- The sizes, alignments and offsets that the layout tests of
-- crates/vfio-bindings/src/bindings_v5_0_0/vfio.rs assert.
use vfio.Prelude.{ℕ, ◌≡◌, refl, List, [], ◌∷◌, ◌++◌}
use vfio.Bindings.Layout.{Layout, offsets_from, repr_c, repr_c_union}
use vfio.Bindings.Fields.{
  vfio_info_cap_header_fields, vfio_group_status_fields, vfio_device_info_fields,
  vfio_region_info_fields, vfio_region_sparse_mmap_area_fields,
  vfio_region_info_cap_sparse_mmap_fields, vfio_region_info_cap_type_fields,
  vfio_region_gfx_edid_fields, vfio_region_info_cap_nvlink2_ssatgt_fields,
  vfio_region_info_cap_nvlink2_lnkspd_fields, vfio_irq_info_fields, vfio_irq_set_fields,
  vfio_pci_dependent_device_fields, vfio_pci_hot_reset_info_fields, vfio_pci_hot_reset_fields,
  vfio_device_ioeventfd_fields, vfio_iommu_type1_info_fields, vfio_iommu_type1_dma_map_fields,
  vfio_iommu_type1_dma_unmap_fields, vfio_iommu_spapr_tce_ddw_info_fields,
  vfio_iommu_spapr_tce_info_fields, vfio_eeh_pe_err_fields, vfio_iommu_spapr_register_memory_fields,
  vfio_iommu_spapr_tce_create_fields, vfio_iommu_spapr_tce_remove_fields, kernel_fd_set_fields,
  kernel_fsid_fields, vfio_device_gfx_plane_info_union_fields, vfio_device_gfx_plane_info_fields,
  vfio_eeh_pe_op_union_fields, vfio_eeh_pe_op_fields,
}

abbrev shape : List Layout → List ℕ
shape fs = (repr_c fs).size ∷ (repr_c fs).align ∷ offsets_from 0 fs

vfio_info_cap_header_layout : shape vfio_info_cap_header_fields ≡ 8 ∷ 4 ∷ 0 ∷ 2 ∷ 4 ∷ []
vfio_info_cap_header_layout = refl

vfio_group_status_layout : shape vfio_group_status_fields ≡ 8 ∷ 4 ∷ 0 ∷ 4 ∷ []
vfio_group_status_layout = refl

vfio_device_info_layout : shape vfio_device_info_fields ≡ 16 ∷ 4 ∷ 0 ∷ 4 ∷ 8 ∷ 12 ∷ []
vfio_device_info_layout = refl

vfio_region_info_layout : shape vfio_region_info_fields ≡ 32 ∷ 8 ∷ 0 ∷ 4 ∷ 8 ∷ 12 ∷ 16 ∷ 24 ∷ []
vfio_region_info_layout = refl

vfio_region_sparse_mmap_area_layout :
    shape vfio_region_sparse_mmap_area_fields ≡ 16 ∷ 8 ∷ 0 ∷ 8 ∷ []
vfio_region_sparse_mmap_area_layout = refl

vfio_region_info_cap_sparse_mmap_layout :
    repr_c vfio_region_info_cap_sparse_mmap_fields ≡ record { size = 16; align = 8 }
vfio_region_info_cap_sparse_mmap_layout = refl

vfio_region_info_cap_type_layout : shape vfio_region_info_cap_type_fields ≡ 16 ∷ 4 ∷ 0 ∷ 8 ∷ 12 ∷ []
vfio_region_info_cap_type_layout = refl

vfio_region_gfx_edid_layout :
    shape vfio_region_gfx_edid_fields ≡ 24 ∷ 4 ∷ 0 ∷ 4 ∷ 8 ∷ 12 ∷ 16 ∷ 20 ∷ []
vfio_region_gfx_edid_layout = refl

vfio_region_info_cap_nvlink2_ssatgt_layout :
    shape vfio_region_info_cap_nvlink2_ssatgt_fields ≡ 16 ∷ 8 ∷ 0 ∷ 8 ∷ []
vfio_region_info_cap_nvlink2_ssatgt_layout = refl

vfio_region_info_cap_nvlink2_lnkspd_layout :
    shape vfio_region_info_cap_nvlink2_lnkspd_fields ≡ 16 ∷ 4 ∷ 0 ∷ 8 ∷ 12 ∷ []
vfio_region_info_cap_nvlink2_lnkspd_layout = refl

vfio_irq_info_layout : shape vfio_irq_info_fields ≡ 16 ∷ 4 ∷ 0 ∷ 4 ∷ 8 ∷ 12 ∷ []
vfio_irq_info_layout = refl

vfio_irq_set_layout : repr_c vfio_irq_set_fields ≡ record { size = 20; align = 4 }
vfio_irq_set_layout = refl

vfio_pci_dependent_device_layout :
    shape vfio_pci_dependent_device_fields ≡ 8 ∷ 4 ∷ 0 ∷ 4 ∷ 6 ∷ 7 ∷ []
vfio_pci_dependent_device_layout = refl

vfio_pci_hot_reset_info_layout :
    repr_c vfio_pci_hot_reset_info_fields ≡ record { size = 12; align = 4 }
vfio_pci_hot_reset_info_layout = refl

vfio_pci_hot_reset_layout : repr_c vfio_pci_hot_reset_fields ≡ record { size = 12; align = 4 }
vfio_pci_hot_reset_layout = refl

vfio_device_ioeventfd_layout :
    shape vfio_device_ioeventfd_fields ≡ 32 ∷ 8 ∷ 0 ∷ 4 ∷ 8 ∷ 16 ∷ 24 ∷ []
vfio_device_ioeventfd_layout = refl

vfio_iommu_type1_info_layout : shape vfio_iommu_type1_info_fields ≡ 16 ∷ 8 ∷ 0 ∷ 4 ∷ 8 ∷ []
vfio_iommu_type1_info_layout = refl

vfio_iommu_type1_dma_map_layout :
    shape vfio_iommu_type1_dma_map_fields ≡ 32 ∷ 8 ∷ 0 ∷ 4 ∷ 8 ∷ 16 ∷ 24 ∷ []
vfio_iommu_type1_dma_map_layout = refl

vfio_iommu_type1_dma_unmap_layout :
    shape vfio_iommu_type1_dma_unmap_fields ≡ 24 ∷ 8 ∷ 0 ∷ 4 ∷ 8 ∷ 16 ∷ []
vfio_iommu_type1_dma_unmap_layout = refl

vfio_iommu_spapr_tce_ddw_info_layout :
    shape vfio_iommu_spapr_tce_ddw_info_fields ≡ 16 ∷ 8 ∷ 0 ∷ 8 ∷ 12 ∷ []
vfio_iommu_spapr_tce_ddw_info_layout = refl

vfio_iommu_spapr_tce_info_layout :
    shape vfio_iommu_spapr_tce_info_fields ≡ 32 ∷ 8 ∷ 0 ∷ 4 ∷ 8 ∷ 12 ∷ 16 ∷ []
vfio_iommu_spapr_tce_info_layout = refl

vfio_eeh_pe_err_layout : shape vfio_eeh_pe_err_fields ≡ 24 ∷ 8 ∷ 0 ∷ 4 ∷ 8 ∷ 16 ∷ []
vfio_eeh_pe_err_layout = refl

vfio_iommu_spapr_register_memory_layout :
    shape vfio_iommu_spapr_register_memory_fields ≡ 24 ∷ 8 ∷ 0 ∷ 4 ∷ 8 ∷ 16 ∷ []
vfio_iommu_spapr_register_memory_layout = refl

vfio_iommu_spapr_tce_create_layout :
    shape vfio_iommu_spapr_tce_create_fields ≡ 40 ∷ 8 ∷ 0 ∷ 4 ∷ 8 ∷ 12 ∷ 16 ∷ 24 ∷ 28 ∷ 32 ∷ []
vfio_iommu_spapr_tce_create_layout = refl

vfio_iommu_spapr_tce_remove_layout :
    shape vfio_iommu_spapr_tce_remove_fields ≡ 16 ∷ 8 ∷ 0 ∷ 4 ∷ 8 ∷ []
vfio_iommu_spapr_tce_remove_layout = refl

kernel_fd_set_layout : shape kernel_fd_set_fields ≡ 128 ∷ 8 ∷ 0 ∷ []
kernel_fd_set_layout = refl

kernel_fsid_layout : shape kernel_fsid_fields ≡ 8 ∷ 4 ∷ 0 ∷ []
kernel_fsid_layout = refl

-- Size and alignment, and no field at another offset than 0.
abbrev union_shape : List Layout → List ℕ
union_shape fs = (repr_c_union fs).size ∷ (repr_c_union fs).align ∷ []

vfio_device_gfx_plane_info_union_layout :
    union_shape vfio_device_gfx_plane_info_union_fields ≡ 4 ∷ 4 ∷ []
vfio_device_gfx_plane_info_union_layout = refl

-- What `bindgen_test_layout_vfio_device_gfx_plane_info` asserts, in its order: the union's field
-- has no assertion.
abbrev bindgen_test_layout_vfio_device_gfx_plane_info : List ℕ
bindgen_test_layout_vfio_device_gfx_plane_info =
    64 ∷ 8 ∷ 0 ∷ 4 ∷ 8 ∷ 12 ∷ 16 ∷ 24 ∷ 28 ∷ 32 ∷ 36 ∷ 40 ∷ 44 ∷ 48 ∷ 52 ∷ []

vfio_device_gfx_plane_info_layout :
    shape vfio_device_gfx_plane_info_fields
    ≡ bindgen_test_layout_vfio_device_gfx_plane_info ++ 56 ∷ []
vfio_device_gfx_plane_info_layout = refl

vfio_eeh_pe_op_union_layout : union_shape vfio_eeh_pe_op_union_fields ≡ 24 ∷ 8 ∷ []
vfio_eeh_pe_op_union_layout = refl

-- What `bindgen_test_layout_vfio_eeh_pe_op` asserts.
abbrev bindgen_test_layout_vfio_eeh_pe_op : List ℕ
bindgen_test_layout_vfio_eeh_pe_op = 40 ∷ 8 ∷ 0 ∷ 4 ∷ 8 ∷ []

vfio_eeh_pe_op_layout : shape vfio_eeh_pe_op_fields ≡ bindgen_test_layout_vfio_eeh_pe_op ++ 16 ∷ []
vfio_eeh_pe_op_layout = refl
