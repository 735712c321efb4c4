-- ===== src/Bindings/Fields.antt =====
-- The structs of crates/vfio-bindings/src/bindings_v5_0_0/vfio.rs as the layouts of their fields,
-- in the order of their declaration.
use vfio.Prelude.{List, [], ◌∷◌}
use vfio.Bindings.Layout.{Layout, prim, incomplete_array, array, repr_c, repr_c_union}

abbrev pub vfio_info_cap_header_fields : List Layout
vfio_info_cap_header_fields = prim 2 ∷ prim 2 ∷ prim 4 ∷ []

abbrev pub vfio_group_status_fields : List Layout
vfio_group_status_fields = prim 4 ∷ prim 4 ∷ []

abbrev pub vfio_device_info_fields : List Layout
vfio_device_info_fields = prim 4 ∷ prim 4 ∷ prim 4 ∷ prim 4 ∷ []

abbrev pub vfio_region_info_fields : List Layout
vfio_region_info_fields = prim 4 ∷ prim 4 ∷ prim 4 ∷ prim 4 ∷ prim 8 ∷ prim 8 ∷ []

abbrev pub vfio_region_sparse_mmap_area_fields : List Layout
vfio_region_sparse_mmap_area_fields = prim 8 ∷ prim 8 ∷ []

abbrev pub vfio_region_info_cap_sparse_mmap_fields : List Layout
vfio_region_info_cap_sparse_mmap_fields =
    repr_c vfio_info_cap_header_fields
    ∷ prim 4
    ∷ prim 4
    ∷ incomplete_array (repr_c vfio_region_sparse_mmap_area_fields)
    ∷ []

abbrev pub vfio_region_info_cap_type_fields : List Layout
vfio_region_info_cap_type_fields = repr_c vfio_info_cap_header_fields ∷ prim 4 ∷ prim 4 ∷ []

abbrev pub vfio_region_gfx_edid_fields : List Layout
vfio_region_gfx_edid_fields = prim 4 ∷ prim 4 ∷ prim 4 ∷ prim 4 ∷ prim 4 ∷ prim 4 ∷ []

abbrev pub vfio_region_info_cap_nvlink2_ssatgt_fields : List Layout
vfio_region_info_cap_nvlink2_ssatgt_fields = repr_c vfio_info_cap_header_fields ∷ prim 8 ∷ []

abbrev pub vfio_region_info_cap_nvlink2_lnkspd_fields : List Layout
vfio_region_info_cap_nvlink2_lnkspd_fields =
    repr_c vfio_info_cap_header_fields ∷ prim 4 ∷ prim 4 ∷ []

abbrev pub vfio_irq_info_fields : List Layout
vfio_irq_info_fields = prim 4 ∷ prim 4 ∷ prim 4 ∷ prim 4 ∷ []

abbrev pub vfio_irq_set_fields : List Layout
vfio_irq_set_fields = prim 4 ∷ prim 4 ∷ prim 4 ∷ prim 4 ∷ prim 4 ∷ incomplete_array (prim 1) ∷ []

abbrev pub vfio_pci_dependent_device_fields : List Layout
vfio_pci_dependent_device_fields = prim 4 ∷ prim 2 ∷ prim 1 ∷ prim 1 ∷ []

abbrev pub vfio_pci_hot_reset_info_fields : List Layout
vfio_pci_hot_reset_info_fields =
    prim 4 ∷ prim 4 ∷ prim 4 ∷ incomplete_array (repr_c vfio_pci_dependent_device_fields) ∷ []

abbrev pub vfio_pci_hot_reset_fields : List Layout
vfio_pci_hot_reset_fields = prim 4 ∷ prim 4 ∷ prim 4 ∷ incomplete_array (prim 4) ∷ []

abbrev pub vfio_device_ioeventfd_fields : List Layout
vfio_device_ioeventfd_fields = prim 4 ∷ prim 4 ∷ prim 8 ∷ prim 8 ∷ prim 4 ∷ []

abbrev pub vfio_iommu_type1_info_fields : List Layout
vfio_iommu_type1_info_fields = prim 4 ∷ prim 4 ∷ prim 8 ∷ []

abbrev pub vfio_iommu_type1_dma_map_fields : List Layout
vfio_iommu_type1_dma_map_fields = prim 4 ∷ prim 4 ∷ prim 8 ∷ prim 8 ∷ prim 8 ∷ []

abbrev pub vfio_iommu_type1_dma_unmap_fields : List Layout
vfio_iommu_type1_dma_unmap_fields = prim 4 ∷ prim 4 ∷ prim 8 ∷ prim 8 ∷ []

abbrev pub vfio_iommu_spapr_tce_ddw_info_fields : List Layout
vfio_iommu_spapr_tce_ddw_info_fields = prim 8 ∷ prim 4 ∷ prim 4 ∷ []

abbrev pub vfio_iommu_spapr_tce_info_fields : List Layout
vfio_iommu_spapr_tce_info_fields =
    prim 4 ∷ prim 4 ∷ prim 4 ∷ prim 4 ∷ repr_c vfio_iommu_spapr_tce_ddw_info_fields ∷ []

abbrev pub vfio_eeh_pe_err_fields : List Layout
vfio_eeh_pe_err_fields = prim 4 ∷ prim 4 ∷ prim 8 ∷ prim 8 ∷ []

abbrev pub vfio_iommu_spapr_register_memory_fields : List Layout
vfio_iommu_spapr_register_memory_fields = prim 4 ∷ prim 4 ∷ prim 8 ∷ prim 8 ∷ []

abbrev pub vfio_iommu_spapr_tce_create_fields : List Layout
vfio_iommu_spapr_tce_create_fields =
    prim 4 ∷ prim 4 ∷ prim 4 ∷ prim 4 ∷ prim 8 ∷ prim 4 ∷ prim 4 ∷ prim 8 ∷ []

abbrev pub vfio_iommu_spapr_tce_remove_fields : List Layout
vfio_iommu_spapr_tce_remove_fields = prim 4 ∷ prim 4 ∷ prim 8 ∷ []

abbrev pub kernel_fd_set_fields : List Layout
kernel_fd_set_fields = array 16 (prim 8) ∷ []

abbrev pub kernel_fsid_fields : List Layout
kernel_fsid_fields = array 2 (prim 4) ∷ []

-- `region_index`, `dmabuf_id` and `_bindgen_union_align`
abbrev pub vfio_device_gfx_plane_info_union_fields : List Layout
vfio_device_gfx_plane_info_union_fields = prim 4 ∷ prim 4 ∷ prim 4 ∷ []

abbrev pub vfio_device_gfx_plane_info_fields : List Layout
vfio_device_gfx_plane_info_fields =
    prim 4
    ∷ prim 4
    ∷ prim 4
    ∷ prim 4
    ∷ prim 8
    ∷ prim 4
    ∷ prim 4
    ∷ prim 4
    ∷ prim 4
    ∷ prim 4
    ∷ prim 4
    ∷ prim 4
    ∷ prim 4
    ∷ repr_c_union vfio_device_gfx_plane_info_union_fields
    ∷ []

-- `err` and `_bindgen_union_align`
abbrev pub vfio_eeh_pe_op_union_fields : List Layout
vfio_eeh_pe_op_union_fields = repr_c vfio_eeh_pe_err_fields ∷ array 3 (prim 8) ∷ []

abbrev pub vfio_eeh_pe_op_fields : List Layout
vfio_eeh_pe_op_fields = prim 4 ∷ prim 4 ∷ prim 4 ∷ repr_c_union vfio_eeh_pe_op_union_fields ∷ []
