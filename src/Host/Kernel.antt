-- ===== src/Host/Kernel.antt =====
-- The kernel and the hypervisor's device driver, which are not part of the crate: whatever they
-- answer may depend on all the calls made before.
use vfio.Prelude.{ℕ, ℤ, List, Option}
use vfio.Bindings.Structs.{
  VfioGroupStatus, VfioDeviceInfo, VfioRegionInfo, VfioIrqInfo, VfioIommuType1DmaUnmap,
}
use vfio.Host.Call.{Fd, Call, Trace, SysPath, VfioRegionInfoWithCap}

pub record Kernel : Type 0 where
  -- what a call returns: a descriptor, 0, or a negative number
  pub ret : Trace → Call → ℤ
  -- `errno`, after these calls
  pub errno : Trace → ℤ
  -- what the kernel leaves in the struct that an ioctl points to
  pub group_status : Trace → Fd → VfioGroupStatus → VfioGroupStatus
  pub device_info : Trace → Fd → VfioDeviceInfo → VfioDeviceInfo
  pub region_info : Trace → Fd → VfioRegionInfo → VfioRegionInfo
  pub region_info_with_cap : Trace → Fd → VfioRegionInfoWithCap → VfioRegionInfoWithCap
  pub irq_info : Trace → Fd → VfioIrqInfo → VfioIrqInfo
  pub dma_unmap : Trace → Fd → VfioIommuType1DmaUnmap → VfioIommuType1DmaUnmap
  -- the bytes that a read of so many bytes at an offset leaves in the buffer
  pub bytes_at : Trace → Fd → ℕ → ℕ → List ℕ
  -- the target of a symbolic link, if there is one
  pub read_link : SysPath → Option SysPath
  -- KVM_DEV_VFIO_GROUP, _ADD and _DEL of kvm_bindings, and their MSHV counterparts
  pub kvm_dev_vfio_group : ℕ
  pub kvm_dev_vfio_group_add : ℕ
  pub kvm_dev_vfio_group_del : ℕ
  pub mshv_dev_vfio_group : ℕ
  pub mshv_dev_vfio_group_add : ℕ
  pub mshv_dev_vfio_group_del : ℕ
