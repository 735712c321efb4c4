-- ===== src/Host/Call.antt =====
-- The system calls that crates/vfio-ioctls makes, each with all that the kernel is handed.
use vfio.Prelude.{ℕ, ℤ, List}
use vfio.Bindings.Structs.{
  VfioGroupStatus, VfioDeviceInfo, VfioRegionInfo, VfioIrqInfo, VfioIrqSet, VfioIommuType1DmaMap,
  VfioIommuType1DmaUnmap,
}

-- `RawFd`, an i32.
abbrev pub Fd : Type 0
Fd = ℤ

-- A path of the file system, as the bytes of its components.
abbrev pub SysPath : Type 0
SysPath = List (List ℕ)

pub data FilePath : Type 0 where
  -- /dev/vfio/vfio
  dev_vfio : FilePath
  -- /dev/vfio/ followed by the decimal digits of a group id
  dev_group : ℕ → FilePath

-- `vfio_region_info_with_cap`: the struct, and the bytes that follow it in the vector.
pub record VfioRegionInfoWithCap : Type 0 where
  pub region_info : VfioRegionInfo
  pub cap_info : List ℕ

-- `DeviceFdInner` of vfio_device.rs.
pub data DeviceFdInner : Type 0 where
  kvm : Fd → DeviceFdInner
  mshv : Fd → DeviceFdInner

-- `kvm_device_attr` and `mshv_device_attr`. `addr` is the address of a descriptor, and stands here as
-- the descriptor that the driver reads from it.
pub record DeviceAttr : Type 0 where
  pub flags : ℕ
  pub group : ℕ
  pub attr : ℕ
  pub addr : Fd

pub data Arg : Type 0 where
  nothing : Arg
  value : ℕ → Arg
  raw_fd : Fd → Arg
  -- a NUL-terminated string, without its NUL
  c_str : List ℕ → Arg
  group_status : VfioGroupStatus → Arg
  device_info : VfioDeviceInfo → Arg
  region_info : VfioRegionInfo → Arg
  region_info_with_cap : VfioRegionInfoWithCap → Arg
  irq_info : VfioIrqInfo → Arg
  -- the header and the bytes behind it, up to the end of the vector
  irq_set : VfioIrqSet → List ℕ → Arg
  dma_map : VfioIommuType1DmaMap → Arg
  dma_unmap : VfioIommuType1DmaUnmap → Arg

pub data Call : Type 0 where
  -- open read-write
  opened : FilePath → Call
  closed : Fd → Call
  dup : Fd → Call
  ioctl : Fd → ℕ → Arg → Call
  set_device_attr : DeviceFdInner → DeviceAttr → Call
  -- length and offset
  read_exact_at : Fd → ℕ → ℕ → Call
  -- bytes and offset
  write_all_at : Fd → List ℕ → ℕ → Call

-- The calls made so far, the last one first.
abbrev pub Trace : Type 0
Trace = List Call
