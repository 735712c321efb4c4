-- ===== src/Syscall.antt =====
-- The module `vfio_syscall` of crates/vfio-ioctls/src/vfio_ioctls.rs (not its test double), over the
-- kernel `k`. Descriptors stand for the objects that the source passes. Where the kernel fills a
-- struct in, the function returns that struct.
pub mod Requests
use vfio.Prelude.{
  ℕ, ◌+◌, ◌*◌, ◌<◌, ℤ, pos, neg, is_negative, is_zero, as_u32, Bool, true, List, ltb, if◌then◌else◌,
  ◌==◌, ◌||◌,
}
use vfio.Bindings.Structs.{
  VfioGroupStatus, VfioDeviceInfo, VfioRegionInfo, VfioIrqInfo, VfioIrqSet, VfioIommuType1DmaMap,
  VfioIommuType1DmaUnmap, size_of_irq_set, size_of_region_info,
}
use vfio.Error.{VfioError}
use vfio.Host.Call.{Fd, Call, ioctl, Arg, VfioRegionInfoWithCap}
use vfio.Host.Kernel.{Kernel}
use vfio.Host.Action.{Action, State, pure, raise, gets, ◌>>=◌, issue}
use Requests

module _ (k : Kernel) where
  unfoldable pub check_api_version : Fd → Action ℤ
  check_api_version container = issue k (ioctl container Requests.vfio_get_api_version Arg.nothing)

  unfoldable pub check_extension : Fd → ℕ → Action ℕ
  check_extension container val = do
    ret ← issue k (ioctl container Requests.vfio_check_extension (Arg.value val))
    if is_negative ret then raise VfioError.vfio_extension else pure (as_u32 ret)

  unfoldable pub set_iommu : Fd → ℕ → Action (Unit {0})
  set_iommu container val = do
    ret ← issue k (ioctl container Requests.vfio_set_iommu (Arg.value val))
    if is_negative ret then raise VfioError.container_set_iommu else pure tt

  unfoldable pub map_dma : Fd → VfioIommuType1DmaMap → Action (Unit {0})
  map_dma container dma_map = do
    ret ← issue k (ioctl container Requests.vfio_iommu_map_dma (Arg.dma_map dma_map))
    errno ← gets (λ s. k.errno s.trace)
    if is_zero ret then pure tt else raise (VfioError.iommu_dma_map errno)

  unfoldable pub unmap_dma : Fd → VfioIommuType1DmaUnmap → Action VfioIommuType1DmaUnmap
  unmap_dma container dma_unmap = do
    trace ← gets (λ s. s.trace)
    ret ← issue k (ioctl container Requests.vfio_iommu_unmap_dma (Arg.dma_unmap dma_unmap))
    errno ← gets (λ s. k.errno s.trace)
    if is_zero ret
        then pure (k.dma_unmap trace container dma_unmap)
        else raise (VfioError.iommu_dma_unmap errno)

  unfoldable pub get_group_status : Fd → VfioGroupStatus → Action VfioGroupStatus
  get_group_status file group_status = do
    trace ← gets (λ s. s.trace)
    ret ← issue k (ioctl file Requests.vfio_group_get_status (Arg.group_status group_status))
    if is_negative ret
        then raise VfioError.get_group_status
        else pure (k.group_status trace file group_status)

  unfoldable pub get_group_device_fd : Fd → List ℕ → Action Fd
  get_group_device_fd group path = do
    fd ← issue k (ioctl group Requests.vfio_group_get_device_fd (Arg.c_str path))
    if is_negative fd then raise VfioError.group_get_device_fd else pure fd

  unfoldable pub set_group_container : Fd → Fd → Action (Unit {0})
  set_group_container group container = do
    ret ← issue k (ioctl group Requests.vfio_group_set_container (Arg.raw_fd container))
    if is_negative ret then raise VfioError.group_set_container else pure tt

  unfoldable pub unset_group_container : Fd → Fd → Action (Unit {0})
  unset_group_container group container = do
    ret ← issue k (ioctl group Requests.vfio_group_unset_container (Arg.raw_fd container))
    if is_negative ret then raise VfioError.group_set_container else pure tt

  unfoldable pub get_device_info : Fd → VfioDeviceInfo → Action VfioDeviceInfo
  get_device_info file dev_info = do
    trace ← gets (λ s. s.trace)
    ret ← issue k (ioctl file Requests.vfio_device_get_info (Arg.device_info dev_info))
    if is_negative ret
        then raise VfioError.vfio_device_get_info
        else pure (k.device_info trace file dev_info)

  -- `irq_set` is a vector of `len` elements: the first one's header, and the bytes behind it.
  unfoldable pub set_device_irqs : Fd → ℕ → VfioIrqSet → List ℕ → Action (Unit {0})
  set_device_irqs device len header bytes =
      if len == 0 || ltb (len * size_of_irq_set) header.argsz
      then raise VfioError.vfio_device_set_irq
      else do
        ret ← issue k (ioctl device Requests.vfio_device_set_irqs (Arg.irq_set header bytes))
        if is_negative ret then raise VfioError.vfio_device_set_irq else pure tt

  unfoldable pub reset : Fd → Action ℤ
  reset device = issue k (ioctl device Requests.vfio_device_reset Arg.nothing)

  unfoldable pub get_device_irq_info : Fd → VfioIrqInfo → Action VfioIrqInfo
  get_device_irq_info dev_info irq_info = do
    trace ← gets (λ s. s.trace)
    ret ← issue k (ioctl dev_info Requests.vfio_device_get_irq_info (Arg.irq_info irq_info))
    if is_negative ret
        then raise (VfioError.vfio_device_get_region_info (neg ret))
        else pure (k.irq_info trace dev_info irq_info)

  unfoldable pub get_device_region_info : Fd → VfioRegionInfo → Action VfioRegionInfo
  get_device_region_info dev_info reg_info = do
    trace ← gets (λ s. s.trace)
    ret ← issue k (ioctl dev_info Requests.vfio_device_get_region_info (Arg.region_info reg_info))
    if is_negative ret
        then raise (VfioError.vfio_device_get_region_info (neg ret))
        else pure (k.region_info trace dev_info reg_info)

  -- EINVAL of the C library.
  abbrev einval : ℤ
  einval = pos 22

  -- `reg_infos` is a vector of `len` elements.
  unfoldable pub get_device_region_info_cap :
      Fd → ℕ → VfioRegionInfoWithCap → Action VfioRegionInfoWithCap
  get_device_region_info_cap dev_info len reg_infos =
      if len == 0 || ltb (len * size_of_region_info) reg_infos.region_info.argsz
      then raise (VfioError.vfio_device_get_region_info einval)
      else do
        trace ← gets (λ s. s.trace)
        ret ← issue k (
            ioctl dev_info Requests.vfio_device_get_region_info
              (Arg.region_info_with_cap reg_infos))
        if is_negative ret
            then raise (VfioError.vfio_device_get_region_info (neg ret))
            else pure (k.region_info_with_cap trace dev_info reg_infos)
