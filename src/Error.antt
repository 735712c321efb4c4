-- ===== src/Error.antt =====
-- `VfioError` and `Result` of crates/vfio-ioctls/src/lib.rs. An `io::Error` or `SysError` that a
-- variant carries is its error number; the decimal text of a group id in `OpenGroup` is the number.
pub mod Text
use vfio.Prelude.{ℕ, ℤ}

pub data VfioError : Type 0 where
  open_container : ℤ → VfioError
  open_group : ℤ → ℕ → VfioError
  get_group_status group_viable vfio_api_version vfio_extension vfio_invalid_type : VfioError
  vfio_type1_v2 group_set_container unset_container container_set_iommu : VfioError
  group_get_device_fd : VfioError
  set_device_attr : ℤ → VfioError
  vfio_device_get_info : VfioError
  vfio_device_get_region_info : ℤ → VfioError
  invalid_path : VfioError
  iommu_dma_map iommu_dma_unmap : ℤ → VfioError
  vfio_device_get_irq_info vfio_device_set_irq vfio_device_enable_irq : VfioError
  vfio_device_disable_irq vfio_device_unmask_irq vfio_device_trigger_irq : VfioError
  vfio_device_dup_fd vfio_device_fd_wrong_type get_host_address invalid_dma_unmap_size : VfioError

-- How a computation can stop other than by a `Result`: a panic, a read outside of an allocation,
-- or a loop that used up the fuel of the model.
pub data Fault : Type 0 where
  panic out_of_bounds out_of_fuel : Fault

pub data Outcome {ℓ} (A : Type ℓ) : Type ℓ where
  ok : A → Outcome A
  err : VfioError → Outcome A
  fault : Fault → Outcome A
