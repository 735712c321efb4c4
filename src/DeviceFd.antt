-- ===== src/DeviceFd.antt =====
-- `VfioDeviceFd` and `VfioContainer::device_set_group` of crates/vfio-ioctls/src/vfio_device.rs, in a
-- build with both hypervisors' features.
pub mod Clone
use vfio.Prelude.{
  ℤ, pos, negsuc, is_negative, is_zero, Bool, true, false, Option, none, some, if◌then◌else◌, ◌==◌,
}
use vfio.Error.{VfioError, vfio_device_dup_fd, vfio_device_fd_wrong_type}
use vfio.Host.Call.{Fd, Call, dup, DeviceFdInner, kvm, mshv, DeviceAttr}
use vfio.Host.Kernel.{Kernel}
use vfio.Host.Action.{Action, pure, raise, gets, ◌>>=◌, issue}

-- `fd == -1`
abbrev pub is_minus_one : ℤ → Bool
is_minus_one (pos n) = false
is_minus_one (negsuc n) = n == 0

abbrev pub new_from_kvm : Fd → DeviceFdInner
new_from_kvm fd = kvm fd

abbrev pub new_from_mshv : Fd → DeviceFdInner
new_from_mshv fd = mshv fd

unfoldable pub to_kvm : DeviceFdInner → Action Fd
to_kvm (kvm fd) = pure fd
to_kvm (mshv fd) = raise vfio_device_fd_wrong_type

unfoldable pub to_mshv : DeviceFdInner → Action Fd
to_mshv (mshv fd) = pure fd
to_mshv (kvm fd) = raise vfio_device_fd_wrong_type

module _ (k : Kernel) where
  unfoldable pub try_clone : DeviceFdInner → Action DeviceFdInner
  try_clone (kvm fd) = do
    dup_fd ← issue k (dup fd)
    if is_minus_one dup_fd then raise vfio_device_dup_fd else pure (kvm dup_fd)
  try_clone (mshv fd) = do
    dup_fd ← issue k (dup fd)
    if is_minus_one dup_fd then raise vfio_device_dup_fd else pure (mshv dup_fd)

  abbrev pub dev_attr : DeviceFdInner → Fd → Bool → DeviceAttr
  dev_attr (kvm fd) group_fd add = record {
    flags = 0;
    group = k.kvm_dev_vfio_group;
    attr = if add then k.kvm_dev_vfio_group_add else k.kvm_dev_vfio_group_del;
    addr = group_fd;
  }
  dev_attr (mshv fd) group_fd add = record {
    flags = 0;
    group = k.mshv_dev_vfio_group;
    attr = if add then k.mshv_dev_vfio_group_add else k.mshv_dev_vfio_group_del;
    addr = group_fd;
  }

  -- `set_device_attr` of the hypervisor's crate fails with `errno` where its ioctl is not 0.
  unfoldable pub device_set_group : Option DeviceFdInner → Fd → Bool → Action (Unit {0})
  device_set_group none group_fd add = pure tt
  device_set_group (some fd) group_fd add = do
    ret ← issue k (Call.set_device_attr fd (dev_attr fd group_fd add))
    errno ← gets (λ s. k.errno s.trace)
    if is_zero ret then pure tt else raise (VfioError.set_device_attr errno)

  unfoldable pub device_add_group : Option DeviceFdInner → Fd → Action (Unit {0})
  unfolding device_set_group
  device_add_group device_fd group_fd = device_set_group device_fd group_fd true

  unfoldable pub device_del_group : Option DeviceFdInner → Fd → Action (Unit {0})
  unfolding device_set_group
  device_del_group device_fd group_fd = device_set_group device_fd group_fd false
