-- ===== src/Group/Careful.antt =====
-- `VfioGroup::new` and `get_device` make their calls on open descriptors.
use vfio.Prelude.{ℕ, ◌≡◌, eq_ℤ_refl, true, arith}
use vfio.Host.Call.{Fd, SysPath, opened, dev_group}
use vfio.Host.Kernel.{Kernel}
use vfio.Host.Action.{State, VfioGroup}
use vfio.Host.Careful.{all_open, has_fd}
use vfio.Host.Resources.{open_fds}
use vfio.Syscall.{get_group_device_fd, get_device_info}
use vfio.Group.{new_group, get_device}

module _ (k : Kernel) (own : Fd) where
  pub new_group-all_open :
      (id : ℕ) (s : State)
      → all_open k own s.trace ≡ true
      → all_open k own (new_group k id s).1.trace ≡ true
  unfolding new_group
  new_group-all_open id s sound = ground (arith, eq_ℤ_refl (k.ret s.trace (opened (dev_group id))))

  pub get_device-all_open :
      (group : VfioGroup) (name : SysPath) (s : State)
      → has_fd group.group (open_fds k s.trace) ≡ true
      → all_open k own s.trace ≡ true
      → all_open k own (get_device k group name s).1.trace ≡ true
  unfolding get_device get_group_device_fd get_device_info
  get_device-all_open group name s is sound = grind (arith, eq_ℤ_refl)
