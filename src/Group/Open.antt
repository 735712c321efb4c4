-- ===== src/Group/Open.antt =====
-- `VfioGroup::get_device`: either a device that fits, or no file left open.
use vfio.Prelude.{ℕ, ◌≤◌, ◌≡◌, ◌≢◌, eq_ℤ_refl, true, some, List, ◌∷◌, arith, bit_and}
use vfio.Error.{Outcome, ok, err, fault}
use vfio.Host.Call.{SysPath}
use vfio.Host.Kernel.{Kernel}
use vfio.Host.Action.{State, VfioGroup}
use vfio.Host.Resources.{open_fds, attached}
use vfio.Syscall.{get_group_device_fd, get_device_info}
use vfio.Group.{DeviceInfo, get_device}
use vfio.Group.Text.{file_name, has_nul}

module _ (k : Kernel) where
  -- The device is open, is a PCI device, and has the regions and interrupts of one; after an error
  -- the open files are as before. A panic comes only of a NUL byte in the device's name.
  abbrev pub Opened : SysPath → State → Outcome DeviceInfo × State → Type 0
  Opened name s (ok d, s') =
      (s' ≡ record s { trace = s'.trace })
      × (open_fds k s'.trace ≡ d.device ∷ open_fds k s.trace)
      × (attached k s'.trace ≡ attached k s.trace)
      × (bit_and d.flags 2 ≢ 0)
      × (8 ≤ d.num_regions)
      × (3 ≤ d.num_irqs)
  Opened name s (err e, s') =
      (s' ≡ record s { trace = s'.trace })
      × (open_fds k s'.trace ≡ open_fds k s.trace)
      × (attached k s'.trace ≡ attached k s.trace)
  Opened name s (fault x, s') =
      (part : List ℕ) × (file_name name ≡ some part) × (has_nul part ≡ true) × (s' ≡ s)

  -- Whatever the kernel answers: where get_device succeeds, the device's file is the only one
  -- opened, and the device is a PCI device with at least eight regions and three interrupt indexes;
  -- where it fails, open files and attached groups are as before; it panics only at once and for a
  -- device name with a NUL byte.
  pub get_device-Opened :
      (group : VfioGroup) (name : SysPath) (s : State) → Opened name s (get_device k group name s)
  unfolding get_device get_group_device_fd get_device_info
  get_device-Opened group name s = grind (arith, eq_ℤ_refl)
