-- ===== src/Group.antt =====
-- `VfioGroup` of crates/vfio-ioctls/src/vfio_device.rs: opening a group, and a device of it.
use vfio.Prelude.{
  ℕ, ◌+◌, ℤ, is_negative, Bool, true, false, Option, none, some, List, [], ◌∷◌, if◌then◌else◌, ltb,
  leb, ◌==◌, ◌!=◌, ◌&&◌, ◌||◌, not, bit_and,
}
use vfio.Bindings.Constants.{
  vfio_group_flags_viable, vfio_device_flags_pci, vfio_pci_config_region_index,
  vfio_pci_msix_irq_index,
}
use vfio.Bindings.Structs.{
  VfioGroupStatus, VfioDeviceInfo, size_of_group_status, size_of_device_info,
}
use vfio.Error.{VfioError, Fault, panic}
use vfio.Host.Call.{Fd, Call, opened, dev_group, SysPath}
use vfio.Host.Kernel.{Kernel}
use vfio.Host.Action.{
  Action, State, VfioGroup, pure, raise, stop, gets, raise_if, or_raise, on_err, ◌>>=◌, ◌>>◌, issue,
  close,
}
use vfio.Syscall.{get_group_status, get_group_device_fd, get_device_info}
pub mod Text
pub mod Open
pub mod Careful
use Text.{is_utf8, has_nul, file_name}

-- The crate's own `VfioDeviceInfo`: the open device and what the kernel says of it.
pub record DeviceInfo : Type 0 where
  pub device : Fd
  pub flags : ℕ
  pub num_regions : ℕ
  pub num_irqs : ℕ

abbrev pub new_device_info : Fd → VfioDeviceInfo → DeviceInfo
new_device_info device dev_info = record {
  device = device;
  flags = dev_info.flags;
  num_regions = dev_info.num_regions;
  num_irqs = dev_info.num_irqs;
}

module _ (k : Kernel) where
  unfoldable pub open_group_file : ℕ → Action Fd
  open_group_file id = do
    fd ← issue k (opened (dev_group id))
    errno ← gets (λ s. k.errno s.trace)
    if is_negative fd then raise (VfioError.open_group errno id) else pure fd

  -- The file is closed where a later step fails.
  unfoldable pub new_group : ℕ → Action VfioGroup
  unfolding open_group_file get_group_status
  new_group id = do
    group ← open_group_file id
    on_err
        (do
          status ← get_group_status k group (record { argsz = size_of_group_status; flags = 0 })
          raise_if (status.flags != vfio_group_flags_viable) VfioError.group_viable
          pure (record { id = id; group = group }))
        λ e. close group >> raise e

  -- The last part of a path, as text.
  abbrev pub file_name_str : SysPath → Action (List ℕ)
  file_name_str name = do
    part ← or_raise (file_name name) VfioError.invalid_path
    raise_if (not (is_utf8 part)) VfioError.invalid_path
    pure part

  -- A device is taken if it is a PCI device with the regions up to the configuration space and the
  -- interrupts up to MSI-X.
  abbrev pub is_refused : VfioDeviceInfo → Bool
  is_refused dev_info =
      (bit_and dev_info.flags vfio_device_flags_pci == 0)
      || (ltb dev_info.num_regions (vfio_pci_config_region_index + 1)
          || ltb dev_info.num_irqs (vfio_pci_msix_irq_index + 1))

  -- The device's file is closed where a later step fails.
  unfoldable pub get_device : VfioGroup → SysPath → Action DeviceInfo
  unfolding get_group_device_fd get_device_info
  get_device group name = do
    path ← file_name_str name
    if has_nul path then stop panic else do
      device ← get_group_device_fd k group.group path
      on_err
          (do
            dev_info ←
                get_device_info k device
                  (record { argsz = size_of_device_info; flags = 0; num_regions = 0; num_irqs = 0 })
            raise_if (is_refused dev_info) VfioError.vfio_device_get_info
            pure (new_device_info device dev_info))
          λ e. close device >> raise e
