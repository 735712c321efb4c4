-- ===== src/Device/Lifecycle.antt =====
-- `VfioDevice::new` and `Drop` of crates/vfio-ioctls/src/vfio_device.rs.
use vfio.Prelude.{ℕ, Option, none, some, List, [], ◌∷◌, ◌++◌}
use vfio.Error.{VfioError, panic}
use vfio.Host.Call.{SysPath}
use vfio.Host.Kernel.{Kernel}
use vfio.Host.Action.{
  Action, VfioGroup, pure, raise, stop, gets, or_raise, on_err, ◌>>=◌, ◌>>◌, close, arc_clone,
  arc_drop, arc_group,
}
use vfio.Group.{get_device, file_name_str}
use vfio.Group.Text.{parse_u32}
use vfio.Container.{VfioContainer, get_group, put_group}
use vfio.Device.Info.{get_irqs, get_regions}
use vfio.Device.Irq.{VfioDevice}

-- The component `iommu_group`.
abbrev pub iommu_group : List ℕ
iommu_group = b'i' ∷ b'o' ∷ b'm' ∷ b'm' ∷ b'u' ∷ b'_' ∷ b'g' ∷ b'r' ∷ b'o' ∷ b'u' ∷ b'p' ∷ []

module _ (k : Kernel) where
  unfoldable pub get_group_id_from_path : SysPath → Action ℕ
  get_group_id_from_path sysfspath = do
    group_path ← or_raise (k.read_link (sysfspath ++ iommu_group ∷ [])) VfioError.invalid_path
    group_str ← file_name_str k group_path
    or_raise (parse_u32 group_str) VfioError.invalid_path

  -- What `new` does with the group in hand.
  unfoldable pub open_device : VfioGroup → ℕ → SysPath → Action VfioDevice
  open_device value group sysfspath = do
    info ← get_device k value sysfspath
    regions ← get_regions k info
    irqs ← get_irqs k info
    pure (record {
      device = info.device;
      flags = info.flags;
      regions = regions;
      irqs = irqs;
      group = group;
    })

  abbrev pub open_in : Option VfioGroup → ℕ → SysPath → Action VfioDevice
  open_in none group sysfspath = stop panic
  open_in (some value) group sysfspath = open_device value group sysfspath

  -- The reference to the group is dropped where the device cannot be opened.
  unfoldable pub new_device : VfioContainer → SysPath → Action VfioDevice
  new_device c sysfspath = do
    group_id ← get_group_id_from_path sysfspath
    group ← get_group k c group_id
    value ← gets (λ s. arc_group s group)
    on_err (open_in value group sysfspath) λ e. arc_drop group >> raise e

  -- The device is closed first; then the group is put, and last the device's own reference goes.
  unfoldable pub drop_device : VfioContainer → VfioDevice → Action (Unit {0})
  drop_device c d = do close d.device; arc_clone d.group; put_group k c d.group; arc_drop d.group
