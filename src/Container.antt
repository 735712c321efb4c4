-- ===== src/Container.antt =====
-- `VfioContainer` of crates/vfio-ioctls/src/vfio_device.rs. The container's `groups` mutex guards the
-- map in the state: each of these functions holds it throughout, so its calls are one after another.
pub mod Careful
pub mod Attach
pub mod Create
pub mod Release
pub mod New
use vfio.Prelude.{
  ℕ, is_negative, as_u32, Bool, true, false, Option, none, some, [], if◌then◌else◌, ◌==◌, ◌!=◌,
  ◌&&◌, length, lookup, insert, erase,
}
use vfio.Bindings.Constants.{vfio_api_version, vfio_type1_iommu, vfio_type1v2_iommu}
use vfio.Error.{VfioError, ok}
use vfio.Host.Call.{Fd, opened, dev_vfio, DeviceFdInner}
use vfio.Host.Kernel.{Kernel}
use vfio.Host.Action.{
  Action, VfioGroup, pure, raise, gets, modify, raise_if, on_err, ignore, ◌>>=◌, ◌>>◌, issue, close,
  arc_new, arc_clone, arc_drop, strong_count, arc_group,
}
use vfio.Syscall
use vfio.DeviceFd.{device_add_group, device_del_group}
use vfio.Group.{new_group}

-- `groups` stands in the state.
pub record VfioContainer : Type 0 where
  pub container : Fd
  pub device_fd : Option DeviceFdInner

-- `HashMap::remove`, which drops the map's reference.
abbrev pub remove_entry : ℕ → Action (Unit {0})
remove_entry id s = elim (lookup id s.groups) [
  | none ↦ (ok tt, s)
  | some h ↦ arc_drop h (record s { groups = erase id s.groups })
]

module _ (k : Kernel) where
  unfoldable pub check_api_version : VfioContainer → Action (Unit {0})
  unfolding Syscall.check_api_version
  check_api_version c = do
    version ← Syscall.check_api_version k c.container
    raise_if (as_u32 version != vfio_api_version) VfioError.vfio_api_version

  unfoldable pub check_extension : VfioContainer → ℕ → Action (Unit {0})
  unfolding Syscall.check_extension
  check_extension c val = do
    raise_if (val != vfio_type1_iommu && val != vfio_type1v2_iommu) VfioError.vfio_invalid_type
    ret ← Syscall.check_extension k c.container val
    raise_if (ret != 1) VfioError.vfio_extension

  unfoldable pub set_iommu : VfioContainer → ℕ → Action (Unit {0})
  unfolding Syscall.set_iommu
  set_iommu c val = do
    raise_if (val != vfio_type1_iommu && val != vfio_type1v2_iommu) VfioError.vfio_invalid_type
    Syscall.set_iommu k c.container val

  -- `VfioContainer::new`. The map of the new container is empty; the file is closed where a check
  -- fails.
  unfoldable pub new_container : Option DeviceFdInner → Action VfioContainer
  unfolding check_api_version check_extension
  new_container device_fd = do
    fd ← issue k (opened dev_vfio)
    errno ← gets (λ s. k.errno s.trace)
    if is_negative fd
        then raise (VfioError.open_container errno)
        else let c : VfioContainer = record { container = fd; device_fd = device_fd } in
          on_err
            (do
              check_api_version c
              check_extension c vfio_type1v2_iommu
              modify (λ s. record s { groups = [] })
              pure c)
            λ e. close fd >> raise e

  -- The part of `get_group` that makes a new group usable: attach it to the container, set the
  -- IOMMU up for the first group, tell the hypervisor; the group is detached where a step fails.
  unfoldable pub bind_group : VfioContainer → VfioGroup → Action (Unit {0})
  unfolding Syscall.set_group_container Syscall.unset_group_container set_iommu device_add_group
  bind_group c group = do
    Syscall.set_group_container k group.group c.container
    n ← gets (λ s. length s.groups)
    on_err (if n == 0 then set_iommu c vfio_type1v2_iommu else pure tt)
        λ e. ignore (Syscall.unset_group_container k group.group c.container) >> raise e
    on_err (device_add_group k c.device_fd group.group)
        λ e. ignore (Syscall.unset_group_container k group.group c.container) >> raise e

  -- The part of `get_group` from the open group on.
  unfoldable pub install_group : VfioContainer → ℕ → VfioGroup → Action ℕ
  install_group c group_id value = do
    group ← arc_new value
    on_err (bind_group c value) λ e. arc_drop group >> raise e
    arc_clone group
    modify (λ s. record s { groups = insert group_id group s.groups })
    pure group

  -- The part of `get_group` for an id that the map does not hold.
  unfoldable pub create_group : VfioContainer → ℕ → Action ℕ
  create_group c group_id = new_group k group_id >>= install_group c group_id

  unfoldable pub get_group : VfioContainer → ℕ → Action ℕ
  get_group c group_id s = elim (lookup group_id s.groups) [
    | some entry ↦ (arc_clone entry >> pure entry) s
    | none ↦ create_group c group_id s
  ]

  -- The part of `put_group` for the last user: a failure is logged and ends the function.
  unfoldable pub release_group : VfioContainer → VfioGroup → Action (Unit {0})
  unfolding device_del_group Syscall.unset_group_container
  release_group c group = ignore do
    device_del_group k c.device_fd group.group
    Syscall.unset_group_container k group.group c.container
    remove_entry group.id

  abbrev release_if : Bool → VfioContainer → Option VfioGroup → Action (Unit {0})
  release_if true c (some g) = release_group c g
  release_if true c none = pure tt
  release_if false c g = pure tt

  -- `put_group`, as long as it holds the lock.
  unfoldable pub put_locked : VfioContainer → ℕ → Action (Unit {0})
  put_locked c group = do
    last_user ← gets (λ s. strong_count s group == 3)
    value ← gets (λ s. arc_group s group)
    release_if last_user c value

  -- `put_group` owns a reference, and drops it in the end, after the lock.
  unfoldable pub put_group : VfioContainer → ℕ → Action (Unit {0})
  unfolding put_locked
  put_group c group = do put_locked c group; arc_drop group
