-- ===== src/Container/New.antt =====
-- `VfioContainer::new`: either a checked container, or no file left open.
use vfio.Prelude.{◌≡◌, as_u32, eq_ℤ_refl, Option, [], ◌∷◌, arith}
use vfio.Error.{Outcome, ok, err, fault}
use vfio.Host.Call.{Fd, opened, dev_vfio, DeviceFdInner, ioctl, Arg, Trace}
use vfio.Host.Kernel.{Kernel}
use vfio.Host.Action.{State}
use vfio.Host.Resources.{open_fds, attached}
use vfio.Syscall.Requests
use vfio.Syscall
use vfio.Container.{VfioContainer, new_container, check_api_version, check_extension}

module _ (k : Kernel) where
  abbrev version_call : Fd → vfio.Host.Call.Call
  version_call fd = ioctl fd Requests.vfio_get_api_version Arg.nothing

  -- A new container has an open file and no groups, and its kernel has the version and the IOMMU
  -- type of the crate; after an error the open files and the map are as before.
  abbrev pub IsNew : Option DeviceFdInner → State → Outcome VfioContainer × State → Type 0
  IsNew device_fd s (ok c, s') =
      (c.device_fd ≡ device_fd)
      × (c.container ≡ k.ret s.trace (opened dev_vfio))
      × (as_u32 (k.ret (opened dev_vfio ∷ s.trace) (version_call c.container)) ≡ 0)
      × (as_u32 (
            k.ret (version_call c.container ∷ opened dev_vfio ∷ s.trace)
              (ioctl c.container Requests.vfio_check_extension (Arg.value 3)))
          ≡ 1)
      × (s'.groups ≡ [])
      × (open_fds k s'.trace ≡ c.container ∷ open_fds k s.trace)
      × (attached k s'.trace ≡ attached k s.trace)
  IsNew device_fd s (err e, s') =
      (s'.groups ≡ s.groups)
      × (open_fds k s'.trace ≡ open_fds k s.trace)
      × (attached k s'.trace ≡ attached k s.trace)
  IsNew device_fd s (fault x, s') = ⊥

  -- Whatever the kernel answers: where VfioContainer::new succeeds, the container's file is the
  -- only one opened, the kernel's API version is 0, it has the type 1 version 2 IOMMU, and the map
  -- of groups is empty; where it fails, open files, attached groups and map are as before. It never
  -- panics.
  pub new_container-IsNew :
      (device_fd : Option DeviceFdInner) (s : State)
      → IsNew device_fd s (new_container k device_fd s)
  unfolding new_container check_api_version check_extension Syscall.check_api_version
      Syscall.check_extension
  new_container-IsNew device_fd s = ground (arith, eq_ℤ_refl (k.ret s.trace (opened dev_vfio)))
