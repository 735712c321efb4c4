-- ===== src/DeviceFd/Clone.antt =====
-- Duplicating the hypervisor's device: `VfioDeviceFd::try_clone`.
use vfio.Prelude.{is_negative, Bool, true, false, ◌∷◌, ◌≡◌, refl, sym, arith, if◌then◌else◌}
use vfio.Error.{Outcome, ok, err, fault, vfio_device_dup_fd}
use vfio.Host.Call.{Fd, dup, DeviceFdInner, kvm, mshv}
use vfio.Host.Kernel.{Kernel}
use vfio.Host.Action.{State, raise, pure}
use vfio.Host.Resources.{open_fds}
use vfio.DeviceFd.{is_minus_one, try_clone, dev_attr}

abbrev pub fd_of : DeviceFdInner → Fd
fd_of (kvm fd) = fd
fd_of (mshv fd) = fd

abbrev pub is_kvm : DeviceFdInner → Bool
is_kvm (kvm fd) = true
is_kvm (mshv fd) = false

module _ (k : Kernel) where
  -- A clone is of the same hypervisor, asks it for the same of every group, and is the one more
  -- descriptor that is open; without a clone nothing is opened.
  abbrev pub Clones : DeviceFdInner → State → Outcome DeviceFdInner × State → Type 0
  Clones d s (ok c, s') =
      (is_kvm c ≡ is_kvm d)
      × ((group : Fd) (add : Bool) → dev_attr k c group add ≡ dev_attr k d group add)
      × (is_negative (fd_of c) ≡ false)
      × (open_fds k s'.trace ≡ fd_of c ∷ open_fds k s.trace)
      × (s' ≡ record s { trace = s'.trace })
  Clones d s (err e, s') =
      (e ≡ vfio_device_dup_fd)
      × (open_fds k s'.trace ≡ open_fds k s.trace)
      × (s' ≡ record s { trace = s'.trace })
  Clones d s (fault x, s') = ⊥

  duplicated :
      (d : DeviceFdInner) (make : Fd → DeviceFdInner) (s : State) (fails : Bool)
      → ((fd : Fd) → fd_of (make fd) ≡ fd)
      → ((fd : Fd) → is_kvm (make fd) ≡ is_kvm d)
      → ((fd group : Fd) (add : Bool) → dev_attr k (make fd) group add ≡ dev_attr k d group add)
      → fails ≡ is_negative (k.ret s.trace (dup (fd_of d)))
      → Clones d s (
          (if fails then raise vfio_device_dup_fd else pure (make (k.ret s.trace (dup (fd_of d)))))
            (record s { trace = dup (fd_of d) ∷ s.trace }))
  duplicated d make s true holds kind attr failed = (refl, ground arith, refl)
  duplicated d make s false holds kind attr fine =
      let made = holds (k.ret s.trace (dup (fd_of d))) in
      (kind _, attr _, rw made (sym fine), rw made (ground arith), refl)

  -- Where the call of dup answers with a descriptor or -1, as documented: if try_clone succeeds,
  -- the clone is of the same hypervisor, asks it for the same of every group, and has the one more
  -- descriptor that is open; if it fails, the error says that duplicating failed and no descriptor
  -- is left open. It never panics and touches no group.
  pub try_clone-Clones :
      (d : DeviceFdInner) (s : State)
      → is_minus_one (k.ret s.trace (dup (fd_of d))) ≡ is_negative (k.ret s.trace (dup (fd_of d)))
      → Clones d s (try_clone k d s)
  unfolding try_clone
  try_clone-Clones (kvm fd) s documented =
      duplicated (kvm fd) kvm s (is_minus_one (k.ret s.trace (dup fd))) (λ g. refl) (λ g. refl)
        (λ g group add. refl) documented
  try_clone-Clones (mshv fd) s documented =
      duplicated (mshv fd) mshv s (is_minus_one (k.ret s.trace (dup fd))) (λ g. refl) (λ g. refl)
        (λ g group add. refl) documented
