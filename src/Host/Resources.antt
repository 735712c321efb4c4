-- ===== src/Host/Resources.antt =====
-- What the calls so far have left the process with: its open descriptors, and the groups that are
-- attached to a container. This reads off the record of calls what the kernel's interface says of
-- them, and knows nothing of the crate.
use vfio.Prelude.{
  ℤ, is_negative, is_zero, eq_ℤ, Bool, false, not, ◌||◌, List, [], ◌∷◌, if◌then◌else◌, ◌==◌,
}
use vfio.Host.Call.{
  Fd, Call, opened, closed, dup, ioctl, set_device_attr, read_exact_at, write_all_at, Trace,
}
use vfio.Host.Kernel.{Kernel}
use vfio.Syscall.Requests

-- Without the first occurrence.
abbrev pub without : Fd → List Fd → List Fd
without fd [] = []
without fd (x ∷ xs) = if eq_ℤ fd x then xs else x ∷ without fd xs

abbrev pub gain : ℤ → Fd → List Fd → List Fd
gain ret fd fds = if is_negative ret then fds else fd ∷ fds

abbrev pub lose : ℤ → Fd → List Fd → List Fd
lose ret fd fds = if is_negative ret then fds else without fd fds

abbrev fds_after : ℤ → Call → List Fd → List Fd
fds_after ret (opened p) fds = gain ret ret fds
fds_after ret (closed fd) fds = without fd fds
fds_after ret (dup fd) fds = gain ret ret fds
fds_after ret (ioctl fd request arg) fds =
    if request == Requests.vfio_group_get_device_fd then gain ret ret fds else fds
fds_after ret (set_device_attr d a) fds = fds
fds_after ret (read_exact_at fd n o) fds = fds
fds_after ret (write_all_at fd bs o) fds = fds

abbrev pub open_fds : Kernel → Trace → List Fd
open_fds k [] = []
open_fds k (c ∷ t) = fds_after (k.ret t c) c (open_fds k t)

abbrev attached_after : ℤ → Call → List Fd → List Fd
attached_after ret (ioctl fd request arg) fds =
    if request == Requests.vfio_group_set_container
    then gain ret fd fds
    else if request == Requests.vfio_group_unset_container
    then lose ret fd fds
    else fds
attached_after ret (opened p) fds = fds
attached_after ret (closed fd) fds = fds
attached_after ret (dup fd) fds = fds
attached_after ret (set_device_attr d a) fds = fds
attached_after ret (read_exact_at fd n o) fds = fds
attached_after ret (write_all_at fd bs o) fds = fds

-- The descriptors of the groups that are attached.
abbrev pub attached : Kernel → Trace → List Fd
attached k [] = []
attached k (c ∷ t) = attached_after (k.ret t c) c (attached k t)

-- Whether the last call was refused.
abbrev pub is_refusal : ℤ → Call → Bool
is_refusal ret (opened p) = is_negative ret
is_refusal ret (closed fd) = false
is_refusal ret (dup fd) = is_negative ret
is_refusal ret (ioctl fd request arg) = is_negative ret
is_refusal ret (set_device_attr d a) = not (is_zero ret)
is_refusal ret (read_exact_at fd n o) = is_negative ret
is_refusal ret (write_all_at fd bs o) = is_negative ret

abbrev pub last_refused : Kernel → Trace → Bool
last_refused k [] = false
last_refused k (c ∷ t) = is_refusal (k.ret t c) c

-- Without the first device under this descriptor.
abbrev pub close_device : Fd → List (Fd × Fd) → List (Fd × Fd)
close_device fd [] = []
close_device fd (p ∷ ps) = if eq_ℤ fd p.1 then ps else p ∷ close_device fd ps

abbrev devices_after : ℤ → Call → List (Fd × Fd) → List (Fd × Fd)
devices_after ret (opened p) ps = ps
devices_after ret (closed fd) ps = close_device fd ps
devices_after ret (dup fd) ps = ps
devices_after ret (ioctl fd request arg) ps =
    if request == Requests.vfio_group_get_device_fd
    then if is_negative ret then ps else (fd, ret) ∷ ps
    else ps
devices_after ret (set_device_attr d a) ps = ps
devices_after ret (read_exact_at fd n o) ps = ps
devices_after ret (write_all_at fd bs o) ps = ps

-- The descriptors of the open devices, each behind that of the group it was got from.
abbrev pub open_devices : Kernel → Trace → List (Fd × Fd)
open_devices k [] = []
open_devices k (c ∷ t) = devices_after (k.ret t c) c (open_devices k t)

-- A device of the group is open.
abbrev pub has_device : Fd → List (Fd × Fd) → Bool
has_device g [] = false
has_device g (p ∷ ps) = eq_ℤ g p.0 || has_device g ps
