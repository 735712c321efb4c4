-- ===== src/Session/Usage.antt =====
-- Every system call of opens, uses and drops is made on an open descriptor: nothing is used after it is
-- closed, and nothing is closed twice.
pub mod Opened
pub mod Runs
use vfio.Prelude.{ℕ, ◌≡◌, true, some, lookup}
use vfio.Host.Kernel.{Kernel}
use vfio.Host.Action.{State, ArcInner}
use vfio.Host.Careful.{has_fd}
use vfio.Host.Resources.{open_fds}

-- The files of the mapped groups are open.
abbrev pub HasOpenGroups : Kernel → State → Type 0
HasOpenGroups k s =
    (id h : ℕ) (a : ArcInner)
    → lookup id s.groups ≡ some h
    → s.heap h ≡ some a
    → has_fd a.value.group (open_fds k s.trace) ≡ true
