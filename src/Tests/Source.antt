-- ===== src/Tests/Source.antt =====
-- The unit tests of crates/vfio-ioctls/src, as actions that run against the test double: an assertion
-- that fails is a panic, as in the source. A temporary file stands for any path or descriptor; what
-- goes out of scope at a test's end is left out.
pub mod Vectors
pub mod Info
pub mod Containers
pub mod Devices
pub mod Capabilities
pub mod Errors
use vfio.Prelude.{pos, Bool, true, false, Option, none, some, List, [], ◌∷◌, ◌≡◌}
use vfio.Error.{Outcome, ok, err, fault, panic}
use vfio.Host.Call.{Fd, SysPath}
use vfio.Host.Action.{Action, pure, stop}
use vfio.Container.{VfioContainer}
use vfio.TestDouble.{idle_state}

abbrev pub assert : Bool → Action (Unit {0})
assert true = pure tt
assert false = stop panic

-- `unwrap` of a result, and of an option
abbrev pub unwrap {ℓ} : {A : Type ℓ} → Action A → Action A
unwrap m s =
    let (r, s') = m s in
    elim r [ ok a ↦ (ok a, s') | err e ↦ (fault panic, s') | fault x ↦ (fault x, s') ]

abbrev pub unwrap_some {ℓ} : {A : Type ℓ} → Option A → Action A
unwrap_some none = stop panic
unwrap_some (some a) = pure a

abbrev pub unwrap_err {ℓ} : {A : Type ℓ} → Action A → Action (Unit {0})
unwrap_err m s =
    let (r, s') = m s in
    elim r [ ok a ↦ (fault panic, s') | err e ↦ (ok tt, s') | fault x ↦ (fault x, s') ]

abbrev pub tmp_file : SysPath
tmp_file = (b't' ∷ b'm' ∷ b'p' ∷ []) ∷ []

-- The descriptor that the temporary file is opened under, before the calls of the test.
abbrev pub tmp_fd : Fd
tmp_fd = pos 3

abbrev pub create_vfio_container : VfioContainer
create_vfio_container = record { container = tmp_fd; device_fd = none }

abbrev pub Passes : Action (Unit {0}) → Type 0
Passes test = (test idle_state).0 ≡ ok tt
