-- ===== src/Tests/Source/Errors.antt =====
-- The unit test of crates/vfio-ioctls/src/lib.rs.
use Prim.Native.String.{String}
use vfio.Prelude.{ℕ, ℤ, Option, ◌≡◌, refl, none, some}
use vfio.Error.{VfioError}
use vfio.Error.Text.{fmt, source}

-- The text that the test formats, and the two sources that it asks for.
abbrev test_vfio_error_fmt :
    (ℕ → String) → (ℤ → String) → (ℤ → String) → ℤ → String × Option ℤ × Option ℤ
test_vfio_error_fmt to_string io_text sys_text other =
    let e : VfioError = VfioError.get_group_status in
    let e2 : VfioError = VfioError.open_container other in
    (fmt to_string io_text sys_text e, source e2, source e)

vfio_error_fmt :
    (to_string : ℕ → String) (io_text sys_text : ℤ → String) (other : ℤ)
    → test_vfio_error_fmt to_string io_text sys_text other
      ≡ ("failed to get Group Status", some other, none)
vfio_error_fmt to_string io_text sys_text other = refl
