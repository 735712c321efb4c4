-- ===== src/Tests/Source/Vectors.antt =====
-- The unit tests of crates/vfio-ioctls/src/fam.rs and of the ioctl numbers in vfio_ioctls.rs.
use vfio.Prelude.{ℕ, ◌-◌, ◌^◌, Option, none, List, length, ◌==◌, ◌≡◌, refl}
use vfio.Host.Action.{Action, ◌>>=◌, ◌>>◌}
use vfio.Fam.{vec_with_array_field}
use vfio.Syscall.Requests
use vfio.Tests.Source.{assert, unwrap_some, Passes}

-- Two `u32` in the header, two `u64` in a field.
abbrev header_with_fields : ℕ → Option (List ℕ)
header_with_fields count = vec_with_array_field 8 0 16 count

abbrev test_vec_with_array_field : Action (Unit {0})
test_vec_with_array_field = do
  v1 ← unwrap_some (header_with_fields 1)
  assert (length v1 == 3)
  v2 ← unwrap_some (header_with_fields 0)
  assert (length v2 == 1)
  v3 ← unwrap_some (header_with_fields 5)
  assert (length v3 == 11)

test_vec_with_array_field-Passes : Passes test_vec_with_array_field
unfolding vec_with_array_field
test_vec_with_array_field-Passes = refl

-- The panic that the test expects.
abbrev test_vec_with_array_field_overflow : Option (List ℕ)
test_vec_with_array_field_overflow = header_with_fields (2 ^ 64 - 1)

vec_overflow : test_vec_with_array_field_overflow ≡ none
unfolding vec_with_array_field
vec_overflow = refl

abbrev test_vfio_ioctl_code : Action (Unit {0})
test_vfio_ioctl_code = do
  assert (Requests.vfio_get_api_version == 15204)
  assert (Requests.vfio_check_extension == 15205)
  assert (Requests.vfio_set_iommu == 15206)
  assert (Requests.vfio_group_get_status == 15207)
  assert (Requests.vfio_group_set_container == 15208)
  assert (Requests.vfio_group_unset_container == 15209)
  assert (Requests.vfio_group_get_device_fd == 15210)
  assert (Requests.vfio_device_get_info == 15211)
  assert (Requests.vfio_device_get_region_info == 15212)
  assert (Requests.vfio_device_get_irq_info == 15213)
  assert (Requests.vfio_device_set_irqs == 15214)
  assert (Requests.vfio_device_reset == 15215)
  assert (Requests.vfio_device_ioeventfd == 15220)
  assert (Requests.vfio_iommu_disable == 15220)

test_vfio_ioctl_code-Passes : Passes test_vfio_ioctl_code
test_vfio_ioctl_code-Passes = refl
