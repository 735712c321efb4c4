-- ===== src/Device/Named.antt =====
-- The group that a device's path leads to.
use vfio.Prelude.{ℕ, ◌≡◌, true, Option, none, some, List, [], ◌∷◌, ◌++◌, arith}
use vfio.Error.{VfioError, Outcome, ok, err}
use vfio.Host.Call.{SysPath}
use vfio.Host.Kernel.{Kernel}
use vfio.Host.Action.{State}
use vfio.Group.Text.Decimal.{all_digits, decimal, parse_u32_lem, is_utf8-digits, file_name-digits}
use vfio.Device.Lifecycle.{get_group_id_from_path, iommu_group}

abbrev pub or_invalid : Option ℕ → Outcome ℕ
or_invalid none = err VfioError.invalid_path
or_invalid (some id) = ok id

-- Where the device's iommu_group link leads to a path that ends in a name of decimal digits,
-- get_group_id_from_path yields the number that the digits write, leading zeros included, if it is
-- less than 2^32 and there is a digit, and the invalid path error otherwise; it changes nothing.
pub get_group_id_from_path_lem :
    (k : Kernel) (path dir : SysPath) (name : List ℕ) (s : State)
    → k.read_link (path ++ iommu_group ∷ []) ≡ some (dir ++ name ∷ [])
    → all_digits name ≡ true
    → get_group_id_from_path k path s ≡ (or_invalid (decimal name), s)
unfolding get_group_id_from_path
get_group_id_from_path_lem k path dir name s link digits =
    ground (arith, file_name-digits dir name digits, is_utf8-digits name digits, parse_u32_lem name)
