-- ===== src/Tests/Source/Capabilities.antt =====
-- The unit test of crates/vfio-ioctls/src/vfio_device.rs about comparing capabilities. `clone` of a
-- value is the value.
use vfio.Prelude.{Bool, true, false, List, [], ◌∷◌, ◌==◌, ◌&&◌, not, ◌≡◌, refl, arith}
use vfio.Host.Action.{Action, ◌>>◌}
use vfio.Device.Caps.{
  VfioRegionSparseMmapArea, VfioRegionInfoCap, sparse_mmap, cap_type, msix_mappable, nvlink2_ssatgt,
  nvlink2_lnkspd,
}
use vfio.Tests.Source.{assert, Passes}

abbrev eq_areas : List VfioRegionSparseMmapArea → List VfioRegionSparseMmapArea → Bool
eq_areas [] [] = true
eq_areas [] (b ∷ bs) = false
eq_areas (a ∷ as') [] = false
eq_areas (a ∷ as') (b ∷ bs) = a.offset == b.offset && (a.size == b.size && eq_areas as' bs)

-- The derived `PartialEq`.
abbrev eq_cap : VfioRegionInfoCap → VfioRegionInfoCap → Bool
eq_cap (sparse_mmap areas) (sparse_mmap areas') = eq_areas areas areas'
eq_cap (cap_type t st) (cap_type t' st') = t == t' && st == st'
eq_cap msix_mappable msix_mappable = true
eq_cap (nvlink2_ssatgt tgt) (nvlink2_ssatgt tgt') = tgt == tgt'
eq_cap (nvlink2_lnkspd speed) (nvlink2_lnkspd speed') = speed == speed'
eq_cap v w = false

eq_areas_refl : (areas : List VfioRegionSparseMmapArea) → eq_areas areas areas ≡ true
eq_areas_refl [] = refl
eq_areas_refl (a ∷ as') = ground (arith, eq_areas_refl as')

eq_cap_refl : (v : VfioRegionInfoCap) → eq_cap v v ≡ true
eq_cap_refl (sparse_mmap areas) = eq_areas_refl areas
eq_cap_refl (cap_type t st) = ground arith
eq_cap_refl msix_mappable = refl
eq_cap_refl (nvlink2_ssatgt tgt) = ground arith
eq_cap_refl (nvlink2_lnkspd speed) = ground arith

abbrev v1 : VfioRegionInfoCap
v1 = cap_type 1 1

abbrev v2 : VfioRegionInfoCap
v2 = cap_type 1 2

abbrev v3 : VfioRegionInfoCap
v3 = sparse_mmap (record { offset = 3; size = 4 } ∷ [])

abbrev v4 : VfioRegionInfoCap
v4 = sparse_mmap (record { offset = 5; size = 6 } ∷ [])

abbrev v5 : VfioRegionInfoCap
v5 = msix_mappable

abbrev v6 : VfioRegionInfoCap
v6 = nvlink2_lnkspd 7

abbrev v7 : VfioRegionInfoCap
v7 = nvlink2_lnkspd 8

abbrev v8 : VfioRegionInfoCap
v8 = nvlink2_ssatgt 9

abbrev v9 : VfioRegionInfoCap
v9 = nvlink2_ssatgt 10

abbrev assert_eq : VfioRegionInfoCap → VfioRegionInfoCap → Action (Unit {0})
assert_eq v w = assert (eq_cap v w)

abbrev assert_ne : VfioRegionInfoCap → VfioRegionInfoCap → Action (Unit {0})
assert_ne v w = assert (not (eq_cap v w))

abbrev test_vfio_region_info_cap : Action (Unit {0})
test_vfio_region_info_cap = do
  assert_eq v1 v1
  assert_ne v1 v2
  assert_eq v3 v3
  assert_ne v3 v4
  assert_ne v1 v4
  assert_ne v1 v4
  assert_eq v5 v5
  assert_ne v5 v1
  assert_ne v5 v3
  assert_ne v5 v2
  assert_ne v5 v4
  assert_eq v6 v6
  assert_ne v6 v7
  assert_ne v6 v1
  assert_ne v6 v2
  assert_ne v6 v4
  assert_eq v8 v8
  assert_ne v8 v9
  assert_ne v8 v1
  assert_ne v8 v2
  assert_ne v8 v4
  assert_ne v8 v6

test_vfio_region_info_cap-Passes : Passes test_vfio_region_info_cap
test_vfio_region_info_cap-Passes = refl
