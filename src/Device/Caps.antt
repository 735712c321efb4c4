-- ===== src/Device/Caps.antt =====
-- The capability chain of a region: the loop of `VfioDeviceInfo::get_region_map` in
-- crates/vfio-ioctls/src/vfio_device.rs over the bytes that the kernel left behind the
-- `vfio_region_info`. A read outside of the vector, which the source trusts the kernel not to cause,
-- is `none`; numbers are little-endian, as on the crate's platform x86_64.
pub mod Bytes
pub mod Chain
pub mod Ends
use vfio.Prelude.{
  ℕ, zero, suc, ◌+◌, ◌-◌, ◌*◌, true, false, Option, none, some, List, [], ◌∷◌, ◌++◌, drop, ltb,
  ◌==◌, if◌then◌else◌,
}
use vfio.Bindings.Constants.{
  vfio_region_info_cap_sparse_mmap, vfio_region_info_cap_type, vfio_region_info_cap_msix_mappable,
  vfio_region_info_cap_nvlink2_ssatgt, vfio_region_info_cap_nvlink2_lnkspd,
}
use vfio.Bindings.Structs.{VfioInfoCapHeader, size_of_region_info, size_of_sparse_mmap_area}
use vfio.Error.{out_of_bounds, out_of_fuel, Outcome, ok, fault}

pub record VfioRegionSparseMmapArea : Type 0 where
  pub offset : ℕ
  pub size : ℕ

pub data VfioRegionInfoCap : Type 0 where
  sparse_mmap : List VfioRegionSparseMmapArea → VfioRegionInfoCap
  -- type and subtype
  cap_type : ℕ → ℕ → VfioRegionInfoCap
  msix_mappable : VfioRegionInfoCap
  nvlink2_ssatgt : ℕ → VfioRegionInfoCap
  nvlink2_lnkspd : ℕ → VfioRegionInfoCap

infixl 5 ◌>>=◌
abbrev ◌>>=◌ {ℓ κ} : {A : Type ℓ} {B : Type κ} → Option A → (A → Option B) → Option B
none >>= f = none
some a >>= f = f a

-- An unsigned number of so many bytes.
unfoldable pub read_le : ℕ → List ℕ → Option ℕ
read_le zero bs = some 0
read_le (suc w) [] = none
read_le (suc w) (b ∷ bs) = do n ← read_le w bs; some (b + 256 * n)

-- `*(info_ptr.offset(next_cap_offset) as *const vfio_info_cap_header)`, on the bytes from there on.
unfoldable pub read_header : List ℕ → Option VfioInfoCapHeader
unfolding read_le
read_header bs = do
  id ← read_le 2 bs
  version ← read_le 2 (drop 2 bs)
  next ← read_le 4 (drop 4 bs)
  some (record { id = id; version = version; next = next })

-- `areas.as_slice(nr_areas)`
pub read_areas : ℕ → List ℕ → Option (List VfioRegionSparseMmapArea)
unfolding read_le
read_areas zero bs = some []
read_areas (suc n) bs = do
  offset ← read_le 8 bs
  size ← read_le 8 (drop 8 bs)
  rest ← read_areas n (drop size_of_sparse_mmap_area bs)
  some (record { offset = offset; size = size } ∷ rest)

pub read_sparse_mmap : List ℕ → Option VfioRegionInfoCap
unfolding read_le read_areas
read_sparse_mmap bs = do
  nr_areas ← read_le 4 (drop 8 bs)
  areas ← read_areas nr_areas (drop 16 bs)
  some (sparse_mmap areas)

pub read_type : List ℕ → Option VfioRegionInfoCap
unfolding read_le
read_type bs = do
  type_ ← read_le 4 (drop 8 bs)
  subtype ← read_le 4 (drop 12 bs)
  some (cap_type type_ subtype)

pub read_ssatgt : List ℕ → Option VfioRegionInfoCap
unfolding read_le
read_ssatgt bs = do tgt ← read_le 8 (drop 8 bs); some (nvlink2_ssatgt tgt)

-- The whole struct is copied, its padding word too.
pub read_lnkspd : List ℕ → Option VfioRegionInfoCap
unfolding read_le
read_lnkspd bs = do
  link_speed ← read_le 4 (drop 8 bs)
  pad ← read_le 4 (drop 12 bs)
  some (nvlink2_lnkspd link_speed)

abbrev pub one : Option VfioRegionInfoCap → Option (List VfioRegionInfoCap)
one o = do cap ← o; some (cap ∷ [])

-- What one round pushes, by the id of the capability: an unknown id pushes nothing.
unfoldable pub read_cap : ℕ → List ℕ → Option (List VfioRegionInfoCap)
unfolding read_sparse_mmap read_type read_ssatgt read_lnkspd
read_cap id bs =
    if id == vfio_region_info_cap_sparse_mmap
    then one (read_sparse_mmap bs)
    else if id == vfio_region_info_cap_type
    then one (read_type bs)
    else if id == vfio_region_info_cap_msix_mappable
    then some (msix_mappable ∷ [])
    else if id == vfio_region_info_cap_nvlink2_ssatgt
    then one (read_ssatgt bs)
    else if id == vfio_region_info_cap_nvlink2_lnkspd
    then one (read_lnkspd bs)
    else some []

-- One round, on the bytes from the capability on: what it pushes, and the next offset.
unfoldable pub read_link : List ℕ → Option (List VfioRegionInfoCap × ℕ)
read_link bs = do header ← read_header bs; caps ← read_cap header.id bs; some (caps, header.next)

-- `while next_cap_offset >= region_info_size`, with fuel. `bytes` begin at the end of the
-- `vfio_region_info`.
unfoldable pub walk : ℕ → List ℕ → ℕ → List VfioRegionInfoCap → Outcome (List VfioRegionInfoCap)
unfolding read_link
walk zero bytes next_cap_offset caps = fault out_of_fuel
walk (suc f) bytes next_cap_offset caps = elim (ltb next_cap_offset size_of_region_info) [
  | true ↦ ok caps
  | false ↦ elim (read_link (drop (next_cap_offset - size_of_region_info) bytes)) [
    | none ↦ fault out_of_bounds
    | some (pushed, next) ↦ walk f bytes next (caps ++ pushed)
  ]
]
