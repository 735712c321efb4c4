-- ===== src/Device/Caps/Bytes.antt =====
-- The bytes of the kernel's capability structs, and that reading them gives the struct back.
use vfio.Prelude.{
  ℕ, zero, suc, ◌/◌, ◌%◌, ◌^◌, ◌<◌, ◌≡◌, refl, some, List, [], ◌∷◌, ◌++◌, arith, length,
}
use native.Mathlib.Nat.{pow-suc}
use vfio.Device.Caps.{
  VfioRegionSparseMmapArea, VfioRegionInfoCap, sparse_mmap, cap_type, msix_mappable, nvlink2_ssatgt,
  nvlink2_lnkspd, read_le, read_header, read_areas, read_cap, read_link,
}

-- A number in so many bytes, the lowest first.
abbrev pub to_le : ℕ → ℕ → List ℕ
to_le zero n = []
to_le (suc w) n = n % 256 ∷ to_le w (n / 256)

pub read_le-to_le : (w n : ℕ) (rest : List ℕ) → n < 256 ^ w → read_le w (to_le w n ++ rest) ≡ some n
unfolding read_le
read_le-to_le zero n rest h = ground arith
read_le-to_le (suc w) n rest h = ground (arith, read_le-to_le w (n / 256) rest, pow-suc 256 w)

-- `vfio_info_cap_header`.
abbrev pub encode_header : ℕ → ℕ → ℕ → List ℕ
encode_header id version next = to_le 2 id ++ to_le 2 version ++ to_le 4 next

read_header-encode :
    (id version next : ℕ) (rest : List ℕ)
    → id < 2 ^ 16
    → version < 2 ^ 16
    → next < 2 ^ 32
    → read_header (encode_header id version next ++ rest)
      ≡ some (record { id = id; version = version; next = next })
unfolding read_header
read_header-encode id version next rest hi hv hn = ground (
  arith,
  read_le-to_le 2 id (to_le 2 version ++ to_le 4 next ++ rest),
  read_le-to_le 2 version (to_le 4 next ++ rest),
  read_le-to_le 4 next rest,
)

abbrev pub encode_areas : List VfioRegionSparseMmapArea → List ℕ
encode_areas [] = []
encode_areas (a ∷ as') = to_le 8 a.offset ++ to_le 8 a.size ++ encode_areas as'

abbrev pub AreasFit : List VfioRegionSparseMmapArea → Type 0
AreasFit [] = Unit {0}
AreasFit (a ∷ as') = (a.offset < 2 ^ 64) × (a.size < 2 ^ 64) × AreasFit as'

read_areas-encode :
    (areas : List VfioRegionSparseMmapArea) (rest : List ℕ)
    → AreasFit areas
    → read_areas (length areas) (encode_areas areas ++ rest) ≡ some areas
unfolding read_areas
read_areas-encode [] rest h = refl
read_areas-encode (a ∷ as') rest (ho, hs, h) = ground (
  arith,
  read_le-to_le 8 a.offset (to_le 8 a.size ++ encode_areas as' ++ rest),
  read_le-to_le 8 a.size (encode_areas as' ++ rest),
  read_areas-encode as' rest h,
)

-- The id of a capability, and the bytes behind its header.
abbrev pub cap_id : VfioRegionInfoCap → ℕ
cap_id (sparse_mmap areas) = 1
cap_id (cap_type t st) = 2
cap_id msix_mappable = 3
cap_id (nvlink2_ssatgt tgt) = 4
cap_id (nvlink2_lnkspd speed) = 5

abbrev pub encode_body : VfioRegionInfoCap → List ℕ
encode_body (sparse_mmap areas) = to_le 4 (length areas) ++ to_le 4 0 ++ encode_areas areas
encode_body (cap_type t st) = to_le 4 t ++ to_le 4 st
encode_body msix_mappable = []
encode_body (nvlink2_ssatgt tgt) = to_le 8 tgt
encode_body (nvlink2_lnkspd speed) = to_le 4 speed ++ to_le 4 0

-- The fields have the widths of the kernel's structs.
abbrev pub CapFits : VfioRegionInfoCap → Type 0
CapFits (sparse_mmap areas) = (length areas < 2 ^ 32) × AreasFit areas
CapFits (cap_type t st) = (t < 2 ^ 32) × (st < 2 ^ 32)
CapFits msix_mappable = Unit {0}
CapFits (nvlink2_ssatgt tgt) = tgt < 2 ^ 64
CapFits (nvlink2_lnkspd speed) = speed < 2 ^ 32

read_cap-encode :
    (cap : VfioRegionInfoCap) (version next : ℕ) (rest : List ℕ)
    → CapFits cap
    → read_cap (cap_id cap) (encode_header (cap_id cap) version next ++ encode_body cap ++ rest)
      ≡ some (cap ∷ [])
unfolding read_cap
read_cap-encode (sparse_mmap areas) version next rest (h, fit) = ground (
  arith,
  read_le-to_le 4 (length areas) (to_le 4 0 ++ encode_areas areas ++ rest),
  read_areas-encode areas rest fit,
)
read_cap-encode (cap_type t st) version next rest (ht, hs) =
    ground (arith, read_le-to_le 4 t (to_le 4 st ++ rest), read_le-to_le 4 st rest)
read_cap-encode msix_mappable version next rest h = refl
read_cap-encode (nvlink2_ssatgt tgt) version next rest h = ground (arith, read_le-to_le 8 tgt rest)
read_cap-encode (nvlink2_lnkspd speed) version next rest h =
    ground (arith, read_le-to_le 4 speed (to_le 4 0 ++ rest), read_le-to_le 4 0 rest)

-- A capability of one of the five kinds, as the kernel lays it out.
abbrev pub encode_cap : VfioRegionInfoCap → ℕ → ℕ → List ℕ
encode_cap cap version next = encode_header (cap_id cap) version next ++ encode_body cap

cap_id_bound : (cap : VfioRegionInfoCap) → cap_id cap < 2 ^ 16
cap_id_bound (sparse_mmap areas) = omega arith
cap_id_bound (cap_type t st) = omega arith
cap_id_bound msix_mappable = omega arith
cap_id_bound (nvlink2_ssatgt tgt) = omega arith
cap_id_bound (nvlink2_lnkspd speed) = omega arith

pub read_link-encode :
    (cap : VfioRegionInfoCap) (version next : ℕ) (rest : List ℕ)
    → CapFits cap
    → version < 2 ^ 16
    → next < 2 ^ 32
    → read_link (encode_cap cap version next ++ rest) ≡ some (cap ∷ [], next)
unfolding read_link
read_link-encode cap version next rest h hv hn = ground (
  arith,
  cap_id_bound cap,
  read_header-encode (cap_id cap) version next (encode_body cap ++ rest),
  read_cap-encode cap version next rest h,
)

-- A capability of another kind is skipped.
pub read_link_unknown :
    (id version next : ℕ) (rest : List ℕ)
    → 5 < id
    → id < 2 ^ 16
    → version < 2 ^ 16
    → next < 2 ^ 32
    → read_link (encode_header id version next ++ rest) ≡ some ([], next)
unfolding read_link read_cap
read_link_unknown id version next rest h hi hv hn =
    ground (arith, read_header-encode id version next rest)
