-- ===== src/Tests/Caps.antt =====
-- The theorems about capability chains and device paths, at concrete inputs.
use vfio.Prelude.{
  subst, ◌⊎◌, ℕ, zero, suc, ◌+◌, ◌-◌, ◌<◌, ◌≡◌, ◌≢◌, refl, pos, inl, inr, none, some, List, [], ◌∷◌,
  ◌++◌, arith, length, drop,
}
use vfio.Bindings.Structs.{VfioRegionInfo}
use vfio.Error.{ok, fault, out_of_fuel}
use vfio.Device.Caps.{
  VfioRegionInfoCap, sparse_mmap, cap_type, msix_mappable, read_le, read_header, read_cap,
  read_link, walk,
}
use vfio.Device.Caps.Bytes.{encode_cap}
use vfio.Device.Caps.Chain.{Chain, stop, link}
use vfio.Device.Caps.Ends.{
  Reached, at_start, onward, IsForwardFrom, IsForward, walk-ne-out_of_fuel, walk_loops,
}
use vfio.Device.Info.{VfioRegion, get_region_map}
use vfio.Device.Info.Caps.{get_region_map_lem, caps_answer}
use vfio.Device.Lifecycle.{get_group_id_from_path, new_device}
use vfio.Host.Kernel.{Kernel}
use vfio.Container.{VfioContainer}
use vfio.Session.Ends.{new_device-ne-out_of_fuel}
use vfio.Device.Named.{or_invalid, get_group_id_from_path_lem}
use vfio.Group.Text.Decimal.{decimal}
use vfio.TestDouble.{test_kernel, test_caps, idle_state}

abbrev container : VfioContainer
container = record { container = pos 3; device_fd = none }

get_group_id_from_path_example :
    get_group_id_from_path test_kernel ([] ∷ []) idle_state
    ≡ (or_invalid (decimal (b'3' ∷ [])), idle_state)
get_group_id_from_path_example =
    get_group_id_from_path_lem test_kernel ([] ∷ []) [] (b'3' ∷ []) idle_state refl refl

-- A capability that the code knows, and the last one.
abbrev one_cap : List ℕ
one_cap = encode_cap msix_mappable 0 0

-- The bytes are too few for a header anywhere but at their beginning.
read_at :
    (n next : ℕ) (caps : List VfioRegionInfoCap)
    → read_link (drop n one_cap) ≡ some (caps, next)
    → next < 32
unfolding read_link read_header read_le read_cap
read_at zero next caps e = ground arith
read_at (suc zero) next caps e = absurd (ground arith)
read_at (suc (suc zero)) next caps e = absurd (ground arith)
read_at (suc (suc (suc zero))) next caps e = absurd (ground arith)
read_at (suc (suc (suc (suc zero)))) next caps e = absurd (ground arith)
read_at (suc (suc (suc (suc (suc zero))))) next caps e = absurd (ground arith)
read_at (suc (suc (suc (suc (suc (suc zero)))))) next caps e = absurd (ground arith)
read_at (suc (suc (suc (suc (suc (suc (suc zero))))))) next caps e = absurd (ground arith)
read_at (suc (suc (suc (suc (suc (suc (suc (suc zero)))))))) next caps e = absurd (ground arith)
read_at (suc (suc (suc (suc (suc (suc (suc (suc (suc n))))))))) next caps e = absurd (ground arith)

one_cap-IsForward : IsForward one_cap
one_cap-IsForward offset next caps inside e = inr (read_at (offset - 32) next caps e)

walk-ne-out_of_fuel_example : walk (length one_cap + 2) one_cap 32 [] ≢ fault out_of_fuel
walk-ne-out_of_fuel_example = walk-ne-out_of_fuel one_cap 32 [] one_cap-IsForward

-- One area at 0x2000 that can be mapped, and no further capability.
abbrev one_area : List ℕ
one_area = encode_cap (sparse_mmap (record { offset = 0x2000; size = 0x1000 } ∷ [])) 1 0

one_area-next :
    (next : ℕ) (caps : List VfioRegionInfoCap) → read_link one_area ≡ some (caps, next) → next ≡ 0
unfolding read_link read_header read_le read_cap
one_area-next next caps e = ground arith

one_area-Reached : (offset : ℕ) → Reached one_area 32 offset → (offset ≡ 32) ⊎ (offset ≡ 0)
one_area-Reached offset at_start = inl refl
one_area-Reached next (onward {offset = offset} {caps = caps} before inside e) =
    elim (one_area-Reached offset before) [
      | inl same ↦ inr (
          one_area-next next caps
            (subst (λ o. read_link (drop (o - 32) one_area) ≡ some (caps, next)) same e))
      | inr past ↦ absurd (omega arith)
    ]

one_area-IsForwardFrom : IsForwardFrom 32 one_area
one_area-IsForwardFrom offset next caps here inside e = elim (one_area-Reached offset here) [
  | inl same ↦
      let ends : next ≡ 0 =
        one_area-next next caps
          (subst (λ o. read_link (drop (o - 32) one_area) ≡ some (caps, next)) same e) in
      inr (omega arith)
  | inr past ↦ absurd (omega arith)
]

-- A kernel whose regions all have that one capability.
abbrev one_area_kernel : Kernel
one_area_kernel = record test_kernel {
  region_info_with_cap = λ t fd r. record {
    region_info = record r.region_info { cap_offset = 32 };
    cap_info = one_area;
  };
}

new_device-ne-out_of_fuel_example :
    (new_device one_area_kernel container ([] ∷ []) idle_state).0 ≢ fault out_of_fuel
new_device-ne-out_of_fuel_example =
    new_device-ne-out_of_fuel one_area_kernel container ([] ∷ []) idle_state
      (λ t fd info n. one_area-IsForwardFrom)

-- A capability that names itself as the next.
abbrev own_next : List ℕ
own_next = encode_cap msix_mappable 0 32

own_next_read : read_link own_next ≡ some (msix_mappable ∷ [], 32)
unfolding read_link read_header read_le read_cap
own_next_read = refl

walk_loops_example : walk 1000 own_next 32 [] ≡ fault out_of_fuel
walk_loops_example = walk_loops 1000 own_next 32 (msix_mappable ∷ []) [] (omega arith) own_next_read

abbrev region : VfioRegion
region = record { flags = 8; size = 0x2000; offset = 0x20000; caps = [] }

abbrev region_info : VfioRegionInfo
region_info = record {
  argsz = 88;
  flags = 8;
  index = 1;
  cap_offset = 0;
  size = 0x2000;
  offset = 0x20000;
}

abbrev answered : List ℕ
answered = (caps_answer test_kernel (pos 9) region region_info idle_state 2).cap_info

abbrev last_cap : VfioRegionInfoCap
last_cap = sparse_mmap (record { offset = 4; size = 3 } ∷ [])

-- What the structs have room for behind the last capability.
abbrev unused : List ℕ
unused = 0 ∷ 0 ∷ 0 ∷ 0 ∷ 0 ∷ 0 ∷ 0 ∷ 0 ∷ []

answered-Chain : Chain answered 3 32 test_caps
answered-Chain =
    link msix_mappable 0 40 tt (omega arith) (omega arith) (inl (omega arith))
      (record {
        before = [];
        after = encode_cap (cap_type 5 6) 0 56 ++ encode_cap last_cap 0 4 ++ unused;
        whole = refl;
        place = refl;
      })
      (link (cap_type 5 6) 0 56 (omega arith, omega arith) (omega arith) (omega arith)
        (inl (omega arith))
        (record {
          before = encode_cap msix_mappable 0 40;
          after = encode_cap last_cap 0 4 ++ unused;
          whole = refl;
          place = refl;
        })
        (link last_cap 0 4 (ground arith) (omega arith) (omega arith) (inr (omega arith))
          (record {
            before = encode_cap msix_mappable 0 40 ++ encode_cap (cap_type 5 6) 0 56;
            after = unused;
            whole = refl;
            place = refl;
          })
          (stop (omega arith))))

get_region_map_example :
    (get_region_map test_kernel (pos 9) region region_info idle_state).0
    ≡ ok (record region { caps = test_caps })
get_region_map_example =
    get_region_map_lem test_kernel (pos 9) region region_info idle_state 3 test_caps refl
      (omega arith) refl answered-Chain
