-- ===== src/Device/Info/Caps.antt =====
-- A region with capabilities: from the first answer of the kernel to the list in the region.
use vfio.Prelude.{
  ℕ, suc, ◌-◌, ◌*◌, ◌/◌, ◌^◌, ◌<◌, ◌≡◌, refl, true, false, Option, some, List, [], ◌∷◌, ◌++◌, arith,
  length, replicate, is_negative, neg,
}
use vfio.Bindings.Structs.{VfioRegionInfo}
use vfio.Error.{VfioError, ok, err}
use vfio.Fam.Bounds.{vec_with_array_field_fits}
use vfio.Host.Call.{Fd, ioctl, Arg, VfioRegionInfoWithCap}
use vfio.Host.Kernel.{Kernel}
use vfio.Host.Action.{State}
use vfio.Syscall.Requests
use vfio.Syscall.{get_device_region_info_cap}
use vfio.Device.Caps.{VfioRegionInfoCap}
use vfio.Device.Caps.Chain.{Chain, walk-Chain}
use vfio.Device.Info.{
  VfioRegion, default_region_info, has_no_caps, from_region_info, with_header, fetch_caps,
  get_region_map,
}

module _ (k : Kernel) (fd : Fd) (region : VfioRegion) (info : VfioRegionInfo) (s : State) where
  -- The request for the capabilities, in a vector of so many structs.
  abbrev pub caps_request : ℕ → VfioRegionInfoWithCap
  caps_request n = record {
    region_info = record default_region_info { argsz = info.argsz; index = info.index };
    cap_info = replicate (n * 32) 0;
  }

  abbrev pub caps_answer : ℕ → VfioRegionInfoWithCap
  caps_answer n = k.region_info_with_cap s.trace fd (caps_request n)

  made_caps_request :
      (n : ℕ) (o : Option (List VfioRegionInfo)) (v : List VfioRegionInfo)
      → o ≡ some v
      → length v ≡ suc n
      → with_header (record default_region_info { argsz = info.argsz; index = info.index }) o
        ≡ some (suc n, caps_request n)
  made_caps_request n o [] made len = absurd (omega arith)
  made_caps_request n o (x ∷ v) made len =
      let same : length v ≡ n = omega arith in rw (made, same) refl

  -- The structs that have room for what the kernel announced, besides the first.
  abbrev pub spare : ℕ
  spare = (info.argsz - 1) / 32

  from_region_info_lem :
      32 < info.argsz
      → info.argsz < 2 ^ 32
      → from_region_info info ≡ some (suc spare, caps_request spare)
  unfolding from_region_info
  from_region_info_lem large small =
      let (v, made, room, tight) =
        vec_with_array_field_fits 32 default_region_info 1 (info.argsz - 32) (omega arith)
          (omega arith) in
      made_caps_request spare _ v made (omega arith)

  -- Where the kernel's first answer for a region announces capabilities and asks for less than 2^32
  -- bytes, the second request, made in a vector of structs that has room for these bytes, is
  -- granted, and its answer's bytes hold a chain of capabilities as the kernel's interface lays it
  -- out: get_region_map succeeds with the region and exactly the chain's known capabilities in
  -- order behind those it had.
  pub get_region_map_lem :
      (links : ℕ) (caps : List VfioRegionInfoCap)
      → has_no_caps info ≡ false
      → info.argsz < 2 ^ 32
      → is_negative (
          k.ret s.trace (
            ioctl fd Requests.vfio_device_get_region_info
              (Arg.region_info_with_cap (caps_request spare))))
        ≡ false
      → Chain (caps_answer spare).cap_info links (caps_answer spare).region_info.cap_offset caps
      → (get_region_map k fd region info s).0 ≡ ok (record region { caps = region.caps ++ caps })
  unfolding get_region_map fetch_caps get_device_region_info_cap
  get_region_map_lem links caps has small granted chain =
      let large : 32 < info.argsz = ground arith in
      ground (
        arith,
        from_region_info_lem large small,
        walk-Chain (caps_answer spare).cap_info links (caps_answer spare).region_info.cap_offset
            caps chain,
      )

  pub get_region_map_plain :
      has_no_caps info ≡ true → (get_region_map k fd region info s).0 ≡ ok region
  unfolding get_region_map
  get_region_map_plain none_told = ground (arith, none_told)

  -- Where that request is refused, so is the region.
  pub get_region_map_refused :
      has_no_caps info ≡ false
      → info.argsz < 2 ^ 32
      → is_negative (
          k.ret s.trace (
            ioctl fd Requests.vfio_device_get_region_info
              (Arg.region_info_with_cap (caps_request spare))))
        ≡ true
      → (e : VfioError) × ((get_region_map k fd region info s).0 ≡ err e)
  unfolding get_region_map fetch_caps get_device_region_info_cap
  get_region_map_refused has small refused =
      let large : 32 < info.argsz = ground arith in
      (
        VfioError.vfio_device_get_region_info (
            neg (
              k.ret s.trace (
                ioctl fd Requests.vfio_device_get_region_info
                  (Arg.region_info_with_cap (caps_request spare))))),
        ground (arith, from_region_info_lem large small),
      )
