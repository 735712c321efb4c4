-- ===== src/Device/Info/Regions.antt =====
-- What `get_regions` collects of a device that always answers a request the same way.
use mathlib.Core.List.{append-nil, append_assoc}
use vfio.Prelude.{
  ℕ, zero, suc, ◌+◌, ◌-◌, ◌<◌, ◌≡◌, ◌≢◌, refl, sym, ap, ◌∙◌, subst, Option, none, some, List, [],
  ◌∷◌, ◌++◌, arith, get_elem?, true, false, is_negative, ◌^◌,
}
use vfio.Bindings.Structs.{VfioRegionInfo}
use vfio.Error.{ok}
use vfio.Host.Call.{Fd, Call, ioctl, Arg}
use vfio.Syscall.Requests
use vfio.Host.Kernel.{Kernel}
use vfio.Host.Action.{State}
use vfio.Syscall.{get_device_region_info}
use vfio.Group.{DeviceInfo}
use vfio.Device.Info.Tables.{region_answer, >>=-ok}
use vfio.Device.Caps.{VfioRegionInfoCap}
use vfio.Device.Caps.Chain.{Chain}
use vfio.Device.Info.Caps.{
  caps_request, caps_answer, spare, get_region_map_plain, get_region_map_lem,
  get_region_map_refused,
}
use vfio.Device.Info.{
  region_request, VfioRegion, region_of, has_no_caps, region_step, regions_from, get_regions,
}

-- The regions that are reported of `n` indexes, from `i` on: an index that is not answered is left
-- out, and those behind it move up.
abbrev pub with_region : Option VfioRegion → List VfioRegion → List VfioRegion
with_region none regions = regions
with_region (some region) regions = region ∷ regions

abbrev pub reported : (ℕ → Option VfioRegion) → ℕ → ℕ → List VfioRegion
reported table zero i = []
reported table (suc n) i = with_region (table i) (reported table n (suc i))

module _ (k : Kernel) (fd : Fd) where
  -- The state after the first request for an index.
  abbrev pub asked : State → ℕ → State
  asked s i = record s {
    trace =
        ioctl fd Requests.vfio_device_get_region_info (Arg.region_info (region_request i))
        ∷ s.trace;
  }

  abbrev pub caps_call : State → VfioRegionInfo → Call
  caps_call s info = ioctl fd Requests.vfio_device_get_region_info (
      Arg.region_info_with_cap
        (caps_request k fd (region_of info) info s (spare k fd (region_of info) info s)))

  -- What a device reports for an index, if asked in this state: nothing where a request is refused,
  -- a region without capabilities, or one with those of a chain.
  pub data Reports (s : State) (i : ℕ) : Option VfioRegion → Type 0 where
    refused : region_answer k fd s.trace i ≡ none → Reports s i none
    plain :
        (info : VfioRegionInfo)
        → region_answer k fd s.trace i ≡ some info
        → has_no_caps info ≡ true
        → Reports s i (some (region_of info))
    caps_refused :
        (info : VfioRegionInfo)
        → region_answer k fd s.trace i ≡ some info
        → has_no_caps info ≡ false
        → info.argsz < 2 ^ 32
        → is_negative (k.ret (asked s i).trace (caps_call (asked s i) info)) ≡ true
        → Reports s i none
    with_caps :
        (info : VfioRegionInfo) (n : ℕ) (caps : List VfioRegionInfoCap)
        → region_answer k fd s.trace i ≡ some info
        → has_no_caps info ≡ false
        → info.argsz < 2 ^ 32
        → is_negative (k.ret (asked s i).trace (caps_call (asked s i) info)) ≡ false
        → Chain
            (caps_answer k fd
              (region_of info)
              info
              (asked s i)
              (spare k fd (region_of info) info (asked s i))).cap_info
            n
            (caps_answer k fd
              (region_of info)
              info
              (asked s i)
              (spare k fd (region_of info) info (asked s i))).region_info.cap_offset
            caps
        → Reports s i (some (record (region_of info) { caps = caps }))

  abbrev push_region : List VfioRegion → Option VfioRegion → List VfioRegion
  push_region regions none = regions
  push_region regions (some region) = regions ++ region ∷ []

  region_step-push :
      (i : ℕ) (regions : List VfioRegion) (o : Option VfioRegion) (s : State)
      → Reports s i o
      → (region_step k fd i regions s).0 ≡ ok (push_region regions o)
  unfolding region_step get_device_region_info
  region_step-push i regions none s (refused h) = ground (arith, h)
  region_step-push i regions (some region) s (plain info h p) =
      ground (arith, h, p, get_region_map_plain k fd (region_of info) info (asked s i) p)
  region_step-push i regions none s (caps_refused info h has small denied) =
      let (e, fails) =
        get_region_map_refused k fd (region_of info) info (asked s i) has small denied in
      ground (arith, h, fails)
  region_step-push i regions (some region) s (with_caps info n caps h has small granted chain) =
      let found =
        get_region_map_lem k fd (region_of info) info (asked s i) n caps has small granted chain in
      ground (arith, h, found)

  push-with_region :
      (o : Option VfioRegion) (regions rest : List VfioRegion)
      → push_region regions o ++ rest ≡ regions ++ with_region o rest
  push-with_region none regions rest = refl
  push-with_region (some region) regions rest = append_assoc regions (region ∷ []) rest

module _ (k : Kernel) (fd : Fd) (table : ℕ → Option VfioRegion)
    (reports : (s : State) (i : ℕ) → Reports k fd s i (table i)) where
  regions_from-reported :
      (n i : ℕ) (regions : List VfioRegion) (s : State)
      → (regions_from k fd n i regions s).0 ≡ ok (regions ++ reported table n i)
  unfolding regions_from
  regions_from-reported zero i regions s = ap ok (sym (append-nil regions))
  regions_from-reported (suc n) i regions s =
      >>=-ok (region_step k fd i regions) (regions_from k fd n (suc i)) s
        (region_step-push k fd i regions (table i) s (reports s i))
        (λ s'.
          regions_from-reported n (suc i) (push_region k fd regions (table i)) s'
          ∙ ap ok (push-with_region k fd (table i) regions (reported table n (suc i))))

  get_regions-reported :
      (info : DeviceInfo) (s : State)
      → info.device ≡ fd
      → (get_regions k info s).0 ≡ ok (reported table info.num_regions 0)
  unfolding get_regions
  get_regions-reported info s e =
      let whole : info.num_regions - 0 ≡ info.num_regions = omega arith in
      rw (e, whole) (regions_from-reported info.num_regions 0 [] s)

-- Behind `j` answered indexes the list goes on with the next ones.
reported-shift :
    (table : ℕ → Option VfioRegion) (n i j : ℕ)
    → ((a : ℕ) → a < j → table (i + a) ≢ none)
    → get_elem? (reported table (j + n) i) j ≡ get_elem? (reported table n (i + j)) 0
reported-shift table n i zero h = ground arith
reported-shift table n i (suc j) h =
    let first : table i ≢ none = subst (λ x. table x ≢ none) (omega arith) (h 0 (omega arith)) in
    let others : (a : ℕ) → a < j → table (suc i + a) ≢ none =
      λ a lt. subst (λ x. table x ≢ none) (omega arith) (h (suc a) (omega arith)) in
    let count : suc j + n ≡ suc (j + n) = omega arith in
    let place : i + suc j ≡ suc i + j = omega arith in
    rw (count, place) (ground (arith, first, reported-shift table n (suc i) j others))

reported-behind :
    (table : ℕ → Option VfioRegion) (n j : ℕ)
    → ((a : ℕ) → a < j → table a ≢ none)
    → get_elem? (reported table (j + n) 0) j ≡ get_elem? (reported table n j) 0
reported-behind table n j h =
    reported-shift table n 0 j (λ a lt. subst (λ x. table x ≢ none) (omega arith) (h a lt))
    ∙ ap {A = ℕ} (λ x. get_elem? (reported table n x) 0) (omega arith)

module _ (k : Kernel) (table : ℕ → Option VfioRegion) (info : DeviceInfo) (s : State) where
  abbrev pub Answers : Type 0
  Answers = (s : State) (i : ℕ) → Reports k info.device s i (table i)

  -- For a device that reports the same for each region index at all times, be it a region without
  -- capabilities, a region with those of a chain as the kernel's interface lays it out and for less
  -- than 2^32 bytes, or nothing, where its first or its second request is refused: get_regions
  -- succeeds, and a region that is reported, as all before it are, stands at its own index in the
  -- list, with its capabilities.
  pub get_regions_lem :
      Answers
      → (i : ℕ) (region : VfioRegion) → i < info.num_regions
      → ((j : ℕ) → j < i → table j ≢ none)
      → table i ≡ some region
      → (regions : List VfioRegion) × ((get_regions k info s).0 ≡ ok regions)
        × (get_elem? regions i ≡ some region)
  get_regions_lem answers i region small before this =
      let split : info.num_regions ≡ i + suc (info.num_regions - suc i) = omega arith in
      (
        reported table info.num_regions 0,
        get_regions-reported k info.device table answers info s refl,
        rw (split)
            (ground (arith, reported-behind table (suc (info.num_regions - suc i)) i before, this)),
      )

  -- For such a device, where a region is the first that is not reported and the next one is,
  -- get_regions succeeds and its list has the next region at the missing region's index.
  pub get_regions-gap :
      Answers
      → (i : ℕ) (region : VfioRegion) → suc i < info.num_regions
      → ((j : ℕ) → j < i → table j ≢ none)
      → table i ≡ none
      → table (suc i) ≡ some region
      → (regions : List VfioRegion) × ((get_regions k info s).0 ≡ ok regions)
        × (get_elem? regions i ≡ some region)
  get_regions-gap answers i region small before gap next = (
    reported table info.num_regions 0,
    get_regions-reported k info.device table answers info s refl,
    let split : info.num_regions ≡ i + suc (suc (info.num_regions - suc (suc i))) = omega arith in
        rw (split) (
          ground (
            arith,
            reported-behind table (suc (suc (info.num_regions - suc (suc i)))) i before,
            gap,
            next,
          )),
  )
