-- ===== src/Tests/Regions.antt =====
-- The theorems about the list of a device's regions, at concrete inputs.
use vfio.Prelude.{
  ℕ, zero, suc, ◌*◌, ◌≡◌, refl, inr, ℤ, pos, Option, none, some, List, [], ◌∷◌, arith, get_elem?,
}
use vfio.Bindings.Structs.{VfioRegionInfo}
use vfio.Error.{ok}
use vfio.Host.Call.{Call, Arg, Trace, ioctl, region_info}
use vfio.Host.Kernel.{Kernel}
use vfio.Host.Action.{State}
use vfio.Group.{DeviceInfo}
use vfio.Device.Caps.{msix_mappable}
use vfio.Device.Caps.Bytes.{encode_cap}
use vfio.Device.Caps.Chain.{stop, link}
use vfio.Device.Info.{VfioRegion, get_regions}
use vfio.Device.Info.Regions.{Reports, refused, plain, with_caps, get_regions_lem, get_regions-gap}
use vfio.TestDouble.{test_kernel, idle_state}

abbrev info : DeviceInfo
info = record { device = pos 9; flags = 0; num_regions = 3; num_irqs = 4 }

-- A kernel whose device has capabilities in region 0 and no region 1.
abbrev gap_index : ℕ → ℤ
gap_index zero = pos 0
gap_index (suc zero) = ℤ.negsuc 21
gap_index (suc (suc i)) = pos 0

abbrev gap_ioctl : Arg → ℤ
gap_ioctl (region_info i) = gap_index i.index
gap_ioctl _ = pos 0

abbrev gap_ret : Trace → Call → ℤ
gap_ret t (ioctl fd request arg) = gap_ioctl arg
gap_ret t _ = pos 0

abbrev gap_info : ℕ → VfioRegionInfo → VfioRegionInfo
gap_info zero r = record r { argsz = 40; flags = 8; size = 0x2000; offset = 0x20000 }
gap_info (suc i) r = record r { flags = 0; size = 0x1000; offset = i * 0x10000 }

abbrev gap_kernel : Kernel
gap_kernel = record test_kernel {
  ret = gap_ret;
  region_info = λ t fd r. gap_info r.index r;
  region_info_with_cap = λ t fd r. record {
    region_info = record r.region_info { cap_offset = 32 };
    cap_info = encode_cap msix_mappable 0 0;
  };
}

abbrev gap_table : ℕ → Option VfioRegion
gap_table zero =
    some (record { flags = 8; size = 0x2000; offset = 0x20000; caps = msix_mappable ∷ [] })
gap_table (suc zero) = none
gap_table (suc (suc i)) =
    some (record { flags = 0; size = 0x1000; offset = suc i * 0x10000; caps = [] })

gap_kernel-Reports : (s : State) (i : ℕ) → Reports gap_kernel (pos 9) s i (gap_table i)
gap_kernel-Reports s zero =
    with_caps
      (record { argsz = 40; flags = 8; index = 0; cap_offset = 0; size = 0x2000; offset = 0x20000 })
      1 (msix_mappable ∷ []) refl refl (omega arith) refl
      (link msix_mappable 0 0 tt (omega arith) (omega arith) (inr (omega arith))
        (record { before = []; after = []; whole = refl; place = refl }) (stop (omega arith)))
gap_kernel-Reports s (suc zero) = refused refl
gap_kernel-Reports s (suc (suc i)) = plain _ refl refl

get_regions_example :
    (regions : List VfioRegion) × ((get_regions gap_kernel info idle_state).0 ≡ ok regions)
    × (get_elem? regions 0
        ≡ some (record { flags = 8; size = 0x2000; offset = 0x20000; caps = msix_mappable ∷ [] }))
get_regions_example =
    get_regions_lem gap_kernel gap_table info idle_state gap_kernel-Reports 0 _ (omega arith)
      (λ j small. absurd (omega arith)) refl

get_regions-gap_example :
    (regions : List VfioRegion) × ((get_regions gap_kernel info idle_state).0 ≡ ok regions)
    × (get_elem? regions 1
        ≡ some (record { flags = 0; size = 0x1000; offset = 0x10000; caps = [] }))
get_regions-gap_example =
    get_regions-gap gap_kernel gap_table info idle_state gap_kernel-Reports 1 _ (omega arith)
      (λ j small. ground arith) refl refl
