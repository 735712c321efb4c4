-- ===== src/Device/Careful.antt =====
-- Reading a device's regions and interrupts uses the device's file alone.
use vfio.Prelude.{ℕ, zero, suc, arith, Option, none, some, Dict, List, [], ◌∷◌, ◌++◌}
use vfio.Bindings.Structs.{VfioRegionInfo}
use vfio.Error.{ok}
use vfio.Host.Kernel.{Kernel}
use vfio.Host.Call.{Fd, VfioRegionInfoWithCap}
use vfio.Host.Careful.{Careful, still-Careful, if-Careful, >>=-Careful, on_err-Careful}
use vfio.Syscall.{get_device_irq_info, get_device_region_info, get_device_region_info_cap}
use vfio.Group.{DeviceInfo}
use vfio.Device.Info.{
  fetch_caps, has_no_caps, from_region_info, region_request, region_of, VfioIrq, VfioRegion,
  irq_step, irqs_from, get_irqs, get_region_map, region_step, regions_from, get_regions,
}

module _ (k : Kernel) (own fd : Fd) where
  irq_step-Careful : (i : ℕ) (irqs : Dict VfioIrq) → Careful k own fd (irq_step k fd i irqs)
  unfolding irq_step get_device_irq_info
  irq_step-Careful i irqs = record {
    calm = record { apply = λ s. ground arith };
    sound = λ s is so. ground arith;
  }

  irqs_from-Careful : (n i : ℕ) (irqs : Dict VfioIrq) → Careful k own fd (irqs_from k fd n i irqs)
  unfolding irqs_from
  irqs_from-Careful zero i irqs = still-Careful k own fd (ok irqs)
  irqs_from-Careful (suc n) i irqs =
      >>=-Careful k own fd (irq_step-Careful i irqs) (irqs_from-Careful n (suc i))

  fetch_caps-Careful :
      (region : VfioRegion) (r : Option (ℕ × VfioRegionInfoWithCap))
      → Careful k own fd (fetch_caps k fd region r)
  unfolding fetch_caps get_device_region_info_cap
  fetch_caps-Careful region none = record {
    calm = record { apply = λ s. ground arith };
    sound = λ s is so. ground arith;
  }
  fetch_caps-Careful region (some (len, r)) = record {
    calm = record { apply = λ s. ground arith };
    sound = λ s is so. ground arith;
  }

  get_region_map-Careful :
      (region : VfioRegion) (info : VfioRegionInfo)
      → Careful k own fd (get_region_map k fd region info)
  unfolding get_region_map
  get_region_map-Careful region info =
      if-Careful k own fd (has_no_caps info) (still-Careful k own fd (ok region))
        (fetch_caps-Careful region (from_region_info info))

  get_device_region_info-Careful :
      (info : VfioRegionInfo) → Careful k own fd (get_device_region_info k fd info)
  unfolding get_device_region_info
  get_device_region_info-Careful info = record {
    calm = record { apply = λ s. ground arith };
    sound = λ s is so. ground arith;
  }

  region_step-Careful :
      (i : ℕ) (regions : List VfioRegion) → Careful k own fd (region_step k fd i regions)
  unfolding region_step
  region_step-Careful i regions =
      on_err-Careful k own fd
        (>>=-Careful k own fd (get_device_region_info-Careful (region_request i)) (λ info.
          >>=-Careful k own fd (get_region_map-Careful (region_of info) info)
            (λ region. still-Careful k own fd (ok (regions ++ region ∷ [])))))
        (λ e. still-Careful k own fd (ok regions))

  regions_from-Careful :
      (n i : ℕ) (regions : List VfioRegion) → Careful k own fd (regions_from k fd n i regions)
  unfolding regions_from
  regions_from-Careful zero i regions = still-Careful k own fd (ok regions)
  regions_from-Careful (suc n) i regions =
      >>=-Careful k own fd (region_step-Careful i regions) (regions_from-Careful n (suc i))

module _ (k : Kernel) (own : Fd) where
  pub get_irqs-Careful : (info : DeviceInfo) → Careful k own info.device (get_irqs k info)
  unfolding get_irqs
  get_irqs-Careful info = irqs_from-Careful k own info.device info.num_irqs 0 _

  pub get_regions-Careful : (info : DeviceInfo) → Careful k own info.device (get_regions k info)
  unfolding get_regions
  get_regions-Careful info = regions_from-Careful k own info.device _ _ _
