-- ===== src/Device/Info.antt =====
-- `VfioDeviceInfo` of crates/vfio-ioctls/src/vfio_device.rs: the interrupts and the regions that a
-- device has. What the loops only log is left out.
pub mod Tables
pub mod Regions
pub mod Caps
use vfio.Prelude.{
  ℕ, zero, suc, ◌+◌, ◌-◌, ◌*◌, Bool, Option, none, some, List, [], ◌∷◌, ◌++◌, Dict, insert, length,
  replicate, leb, ◌==◌, ◌||◌, if◌then◌else◌, bit_and,
}
use vfio.Bindings.Constants.{vfio_region_info_flag_caps, vfio_pci_bar0_region_index}
use vfio.Bindings.Structs.{VfioRegionInfo, VfioIrqInfo, size_of_region_info, size_of_irq_info}
use vfio.Error.{panic, Outcome}
use vfio.Fam.{vec_with_array_field}
use vfio.Host.Call.{Fd, VfioRegionInfoWithCap}
use vfio.Host.Kernel.{Kernel}
use vfio.Host.Action.{Action, pure, stop, on_err, ◌>>=◌}
use vfio.Syscall.{get_device_irq_info, get_device_region_info, get_device_region_info_cap}
use vfio.Group.{DeviceInfo}
use vfio.Device.Caps.{VfioRegionInfoCap, walk}

pub record VfioIrq : Type 0 where
  pub flags : ℕ
  pub index : ℕ
  pub count : ℕ

pub record VfioRegion : Type 0 where
  pub flags : ℕ
  pub size : ℕ
  pub offset : ℕ
  pub caps : List VfioRegionInfoCap

abbrev pub default_region_info : VfioRegionInfo
default_region_info = record {
  argsz = 0;
  flags = 0;
  index = 0;
  cap_offset = 0;
  size = 0;
  offset = 0;
}

-- The first element of a vector with its header set, and the zero bytes of the others behind it.
-- An empty vector makes `region_with_cap[0]` panic.
abbrev pub with_header :
    VfioRegionInfo → Option (List VfioRegionInfo) → Option (ℕ × VfioRegionInfoWithCap)
with_header info none = none
with_header info (some []) = none
with_header info (some (v ∷ vs)) = some (
  suc (length vs),
  record { region_info = info; cap_info = replicate (length vs * size_of_region_info) 0 },
)

-- `vfio_region_info_with_cap::from_region_info`: the length of the vector, and its contents.
unfoldable pub from_region_info : VfioRegionInfo → Option (ℕ × VfioRegionInfoWithCap)
unfolding vec_with_array_field
from_region_info region_info =
    with_header
      (record default_region_info { argsz = region_info.argsz; index = region_info.index })
      (vec_with_array_field size_of_region_info default_region_info 1
        (region_info.argsz - size_of_region_info))

abbrev pub irq_request : ℕ → VfioIrqInfo
irq_request index = record { argsz = size_of_irq_info; flags = 0; index = index; count = 0 }

abbrev pub region_request : ℕ → VfioRegionInfo
region_request i = record default_region_info { argsz = size_of_region_info; index = i }

-- There is no capability information for the region.
abbrev pub has_no_caps : VfioRegionInfo → Bool
has_no_caps info =
    bit_and info.flags vfio_region_info_flag_caps == 0 || leb info.argsz size_of_region_info

abbrev pub region_of : VfioRegionInfo → VfioRegion
region_of info = record { flags = info.flags; size = info.size; offset = info.offset; caps = [] }

abbrev pub lift {ℓ} : {A : Type ℓ} → Outcome A → Action A
lift r s = (r, s)

module _ (k : Kernel) where
  -- A round of the loop in `get_irqs`.
  unfoldable pub irq_step : Fd → ℕ → Dict VfioIrq → Action (Dict VfioIrq)
  unfolding get_device_irq_info
  irq_step device index irqs =
      on_err
        (do
          info ← get_device_irq_info k device (irq_request index)
          pure (
              insert index (record { flags = info.flags; index = index; count = info.count }) irqs))
        λ e. pure irqs

  unfoldable pub irqs_from : Fd → ℕ → ℕ → Dict VfioIrq → Action (Dict VfioIrq)
  unfolding irq_step
  irqs_from device zero index irqs = pure irqs
  irqs_from device (suc n) index irqs =
      irq_step device index irqs >>= λ irqs'. irqs_from device n (suc index) irqs'

  unfoldable pub get_irqs : DeviceInfo → Action (Dict VfioIrq)
  unfolding irqs_from
  get_irqs info = irqs_from info.device info.num_irqs 0 []

  -- The capabilities that the loop over the filled vector pushes. Every round that does not read
  -- outside of the vector begins at another of its bytes, or the loop never ends: the fuel.
  abbrev pub caps_of : VfioRegionInfoWithCap → Outcome (List VfioRegionInfoCap)
  caps_of r = walk (length r.cap_info + 2) r.cap_info r.region_info.cap_offset []

  -- The part of `get_region_map` that asks for the capability information and puts it on the
  -- region. A vector that cannot be made is a panic.
  unfoldable pub fetch_caps :
      Fd → VfioRegion → Option (ℕ × VfioRegionInfoWithCap) → Action VfioRegion
  unfolding get_device_region_info_cap walk
  fetch_caps device region none = stop panic
  fetch_caps device region (some (len, region_with_cap)) = do
    filled ← get_device_region_info_cap k device len region_with_cap
    caps ← lift (caps_of filled)
    pure (record region { caps = region.caps ++ caps })

  unfoldable pub get_region_map : Fd → VfioRegion → VfioRegionInfo → Action VfioRegion
  unfolding from_region_info fetch_caps
  get_region_map device region region_info =
      if has_no_caps region_info
      then pure region
      else fetch_caps device region (from_region_info region_info)

  -- A round of the loop in `get_regions`.
  unfoldable pub region_step : Fd → ℕ → List VfioRegion → Action (List VfioRegion)
  unfolding get_device_region_info get_region_map
  region_step device i regions =
      on_err
        (do
          reg_info ← get_device_region_info k device (region_request i)
          region ← get_region_map device (region_of reg_info) reg_info
          pure (regions ++ region ∷ []))
        λ e. pure regions

  unfoldable pub regions_from : Fd → ℕ → ℕ → List VfioRegion → Action (List VfioRegion)
  unfolding region_step
  regions_from device zero i regions = pure regions
  regions_from device (suc n) i regions =
      region_step device i regions >>= λ regions'. regions_from device n (suc i) regions'

  unfoldable pub get_regions : DeviceInfo → Action (List VfioRegion)
  unfolding regions_from
  get_regions info =
      regions_from info.device (info.num_regions - vfio_pci_bar0_region_index)
        vfio_pci_bar0_region_index []
