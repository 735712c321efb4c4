-- ===== src/Device/Region.antt =====
-- The region operations of `VfioDevice` in crates/vfio-ioctls/src/vfio_device.rs. Sums of u64 wrap,
-- as in a release build.
pub mod Bounds
pub mod Getters
use vfio.Prelude.{
  ℕ, ◌+◌, ◌%◌, ◌^◌, Bool, Option, none, some, List, [], length, get_elem?, ltb, ◌==◌, ◌||◌,
  if◌then◌else◌, bit_and,
}
use vfio.Bindings.Constants.{vfio_region_info_flag_write}
use vfio.Host.Call.{read_exact_at, write_all_at}
use vfio.Host.Kernel.{Kernel}
use vfio.Host.Action.{Action, pure, gets, ◌>>=◌, ◌>>◌, issue}
use vfio.Device.Caps.{VfioRegionInfoCap}
use vfio.Device.Info.{VfioRegion}
use vfio.Device.Irq.{VfioDevice}

-- Addition of u64.
abbrev pub add_u64 : ℕ → ℕ → ℕ
add_u64 a b = (a + b) % 2 ^ 64

abbrev pub or_else {ℓ κ} : {A : Type ℓ} {B : Type κ} → Option A → (A → B) → B → B
or_else none f b = b
or_else (some a) f b = f a

unfoldable pub get_region_flags : VfioDevice → ℕ → ℕ
get_region_flags d index = or_else (get_elem? d.regions index) (λ v. v.flags) 0

unfoldable pub get_region_offset : VfioDevice → ℕ → ℕ
get_region_offset d index = or_else (get_elem? d.regions index) (λ v. v.offset) 0

unfoldable pub get_region_size : VfioDevice → ℕ → ℕ
get_region_size d index = or_else (get_elem? d.regions index) (λ v. v.size) 0

unfoldable pub get_region_caps : VfioDevice → ℕ → List VfioRegionInfoCap
get_region_caps d index = or_else (get_elem? d.regions index) (λ v. v.caps) []

-- The access is outside of the region, by the source's test.
abbrev pub is_outside : VfioRegion → ℕ → ℕ → Bool
is_outside region size addr = ltb region.size size || ltb region.size (add_u64 addr size)

module _ (k : Kernel) where
  -- The buffer after `region_read`; a failed read is logged.
  unfoldable pub region_read : VfioDevice → ℕ → List ℕ → ℕ → Action (List ℕ)
  region_read d index buf addr = elim (get_elem? d.regions index) [
    | none ↦ pure buf
    | some region ↦ if is_outside region (length buf) addr then pure buf else do
      trace ← gets (λ s. s.trace)
      issue k (read_exact_at d.device (length buf) (add_u64 region.offset addr))
      pure (k.bytes_at trace d.device (length buf) (add_u64 region.offset addr))
  ]

  unfoldable pub region_write : VfioDevice → ℕ → List ℕ → ℕ → Action (Unit {0})
  region_write d index buf addr = elim (get_elem? d.regions index) [
    | none ↦ pure tt
    | some stub ↦
        if is_outside stub (length buf) addr || bit_and stub.flags vfio_region_info_flag_write == 0
        then pure tt
        else issue k (write_all_at d.device buf (add_u64 stub.offset addr)) >> pure tt
  ]
