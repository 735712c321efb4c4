-- ===== src/Device/Region/Bounds.antt =====
-- Region accesses stay inside of the region that the device reported.
use vfio.Prelude.{
  ℕ, ◌+◌, ◌%◌, ◌^◌, ◌≤◌, ◌<◌, ◌≡◌, ◌≢◌, none, some, List, ◌∷◌, arith, length, get_elem?, bit_and,
  Bool, false, ◌&&◌, ◌!=◌, if◌then◌else◌, leb,
}
use vfio.Error.{ok}
use vfio.Host.Call.{read_exact_at, write_all_at}
use vfio.Host.Kernel.{Kernel}
use vfio.Host.Action.{State}
use vfio.Device.Info.{VfioRegion}
use vfio.Device.Irq.{VfioDevice}
use vfio.Device.Region.{region_read, region_write}

-- The region with this index, and whether the access is inside of it.
abbrev pub reaches : VfioDevice → ℕ → ℕ → ℕ → Bool
reaches d index size addr = elim (get_elem? d.regions index) [
  | none ↦ false
  | some region ↦ leb (addr + size) region.size
]

abbrev pub region_base : VfioDevice → ℕ → ℕ
region_base d index = elim (get_elem? d.regions index) [ none ↦ 0 | some region ↦ region.offset ]

abbrev pub is_writable : VfioDevice → ℕ → Bool
is_writable d index = elim (get_elem? d.regions index) [
  | none ↦ false
  | some region ↦ bit_and region.flags 2 != 0
]

module _ (k : Kernel) (d : VfioDevice) (index : ℕ) (buf : List ℕ) (addr : ℕ) (s : State) where
  -- Where neither the end of the access nor its place in the device's file exceeds u64, region_read
  -- fills the buffer with what the device has at the region's offset plus the address if the region
  -- exists and holds the whole access, and else leaves the buffer and asks for nothing.
  pub region_read_lem :
      addr + length buf < 2 ^ 64
      → region_base d index + addr < 2 ^ 64
      → region_read k d index buf addr s ≡ (
          if reaches d index (length buf) addr
          then (
            ok (k.bytes_at s.trace d.device (length buf) (region_base d index + addr)),
            record s {
              trace = read_exact_at d.device (length buf) (region_base d index + addr) ∷ s.trace;
            },
          )
          else (ok buf, s))
  unfolding region_read
  region_read_lem h b = ground arith

  -- Where neither the end of the access nor its place in the device's file exceeds u64,
  -- region_write writes the buffer, once and at the region's offset plus the address, if the region
  -- exists, holds the whole access and is writable, and else does nothing.
  pub region_write_lem :
      addr + length buf < 2 ^ 64
      → region_base d index + addr < 2 ^ 64
      → region_write k d index buf addr s ≡ (
        ok tt,
        if reaches d index (length buf) addr && is_writable d index
            then record s {
              trace = write_all_at d.device buf (region_base d index + addr) ∷ s.trace;
            }
            else s,
      )
  unfolding region_write
  region_write_lem h b = ground arith

  -- Where the end of the access exceeds u64, the buffer is no longer than the writable region, and
  -- region and buffer together fit u64, the address is outside of the region, and the write is made
  -- all the same, at the wrapped sum of offset and address.
  pub region_write_wraps :
      (region : VfioRegion)
      → get_elem? d.regions index ≡ some region
      → addr < 2 ^ 64
      → 2 ^ 64 ≤ addr + length buf
      → length buf ≤ region.size
      → region.size + length buf ≤ 2 ^ 64
      → bit_and region.flags 2 ≢ 0
      → (region.size ≤ addr)
        × (region_write k d index buf addr s ≡ (
          ok tt,
          record s {
            trace = write_all_at d.device buf ((region.offset + addr) % 2 ^ 64) ∷ s.trace;
          },
        ))
  unfolding region_write
  region_write_wraps region e small past fits low writable = (omega arith, ground arith)
