-- ===== src/Device/Region/Getters.antt =====
-- What a client learns of a region from its getters, and what it may then do.
use vfio.Prelude.{
  ℕ, ◌+◌, ◌^◌, ◌<◌, ◌≡◌, List, ◌∷◌, arith, length, bit_and, ◌&&◌, ◌!=◌, if◌then◌else◌, leb,
}
use vfio.Error.{ok}
use vfio.Host.Call.{write_all_at}
use vfio.Host.Kernel.{Kernel}
use vfio.Host.Action.{State}
use vfio.Device.Irq.{VfioDevice}
use vfio.Device.Region.{region_write, get_region_size, get_region_offset, get_region_flags}

-- For a buffer that is not empty, where neither the end of the access nor its place in the device's
-- file exceeds u64: region_write writes the buffer, once and at get_region_offset plus the address,
-- exactly if the access ends within get_region_size and get_region_flags has the write flag, and
-- else does nothing.
pub region_write-get_region :
    (k : Kernel) (d : VfioDevice) (index : ℕ) (buf : List ℕ) (addr : ℕ) (s : State)
    → 0 < length buf
    → addr + length buf < 2 ^ 64
    → get_region_offset d index + addr < 2 ^ 64
    → region_write k d index buf addr s ≡ (
      ok tt,
      if leb (addr + length buf) (get_region_size d index)
            && bit_and (get_region_flags d index) 2 != 0
          then record s {
            trace = write_all_at d.device buf (get_region_offset d index + addr) ∷ s.trace;
          }
          else s,
    )
unfolding region_write get_region_size get_region_offset get_region_flags
region_write-get_region k d index buf addr s some_bytes small low = ground arith
