-- ===== src/Tests/Device.antt =====
-- The theorems about devices, at concrete inputs.
use vfio.Prelude.{
  ℕ, ◌+◌, ◌≤◌, ◌≡◌, refl, ◌⊎◌, inl, inr, pos, true, none, List, [], ◌∷◌, ◌++◌, arith, length,
  lookup, ltb, leb, ◌&&◌, if◌then◌else◌, Dict,
}
use vfio.Error.{VfioError, ok}
use vfio.Host.Call.{mshv, read_exact_at, write_all_at}
use vfio.Group.{DeviceInfo}
use vfio.Device.Caps.{sparse_mmap, cap_type, msix_mappable, walk}
use vfio.Device.Caps.Bytes.{to_le, encode_cap}
use vfio.Device.Caps.Chain.{stop, link, walk-Chain}
use vfio.Device.Info.{VfioIrq, VfioRegion, get_irqs}
use vfio.Device.Info.Tables.{irq_answer, irq_entry, get_irqs_lem}
use vfio.Device.Irq.{VfioDevice, trigger_irq, enable_irq, max_interrupts}
use vfio.Device.Irq.Requests.{has_irq, one_request, no_data, trigger_irq_lem}
use vfio.Device.Irq.Enable.{fd_bytes, enable_irq_lem}
use vfio.Device.Irq.Limits.{max_interrupts_lem}
use vfio.Device.Region.{
  get_region_offset, get_region_size, get_region_flags, region_read, region_write,
}
use vfio.Device.Region.Getters.{region_write-get_region}
use vfio.DeviceFd.{try_clone}
use vfio.DeviceFd.Clone.{Clones, try_clone-Clones}
use vfio.Device.Region.Bounds.{region_read_lem, region_write_lem, region_write_wraps}
use vfio.TestDouble.{test_kernel, test_caps, test_cap_bytes, idle_state}

abbrev bar : VfioRegion
bar = record { flags = 3; size = 0x1000; offset = 0x10000; caps = [] }

abbrev card : VfioDevice
card = record {
  device = pos 9;
  flags = 2;
  regions = bar ∷ [];
  irqs =
      (0, record { flags = 2; index = 0; count = 1 })
      ∷ (1, record { flags = 1; index = 1; count = 32 })
      ∷ [];
  group = 0;
}

walk-Chain_example : walk (length test_cap_bytes + 2) test_cap_bytes 32 [] ≡ ok test_caps
walk-Chain_example = walk-Chain test_cap_bytes 3 32 test_caps (
    link msix_mappable 0 40 tt (omega arith) (omega arith) (inl (omega arith))
      (record {
        before = [];
        after =
            encode_cap (cap_type 5 6) 0 56
            ++ encode_cap (sparse_mmap (record { offset = 4; size = 3 } ∷ [])) 0 4;
        whole = refl;
        place = refl;
      })
      (link (cap_type 5 6) 0 56 (omega arith, omega arith) (omega arith) (omega arith)
        (inl (omega arith))
        (record {
          before = encode_cap msix_mappable 0 40;
          after = encode_cap (sparse_mmap (record { offset = 4; size = 3 } ∷ [])) 0 4;
          whole = refl;
          place = refl;
        })
        (link (sparse_mmap (record { offset = 4; size = 3 } ∷ [])) 0 4 (ground arith) (omega arith)
          (omega arith) (inr (omega arith))
          (record {
            before = encode_cap msix_mappable 0 40 ++ encode_cap (cap_type 5 6) 0 56;
            after = [];
            whole = refl;
            place = refl;
          })
          (stop (omega arith)))))

abbrev write_u32 : List ℕ → ℕ → List ℕ
write_u32 bytes n = to_le 4 n

enable_irq_example :
    (rest : List ℕ) × (enable_irq test_kernel write_u32 card 1 (pos 5 ∷ pos 6 ∷ []) idle_state
      ≡ one_request test_kernel card
          (has_irq card 1 (λ irq. ltb 0 irq.count && leb 2 irq.count))
          (record { argsz = 28; flags = 36; index = 1; start = 0; count = 2 })
          (fd_bytes (pos 5 ∷ pos 6 ∷ []) ++ rest)
          VfioError.vfio_device_enable_irq
          idle_state)
enable_irq_example =
    enable_irq_lem write_u32 (λ a b c d n small. refl) test_kernel card 1 (pos 5 ∷ pos 6 ∷ [])
      idle_state (omega arith)

trigger_irq_example :
    trigger_irq test_kernel card 1 31 idle_state
    ≡ one_request test_kernel card true
        (no_data test_kernel 32 1 31 1)
        []
        VfioError.vfio_device_trigger_irq
        idle_state
trigger_irq_example = trigger_irq_lem test_kernel card 1 31 idle_state

max_interrupts_example :
    (1 ≤ max_interrupts card)
    × (32 ≤ max_interrupts card)
    × (0 ≤ max_interrupts card)
    × ((max_interrupts card ≡ 1) ⊎ ((max_interrupts card ≡ 32) ⊎ (max_interrupts card ≡ 0)))
max_interrupts_example = max_interrupts_lem card

region_write_example :
    region_write test_kernel card 0 (1 ∷ 2 ∷ []) 0xffe idle_state
    ≡ (ok tt, record idle_state { trace = write_all_at (pos 9) (1 ∷ 2 ∷ []) 0x10ffe ∷ [] })
region_write_example =
    region_write_lem test_kernel card 0 (1 ∷ 2 ∷ []) 0xffe idle_state (omega arith) (omega arith)

region_write-get_region_example :
    region_write test_kernel card 0 (1 ∷ 2 ∷ []) 0xffe idle_state
    ≡ (ok tt, record idle_state { trace = write_all_at (pos 9) (1 ∷ 2 ∷ []) 0x10ffe ∷ [] })
unfolding get_region_offset get_region_size get_region_flags
region_write-get_region_example =
    region_write-get_region test_kernel card 0 (1 ∷ 2 ∷ []) 0xffe idle_state (omega arith)
      (omega arith) (omega arith)

try_clone-Clones_example :
    Clones test_kernel (mshv (pos 4)) idle_state (try_clone test_kernel (mshv (pos 4)) idle_state)
try_clone-Clones_example = try_clone-Clones test_kernel (mshv (pos 4)) idle_state refl

region_read_example :
    region_read test_kernel card 0 (1 ∷ 2 ∷ []) 0xffe idle_state
    ≡ (ok (0 ∷ 0 ∷ []), record idle_state { trace = read_exact_at (pos 9) 2 0x10ffe ∷ [] })
region_read_example =
    region_read_lem test_kernel card 0 (1 ∷ 2 ∷ []) 0xffe idle_state (omega arith) (omega arith)

region_write_wraps_example :
    (0x1000 ≤ 0xffffffffffffffff)
    × (region_write test_kernel card 0 (1 ∷ 2 ∷ []) 0xffffffffffffffff idle_state
        ≡ (ok tt, record idle_state { trace = write_all_at (pos 9) (1 ∷ 2 ∷ []) 0xffff ∷ [] }))
region_write_wraps_example =
    region_write_wraps test_kernel card 0 (1 ∷ 2 ∷ []) 0xffffffffffffffff idle_state bar refl
      (omega arith) (omega arith) (omega arith) (omega arith) (ground arith)

abbrev info : DeviceInfo
info = record { device = pos 9; flags = 2; num_regions = 9; num_irqs = 4 }

get_irqs_example :
    (irqs : Dict VfioIrq) × ((get_irqs test_kernel info idle_state).0 ≡ ok irqs)
    × ((key : ℕ)
        → lookup key irqs
          ≡ (if ltb key 4 then irq_entry key (irq_answer test_kernel (pos 9) [] key) else none))
get_irqs_example =
    get_irqs_lem test_kernel (pos 9) (irq_answer test_kernel (pos 9) []) (λ t i. refl) info
      idle_state refl
