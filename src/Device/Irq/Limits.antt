-- ===== src/Device/Irq/Limits.antt =====
-- `max_interrupts`: the largest count of the three PCI interrupt indexes.
use vfio.Prelude.{ℕ, ◌≤◌, ◌≡◌, none, some, arith, lookup, ◌⊎◌}
use vfio.Device.Irq.{VfioDevice, max_interrupts, max_over}

-- How many vectors the index has: none, if the device does not report it.
abbrev pub vectors : VfioDevice → ℕ → ℕ
vectors d index = elim (lookup index d.irqs) [ none ↦ 0 | some irq ↦ irq.count ]

-- max_interrupts is the number of vectors of one of the indexes INTx, MSI and MSI-X, and none of
-- the three has more; an index that the device does not report has none.
pub max_interrupts_lem :
    (d : VfioDevice)
    → (vectors d 0 ≤ max_interrupts d)
      × (vectors d 1 ≤ max_interrupts d)
      × (vectors d 2 ≤ max_interrupts d)
      × ((max_interrupts d ≡ vectors d 0)
          ⊎ ((max_interrupts d ≡ vectors d 1) ⊎ (max_interrupts d ≡ vectors d 2)))
unfolding max_interrupts max_over
max_interrupts_lem d = ground arith
