-- ===== src/Dma/RoundTrip.antt =====
-- Mapping a guest's memory and unmapping it again leaves the IOMMU's table as it was.
use vfio.Prelude.{
  ℕ, suc, ◌+◌, ◌-◌, ◌≡◌, refl, subst, Bool, List, [], ◌∷◌, arith, is_zero, ◌==◌, ◌&&◌,
  if◌then◌else◌,
}
use vfio.Error.{Outcome, ok, err, fault}
use vfio.Host.Call.{
  Fd, Call, opened, closed, dup, ioctl, set_device_attr, read_exact_at, write_all_at, Arg, nothing,
  value, raw_fd, c_str, group_status, device_info, region_info, region_info_with_cap, irq_info,
  irq_set, dma_map, dma_unmap, Trace,
}
use vfio.Host.Kernel.{Kernel}
use vfio.Host.Action.{State, ◌>>◌}
use vfio.Container.{VfioContainer}
use vfio.Dma.{
  GuestRegion, try_for_each, unmap_region, vfio_map_guest_memory, vfio_unmap_guest_memory,
}
use vfio.Dma.Mapped.{map_call, Mapped, Maps, vfio_map_guest_memory-Maps}

-- The range that a request names.
abbrev pub is_range : ℕ → ℕ → ℕ → ℕ → Bool
is_range iova size i n = i == iova && n == size

-- How often a range stands in the table after a granted request. A range that was removed only in
-- part, by the size that the kernel reports, still stands there.
abbrev count_after : Kernel → Trace → Fd → ℕ → ℕ → Arg → ℕ → ℕ
count_after k t fd iova size (dma_map m) n = if is_range iova size m.iova m.size then suc n else n
count_after k t fd iova size (dma_unmap m) n =
    if is_range iova size m.iova m.size && (k.dma_unmap t fd m).size == m.size then n - 1 else n
count_after k t fd iova size nothing n = n
count_after k t fd iova size (value v) n = n
count_after k t fd iova size (raw_fd x) n = n
count_after k t fd iova size (c_str s) n = n
count_after k t fd iova size (group_status i) n = n
count_after k t fd iova size (device_info i) n = n
count_after k t fd iova size (region_info i) n = n
count_after k t fd iova size (region_info_with_cap i) n = n
count_after k t fd iova size (irq_info i) n = n
count_after k t fd iova size (irq_set h bs) n = n

abbrev count_step : Kernel → Trace → ℕ → ℕ → Call → ℕ → ℕ
count_step k t iova size (ioctl fd request arg) n =
    if is_zero (k.ret t (ioctl fd request arg)) then count_after k t fd iova size arg n else n
count_step k t iova size (opened p) n = n
count_step k t iova size (closed fd) n = n
count_step k t iova size (dup fd) n = n
count_step k t iova size (set_device_attr d a) n = n
count_step k t iova size (read_exact_at fd n' o) n = n
count_step k t iova size (write_all_at fd bs o) n = n

-- How often a range stands in the IOMMU's table, as the calls so far and the kernel's answers say.
abbrev pub mapping_count : Kernel → Trace → ℕ → ℕ → ℕ
mapping_count k [] iova size = 0
mapping_count k (c ∷ t) iova size = count_step k t iova size c (mapping_count k t iova size)

-- How many of the regions are this range.
abbrev pub ranges : List GuestRegion → ℕ → ℕ → ℕ
ranges [] iova size = 0
ranges (r ∷ rs) iova size =
    if is_range iova size r.start_addr r.len then suc (ranges rs iova size) else ranges rs iova size

module _ (k : Kernel) (c : VfioContainer) where
  mapping_count-Mapped :
      (mem : List GuestRegion) (t t' : Trace) (iova size : ℕ)
      → Mapped k c mem t t'
      → mapping_count k t' iova size ≡ mapping_count k t iova size + ranges mem iova size
  mapping_count-Mapped [] t t' iova size e = rw e (omega arith)
  mapping_count-Mapped (r ∷ mem) t t' iova size (host, found, granted, later) =
      ground (arith, mapping_count-Mapped mem (map_call k c r host ∷ t) t' iova size later)

  -- What one granted removal does to the count.
  abbrev Removes : GuestRegion → State → Outcome (Unit {0}) × State → Type 0
  Removes r s (ok u, s') =
      (iova size : ℕ)
      → mapping_count k s'.trace iova size
        ≡ mapping_count k s.trace iova size - ranges (r ∷ []) iova size
  Removes r s (err e, s') = Unit {0}
  Removes r s (fault x, s') = Unit {0}

  unmap_region-Removes : (r : GuestRegion) (s : State) → Removes r s (unmap_region k c r s)
  unfolding unmap_region
  unmap_region-Removes r s = ground arith

  abbrev RemovesAll : List GuestRegion → State → Outcome (Unit {0}) × State → Type 0
  RemovesAll mem s (ok u, s') =
      (iova size : ℕ)
      → mapping_count k s'.trace iova size
        ≡ mapping_count k s.trace iova size - ranges mem iova size
  RemovesAll mem s (err e, s') = Unit {0}
  RemovesAll mem s (fault x, s') = Unit {0}

  joined-RemovesAll :
      (r : GuestRegion) (mem : List GuestRegion) (s s' : State) (x : Outcome (Unit {0}) × State)
      → ((iova size : ℕ)
          → mapping_count k s'.trace iova size
            ≡ mapping_count k s.trace iova size - ranges (r ∷ []) iova size)
      → RemovesAll mem s' x
      → RemovesAll (r ∷ mem) s x
  joined-RemovesAll r mem s s' (ok u, s'') one all =
      λ iova size. ground (arith, one iova size, all iova size)
  joined-RemovesAll r mem s s' (err e, s'') one all = tt
  joined-RemovesAll r mem s s' (fault y, s'') one all = tt

  first-RemovesAll :
      (r : GuestRegion) (mem : List GuestRegion) (s : State) (x : Outcome (Unit {0}) × State)
      → Removes r s x
      → ((v : State) → RemovesAll mem v (try_for_each (unmap_region k c) mem v))
      → RemovesAll (r ∷ mem) s (((λ _. x) >> try_for_each (unmap_region k c) mem) s)
  first-RemovesAll r mem s (ok u, s') one all =
      joined-RemovesAll r mem s s' (try_for_each (unmap_region k c) mem s') one (all s')
  first-RemovesAll r mem s (err e, s') one all = tt
  first-RemovesAll r mem s (fault y, s') one all = tt

  try_for_each-RemovesAll :
      (mem : List GuestRegion) (s : State)
      → RemovesAll mem s (try_for_each (unmap_region k c) mem s)
  unfolding try_for_each
  try_for_each-RemovesAll [] s = λ iova size. omega arith
  try_for_each-RemovesAll (r ∷ mem) s =
      first-RemovesAll r mem s (unmap_region k c r s) (unmap_region-Removes r s)
        (try_for_each-RemovesAll mem)

  restored :
      (mem : List GuestRegion) (s : State) (x y : Outcome (Unit {0}) × State)
      → x.0 ≡ ok tt
      → y.0 ≡ ok tt
      → Maps k c mem s.trace x
      → RemovesAll mem x.1 y
      → (iova size : ℕ) → mapping_count k y.1.trace iova size ≡ mapping_count k s.trace iova size
  restored mem s (ok u, s1) (ok v, s2) p q m r iova size =
      omega (arith, r iova size, mapping_count-Mapped mem s.trace s1.trace iova size m)
  restored mem s (ok u, s1) (err e, s2) p q m r iova size = cc
  restored mem s (ok u, s1) (fault e, s2) p q m r iova size = cc
  restored mem s (err e, s1) y p q m r iova size = cc
  restored mem s (fault e, s1) y p q m r iova size = cc

  -- Where mapping a guest's memory and then unmapping it both succeed, every range stands as often
  -- in the IOMMU's table as before; the table is read off the granted requests, and a removal
  -- counts only if the kernel reports the range's whole size as unmapped.
  pub map-unmap_guest_memory :
      (mem : List GuestRegion) (s s1 s2 : State)
      → vfio_map_guest_memory k c mem s ≡ (ok tt, s1)
      → vfio_unmap_guest_memory k c mem s1 ≡ (ok tt, s2)
      → (iova size : ℕ) → mapping_count k s2.trace iova size ≡ mapping_count k s.trace iova size
  unfolding vfio_unmap_guest_memory
  map-unmap_guest_memory mem s s1 s2 p q =
      restored mem s (ok tt, s1) (ok tt, s2) refl refl
        (subst (Maps k c mem s.trace) p (vfio_map_guest_memory-Maps k c mem s))
        (subst (RemovesAll mem s1) q (try_for_each-RemovesAll mem s1))
