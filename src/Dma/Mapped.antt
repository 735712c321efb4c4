-- ===== src/Dma/Mapped.antt =====
-- What mapping and unmapping a guest's memory asks of the kernel.
use vfio.Prelude.{
  subst, ℕ, ◌≡◌, refl, ap, true, false, none, some, List, [], ◌∷◌, ◌++◌, ◌⊎◌, inl, inr, arith,
  is_zero, Bool-cases, Option-cases,
}
use vfio.Error.{VfioError, Outcome, ok, err, fault}
use vfio.Host.Call.{Call, ioctl, Arg, Trace}
use vfio.Host.Kernel.{Kernel}
use vfio.Host.Action.{State, ◌>>◌}
use vfio.Syscall.Requests
use vfio.Container.{VfioContainer}
use vfio.Dma.{GuestRegion, try_for_each, map_region, vfio_map_guest_memory}

module _ (k : Kernel) (c : VfioContainer) where
  -- The request that maps a region, readable and writable, whose memory begins at a host address.
  abbrev pub map_call : GuestRegion → ℕ → Call
  map_call r host = ioctl c.container Requests.vfio_iommu_map_dma (
      Arg.dma_map
        (record { argsz = 32; flags = 3; vaddr = host; iova = r.start_addr; size = r.len }))

  -- From one record of calls to another, the regions have been mapped one after another, each with
  -- one request that the kernel granted.
  abbrev pub Mapped : List GuestRegion → Trace → Trace → Type 0
  Mapped [] t t' = t' ≡ t
  Mapped (r ∷ rs) t t' =
      (host : ℕ) × (r.get_host_address 0 ≡ some host)
      × (is_zero (k.ret t (map_call r host)) ≡ true)
      × Mapped rs (map_call r host ∷ t) t'

  -- A region could not be mapped: it has no host address, and nothing is asked of the kernel, or the
  -- kernel refused.
  abbrev pub Refused : GuestRegion → VfioError → Trace → Trace → Type 0
  Refused r e t t' =
      ((r.get_host_address 0 ≡ none) × (e ≡ VfioError.get_host_address) × (t' ≡ t))
      ⊎ ((host : ℕ) × (r.get_host_address 0 ≡ some host)
          × (is_zero (k.ret t (map_call r host)) ≡ false)
          × (e ≡ VfioError.iommu_dma_map (k.errno (map_call r host ∷ t)))
          × (t' ≡ map_call r host ∷ t))

  -- All regions were mapped, or those before the first that could not be.
  abbrev pub Maps : List GuestRegion → Trace → Outcome (Unit {0}) × State → Type 0
  Maps mem t (ok u, s') = Mapped mem t s'.trace
  Maps mem t (err e, s') =
      (done : List GuestRegion) × (r : GuestRegion) × (rest : List GuestRegion) × (t' : Trace)
      × (mem ≡ done ++ r ∷ rest)
      × Mapped done t t'
      × Refused r e t' s'.trace
  Maps mem t (fault x, s') = ⊥

  -- One region.
  abbrev Region : GuestRegion → Trace → Outcome (Unit {0}) × State → Type 0
  Region r t (ok u, s') =
      (host : ℕ) × (r.get_host_address 0 ≡ some host)
      × (is_zero (k.ret t (map_call r host)) ≡ true)
      × (s'.trace ≡ map_call r host ∷ t)
  Region r t (err e, s') = Refused r e t s'.trace
  Region r t (fault x, s') = ⊥

  map_region-Region : (r : GuestRegion) (s : State) → Region r s.trace (map_region k c r s)
  unfolding map_region
  map_region-Region r s = elim (Option-cases (r.get_host_address 0)) [
    | inl missing ↦
        let ends : (err VfioError.get_host_address, s) ≡ map_region k c r s = ground arith in
        subst (Region r s.trace) ends (inl (missing, refl, refl))
    | inr (host, found) ↦
        let s' : State = record s { trace = map_call r host ∷ s.trace } in
        elim (Bool-cases (is_zero (k.ret s.trace (map_call r host)))) [
          | inl granted ↦
              let ends : (ok tt, s') ≡ map_region k c r s = ground arith in
              subst (Region r s.trace) ends (host, found, granted, refl)
          | inr refused ↦
              let ends : (err (VfioError.iommu_dma_map (k.errno s'.trace)), s')
                  ≡ map_region k c r s =
                ground arith in
              subst (Region r s.trace) ends (inr (host, found, refused, refl, refl))
        ]
  ]

  -- The regions behind the first, after it was mapped.
  later-Maps :
      (r : GuestRegion) (mem : List GuestRegion) (t : Trace) (host : ℕ)
      (x : Outcome (Unit {0}) × State)
      → r.get_host_address 0 ≡ some host
      → is_zero (k.ret t (map_call r host)) ≡ true
      → Maps mem (map_call r host ∷ t) x
      → Maps (r ∷ mem) t x
  later-Maps r mem t host (ok u, s') found granted m = (host, found, granted, m)
  later-Maps r mem t host (err e, s') found granted (done, bad, rest, t', split, before, refused) =
      (r ∷ done, bad, rest, t', ap (◌∷◌ r) split, (host, found, granted, before), refused)
  later-Maps r mem t host (fault y, s') found granted m = m

  first-Maps :
      (r : GuestRegion) (mem : List GuestRegion) (t : Trace) (x : Outcome (Unit {0}) × State)
      → Region r t x
      → ((s : State) → Maps mem s.trace (try_for_each (map_region k c) mem s))
      → Maps (r ∷ mem) t (((λ _. x) >> try_for_each (map_region k c) mem) x.1)
  first-Maps r mem t (ok u, s') (host, found, granted, e) later =
      later-Maps r mem t host (try_for_each (map_region k c) mem s') found granted
        (subst (λ v. Maps mem v (try_for_each (map_region k c) mem s')) e (later s'))
  first-Maps r mem t (err e, s') refused later = ([], r, mem, t, refl, refl, refused)
  first-Maps r mem t (fault y, s') b later = b

  try_for_each-Maps :
      (mem : List GuestRegion) (s : State) → Maps mem s.trace (try_for_each (map_region k c) mem s)
  unfolding try_for_each
  try_for_each-Maps [] s = refl
  try_for_each-Maps (r ∷ mem) s =
      first-Maps r mem s.trace (map_region k c r s) (map_region-Region r s) (try_for_each-Maps mem)

  -- Whatever the kernel answers: where mapping a guest's memory succeeds, every region was mapped
  -- in order with one granted request, readable and writable, at its guest address, with its length
  -- and its host address; where it fails, the regions before the first that has no host address or
  -- is refused were mapped that way, nothing was asked for the ones behind it, and the error says
  -- which of the two it was. It never panics.
  pub vfio_map_guest_memory-Maps :
      (mem : List GuestRegion) (s : State) → Maps mem s.trace (vfio_map_guest_memory k c mem s)
  unfolding vfio_map_guest_memory
  vfio_map_guest_memory-Maps mem s = try_for_each-Maps mem s
