-- ===== src/Dma/Careful.antt =====
-- Mapping guest memory uses the container's file alone.
use vfio.Prelude.{arith, List, [], ◌∷◌}
use vfio.Error.{ok}
use vfio.Host.Action.{Action}
use vfio.Host.Call.{Fd}
use vfio.Host.Kernel.{Kernel}
use vfio.Host.Careful.{Careful, still-Careful, >>=-Careful}
use vfio.Syscall.{map_dma, unmap_dma}
use vfio.Container.{VfioContainer}
use vfio.Dma.{
  GuestRegion, try_for_each, vfio_dma_map, vfio_dma_unmap, map_region, unmap_region,
  vfio_map_guest_memory, vfio_unmap_guest_memory,
}

module _ (k : Kernel) (own fd : Fd) where
  try_for_each-Careful :
      (f : GuestRegion → Action (Unit {0}))
      → ((r : GuestRegion) → Careful k own fd (f r))
      → (mem : List GuestRegion) → Careful k own fd (try_for_each f mem)
  unfolding try_for_each
  try_for_each-Careful f careful [] = still-Careful k own fd (ok tt)
  try_for_each-Careful f careful (r ∷ mem) =
      >>=-Careful k own fd (careful r) (λ u. try_for_each-Careful f careful mem)

module _ (k : Kernel) (own : Fd) (c : VfioContainer) where
  map_region-Careful : (r : GuestRegion) → Careful k own c.container (map_region k c r)
  unfolding map_region vfio_dma_map map_dma
  map_region-Careful r = record {
    calm = record { apply = λ s. ground arith };
    sound = λ s is so. ground arith;
  }

  unmap_region-Careful : (r : GuestRegion) → Careful k own c.container (unmap_region k c r)
  unfolding unmap_region vfio_dma_unmap unmap_dma
  unmap_region-Careful r = record {
    calm = record { apply = λ s. ground arith };
    sound = λ s is so. ground arith;
  }

  pub vfio_map_guest_memory-Careful :
      (mem : List GuestRegion) → Careful k own c.container (vfio_map_guest_memory k c mem)
  unfolding vfio_map_guest_memory
  vfio_map_guest_memory-Careful mem =
      try_for_each-Careful k own c.container (map_region k c) map_region-Careful mem

  pub vfio_unmap_guest_memory-Careful :
      (mem : List GuestRegion) → Careful k own c.container (vfio_unmap_guest_memory k c mem)
  unfolding vfio_unmap_guest_memory
  vfio_unmap_guest_memory-Careful mem =
      try_for_each-Careful k own c.container (unmap_region k c) unmap_region-Careful mem
