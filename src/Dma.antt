-- ===== src/Dma.antt =====
-- The DMA mappings of `VfioContainer` in crates/vfio-ioctls/src/vfio_device.rs. A `GuestMemory` of the
-- vm-memory crate is the list of the regions that its `iter` yields.
pub mod Mapped
pub mod Careful
pub mod RoundTrip
use vfio.Prelude.{ℕ, Option, List, [], ◌∷◌, ◌!=◌, bit_or}
use vfio.Bindings.Constants.{vfio_dma_map_flag_read, vfio_dma_map_flag_write}
use vfio.Bindings.Structs.{
  VfioIommuType1DmaMap, VfioIommuType1DmaUnmap, size_of_dma_map, size_of_dma_unmap,
}
use vfio.Error.{VfioError}
use vfio.Host.Kernel.{Kernel}
use vfio.Host.Action.{Action, pure, raise_if, or_raise, ◌>>=◌, ◌>>◌}
use vfio.Syscall.{map_dma, unmap_dma}
use vfio.Container.{VfioContainer}

-- A `GuestMemoryRegion`: where the guest sees it, its length, and the host address of an offset in
-- it, if it has one.
pub record GuestRegion : Type 0 where
  pub start_addr : ℕ
  pub len : ℕ
  pub get_host_address : ℕ → Option ℕ

abbrev pub dma_map_request : ℕ → ℕ → ℕ → VfioIommuType1DmaMap
dma_map_request iova size user_addr = record {
  argsz = size_of_dma_map;
  flags = bit_or vfio_dma_map_flag_read vfio_dma_map_flag_write;
  vaddr = user_addr;
  iova = iova;
  size = size;
}

abbrev pub dma_unmap_request : ℕ → ℕ → VfioIommuType1DmaUnmap
dma_unmap_request iova size = record {
  argsz = size_of_dma_unmap;
  flags = 0;
  iova = iova;
  size = size;
}

-- `Iterator::try_for_each`
unfoldable pub try_for_each {ℓ} :
    {A : Type ℓ} → (A → Action (Unit {0})) → List A → Action (Unit {0})
try_for_each f [] = pure tt
try_for_each f (x ∷ xs) = f x >> try_for_each f xs

module _ (k : Kernel) (c : VfioContainer) where
  unfoldable pub vfio_dma_map : ℕ → ℕ → ℕ → Action (Unit {0})
  unfolding map_dma
  vfio_dma_map iova size user_addr = map_dma k c.container (dma_map_request iova size user_addr)

  unfoldable pub vfio_dma_unmap : ℕ → ℕ → Action (Unit {0})
  unfolding unmap_dma
  vfio_dma_unmap iova size = do
    dma_unmap ← unmap_dma k c.container (dma_unmap_request iova size)
    raise_if (dma_unmap.size != size) VfioError.invalid_dma_unmap_size

  unfoldable pub map_region : GuestRegion → Action (Unit {0})
  unfolding vfio_dma_map
  map_region region = do
    host_addr ← or_raise (region.get_host_address 0) VfioError.get_host_address
    vfio_dma_map region.start_addr region.len host_addr

  unfoldable pub unmap_region : GuestRegion → Action (Unit {0})
  unfolding vfio_dma_unmap
  unmap_region region = vfio_dma_unmap region.start_addr region.len

  unfoldable pub vfio_map_guest_memory : List GuestRegion → Action (Unit {0})
  vfio_map_guest_memory mem = try_for_each map_region mem

  unfoldable pub vfio_unmap_guest_memory : List GuestRegion → Action (Unit {0})
  vfio_unmap_guest_memory mem = try_for_each unmap_region mem
