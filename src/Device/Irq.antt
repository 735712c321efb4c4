-- ===== src/Device/Irq.antt =====
-- The interrupt operations of `VfioDevice` in crates/vfio-ioctls/src/vfio_device.rs.
-- `byteorder::LittleEndian::write_u32` is a parameter: what it leaves in a slice of four bytes.
pub mod Requests
pub mod Enable
pub mod Limits
use vfio.Prelude.{
  ℕ, suc, ◌+◌, ◌*◌, ◌%◌, ◌^◌, as_u32, Option, none, some, List, [], ◌∷◌, ◌++◌, Dict, lookup, length,
  replicate, take, drop, ltb, leb, ◌==◌, ◌!=◌, ◌||◌, if◌then◌else◌, bit_or, bit_and,
}
use vfio.Bindings.Constants.{
  vfio_irq_set_data_none, vfio_irq_set_data_eventfd, vfio_irq_set_action_trigger,
  vfio_irq_set_action_unmask, vfio_pci_intx_irq_index, vfio_pci_msi_irq_index,
  vfio_pci_msix_irq_index, vfio_device_flags_reset,
}
use vfio.Bindings.Structs.{VfioIrqSet, size_of_irq_set}
use vfio.Error.{VfioError, panic}
use vfio.Fam.{vec_with_array_field}
use vfio.Host.Call.{Fd}
use vfio.Host.Kernel.{Kernel}
use vfio.Host.Action.{Action, pure, stop, raise_if, or_raise, map_err, ◌>>=◌, ◌>>◌}
use vfio.Syscall.{set_device_irqs, reset}
use vfio.Device.Info.{VfioIrq, VfioRegion}

-- `VfioDevice`: the `Arc` of its group is a name in the state's heap; its container is an argument
-- of what uses it.
pub record VfioDevice : Type 0 where
  pub device : Fd
  pub flags : ℕ
  pub regions : List VfioRegion
  pub irqs : Dict VfioIrq
  pub group : ℕ

abbrev pub default_irq_set : VfioIrqSet
default_irq_set = record { argsz = 0; flags = 0; index = 0; start = 0; count = 0 }

-- `size_of::<u32>()`
abbrev pub size_of_u32 : ℕ
size_of_u32 = 4

-- `get_irq_info`
abbrev pub get_irq_info : VfioDevice → ℕ → Option VfioIrq
get_irq_info d irq_index = lookup irq_index d.irqs

-- `x as u32`
abbrev pub to_u32 : ℕ → ℕ
to_u32 n = n % 2 ^ 32

-- The header of a set with no data.
abbrev pub plain_irq_set : ℕ → ℕ → ℕ → ℕ → VfioIrqSet
plain_irq_set flags index start count = record {
  argsz = size_of_irq_set;
  flags = flags;
  index = index;
  start = start;
  count = count;
}

-- The header that `enable_irq` sends with `n` event descriptors.
abbrev pub eventfd_irq_set : ℕ → ℕ → VfioIrqSet
eventfd_irq_set index n = record {
  argsz = to_u32 (size_of_irq_set + to_u32 (n * size_of_u32));
  flags = bit_or vfio_irq_set_data_eventfd vfio_irq_set_action_trigger;
  index = index;
  start = 0;
  count = to_u32 n;
}

module _ (write_u32 : List ℕ → ℕ → List ℕ) where
  -- The loop that writes each descriptor into its four bytes of `fds`.
  unfoldable pub write_fds : List Fd → List ℕ → List ℕ
  write_fds [] bytes = bytes
  write_fds (fd ∷ fds) bytes =
      write_u32 (take size_of_u32 bytes) (as_u32 fd) ++ write_fds fds (drop size_of_u32 bytes)

module _ (k : Kernel) where
  -- Send a header in a vector with room for `fds` descriptors, filled in by `write`.
  abbrev pub send :
      VfioDevice → ℕ → VfioIrqSet → (List ℕ → List ℕ) → Option (List VfioIrqSet) → Action (Unit {0})
  send d fds header write none = stop panic
  send d fds header write (some []) = stop panic
  send d fds header write (some (v ∷ vs)) =
      let bytes : List ℕ = replicate (length vs * size_of_irq_set) 0 in
      set_device_irqs k d.device (suc (length vs)) header
        (write (take (fds * size_of_u32) bytes) ++ drop (fds * size_of_u32) bytes)

  unfoldable pub send_irq_set : VfioDevice → ℕ → VfioIrqSet → (List ℕ → List ℕ) → Action (Unit {0})
  unfolding vec_with_array_field set_device_irqs
  send_irq_set d fds header write =
      send d fds header write (vec_with_array_field size_of_irq_set default_irq_set size_of_u32 fds)

  unfoldable pub trigger_irq : VfioDevice → ℕ → ℕ → Action (Unit {0})
  unfolding send_irq_set
  trigger_irq d irq_index vector = do
    irq ← or_raise (lookup irq_index d.irqs) VfioError.vfio_device_trigger_irq
    raise_if (leb irq.count vector) VfioError.vfio_device_trigger_irq
    map_err
        (send_irq_set d 0
          (plain_irq_set (bit_or vfio_irq_set_data_none vfio_irq_set_action_trigger) irq_index
            vector 1)
          λ bytes. bytes)
        VfioError.vfio_device_trigger_irq

  unfoldable pub enable_irq : (List ℕ → ℕ → List ℕ) → VfioDevice → ℕ → List Fd → Action (Unit {0})
  unfolding send_irq_set write_fds
  enable_irq write_u32 d irq_index event_fds = do
    irq ← or_raise (lookup irq_index d.irqs) VfioError.vfio_device_enable_irq
    raise_if (irq.count == 0 || ltb irq.count (length event_fds)) VfioError.vfio_device_enable_irq
    map_err
        (send_irq_set d (length event_fds) (eventfd_irq_set irq_index (length event_fds))
          (write_fds write_u32 event_fds))
        VfioError.vfio_device_enable_irq

  unfoldable pub disable_irq : VfioDevice → ℕ → Action (Unit {0})
  unfolding send_irq_set
  disable_irq d irq_index = do
    irq ← or_raise (lookup irq_index d.irqs) VfioError.vfio_device_disable_irq
    raise_if (irq.count == 0) VfioError.vfio_device_disable_irq
    map_err
        (send_irq_set d 0
          (plain_irq_set (bit_or vfio_irq_set_data_none vfio_irq_set_action_trigger) irq_index 0 0)
          λ bytes. bytes)
        VfioError.vfio_device_disable_irq

  unfoldable pub unmask_irq : VfioDevice → ℕ → Action (Unit {0})
  unfolding send_irq_set
  unmask_irq d irq_index = do
    irq ← or_raise (lookup irq_index d.irqs) VfioError.vfio_device_unmask_irq
    raise_if (irq.count == 0 || (irq.count != 1 || irq.index != vfio_pci_intx_irq_index))
        VfioError.vfio_device_unmask_irq
    map_err
        (send_irq_set d 0
          (plain_irq_set (bit_or vfio_irq_set_data_none vfio_irq_set_action_unmask) irq_index 0 1)
          λ bytes. bytes)
        VfioError.vfio_device_unmask_irq

  abbrev pub enable_msi : (List ℕ → ℕ → List ℕ) → VfioDevice → List Fd → Action (Unit {0})
  enable_msi write_u32 d fds = enable_irq write_u32 d vfio_pci_msi_irq_index fds

  abbrev pub disable_msi : VfioDevice → Action (Unit {0})
  disable_msi d = disable_irq d vfio_pci_msi_irq_index

  abbrev pub enable_msix : (List ℕ → ℕ → List ℕ) → VfioDevice → List Fd → Action (Unit {0})
  enable_msix write_u32 d fds = enable_irq write_u32 d vfio_pci_msix_irq_index fds

  abbrev pub disable_msix : VfioDevice → Action (Unit {0})
  disable_msix d = disable_irq d vfio_pci_msix_irq_index

  -- The device is reset only if it can be; what the kernel answers is not looked at.
  unfoldable pub reset_device : VfioDevice → Action (Unit {0})
  unfolding reset
  reset_device d =
      if bit_and d.flags vfio_device_flags_reset != 0 then reset k d.device >> pure tt else pure tt

abbrev pub raise_to : ℕ → Option VfioIrq → ℕ
raise_to most none = most
raise_to most (some irq) = if ltb most irq.count then irq.count else most

pub max_over : VfioDevice → List ℕ → ℕ → ℕ
max_over d [] most = most
max_over d (index ∷ indexes) most = max_over d indexes (raise_to most (lookup index d.irqs))

unfoldable pub max_interrupts : VfioDevice → ℕ
unfolding max_over
max_interrupts d =
    max_over d (vfio_pci_intx_irq_index ∷ vfio_pci_msi_irq_index ∷ vfio_pci_msix_irq_index ∷ []) 0
