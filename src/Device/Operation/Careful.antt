-- ===== src/Device/Operation/Careful.antt =====
-- Each operation of a device uses the device's file alone.
use vfio.Prelude.{
  ℕ, Bool, true, false, arith, Option, none, some, List, [], ◌∷◌, lookup, leb, ltb, ◌==◌, ◌!=◌,
  ◌||◌, length, bit_or,
}
use vfio.Bindings.Constants.{
  vfio_pci_intx_irq_index, vfio_irq_set_data_none, vfio_irq_set_action_trigger,
  vfio_irq_set_action_unmask,
}
use vfio.Bindings.Structs.{VfioIrqSet, size_of_irq_set}
use vfio.Fam.{vec_with_array_field}
use vfio.Error.{VfioError, ok, err}
use vfio.Host.Action.{raise_if, map_err, or_raise, ◌>>=◌, ◌>>◌}
use vfio.Host.Kernel.{Kernel}
use vfio.Host.Call.{Fd}
use vfio.Host.Careful.{Careful, still-Careful, or_raise-Careful, >>=-Careful, on_err-Careful}
use vfio.Syscall.{set_device_irqs, reset}
use vfio.Device.Irq.{
  VfioDevice, default_irq_set, size_of_u32, plain_irq_set, eventfd_irq_set, write_fds, send,
  send_irq_set, trigger_irq, enable_irq, disable_irq, unmask_irq, reset_device,
}
use vfio.Device.Info.{VfioIrq}
use vfio.Device.Region.{region_read, region_write}
use vfio.Device.Operation.{
  DeviceOp, resetting, triggering, enabling, disabling, unmasking, reading, writing, operate,
}

module _ (k : Kernel) (own : Fd) (d : VfioDevice) where
  raise_if-Careful : (b : Bool) (e : VfioError) → Careful k own d.device (raise_if b e)
  raise_if-Careful true e = still-Careful k own d.device (err e)
  raise_if-Careful false e = still-Careful k own d.device (ok tt)

  send-Careful :
      (fds : ℕ) (header : VfioIrqSet) (write : List ℕ → List ℕ) (o : Option (List VfioIrqSet))
      → Careful k own d.device (send k d fds header write o)
  unfolding set_device_irqs
  send-Careful fds header write none = still-Careful k own d.device _
  send-Careful fds header write (some []) = still-Careful k own d.device _
  send-Careful fds header write (some (v ∷ vs)) = record {
    calm = record { apply = λ s. ground arith };
    sound = λ s is so. ground arith;
  }

  send_irq_set-Careful :
      (fds : ℕ) (header : VfioIrqSet) (write : List ℕ → List ℕ)
      → Careful k own d.device (send_irq_set k d fds header write)
  unfolding send_irq_set
  send_irq_set-Careful fds header write =
      send-Careful fds header write
        (vec_with_array_field size_of_irq_set default_irq_set size_of_u32 fds)

  -- The shape of the four operations on interrupts.
  request-Careful :
      (irq : Option VfioIrq) (refuses : VfioIrq → Bool) (e : VfioError) (fds : ℕ)
      (header : VfioIrqSet) (write : List ℕ → List ℕ)
      → Careful k own d.device (
          or_raise irq e >>= λ i.
          raise_if (refuses i) e >> map_err (send_irq_set k d fds header write) e)
  request-Careful irq refuses e fds header write =
      >>=-Careful k own d.device (or_raise-Careful k own d.device irq e) (λ i.
        >>=-Careful k own d.device (raise_if-Careful (refuses i) e) (λ u.
          on_err-Careful k own d.device (send_irq_set-Careful fds header write)
            (λ x. still-Careful k own d.device (err e))))

  region_read-Careful :
      (index : ℕ) (buf : List ℕ) (addr : ℕ)
      → Careful k own d.device (region_read k d index buf addr)
  unfolding region_read
  region_read-Careful index buf addr = record {
    calm = record { apply = λ s. ground arith };
    sound = λ s is so. ground arith;
  }

  region_write-Careful :
      (index : ℕ) (buf : List ℕ) (addr : ℕ)
      → Careful k own d.device (region_write k d index buf addr)
  unfolding region_write
  region_write-Careful index buf addr = record {
    calm = record { apply = λ s. ground arith };
    sound = λ s is so. ground arith;
  }

  reset_device-Careful : Careful k own d.device (reset_device k d)
  unfolding reset_device reset
  reset_device-Careful = record {
    calm = record { apply = λ s. ground arith };
    sound = λ s is so. ground arith;
  }

  pub operate-Careful : (o : DeviceOp) → Careful k own d.device (operate k d o)
  unfolding operate trigger_irq enable_irq disable_irq unmask_irq
  operate-Careful resetting = reset_device-Careful
  operate-Careful (triggering irq_index vector) =
      request-Careful (lookup irq_index d.irqs) (λ irq. leb irq.count vector)
        VfioError.vfio_device_trigger_irq 0
        (plain_irq_set (bit_or vfio_irq_set_data_none vfio_irq_set_action_trigger) irq_index vector
          1)
        (λ bytes. bytes)
  operate-Careful (enabling write_u32 irq_index event_fds) =
      request-Careful (lookup irq_index d.irqs)
        (λ irq. irq.count == 0 || ltb irq.count (length event_fds)) VfioError.vfio_device_enable_irq
        (length event_fds) (eventfd_irq_set irq_index (length event_fds))
        (write_fds write_u32 event_fds)
  operate-Careful (disabling irq_index) =
      request-Careful (lookup irq_index d.irqs) (λ irq. irq.count == 0)
        VfioError.vfio_device_disable_irq 0
        (plain_irq_set (bit_or vfio_irq_set_data_none vfio_irq_set_action_trigger) irq_index 0 0)
        (λ bytes. bytes)
  operate-Careful (unmasking irq_index) =
      request-Careful (lookup irq_index d.irqs)
        (λ irq. irq.count == 0 || (irq.count != 1 || irq.index != vfio_pci_intx_irq_index))
        VfioError.vfio_device_unmask_irq 0
        (plain_irq_set (bit_or vfio_irq_set_data_none vfio_irq_set_action_unmask) irq_index 0 1)
        (λ bytes. bytes)
  operate-Careful (reading index buf addr) =
      >>=-Careful k own d.device (region_read-Careful index buf addr)
        (λ bytes. still-Careful k own d.device (ok tt))
  operate-Careful (writing index buf addr) = region_write-Careful index buf addr
