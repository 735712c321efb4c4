-- ===== src/Device/Operation.antt =====
-- What a client does with an open device.
pub mod Careful
use vfio.Prelude.{ℕ, List}
use vfio.Host.Call.{Fd}
use vfio.Host.Kernel.{Kernel}
use vfio.Host.Action.{Action, pure, ◌>>◌}
use vfio.Device.Irq.{VfioDevice, trigger_irq, enable_irq, disable_irq, unmask_irq, reset_device}
use vfio.Device.Region.{region_read, region_write}

-- One call of a method of `VfioDevice` with its arguments, the buffer's bytes for a slice.
-- `enabling` carries byteorder's `write_u32`.
pub data DeviceOp : Type 0 where
  resetting : DeviceOp
  triggering : ℕ → ℕ → DeviceOp
  enabling : (List ℕ → ℕ → List ℕ) → ℕ → List Fd → DeviceOp
  disabling unmasking : ℕ → DeviceOp
  reading writing : ℕ → List ℕ → ℕ → DeviceOp

unfoldable pub operate : Kernel → VfioDevice → DeviceOp → Action (Unit {0})
operate k d resetting = reset_device k d
operate k d (triggering irq_index vector) = trigger_irq k d irq_index vector
operate k d (enabling write_u32 irq_index event_fds) = enable_irq k write_u32 d irq_index event_fds
operate k d (disabling irq_index) = disable_irq k d irq_index
operate k d (unmasking irq_index) = unmask_irq k d irq_index
operate k d (reading index buf addr) = region_read k d index buf addr >> pure tt
operate k d (writing index buf addr) = region_write k d index buf addr
