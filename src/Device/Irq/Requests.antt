-- ===== src/Device/Irq/Requests.antt =====
-- What the interrupt operations send to the kernel, and when.
use vfio.Prelude.{
  ℕ, ◌+◌, ◌≡◌, Bool, true, false, none, some, List, [], ◌∷◌, arith, is_negative, ltb, ◌==◌, ◌&&◌,
  if◌then◌else◌, lookup,
}
use vfio.Error.{VfioError, Outcome, ok, err}
use vfio.Host.Call.{Call, ioctl, Arg}
use vfio.Host.Kernel.{Kernel}
use vfio.Host.Action.{State}
use vfio.Bindings.Structs.{VfioIrqSet}
use vfio.Syscall.Requests
use vfio.Device.Info.{VfioIrq}
use vfio.Device.Irq.{VfioDevice, trigger_irq, disable_irq, unmask_irq}

-- The interrupt is there, and passes the test.
abbrev pub has_irq : VfioDevice → ℕ → (VfioIrq → Bool) → Bool
has_irq d irq_index test = elim (lookup irq_index d.irqs) [ none ↦ false | some irq ↦ test irq ]

module _ (k : Kernel) where
  abbrev pub irqs_call : VfioDevice → VfioIrqSet → List ℕ → Call
  irqs_call d header bytes = ioctl d.device Requests.vfio_device_set_irqs (Arg.irq_set header bytes)

  -- One request, if it is allowed; else nothing happens. Both a refusal and a negative answer are
  -- this error.
  abbrev pub one_request :
      VfioDevice → Bool → VfioIrqSet → List ℕ → VfioError → State → Outcome (Unit {0}) × State
  one_request d false header bytes e s = (err e, s)
  one_request d true header bytes e s = (
    if is_negative (k.ret s.trace (irqs_call d header bytes)) then err e else ok tt,
    record s { trace = irqs_call d header bytes ∷ s.trace },
  )

  -- The kernel's struct with no data: DATA_NONE is 1.
  abbrev pub no_data : ℕ → ℕ → ℕ → ℕ → VfioIrqSet
  no_data action index start count = record {
    argsz = 20;
    flags = action + 1;
    index = index;
    start = start;
    count = count;
  }

  -- trigger_irq makes exactly one request, with the trigger action for the vector alone, if the
  -- device has the index and the vector is below its count, and else makes none and fails.
  pub trigger_irq_lem :
      (d : VfioDevice) (irq_index vector : ℕ) (s : State)
      → trigger_irq k d irq_index vector s
        ≡ one_request d
            (has_irq d irq_index (λ irq. ltb vector irq.count))
            (no_data 32 irq_index vector 1)
            []
            VfioError.vfio_device_trigger_irq
            s
  unfolding trigger_irq
  trigger_irq_lem d irq_index vector s = ground arith

  -- disable_irq makes exactly one request, with the trigger action and a count of zero, if the
  -- device has the index with at least one interrupt, and else makes none and fails.
  disable_irq_lem :
      (d : VfioDevice) (irq_index : ℕ) (s : State)
      → disable_irq k d irq_index s
        ≡ one_request d
            (has_irq d irq_index (λ irq. ltb 0 irq.count))
            (no_data 32 irq_index 0 0)
            []
            VfioError.vfio_device_disable_irq
            s
  unfolding disable_irq
  disable_irq_lem d irq_index s = ground arith

  -- unmask_irq makes exactly one request, with the unmask action, if the device has the index with
  -- exactly one interrupt and it is the INTx index, and else makes none and fails.
  unmask_irq_lem :
      (d : VfioDevice) (irq_index : ℕ) (s : State)
      → unmask_irq k d irq_index s
        ≡ one_request d
            (has_irq d irq_index (λ irq. irq.count == 1 && irq.index == 0))
            (no_data 16 irq_index 0 1)
            []
            VfioError.vfio_device_unmask_irq
            s
  unfolding unmask_irq
  unmask_irq_lem d irq_index s = ground arith
