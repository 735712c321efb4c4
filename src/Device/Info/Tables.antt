-- ===== src/Device/Info/Tables.antt =====
-- What `get_irqs` collects of a device that always answers a request the same way.
use vfio.Prelude.{
  ℕ, zero, suc, ◌+◌, ◌≤◌, ◌≡◌, refl, ap, Option, none, some, [], arith, Dict, lookup, insert,
  lookup-insert, ltb, leb, ◌==◌, ◌&&◌, if◌then◌else◌, is_negative,
}
use vfio.Bindings.Structs.{VfioRegionInfo, VfioIrqInfo}
use vfio.Error.{Outcome, ok}
use vfio.Host.Call.{Fd, Trace, ioctl, Arg}
use vfio.Host.Kernel.{Kernel}
use vfio.Host.Action.{Action, State, ◌>>=◌}
use vfio.Syscall.Requests
use vfio.Syscall.{get_device_irq_info}
use vfio.Group.{DeviceInfo}
use vfio.Device.Info.{VfioIrq, irq_request, region_request, irq_step, irqs_from, get_irqs}

module _ (k : Kernel) (fd : Fd) where
  -- What the device answers for an index, after these calls; nothing where the call fails.
  abbrev pub irq_answer : Trace → ℕ → Option VfioIrqInfo
  irq_answer t i =
      if is_negative
        (k.ret t (ioctl fd Requests.vfio_device_get_irq_info (Arg.irq_info (irq_request i))))
      then none
      else some (k.irq_info t fd (irq_request i))

  abbrev pub region_answer : Trace → ℕ → Option VfioRegionInfo
  region_answer t i =
      if is_negative (
        k.ret t
          (ioctl fd Requests.vfio_device_get_region_info (Arg.region_info (region_request i))))
      then none
      else some (k.region_info t fd (region_request i))

-- The table entry of an index.
abbrev pub irq_entry : ℕ → Option VfioIrqInfo → Option VfioIrq
irq_entry i none = none
irq_entry i (some info) = some (record { flags = info.flags; index = i; count = info.count })

-- The rest of a block runs where its first step succeeds.
pub >>=-ok :
    {A B : Type 0} (m : Action A) (f : A → Action B) (s : State) {a : A} {r : Outcome B}
    → (m s).0 ≡ ok a
    → ((s' : State) → (f a s').0 ≡ r)
    → ((m >>= f) s).0 ≡ r
>>=-ok m f s h next = ground (arith, h, next (m s).1)

module _ (k : Kernel) (fd : Fd) (table : ℕ → Option VfioIrqInfo)
    (answers : (t : Trace) (i : ℕ) → irq_answer k fd t i ≡ table i) where
  abbrev pub add_entry : ℕ → Dict VfioIrq → Option VfioIrqInfo → Dict VfioIrq
  add_entry i irqs none = irqs
  add_entry i irqs (some info) =
      insert i (record { flags = info.flags; index = i; count = info.count }) irqs

  irq_step-add_entry :
      (i : ℕ) (irqs : Dict VfioIrq) (s : State)
      → (irq_step k fd i irqs s).0 ≡ ok (add_entry i irqs (table i))
  unfolding irq_step get_device_irq_info
  irq_step-add_entry i irqs s = ground (arith, answers s.trace i)

  abbrev collect : ℕ → ℕ → Dict VfioIrq → Dict VfioIrq
  collect zero i irqs = irqs
  collect (suc n) i irqs = collect n (suc i) (add_entry i irqs (table i))

  irqs_from-collect :
      (n i : ℕ) (irqs : Dict VfioIrq) (s : State)
      → (irqs_from k fd n i irqs s).0 ≡ ok (collect n i irqs)
  unfolding irqs_from
  irqs_from-collect zero i irqs s = refl
  irqs_from-collect (suc n) i irqs s =
      >>=-ok (irq_step k fd i irqs) (irqs_from k fd n (suc i)) s (irq_step-add_entry i irqs s)
        (irqs_from-collect n (suc i) (add_entry i irqs (table i)))

  lookup-add_entry :
      (i : ℕ) (irqs : Dict VfioIrq) (o : Option VfioIrqInfo) (key : ℕ)
      → ((j : ℕ) → i ≤ j → lookup j irqs ≡ none)
      → lookup key (add_entry i irqs o) ≡ (if key == i then irq_entry i o else lookup key irqs)
  lookup-add_entry i irqs none key new = ground (arith, new key)
  lookup-add_entry i irqs (some info) key new = lookup-insert key i _ irqs

  same_entry : (i j : ℕ) → i ≡ j → irq_entry i (table i) ≡ irq_entry j (table j)
  same_entry i j e = ap {A = ℕ} {B = Option VfioIrq} (λ j. irq_entry j (table j)) e

  lookup-collect :
      (n i : ℕ) (irqs : Dict VfioIrq) (key : ℕ)
      → ((j : ℕ) → i ≤ j → lookup j irqs ≡ none)
      → lookup key (collect n i irqs)
        ≡ (if leb i key && ltb key (i + n) then irq_entry key (table key) else lookup key irqs)
  lookup-collect zero i irqs key new = ground arith
  lookup-collect (suc n) i irqs key new = ground (
    arith,
    lookup-collect n (suc i) (add_entry i irqs (table i)) key
        (λ j h. ground (arith, lookup-add_entry i irqs (table i) j new, new j)),
    lookup-add_entry i irqs (table i) key new,
    same_entry i key,
  )

  -- For a device that answers each interrupt request the same way at all times, get_irqs succeeds,
  -- and its table has for each key below num_irqs the device's answer with this index, or no entry
  -- where the request failed, and nothing else.
  pub get_irqs_lem :
      (info : DeviceInfo) (s : State)
      → info.device ≡ fd
      → (irqs : Dict VfioIrq) × ((get_irqs k info s).0 ≡ ok irqs)
        × ((key : ℕ)
            → lookup key irqs ≡ (if ltb key info.num_irqs then irq_entry key (table key) else none))
  unfolding get_irqs
  get_irqs_lem info s e = (
    collect info.num_irqs 0 [],
    rw e (irqs_from-collect info.num_irqs 0 [] s),
    λ key. ground (arith, lookup-collect info.num_irqs 0 [] key (λ j h. refl)),
  )
