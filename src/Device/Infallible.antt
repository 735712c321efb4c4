-- ===== src/Device/Infallible.antt =====
-- Reading a device's regions and interrupts never ends in an error.
use vfio.Prelude.{ℕ, zero, suc, ◌≢◌, arith, Dict, List, []}
use vfio.Host.Action.{Action, State, pure, ◌>>=◌}
use vfio.Error.{VfioError, Outcome, ok, err, fault}
use vfio.Host.Kernel.{Kernel}
use vfio.Host.Call.{Fd}
use vfio.Group.{DeviceInfo}
use vfio.Device.Info.{
  VfioIrq, VfioRegion, irq_step, irqs_from, get_irqs, region_step, regions_from, get_regions,
}

-- The action may end in a value or a fault only.
abbrev pub NeverErrs : {A : Type 0} → Action A → Type 0
NeverErrs m = (s : State) (e : VfioError) → (m s).0 ≢ err e

pub pure-NeverErrs : {A : Type 0} (a : A) → NeverErrs (pure a)
pure-NeverErrs a s e same = cc

pub >>=-NeverErrs :
    {A B : Type 0} (m : Action A) (f : A → Action B)
    → NeverErrs m
    → ((a : A) → NeverErrs (f a))
    → NeverErrs (m >>= f)
>>=-NeverErrs m f p q s e = from (m s) (p s e)
  where
    from : (x : Outcome _ × State) → x.0 ≢ err e → (((λ _. x) >>= f) s).0 ≢ err e
    from (ok a, s') ne = q a s' e
    from (err y, s') ne = λ same. ne (ground arith)
    from (fault y, s') ne = λ same. cc

module _ (k : Kernel) where
  irqs_from-NeverErrs :
      (fd : Fd) (n i : ℕ) (irqs : Dict VfioIrq) → NeverErrs (irqs_from k fd n i irqs)
  unfolding irqs_from irq_step
  irqs_from-NeverErrs fd zero i irqs = pure-NeverErrs irqs
  irqs_from-NeverErrs fd (suc n) i irqs =
      >>=-NeverErrs (irq_step k fd i irqs) (irqs_from k fd n (suc i)) (λ s e. λ same. ground arith)
        (irqs_from-NeverErrs fd n (suc i))

  pub get_irqs-NeverErrs : (info : DeviceInfo) → NeverErrs (get_irqs k info)
  unfolding get_irqs
  get_irqs-NeverErrs info = irqs_from-NeverErrs info.device info.num_irqs 0 []

  regions_from-NeverErrs :
      (fd : Fd) (n i : ℕ) (regions : List VfioRegion) → NeverErrs (regions_from k fd n i regions)
  unfolding regions_from region_step
  regions_from-NeverErrs fd zero i regions = pure-NeverErrs regions
  regions_from-NeverErrs fd (suc n) i regions =
      >>=-NeverErrs (region_step k fd i regions) (regions_from k fd n (suc i))
        (λ s e. λ same. ground arith) (regions_from-NeverErrs fd n (suc i))

  pub get_regions-NeverErrs : (info : DeviceInfo) → NeverErrs (get_regions k info)
  unfolding get_regions
  get_regions-NeverErrs info = regions_from-NeverErrs info.device _ _ []
