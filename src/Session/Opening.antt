-- ===== src/Session/Opening.antt =====
-- What opening a device leaves the process with.
use vfio.Prelude.{ℕ, ◌≡◌, ◌≢◌, refl, sym, ap, ◌∙◌, List, ◌∷◌, arith}
use vfio.Error.{VfioError, Outcome, ok, err, fault}
use vfio.Host.Call.{Fd, SysPath}
use vfio.Host.Kernel.{Kernel}
use vfio.Host.Action.{
  Action, State, VfioGroup, ◌>>=◌, ◌>>◌, pure, gets, raise, on_err, arc_group, arc_drop,
}
use vfio.Host.Calm.{SameButCalls}
use vfio.Host.Resources.{open_fds, attached}
use vfio.Group.{DeviceInfo, get_device}
use vfio.Group.Open.{Opened, get_device-Opened}
use vfio.Device.Infallible.{
  NeverErrs, pure-NeverErrs, >>=-NeverErrs, get_irqs-NeverErrs, get_regions-NeverErrs,
}
use vfio.Device.Careful.{get_irqs-Careful, get_regions-Careful}
use vfio.Host.Careful.{Careful, still-Careful, >>=-Careful}
use vfio.Device.Info.{VfioRegion, get_irqs, get_regions}
use vfio.Device.Irq.{VfioDevice}
use vfio.Device.Lifecycle.{open_device, open_in, get_group_id_from_path}

-- What `new` does with the reference to the group.
abbrev pub use_group : Kernel → SysPath → ℕ → Action VfioDevice
use_group k path group = do
  value ← gets (λ s. arc_group s group)
  on_err (open_in k value group path) λ e. arc_drop group >> raise e

module _ (k : Kernel) (h : ℕ) where
  -- A device is open, and nothing else is, that was not before.
  abbrev pub OpensDevice : State → Outcome VfioDevice × State → Type 0
  OpensDevice s (ok d, s') =
      (d.group ≡ h)
      × (s' ≡ record s { trace = s'.trace })
      × (open_fds k s'.trace ≡ d.device ∷ open_fds k s.trace)
      × (attached k s'.trace ≡ attached k s.trace)
  OpensDevice s (err e, s') = SameButCalls k s s'
  OpensDevice s (fault x, s') = Unit {0}

  -- The part of `open_device` behind `get_device`, and behind `get_regions`.
  abbrev with_regions : DeviceInfo → List VfioRegion → Action VfioDevice
  with_regions info regions = do
    irqs ← get_irqs k info
    pure (record {
      device = info.device;
      flags = info.flags;
      regions = regions;
      irqs = irqs;
      group = h;
    })

  abbrev pub describe : DeviceInfo → Action VfioDevice
  describe info = get_regions k info >>= with_regions info

  pub describe-Careful : (own : Fd) (info : DeviceInfo) → Careful k own info.device (describe info)
  describe-Careful own info =
      >>=-Careful k own info.device (get_regions-Careful k own info) (λ regions.
        >>=-Careful k own info.device (get_irqs-Careful k own info)
          (λ irqs. still-Careful k own info.device (ok _)))

  describe-NeverErrs : (info : DeviceInfo) → NeverErrs (describe info)
  describe-NeverErrs info =
      >>=-NeverErrs (get_regions k info) (with_regions info) (get_regions-NeverErrs k info)
        (λ regions.
          >>=-NeverErrs (get_irqs k info)
            (λ irqs. pure (record {
              device = info.device;
              flags = info.flags;
              regions = regions;
              irqs = irqs;
              group = h;
            }))
            (get_irqs-NeverErrs k info) (λ irqs. pure-NeverErrs _))

  described :
      (info : DeviceInfo) (s t : State) (x : Outcome VfioDevice × State)
      → t ≡ record s { trace = t.trace }
      → open_fds k t.trace ≡ info.device ∷ open_fds k s.trace
      → attached k t.trace ≡ attached k s.trace
      → SameButCalls k t x.1
      → ((e : VfioError) → x.0 ≢ err e)
      → ((d : VfioDevice) → x.0 ≡ ok d → (d.group ≡ h) × (d.device ≡ info.device))
      → OpensDevice s x
  described info s t (ok d, s') e o a (e', o', a') fine made = (
    (made d refl).0,
    e' ∙ ap {A = State} {B = State} (λ v. record v { trace = s'.trace }) e,
    o' ∙ o ∙ ap {A = Fd} {B = List Fd} (λ f. f ∷ open_fds k s.trace) (sym (made d refl).1),
    a' ∙ a,
  )
  described info s t (err y, s') e o a same fine made = absurd (fine y refl)
  described info s t (fault y, s') e o a same fine made = tt

  describe-from :
      (name : SysPath) (s : State) (x : Outcome DeviceInfo × State)
      → Opened k name s x
      → OpensDevice s (((λ _. x) >>= describe) s)
  describe-from name s (ok info, t) (e, o, a, _, _, _) =
      described info s t (describe info t) e o a ((describe-Careful info.device info).calm.apply t)
        (λ y. describe-NeverErrs info t y) (λ d made. ground arith)
  describe-from name s (err y, t) same = same
  describe-from name s (fault y, t) opened = tt

  pub open_device-OpensDevice :
      (value : VfioGroup) (name : SysPath) (s : State)
      → OpensDevice s (open_device k value h name s)
  unfolding open_device
  open_device-OpensDevice value name s =
      describe-from name s (get_device k value name s) (get_device-Opened k value name s)

module _ (k : Kernel) where
  pub get_group_id_from_path-state :
      (path : SysPath) (s : State) → (get_group_id_from_path k path s).1 ≡ s
  unfolding get_group_id_from_path
  get_group_id_from_path-state path s = ground arith
