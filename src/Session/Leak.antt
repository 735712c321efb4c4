-- ===== src/Session/Leak.antt =====
-- `VfioDevice::new` of crates/vfio-ioctls/src/vfio_device.rs where the device cannot be opened.
use vfio.Prelude.{ℕ, ◌≡◌, sym, subst, ◌∙◌, some, none, arith, lookup, lookup-insert, ◌∷◌}
use vfio.Error.{VfioError, Outcome, ok, err}
use vfio.Host.Call.{Fd, SysPath}
use vfio.Host.Kernel.{Kernel}
use vfio.Host.Action.{◌>>=◌, State, ArcInner}
use vfio.Host.Resources.{open_fds, attached}
use vfio.Group.{get_device}
use vfio.Group.Open.{Opened, get_device-Opened}
use vfio.Container.{VfioContainer, get_group}
use vfio.Container.Attach.{CreatesIf, create_group-CreatesIf}
use vfio.Container.Careful.{never}
use vfio.Container.Create.{get_group_new}
use vfio.Device.Irq.{VfioDevice}
use vfio.Session.Opening.{use_group}
use vfio.Device.Lifecycle.{new_device, open_device, get_group_id_from_path}

module _ (k : Kernel) (c : VfioContainer) where
  -- After the error, a group that was not there is in the map, open and attached, and the map's is
  -- its only reference.
  abbrev pub LeftBehind : ℕ → VfioError → State → Outcome VfioDevice × State → Type 0
  LeftBehind id e s x =
      (g : Fd) × (x.0 ≡ err e)
      × (lookup id x.1.groups ≡ some s.next)
      × (x.1.heap s.next ≡ some (record { value = record { id = id; group = g }; strong = 1 }))
      × (open_fds k x.1.trace ≡ g ∷ open_fds k s.trace)
      × (attached k x.1.trace ≡ g ∷ attached k s.trace)

  created-LeftBehind :
      (path : SysPath) (id h : ℕ) (a : ArcInner) (e : VfioError) (s s' t : State)
      → CreatesIf k c (never k c) id s (ok h, s')
      → s'.heap h ≡ some a
      → get_device k a.value path s' ≡ (err e, t)
      → LeftBehind id e s (use_group k path h s')
  unfolding open_device
  created-LeftBehind path id h a e s s' t (same, g, heap, next, groups, files, att) there failed =
      let (calls, files', att') : Opened k path s' (err e, t) =
        subst (Opened k path s') failed (get_device-Opened k a.value path s') in
      let new : a ≡ record { value = record { id = id; group = g }; strong = 2 } =
        ground (arith, heap h) in
      (
        g,
        ground (arith, there),
        ground (arith, there, lookup-insert id id s.next s.groups),
        ground (arith, there, calls),
        ground (arith, there),
        ground (arith, there),
      )

  -- Where VfioDevice::new finds the id of the device's group, the container does not have this
  -- group, the next allocation is free, get_group succeeds, and get_device then fails: new returns
  -- the error, and the group that get_group made stays in the map under the id, with the map's as
  -- its only reference, its file open and attached.
  pub new_device_refused :
      (path : SysPath) (id h : ℕ) (a : ArcInner) (e : VfioError) (s s' t : State)
      → get_group_id_from_path k path s ≡ (ok id, s)
      → lookup id s.groups ≡ none
      → s.heap s.next ≡ none
      → get_group k c id s ≡ (ok h, s')
      → s'.heap h ≡ some a
      → get_device k a.value path s' ≡ (err e, t)
      → LeftBehind id e s (new_device k c path s)
  unfolding new_device
  new_device_refused path id h a e s s' t named free fresh got there failed =
      let creates : CreatesIf k c (never k c) id s (ok h, s') =
        subst (CreatesIf k c (never k c) id s) (sym (get_group_new k c id s free) ∙ got)
          (create_group-CreatesIf k c (never k c) id s fresh) in
      let left = created-LeftBehind path id h a e s s' t creates there failed in
      subst (λ x. LeftBehind id e s (((λ _. x) >>= λ j. get_group k c j >>= use_group k path) s))
        (sym named)
        (subst (λ x. LeftBehind id e s (((λ _. x) >>= use_group k path) s)) (sym got) left)
