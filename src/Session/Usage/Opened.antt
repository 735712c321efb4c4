-- ===== src/Session/Usage/Opened.antt =====
-- The calls of `VfioDevice::new`.
use vfio.Prelude.{
  ℕ, ◌+◌, ◌≤◌, ◌≡◌, sym, subst, eq_ℤ_refl, true, none, some, arith, lookup, Option-cases, inl, inr,
}
use vfio.Error.{Outcome, ok, err, fault}
use vfio.Host.Call.{Fd, SysPath}
use vfio.Host.Kernel.{Kernel}
use vfio.Host.Action.{
  State, VfioGroup, ArcInner, update, arc_drop, arc_group, on_err, raise, ◌>>=◌, ◌>>◌,
}
use vfio.Host.Careful.{all_open, has_fd}
use vfio.Host.Resources.{open_fds}
use vfio.Group.{DeviceInfo, get_device}
use vfio.Group.Careful.{get_device-all_open}
use vfio.Group.Open.{Opened, get_device-Opened}
use vfio.Container.{VfioContainer, get_group, create_group}
use vfio.Container.Attach.{CreatesIf, create_group-CreatesIf}
use vfio.Container.Careful.{never, create_group-all_open}
use vfio.Container.Create.{get_group_new, get_group_again}
use vfio.Device.Irq.{VfioDevice}
use vfio.Device.Lifecycle.{open_device, open_in, new_device, get_group_id_from_path}
use vfio.Session.Effects.{IsAlive, referred, new_arc}
use vfio.Session.Opening.{
  use_group, describe, describe-Careful, get_group_id_from_path-state, OpensDevice,
  open_device-OpensDevice,
}
use vfio.Session.Usage.{HasOpenGroups}

module _ (k : Kernel) (own : Fd) where
  describe-all_open :
      (h : ℕ) (name : SysPath) (s : State) (x : Outcome DeviceInfo × State)
      → Opened k name s x
      → all_open k own x.1.trace ≡ true
      → all_open k own (((λ _. x) >>= describe k h) s).1.trace ≡ true
  describe-all_open h name s (ok info, t) (_, files, _, _, _, _) sound =
      (describe-Careful k h own info).sound t (ground (arith, files, eq_ℤ_refl info.device)) sound
  describe-all_open h name s (err y, t) opened sound = sound
  describe-all_open h name s (fault y, t) opened sound = sound

  open_device-all_open :
      (h : ℕ) (value : VfioGroup) (name : SysPath) (s : State)
      → has_fd value.group (open_fds k s.trace) ≡ true
      → all_open k own s.trace ≡ true
      → all_open k own (open_device k value h name s).1.trace ≡ true
  unfolding open_device
  open_device-all_open h value name s is sound =
      describe-all_open h name s (get_device k value name s) (get_device-Opened k value name s)
        (get_device-all_open k own value name s is sound)

  finish-all_open :
      (s : State) (h : ℕ) (a : ArcInner) (x : Outcome VfioDevice × State)
      → s.heap h ≡ some a
      → 2 ≤ a.strong
      → OpensDevice k h s x
      → all_open k own x.1.trace ≡ true
      → all_open k own (on_err (λ _. x) (λ e. arc_drop h >> raise e) s).1.trace ≡ true
  finish-all_open s h a (ok d, t) there used opens sound = sound
  finish-all_open s h a (err e, t) there used (calls, files, att) sound = ground arith
  finish-all_open s h a (fault y, t) there used opens sound = sound

  use_group-all_open :
      (s : State) (h : ℕ) (a : ArcInner) (path : SysPath)
      → s.heap h ≡ some a
      → 2 ≤ a.strong
      → has_fd a.value.group (open_fds k s.trace) ≡ true
      → all_open k own s.trace ≡ true
      → all_open k own (use_group k path h s).1.trace ≡ true
  use_group-all_open s h a path there used is sound =
      let points : some a.value ≡ arc_group s h = ground arith in
      subst
        (λ o.
          all_open k own (on_err (open_in k o h path) (λ e. arc_drop h >> raise e) s).1.trace
          ≡ true)
        points
        (finish-all_open s h a (open_device k a.value h path s) there used
          (open_device-OpensDevice k h a.value path s)
          (open_device-all_open h a.value path s is sound))

module _ (k : Kernel) (c : VfioContainer) where
  created-all_open :
      (s : State) (id : ℕ) (path : SysPath) (x : Outcome ℕ × State)
      → CreatesIf k c (never k c) id s x
      → all_open k c.container x.1.trace ≡ true
      → all_open k c.container (((λ _. x) >>= use_group k path) s).1.trace ≡ true
  created-all_open s id path (ok h, s') (e, g, heap, next, groups, files, att) sound =
      use_group-all_open k c.container s' h (new_arc id g 2) path (ground (arith, heap h))
        (omega arith) (ground (arith, files, eq_ℤ_refl g)) sound
  created-all_open s id path (err y, s') creates sound = sound
  created-all_open s id path (fault y, s') creates sound = sound

  get_group-all_open :
      (s : State) (id : ℕ) (path : SysPath)
      → s.heap s.next ≡ none
      → IsAlive s
      → HasOpenGroups k s
      → all_open k c.container s.trace ≡ true
      → all_open k c.container ((get_group k c id >>= use_group k path) s).1.trace ≡ true
  get_group-all_open s id path fresh alive held sound = elim (Option-cases (lookup id s.groups)) [
    | inl free ↦
        subst (λ x. all_open k c.container (((λ _. x) >>= use_group k path) s).1.trace ≡ true)
          (sym (get_group_new k c id s free))
          (created-all_open s id path (create_group k c id s)
            (create_group-CreatesIf k c (never k c) id s fresh)
            (create_group-all_open k c id s sound))
    | inr (h, at) ↦
        let (a, there, used) = alive id h at in
        let b : ArcInner = referred a (a.strong + 1) in
        let s' : State = record s { heap = update s.heap h (some b) } in
        subst (λ x. all_open k c.container (((λ _. x) >>= use_group k path) s).1.trace ≡ true)
          (sym (get_group_again k c id h a s at there))
          (use_group-all_open k c.container s' h b path (ground arith) (omega arith)
            (held id h a at there) sound)
  ]

  named-all_open :
      (s : State) (path : SysPath) (x : Outcome ℕ × State)
      → x.1 ≡ s
      → ((id : ℕ)
          → all_open k c.container ((get_group k c id >>= use_group k path) s).1.trace ≡ true)
      → all_open k c.container s.trace ≡ true
      → all_open k c.container
          (((λ _. x) >>= λ id. get_group k c id >>= use_group k path) s).1.trace
        ≡ true
  named-all_open s path (ok id, s') e opens sound =
      subst (λ t. all_open k c.container ((get_group k c id >>= use_group k path) t).1.trace ≡ true)
        (sym e) (opens id)
  named-all_open s path (err y, s') e opens sound =
      subst (λ t. all_open k c.container t.trace ≡ true) (sym e) sound
  named-all_open s path (fault y, s') e opens sound =
      subst (λ t. all_open k c.container t.trace ≡ true) (sym e) sound

  pub new_device-all_open :
      (path : SysPath) (s : State)
      → s.heap s.next ≡ none
      → IsAlive s
      → HasOpenGroups k s
      → all_open k c.container s.trace ≡ true
      → all_open k c.container (new_device k c path s).1.trace ≡ true
  unfolding new_device
  new_device-all_open path s fresh alive held sound =
      named-all_open s path (get_group_id_from_path k path s)
        (get_group_id_from_path-state k path s)
        (λ id. get_group-all_open s id path fresh alive held sound) sound
