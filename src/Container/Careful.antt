-- ===== src/Container/Careful.antt =====
-- Binding, installing and releasing groups: the calls are on open descriptors.
use vfio.Prelude.{ℕ, ◌≤◌, ◌≡◌, subst, sym, eq_ℤ_refl, true, some, arith, lookup}
use vfio.Error.{Outcome, ok, err, fault}
use vfio.Host.Kernel.{Kernel}
use vfio.Host.Action.{State, VfioGroup, ArcInner, ◌>>=◌, arc_new}
use vfio.Host.Careful.{all_open, has_fd}
use vfio.Host.Resources.{open_fds, without}
use vfio.Syscall.{unset_group_container}
use vfio.DeviceFd.{device_del_group}
use vfio.Group.{new_group}
use vfio.Group.Careful.{new_group-all_open}
use vfio.Container.{
  VfioContainer, bind_group, install_group, create_group, release_group, put_group,
}
use vfio.Container.Attach.{
  Detaches, rest_of_install, Opens, new_group-Opens, Binds, bind_group-Binds,
}
use vfio.Device.Irq.{VfioDevice}
use vfio.Device.Lifecycle.{drop_device}

module _ (k : Kernel) (c : VfioContainer) where
  bind_group-all_open :
      (g : VfioGroup) (s : State)
      → has_fd g.group (open_fds k s.trace) ≡ true
      → all_open k c.container s.trace ≡ true
      → all_open k c.container (bind_group k c g s).1.trace ≡ true
  unfolding bind_group
  bind_group-all_open g s is sound = ground (arith, eq_ℤ_refl c.container)

  pub drop_device-all_open :
      (d : VfioDevice) (a : ArcInner) (s : State)
      → s.heap d.group ≡ some a
      → lookup a.value.id s.groups ≡ some d.group
      → 2 ≤ a.strong
      → has_fd d.device (open_fds k s.trace) ≡ true
      → has_fd a.value.group (without d.device (open_fds k s.trace)) ≡ true
      → all_open k c.container s.trace ≡ true
      → all_open k c.container (drop_device k c d s).1.trace ≡ true
  unfolding drop_device put_group release_group device_del_group unset_group_container
  drop_device-all_open d a s there at used is is' sound = grind arith

  -- What needs that the kernel detaches groups is not needed here.
  pub never : ⊥ → Detaches k c
  never b = absurd b

  rest-all_open :
      (s : State) (g : VfioGroup) (x : Outcome (Unit {0}) × State)
      → has_fd g.group (open_fds k s.trace) ≡ true
      → Binds k c never g (arc_new g s).1 x
      → all_open k c.container x.1.trace ≡ true
      → all_open k c.container (rest_of_install k c never g.id s.next x).1.trace ≡ true
  rest-all_open s g (ok u, s') is (e, o, a) sound =
      subst
        (λ v.
          all_open k c.container (rest_of_install k c never g.id s.next (ok u, v)).1.trace ≡ true)
        (sym e) (ground arith)
  rest-all_open s g (err y, s') is (e, o, a) sound =
      subst
        (λ v.
          all_open k c.container (rest_of_install k c never g.id s.next (err y, v)).1.trace ≡ true)
        (sym e) (ground arith)
  rest-all_open s g (fault y, s') is b sound = absurd b

  install_group-all_open :
      (id : ℕ) (g : VfioGroup) (s : State)
      → g.id ≡ id
      → has_fd g.group (open_fds k s.trace) ≡ true
      → all_open k c.container s.trace ≡ true
      → all_open k c.container (install_group k c id g s).1.trace ≡ true
  unfolding install_group
  install_group-all_open id g s e is sound =
      subst (λ j. all_open k c.container (install_group k c j g s).1.trace ≡ true) e
        (rest-all_open s g (bind_group k c g (arc_new g s).1) is
          (bind_group-Binds k c never g (arc_new g s).1)
          (bind_group-all_open g (arc_new g s).1 is sound))

  opened-all_open :
      (id : ℕ) (s : State) (x : Outcome VfioGroup × State)
      → Opens k id s x
      → all_open k c.container x.1.trace ≡ true
      → all_open k c.container (((λ _. x) >>= install_group k c id) s).1.trace ≡ true
  opened-all_open id s (ok g, s') (e, (same, files, att)) sound =
      install_group-all_open id g s' e (ground (arith, files, eq_ℤ_refl g.group)) sound
  opened-all_open id s (err y, s') opens sound = sound
  opened-all_open id s (fault y, s') opens sound = sound

  pub create_group-all_open :
      (id : ℕ) (s : State)
      → all_open k c.container s.trace ≡ true
      → all_open k c.container (create_group k c id s).1.trace ≡ true
  unfolding create_group
  create_group-all_open id s sound =
      opened-all_open id s (new_group k id s) (new_group-Opens k id s)
        (new_group-all_open k c.container id s sound)
