-- ===== src/Session/Forgotten.antt =====
-- A group that the hypervisor lets go and the kernel does not: `put_group` ends half way.
use vfio.Prelude.{ℕ, ◌≡◌, is_negative, is_zero, true, false, some, ◌∷◌, arith, lookup}
use vfio.Error.{ok}
use vfio.Host.Call.{Call, closed, ioctl, Arg, DeviceFdInner}
use vfio.Host.Kernel.{Kernel}
use vfio.Host.Action.{State, ArcInner, update}
use vfio.Syscall.Requests
use vfio.Syscall.{unset_group_container}
use vfio.DeviceFd.{device_del_group, dev_attr}
use vfio.Container.{VfioContainer, get_group, release_group, put_group}
use vfio.Device.Irq.{VfioDevice}
use vfio.Device.Lifecycle.{drop_device}

module _ (k : Kernel) (c : VfioContainer) (fd : DeviceFdInner) (d : VfioDevice) (id : ℕ)
    (a : ArcInner) (s : State) where
  abbrev pub forget : Call
  forget = Call.set_device_attr fd (dev_attr k fd a.value.group false)

  abbrev pub detach_call : Call
  detach_call = ioctl a.value.group Requests.vfio_group_unset_container (Arg.raw_fd c.container)

  -- The group stays, and the hypervisor is not told of it again.
  abbrev pub IsForgotten : State → Type 0
  IsForgotten s' =
      (s'.groups ≡ s.groups)
      × (s'.heap d.group ≡ some (record a { strong = 1 }))
      × (s'.trace ≡ detach_call ∷ forget ∷ closed d.device ∷ s.trace)
      × (get_group k c id s' ≡ (
        ok d.group,
        record s' { heap = update s'.heap d.group (some (record a { strong = 2 })) },
      ))

  -- For the last device of a mapped group, referred to by the map and the device alone, where the
  -- hypervisor deletes the group and the kernel then refuses to unset its container: the drop
  -- closes the device's file, asks for these two things and for nothing else, and leaves the group
  -- in the map with one reference; a get_group that follows hands this group out again without any
  -- call, so the hypervisor is not told of the group again.
  pub drop_device-IsForgotten :
      c.device_fd ≡ some fd
      → lookup id s.groups ≡ some d.group
      → s.heap d.group ≡ some a
      → a.strong ≡ 2
      → is_zero (k.ret (closed d.device ∷ s.trace) forget) ≡ true
      → is_negative (k.ret (forget ∷ closed d.device ∷ s.trace) detach_call) ≡ true
      → IsForgotten (drop_device k c d s).1
  unfolding drop_device put_group release_group device_del_group unset_group_container get_group
  drop_device-IsForgotten with_fd at there last forgets refuses = ground arith
