-- ===== src/Container/Release.antt =====
-- `put_group`, and the drop of a device, which calls it.
use vfio.Prelude.{
  ap, ◌∙◌, Bool-cases, ℕ, ◌-◌, ◌≤◌, ◌≡◌, refl, subst, is_negative, is_zero, true, false, Option,
  none, some, ◌∷◌, arith, lookup, erase, ◌⊎◌, inl, inr,
}
use vfio.Error.{Outcome, ok}
use vfio.Host.Call.{Fd, Call, closed, ioctl, Arg, Trace, DeviceFdInner}
use vfio.Host.Kernel.{Kernel}
use vfio.Host.Action.{State, VfioGroup, ArcInner, update, arc_clone, ignore, ◌>>=◌, ◌>>◌}
use vfio.Host.Resources.{
  open_fds, attached, without, last_refused, open_devices, close_device, has_device,
}
use vfio.Syscall.Requests
use vfio.Syscall.{unset_group_container}
use vfio.DeviceFd.{device_del_group, dev_attr}
use vfio.Container.{VfioContainer, remove_entry, release_group, put_group}
use vfio.Device.Irq.{VfioDevice}
use vfio.Device.Lifecycle.{drop_device}

module _ (k : Kernel) (c : VfioContainer) where
  -- The hypervisor lets this group go, and the kernel does as long as no device of it is open.
  pub record LetsGo (g : Fd) : Type 0 where
    pub deletes :
        (t : Trace) (fd : DeviceFdInner)
        → is_zero (k.ret t (Call.set_device_attr fd (dev_attr k fd g false))) ≡ true
    pub detaches :
        (t : Trace)
        → has_device g (open_devices k t) ≡ false
        → is_negative
            (k.ret t (ioctl g Requests.vfio_group_unset_container (Arg.raw_fd c.container)))
          ≡ false

  -- Besides this device, none of the group is open.
  abbrev pub IsAlone : VfioDevice → ArcInner → State → Type 0
  IsAlone d a s = has_device a.value.group (close_device d.device (open_devices k s.trace)) ≡ false

  -- What the drop of a group's last device leaves.
  abbrev pub Gone : VfioDevice → ArcInner → State → Outcome (Unit {0}) × State → Type 0
  Gone d a s x =
      (x.0 ≡ ok tt)
      × (x.1.groups ≡ erase a.value.id s.groups)
      × ((p : ℕ) → x.1.heap p ≡ update s.heap d.group none p)
      × (x.1.next ≡ s.next)
      × (open_fds k x.1.trace ≡ without a.value.group (without d.device (open_fds k s.trace)))
      × (attached k x.1.trace ≡ without a.value.group (attached k s.trace))

  -- Dropping the last device of a mapped group, referred to by the map and the device alone and
  -- with no other device of the group open, where the hypervisor lets the group go and the kernel
  -- does as long as no device of it is open: it succeeds, the group leaves the map and is freed,
  -- the files of device and group are closed, and the group is detached.
  pub drop_device_last :
      (d : VfioDevice) (a : ArcInner) (s : State)
      → LetsGo a.value.group
      → IsAlone d a s
      → s.heap d.group ≡ some a
      → a.strong ≡ 2
      → lookup a.value.id s.groups ≡ some d.group
      → Gone d a s (drop_device k c d s)
  unfolding drop_device put_group release_group device_del_group unset_group_container
  drop_device_last d a s lets alone there two mapped = grind (arith, lets.deletes, lets.detaches)

  -- What it leaves while the group has other devices.
  abbrev pub Kept : VfioDevice → ArcInner → State → Outcome (Unit {0}) × State → Type 0
  Kept d a s x =
      (x.0 ≡ ok tt)
      × (x.1.groups ≡ s.groups)
      × ((p : ℕ) → x.1.heap p ≡ update s.heap d.group (some (record a { strong = a.strong - 1 })) p)
      × (x.1.next ≡ s.next)
      × (open_fds k x.1.trace ≡ without d.device (open_fds k s.trace))
      × (attached k x.1.trace ≡ attached k s.trace)

  -- Dropping a device of a group that is referred to three times or more, as when another device
  -- uses it: only the device's file is closed and the count goes down by one; map, other groups and
  -- attached groups stay.
  pub drop_device_other :
      (d : VfioDevice) (a : ArcInner) (s : State)
      → s.heap d.group ≡ some a
      → 3 ≤ a.strong
      → Kept d a s (drop_device k c d s)
  unfolding drop_device put_group
  drop_device_other d a s there three = ground arith

  -- Whether they let go or not, the references that are left are those of the map and of the other
  -- devices, and the open files and attached groups are those that are left.
  abbrev pub Released : VfioDevice → ArcInner → State → State → Type 0
  Released d a s s' =
      (s'.groups ≡ erase a.value.id s.groups)
      × ((p : ℕ) → s'.heap p ≡ update s.heap d.group none p)
      × (s'.next ≡ s.next)
      × (open_fds k s'.trace ≡ without a.value.group (without d.device (open_fds k s.trace)))
      × (attached k s'.trace ≡ without a.value.group (attached k s.trace))

  abbrev pub Retained : VfioDevice → ArcInner → State → State → Type 0
  Retained d a s s' =
      (s'.groups ≡ s.groups)
      × ((p : ℕ) → s'.heap p ≡ update s.heap d.group (some (record a { strong = a.strong - 1 })) p)
      × (s'.next ≡ s.next)
      × (open_fds k s'.trace ≡ without d.device (open_fds k s.trace))
      × (attached k s'.trace ≡ attached k s.trace)
      × (last_refused k s'.trace ≡ true)

  abbrev pub Ends : VfioGroup → State → Outcome (Unit {0}) × State → Type 0
  Ends g s x =
      ((t : Trace) × (x ≡ (ok tt, record s { trace = t }))
        × (open_fds k t ≡ open_fds k s.trace)
        × (attached k t ≡ attached k s.trace)
        × (last_refused k t ≡ true))
      ⊎ ((t : Trace) × (x ≡ ignore (remove_entry g.id) (record s { trace = t }))
          × (open_fds k t ≡ open_fds k s.trace)
          × (attached k t ≡ without g.group (attached k s.trace)))

  abbrev detach_call : VfioGroup → Call
  detach_call g = ioctl g.group Requests.vfio_group_unset_container (Arg.raw_fd c.container)

  unset-Ends :
      (g : VfioGroup) (s : State)
      → Ends g s (ignore (unset_group_container k g.group c.container >> remove_entry g.id) s)
  unfolding unset_group_container
  unset-Ends g s = elim (Bool-cases (is_negative (k.ret s.trace (detach_call g)))) [
    | inl refused ↦ inl (detach_call g ∷ s.trace, ground arith, ground arith, ground arith, refused)
    | inr detached ↦ inr (detach_call g ∷ s.trace, ground arith, ground arith, ground arith)
  ]

  release_with-Ends :
      (o : Option DeviceFdInner) (g : VfioGroup) (s : State)
      → Ends g s (
          ignore
            (device_del_group k o g.group >>= λ _.
              (unset_group_container k g.group c.container >> remove_entry g.id))
            s)
  unfolding device_del_group
  release_with-Ends none g s = unset-Ends g s
  release_with-Ends (some fd) g s =
      let call : Call = Call.set_device_attr fd (dev_attr k fd g.group false) in
      let s' : State = record s { trace = call ∷ s.trace } in
      elim (Bool-cases (is_zero (k.ret s.trace call))) [
        | inl deleted ↦ subst (Ends g s) (ground arith) (unset-Ends g s')
        | inr refused ↦ inl (call ∷ s.trace, ground arith, refl, refl, ground arith)
      ]

  pub release_group-Ends : (g : VfioGroup) (s : State) → Ends g s (release_group k c g s)
  unfolding release_group
  release_group-Ends g s = release_with-Ends c.device_fd g s

  -- The state in which the drop of a device calls `release_group`.
  abbrev releasing : VfioDevice → State → State
  releasing d s = (arc_clone d.group (record s { trace = closed d.device ∷ s.trace })).1

  kept-Retained :
      (d : VfioDevice) (a : ArcInner) (s : State) (t : Trace)
      → s.heap d.group ≡ some a
      → a.strong ≡ 2
      → release_group k c a.value (releasing d s) ≡ (ok tt, record (releasing d s) { trace = t })
      → ((drop_device k c d s).1.groups ≡ s.groups)
        × ((p : ℕ)
            → (drop_device k c d s).1.heap p
              ≡ update s.heap d.group (some (record a { strong = a.strong - 1 })) p)
        × ((drop_device k c d s).1.next ≡ s.next)
        × ((drop_device k c d s).1.trace ≡ t)
  unfolding drop_device put_group
  kept-Retained d a s t there two e = ground arith

  erased-Released :
      (d : VfioDevice) (a : ArcInner) (s : State) (t : Trace)
      → s.heap d.group ≡ some a
      → a.strong ≡ 2
      → lookup a.value.id s.groups ≡ some d.group
      → release_group k c a.value (releasing d s)
        ≡ ignore (remove_entry a.value.id) (record (releasing d s) { trace = t })
      → open_fds k t ≡ open_fds k (releasing d s).trace
      → attached k t ≡ without a.value.group (attached k (releasing d s).trace)
      → Released d a s (drop_device k c d s).1
  unfolding drop_device put_group
  erased-Released d a s t there two mapped e files groups = ground arith

  pub drop_device_cases :
      (d : VfioDevice) (a : ArcInner) (s : State)
      → s.heap d.group ≡ some a
      → a.strong ≡ 2
      → lookup a.value.id s.groups ≡ some d.group
      → Released d a s (drop_device k c d s).1 ⊎ Retained d a s (drop_device k c d s).1
  drop_device_cases d a s there two mapped = elim (release_group-Ends a.value (releasing d s)) [
    | inl (t, e, files, groups, refused) ↦
        let (same, heap, next, calls) = kept-Retained d a s t there two e in
        let closes : (releasing d s).trace ≡ closed d.device ∷ s.trace = ground arith in
        inr (
          same,
          heap,
          next,
          rw calls (files ∙ ap (open_fds k) closes),
          rw calls (groups ∙ ap (attached k) closes),
          rw calls refused,
        )
    | inr (t, e, files, groups) ↦ inl (erased-Released d a s t there two mapped e files groups)
  ]
