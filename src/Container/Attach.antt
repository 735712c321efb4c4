-- ===== src/Container/Attach.antt =====
-- The steps of `get_group` for a new id, from opening the group's file to binding it, on every branch.
use vfio.Prelude.{
  subst, sym, ℕ, suc, ◌≡◌, is_negative, eq_ℤ_refl, false, none, some, List, ◌∷◌, arith, insert, ◌≤◌,
}
use vfio.Error.{VfioError, Outcome, ok, err, fault}
use vfio.Host.Call.{Fd, opened, dev_group, ioctl, Arg, Trace}
use vfio.Host.Kernel.{Kernel}
use vfio.Host.Action.{
  State, VfioGroup, pure, raise, modify, on_err, ◌>>=◌, ◌>>◌, update, arc_new, arc_clone, arc_drop,
}
use vfio.Host.Resources.{open_fds, attached, without}
use vfio.Syscall.Requests
use vfio.Group.{new_group}
use vfio.Container.{VfioContainer, bind_group, install_group, create_group}

module _ (k : Kernel) where
  -- The same but for the record of calls, with these descriptors open and attached.
  abbrev Same : State → State → List Fd → List Fd → Type 0
  Same s s' fds groups =
      (s' ≡ record s { trace = s'.trace })
      × (open_fds k s'.trace ≡ fds)
      × (attached k s'.trace ≡ groups)

  abbrev pub Opens : ℕ → State → Outcome VfioGroup × State → Type 0
  Opens id s (ok g, s') =
      (g.id ≡ id) × Same s s' (g.group ∷ open_fds k s.trace) (attached k s.trace)
  Opens id s (err e, s') = Same s s' (open_fds k s.trace) (attached k s.trace)
  Opens id s (fault x, s') = ⊥

  pub new_group-Opens : (id : ℕ) (s : State) → Opens id s (new_group k id s)
  unfolding new_group
  new_group-Opens id s = ground (arith, eq_ℤ_refl (k.ret s.trace (opened (dev_group id))))

  -- The kernel detaches a group that was attached last.
  abbrev pub Detaches : VfioContainer → Type 0
  Detaches c =
      (t : Trace) (g : Fd) (rest : List Fd)
      → attached k t ≡ g ∷ rest
      → is_negative (k.ret t (ioctl g Requests.vfio_group_unset_container (Arg.raw_fd c.container)))
        ≡ false

  module _ (c : VfioContainer) {P : Type 0} (detaches : P → Detaches c) where
    abbrev pub Binds : VfioGroup → State → Outcome (Unit {0}) × State → Type 0
    Binds g s (ok u, s') = Same s s' (open_fds k s.trace) (g.group ∷ attached k s.trace)
    Binds g s (err e, s') =
        (s' ≡ record s { trace = s'.trace })
        × (open_fds k s'.trace ≡ open_fds k s.trace)
        × (P → attached k s'.trace ≡ attached k s.trace)
    Binds g s (fault x, s') = ⊥

    pub bind_group-Binds : (g : VfioGroup) (s : State) → Binds g s (bind_group k c g s)
    unfolding bind_group
    bind_group-Binds g s = grind (arith, detaches, eq_ℤ_refl g.group)

    -- `Creates`, from the open group on.
    abbrev Installs : VfioGroup → State → Outcome ℕ × State → Type 0
    Installs g s (ok h, s') =
        (h ≡ s.next)
        × ((p : ℕ) → s'.heap p ≡ update s.heap s.next (some (record { value = g; strong = 2 })) p)
        × (s'.next ≡ suc s.next)
        × (s'.groups ≡ insert g.id s.next s.groups)
        × (open_fds k s'.trace ≡ open_fds k s.trace)
        × (attached k s'.trace ≡ g.group ∷ attached k s.trace)
    Installs g s (err e, s') =
        ((p : ℕ) → s'.heap p ≡ s.heap p)
        × (s.next ≤ s'.next)
        × (s'.groups ≡ s.groups)
        × (open_fds k s'.trace ≡ without g.group (open_fds k s.trace))
        × (P → attached k s'.trace ≡ attached k s.trace)
    Installs g s (fault x, s') = ⊥

    -- `Creates`, where the last part holds if `P` does.
    abbrev pub CreatesIf : ℕ → State → Outcome ℕ × State → Type 0
    CreatesIf id s (ok h, s') =
        (h ≡ s.next)
        × (g : Fd) × ((p : ℕ)
            → s'.heap p
              ≡ update s.heap s.next
                  (some (record { value = record { id = id; group = g }; strong = 2 })) p)
        × (s'.next ≡ suc s.next)
        × (s'.groups ≡ insert id s.next s.groups)
        × (open_fds k s'.trace ≡ g ∷ open_fds k s.trace)
        × (attached k s'.trace ≡ g ∷ attached k s.trace)
    CreatesIf id s (err e, s') =
        ((p : ℕ) → s'.heap p ≡ s.heap p)
        × (s.next ≤ s'.next)
        × (s'.groups ≡ s.groups)
        × (open_fds k s'.trace ≡ open_fds k s.trace)
        × (P → attached k s'.trace ≡ attached k s.trace)
    CreatesIf id s (fault x, s') = ⊥

    -- The rest of `install_group`, after `bind_group` has ended with `x`.
    abbrev pub rest_of_install : ℕ → ℕ → Outcome (Unit {0}) × State → Outcome ℕ × State
    rest_of_install id h x =
        (do
          on_err (λ _. x) λ e. arc_drop h >> raise e
          arc_clone h
          modify (λ s. record s { groups = insert id h s.groups })
          pure h)
          x.1

    rest-ok :
        (s : State) (g : VfioGroup) (t : Trace)
        → open_fds k t ≡ open_fds k s.trace
        → attached k t ≡ g.group ∷ attached k s.trace
        → Installs g s (rest_of_install g.id s.next (ok tt, record (arc_new g s).1 { trace = t }))
    rest-ok s g t o a = ground arith

    rest-err :
        (s : State) (g : VfioGroup) (e : VfioError) (t : Trace)
        → s.heap s.next ≡ none
        → open_fds k t ≡ open_fds k s.trace
        → (P → attached k t ≡ attached k s.trace)
        → Installs g s (rest_of_install g.id s.next (err e, record (arc_new g s).1 { trace = t }))
    rest-err s g e t fresh o a = ground arith

    rest-Creates :
        (s : State) (g : VfioGroup) (x : Outcome (Unit {0}) × State)
        → s.heap s.next ≡ none
        → Binds g (arc_new g s).1 x
        → Installs g s (rest_of_install g.id s.next x)
    rest-Creates s g (ok u, s') fresh b =
        subst (λ v. Installs g s (rest_of_install g.id s.next (ok u, v))) (sym b.0)
          (rest-ok s g s'.trace b.1 b.2)
    rest-Creates s g (err e, s') fresh b =
        subst (λ v. Installs g s (rest_of_install g.id s.next (err e, v))) (sym b.0)
          (rest-err s g e s'.trace fresh b.1 b.2)
    rest-Creates s g (fault x, s') fresh b = elim b [ ]

    install-Installs :
        (id : ℕ) (g : VfioGroup) (s : State)
        → g.id ≡ id
        → s.heap s.next ≡ none
        → Installs g s (install_group k c id g s)
    unfolding install_group
    install-Installs id g s e fresh =
        subst (λ j. Installs g s (install_group k c j g s)) e
          (rest-Creates s g (bind_group k c g (arc_new g s).1) fresh
            (bind_group-Binds g (arc_new g s).1))

    installed-Creates :
        (s : State) (g : VfioGroup) (t : Trace) (y : Outcome ℕ × State)
        → open_fds k t ≡ g.group ∷ open_fds k s.trace
        → attached k t ≡ attached k s.trace
        → Installs g (record s { trace = t }) y
        → CreatesIf g.id s y
    installed-Creates s g t (ok h, s') o a i =
        (i.0, g.group, i.1, i.2, i.3, ground arith, ground arith)
    installed-Creates s g t (err e, s') o a i =
        (i.0, i.1, i.2, ground (arith, eq_ℤ_refl g.group), ground arith)
    installed-Creates s g t (fault x, s') o a i = i

    opened-Creates :
        (id : ℕ) (s : State) (x : Outcome VfioGroup × State)
        → s.heap s.next ≡ none
        → Opens id s x
        → CreatesIf id s (((λ _. x) >>= install_group k c id) s)
    opened-Creates id s (ok g, s') fresh (e, same) =
        subst (λ j. CreatesIf j s (install_group k c id g s')) e
          (subst (λ v. CreatesIf g.id s (install_group k c id g v)) (sym same.0)
            (installed-Creates s g s'.trace _ same.1 same.2
              (install-Installs id g (record s { trace = s'.trace }) e fresh)))
    opened-Creates id s (err e, s') fresh same = ground arith
    opened-Creates id s (fault x, s') fresh o = elim o [ ]

    pub create_group-CreatesIf :
        (id : ℕ) (s : State) → s.heap s.next ≡ none → CreatesIf id s (create_group k c id s)
    unfolding create_group
    create_group-CreatesIf id s fresh =
        opened-Creates id s (new_group k id s) fresh (new_group-Opens id s)
