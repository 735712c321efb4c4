-- ===== src/Session/Effects/Opened.antt =====
-- What `VfioDevice::new` does on every path.
use vfio.Prelude.{
  ℕ, ◌+◌, ◌≡◌, refl, sym, subst, ◌∙◌, none, some, arith, lookup, Option-cases, inl, inr,
}
use vfio.Error.{VfioError, Outcome, ok, err, fault}
use vfio.Host.Call.{SysPath}
use vfio.Host.Kernel.{Kernel}
use vfio.Host.Action.{State, ArcInner, update, arc_drop, arc_group, on_err, raise, ◌>>=◌, ◌>>◌}
use vfio.Host.Calm.{SameButCalls}
use vfio.Container.{VfioContainer, get_group, create_group}
use vfio.Container.Attach.{Detaches, CreatesIf, create_group-CreatesIf}
use vfio.Container.Create.{get_group_new, get_group_again}
use vfio.Device.Irq.{VfioDevice}
use vfio.Device.Lifecycle.{open_device, open_in, new_device, get_group_id_from_path}
use vfio.Session.Opening.{
  use_group, get_group_id_from_path-state, OpensDevice, open_device-OpensDevice,
}
use vfio.Session.Effects.{
  IsAlive, referred, new_arc, Opening, opens_anew, opens_again, leaves_group, changes_nothing,
  panics,
}

module _ (k : Kernel) (c : VfioContainer) {P : Type 0} where
  finish-Opening :
      (s s' : State) (h : ℕ) (x : Outcome VfioDevice × State)
      → OpensDevice k h s' x
      → ((t : State) (d : VfioDevice) → OpensDevice k h s' (ok d, t) → Opening k P s (ok d, t))
      → ((t : State) (e : VfioError)
          → SameButCalls k s' t
          → Opening k P s (err e, (arc_drop h t).1))
      → Opening k P s (on_err (λ _. x) (λ e. arc_drop h >> raise e) s')
  finish-Opening s s' h (ok d, t) opens good bad = good t d opens
  finish-Opening s s' h (err e, t) same good bad =
      let failed : (arc_drop h >> raise {A = VfioDevice} e) t ≡ (err e, (arc_drop h t).1) =
        ground arith in
      subst (Opening k P s) (sym failed) (bad t e same)
  finish-Opening s s' h (fault y, t) opens good bad = panics

  use_group-Opening :
      (s s' : State) (h : ℕ) (a : ArcInner) (path : SysPath)
      → s'.heap h ≡ some a
      → ((t : State) (d : VfioDevice) → OpensDevice k h s' (ok d, t) → Opening k P s (ok d, t))
      → ((t : State) (e : VfioError)
          → SameButCalls k s' t
          → Opening k P s (err e, (arc_drop h t).1))
      → Opening k P s (use_group k path h s')
  use_group-Opening s s' h a path there good bad =
      let points : some a.value ≡ arc_group s' h = ground arith in
      subst (λ o. Opening k P s (on_err (open_in k o h path) (λ e. arc_drop h >> raise e) s'))
        points
        (finish-Opening s s' h (open_device k a.value h path s')
          (open_device-OpensDevice k h a.value path s') good bad)

  module _ (detaches : P → Detaches k c) where
    created-Opening :
        (s : State) (id : ℕ) (path : SysPath) (x : Outcome ℕ × State)
        → lookup id s.groups ≡ none
        → CreatesIf k c detaches id s x
        → Opening k P s (((λ _. x) >>= use_group k path) s)
    created-Opening s id path (ok h, s') free (e, g, heap, next, groups, files, att) =
        use_group-Opening s s' h (new_arc id g 2) path (ground (arith, heap h))
          (λ t d (same, calls, files', att').
            opens_anew id g free (same ∙ e) (ground arith) (ground arith)
              (λ p. ground (arith, heap p)) (ground arith) (att' ∙ att))
          (λ t y (calls, files', att').
            leaves_group id g free (ground (arith, heap h)) (ground (arith, heap h))
              (λ p. ground (arith, heap p, heap h)) (ground (arith, heap h))
              (ground (arith, heap h)))
    created-Opening s id path (err e, s') free (heap, next, groups, files, att) =
        changes_nothing next groups heap files att
    created-Opening s id path (fault y, s') free i = panics

    get_group-Opening :
        (s : State) (id : ℕ) (path : SysPath)
        → s.heap s.next ≡ none
        → IsAlive s
        → Opening k P s ((get_group k c id >>= use_group k path) s)
    get_group-Opening s id path fresh alive = elim (Option-cases (lookup id s.groups)) [
      | inl free ↦
          subst (λ x. Opening k P s (((λ _. x) >>= use_group k path) s))
            (sym (get_group_new k c id s free))
            (created-Opening s id path (create_group k c id s) free
              (create_group-CreatesIf k c detaches id s fresh))
      | inr (h, at) ↦
          let (a, there, used) = alive id h at in
          let b : ArcInner = referred a (a.strong + 1) in
          let s' : State = record s { heap = update s.heap h (some b) } in
          subst (λ x. Opening k P s (((λ _. x) >>= use_group k path) s))
            (sym (get_group_again k c id h a s at there))
            (use_group-Opening s s' h b path (ground arith)
              (λ t d (same, calls, files, att).
                opens_again id h a at there same (ground arith) (ground arith) (λ p. ground arith)
                  files att)
              (λ t y (calls, files, att).
                changes_nothing (ground arith) (ground arith) (λ p. ground arith) (ground arith)
                  (λ holds. ground arith)))
    ]

    named-Opening :
        (s : State) (path : SysPath) (x : Outcome ℕ × State)
        → x.1 ≡ s
        → s.heap s.next ≡ none
        → IsAlive s
        → Opening k P s (((λ _. x) >>= λ id. get_group k c id >>= use_group k path) s)
    named-Opening s path (ok id, s') e fresh alive =
        subst (λ t. Opening k P s ((get_group k c id >>= use_group k path) t)) (sym e)
          (get_group-Opening s id path fresh alive)
    named-Opening s path (err y, s') e fresh alive =
        subst (λ t. Opening k P s (err y, t)) (sym e)
          (changes_nothing (omega arith) refl (λ p. refl) refl (λ holds. refl))
    named-Opening s path (fault y, s') e fresh alive = panics

    pub new_device-Opening :
        (path : SysPath) (s : State)
        → s.heap s.next ≡ none
        → IsAlive s
        → Opening k P s (new_device k c path s)
    unfolding new_device
    new_device-Opening path s fresh alive =
        named-Opening s path (get_group_id_from_path k path s)
          (get_group_id_from_path-state k path s) fresh alive
