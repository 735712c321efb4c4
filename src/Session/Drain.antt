-- ===== src/Session/Drain.antt =====
-- Dropping every device of a session.
use vfio.Prelude.{
  ℕ, ◌<◌, ◌≡◌, refl, subst, ◌∙◌, none, some, arith, lookup, erase, lookup-erase, List, [], ◌∷◌,
  length, replicate, Dict, ◌==◌, Bool-cases, inl, inr, Option-cases,
}
use vfio.Error.{ok}
use vfio.Host.Call.{Fd}
use vfio.Host.Kernel.{Kernel}
use vfio.Host.Action.{State, ArcInner}
use vfio.Container.{VfioContainer}
use vfio.Container.Release.{LetsGo, IsAlone, drop_device_last, drop_device_other}
use vfio.Device.Irq.{VfioDevice}
use vfio.Device.Lifecycle.{drop_device}
use vfio.Session.{Session, Op, detach, users, run_op, run}
use vfio.Session.Invariant.{Inv, mapped_once}
use vfio.Session.Steps.{drop_device-Inv}

-- Every group in the map has an open device.
abbrev pub NoneLeft : Session → Type 0
NoneLeft n = (id h : ℕ) → lookup id n.state.groups ≡ some h → 0 < users n.devices h

empty_dict : {V : Type 0} (d : Dict V) → ((id : ℕ) → lookup id d ≡ none) → d ≡ []
empty_dict [] h = refl
empty_dict ((id, v) ∷ d) h = ground (arith, h id)

module _ (k : Kernel) (c : VfioContainer) (lets : (g : Fd) → LetsGo k c g) where
  -- Whenever, as they are dropped one after another, one is the last of its group, no other device
  -- of the group is open.
  abbrev pub AreAlone : List VfioDevice → State → Type 0
  AreAlone [] s = Unit {0}
  AreAlone (d ∷ ds) s =
      ((a : ArcInner) → users ds d.group ≡ 0 → s.heap d.group ≡ some a → IsAlone k c d a s)
      × AreAlone ds (drop_device k c d s).1

  dropped-ok :
      (d : VfioDevice) (ds : List VfioDevice) (s : State)
      → Inv (users (d ∷ ds)) s
      → ((a : ArcInner) → users ds d.group ≡ 0 → s.heap d.group ≡ some a → IsAlone k c d a s)
      → ((drop_device k c d s).0 ≡ ok tt)
        × ((id h : ℕ)
            → lookup id s.groups ≡ some h
            → users ds h ≡ 0
            → h ≡ d.group
            → lookup id (drop_device k c d s).1.groups ≡ none)
        × ((id h : ℕ)
            → lookup id (drop_device k c d s).1.groups ≡ some h
            → lookup id s.groups ≡ some h)
  dropped-ok d ds s inv alone =
      let (id, at) = inv.live d.group (ground arith) in
      let (a, there, named, counted) = inv.mapped id d.group at in
      elim (Bool-cases (users ds d.group == 0)) [
        | inl last ↦
            let gone =
              drop_device_last k c d a s (lets a.value.group) (alone a (ground arith) there) there
                (ground arith) (rw named at) in
            (
              gone.0,
              λ j h e unused same. rw gone.1 (
                  ground (
                    arith,
                    lookup-erase j a.value.id s.groups inv.distinct,
                    mapped_once _ s id j h inv,
                  )),
              λ j h e.
                  let e' : lookup j (erase a.value.id s.groups) ≡ some h =
                    subst (λ g. lookup j g ≡ some h) gone.1 e in
                  ground (arith, lookup-erase j a.value.id s.groups inv.distinct),
            )
        | inr more ↦
            let kept = drop_device_other k c d a s there (ground arith) in
            (
              kept.0,
              λ j h e unused same. absurd (ground arith),
              λ j h e. subst (λ g. lookup j g ≡ some h) kept.1 e,
            )
      ]

  detach_first :
      (d : VfioDevice) (ds : List VfioDevice) (s : State)
      → (drop_device k c d s).0 ≡ ok tt
      → run_op k c (detach 0) (record { devices = d ∷ ds; state = s })
        ≡ some (record { devices = ds; state = (drop_device k c d s).1 })
  unfolding run_op
  detach_first d ds s fine = ground (arith, fine)

  run_detach :
      (d : VfioDevice) (ds : List VfioDevice) (ops : List Op) (s : State)
      → (drop_device k c d s).0 ≡ ok tt
      → run k c (detach 0 ∷ ops) (record { devices = d ∷ ds; state = s })
        ≡ run k c ops (record { devices = ds; state = (drop_device k c d s).1 })
  unfolding run
  run_detach d ds ops s fine = ground (arith, detach_first d ds s fine)

  -- In a state whose reference counts are right, where every mapped group has an open device, where
  -- the hypervisor lets groups go and the kernel lets a group go as long as no device of it is
  -- open, and where the last device of a group, when its turn comes, is the only one of the group
  -- that is open: dropping all the devices, one after another, comes to its end without a panic and
  -- leaves no group in the container's map.
  pub run-drains :
      (ds : List VfioDevice) (s : State)
      → Inv (users ds) s
      → NoneLeft (record { devices = ds; state = s })
      → AreAlone ds s
      → (s' : State) × (run k c
            (replicate (length ds) (detach 0))
            (record { devices = ds; state = s })
          ≡ some (record { devices = []; state = s' }))
        × (s'.groups ≡ [])
  unfolding run
  run-drains [] s inv busy alone = (
    s,
    refl,
    empty_dict s.groups (λ id. elim (Option-cases (lookup id s.groups)) [
      | inl free ↦ free
      | inr (h, at) ↦ absurd (omega (arith, busy id h at))
    ]),
  )
  run-drains (d ∷ ds) s inv busy (alone, later) =
      let t : State = (drop_device k c d s).1 in
      let (fine, freed, stays) = dropped-ok d ds s inv alone in
      let inv' : Inv (users ds) t =
        drop_device-Inv k c (users (d ∷ ds)) (users ds) d s inv (ground arith)
          (λ p. ground arith) in
      let busy' : NoneLeft (record { devices = ds; state = t }) = λ id h at.
        elim (Bool-cases (users ds h == 0)) [
          | inl none_here ↦
              absurd (
                ground
                  (arith, busy id h (stays id h at), freed id h (stays id h at) (ground arith)))
          | inr some_here ↦ ground arith
        ] in
      let (s', runs, empty) = run-drains ds t inv' busy' later in
      (s', run_detach d ds (replicate (length ds) (detach 0)) s fine ∙ runs, empty)
