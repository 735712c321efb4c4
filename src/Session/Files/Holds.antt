-- ===== src/Session/Files/Holds.antt =====
-- One open or drop keeps what devices and mapped groups hold.
use vfio.Host.Calm.{SameButCalls}
use vfio.Prelude.{sym, ap, ◌∙◌, ℕ, ◌+◌, ◌-◌, ◌≡◌, some, List, ◌∷◌, arith, lookup, get_elem?}
use vfio.Error.{Outcome, ok, err, fault}
use vfio.Host.Call.{Fd}
use vfio.Host.Kernel.{Kernel}
use vfio.Host.Action.{State, ArcInner}
use vfio.Host.Resources.{open_fds, attached, without}
use vfio.Device.Irq.{VfioDevice}
use vfio.Session.{remove_at}
use vfio.Session.Invariant.{Inv}
use vfio.Session.Effects.{
  Opening, opens_anew, opens_again, leaves_group, changes_nothing, panics, Closing, closes_device,
  releases_group,
}
use vfio.Session.Files.{
  count, count-without, group_files, device_files, device_files-remove_at, group_files-same,
}
use vfio.Session.Files.Groups.{created_files, kept_files, released_files}

module _ (k : Kernel) where
  -- Each descriptor is open as often as it is in `base`, in a device and in a mapped group.
  abbrev pub HoldsFiles : (Fd → ℕ) → List VfioDevice → State → Type 0
  HoldsFiles base ds s =
      (x : Fd)
      → count x (open_fds k s.trace) ≡ base x + device_files x ds + group_files x s.heap s.groups

  -- Each descriptor is attached as often as it is in `base` and in a mapped group.
  abbrev pub HoldsGroups : (Fd → ℕ) → State → Type 0
  HoldsGroups base s =
      (x : Fd) → count x (attached k s.trace) ≡ base x + group_files x s.heap s.groups

module _ (k : Kernel) (base base' : Fd → ℕ) (P Q : Type 0) where
  abbrev pub Holds : List VfioDevice → State → Type 0
  Holds ds s = (Q → HoldsFiles k base ds s) × (P → HoldsGroups k base' s)

  abbrev pub HoldsAfter : List VfioDevice → Outcome VfioDevice × State → Type 0
  HoldsAfter ds (ok d, s) = Holds (d ∷ ds) s
  HoldsAfter ds (err e, s) = Holds ds s
  HoldsAfter ds (fault y, s) = Unit {0}

  pub Opening-HoldsAfter :
      (u : ℕ → ℕ) (ds : List VfioDevice) (s : State) (x : Outcome VfioDevice × State)
      → Inv u s
      → Holds ds s
      → Opening k P s x
      → HoldsAfter ds x
  Opening-HoldsAfter u ds s (ok d, s') inv (files, groups)
        (opens_anew id g free same next more heap fds att) =
      (
        λ q x. rw fds (ground (arith, files q x, created_files u x s s' id 2 g inv free more heap)),
        λ p x.
            rw att (ground (arith, groups p x, created_files u x s s' id 2 g inv free more heap)),
      )
  Opening-HoldsAfter u ds s (ok d, s') inv (files, groups)
        (opens_again id h a at there same next kept heap fds att) =
      (
        λ q x.
            rw fds
              (ground (arith, files q x, kept_files x s s' h (a.strong + 1) a there kept heap)),
        λ p x.
            rw att
              (ground (arith, groups p x, kept_files x s s' h (a.strong + 1) a there kept heap)),
      )
  Opening-HoldsAfter u ds s (err e, s') inv (files, groups)
        (leaves_group id g free next more heap fds att) =
      (
        λ q x. rw fds (ground (arith, files q x, created_files u x s s' id 1 g inv free more heap)),
        λ p x.
            rw att (ground (arith, groups p x, created_files u x s s' id 1 g inv free more heap)),
      )
  Opening-HoldsAfter u ds s (err e, s') inv (files, groups)
        (changes_nothing next kept heap fds att) =
      (
        λ q x.
            rw (fds, kept)
              (ground (
                arith,
                files q x,
                group_files-same x s.heap s'.heap s.groups (λ r. ground (arith, heap r)),
              )),
        λ p x.
            rw (att p, kept)
              (ground (
                arith,
                groups p x,
                group_files-same x s.heap s'.heap s.groups (λ r. ground (arith, heap r)),
              )),
      )
  Opening-HoldsAfter u ds s (fault y, s') inv holds panics = tt

  pub Closing-Holds :
      (u : ℕ → ℕ) (ds : List VfioDevice) (i id : ℕ) (d : VfioDevice) (a : ArcInner) (s s' : State)
      → Inv u s
      → Holds ds s
      → get_elem? ds i ≡ some d
      → lookup id s.groups ≡ some d.group
      → s.heap d.group ≡ some a
      → Closing k d id a s s'
      → Holds (remove_at i ds) s'
  Closing-Holds u ds i id d a s s' inv (files, groups) e at there
        (closes_device next kept heap fds att kept_empty) =
      (
        λ q x. rw fds (
            ground (
              arith,
              files q x,
              count-without x d.device (open_fds k s.trace),
              device_files-remove_at x i ds d e,
              kept_files x s s' d.group (a.strong - 1) a there kept heap,
            )),
        λ p x. rw att (
            ground (arith, groups p x, kept_files x s s' d.group (a.strong - 1) a there kept heap)),
      )
  Closing-Holds u ds i id d a s s' inv (files, groups) e at there
        (releases_group two next less heap fds att) =
      (
        λ q x. rw fds (
            ground (
              arith,
              files q x,
              count-without x a.value.group (without d.device (open_fds k s.trace)),
              count-without x d.device (open_fds k s.trace),
              device_files-remove_at x i ds d e,
              released_files u x s s' id d.group a inv at there less heap,
            )),
        λ p x. rw att (
            ground (
              arith,
              groups p x,
              count-without x a.value.group (attached k s.trace),
              released_files u x s s' id d.group a inv at there less heap,
            )),
      )

  pub SameButCalls-Holds :
      (ds : List VfioDevice) (s s' : State) → Holds ds s → SameButCalls k s s' → Holds ds s'
  SameButCalls-Holds ds s s' (files, groups) (e, fds, att) = (
    λ q x. rw fds (
        files q x
        ∙ ap {A = State} (λ t. base x + device_files x ds + group_files x t.heap t.groups) (sym e)),
    λ p x.
        rw att (groups p x ∙ ap {A = State} (λ t. base' x + group_files x t.heap t.groups) (sym e)),
  )
