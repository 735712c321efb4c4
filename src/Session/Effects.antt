-- ===== src/Session/Effects.antt =====
-- All that opening or dropping a device may do to a container and to the process, on every path of
-- `VfioDevice::new` and of the drop, whatever the kernel answers.
pub mod Opened
pub mod Closed
use vfio.Prelude.{true, ℕ, suc, ◌+◌, ◌-◌, ◌≤◌, ◌≡◌, none, some, ◌∷◌, lookup, insert, erase}
use vfio.Error.{VfioError, Fault, Outcome, ok, err, fault}
use vfio.Host.Call.{Fd}
use vfio.Host.Kernel.{Kernel}
use vfio.Host.Action.{State, ArcInner, update}
use vfio.Host.Resources.{open_fds, attached, without, last_refused}
use vfio.Device.Irq.{VfioDevice}

-- Every mapped group lives, and at least the map refers to it.
abbrev pub IsAlive : State → Type 0
IsAlive s =
    (id h : ℕ) → lookup id s.groups ≡ some h → (a : ArcInner) × (s.heap h ≡ some a) × (1 ≤ a.strong)

abbrev pub referred : ArcInner → ℕ → ArcInner
referred a n = record a { strong = n }

abbrev pub new_arc : ℕ → Fd → ℕ → ArcInner
new_arc id g n = record { value = record { id = id; group = g }; strong = n }

module _ (k : Kernel) (P : Type 0) where
  -- `VfioDevice::new`. The last part of `changes_nothing` is known only where `P` holds.
  pub data Opening (s : State) : Outcome VfioDevice × State → Type 0 where
    opens_anew :
        {d : VfioDevice} {s' : State} (id : ℕ) (g : Fd)
        → lookup id s.groups ≡ none
        → d.group ≡ s.next
        → s'.next ≡ suc s.next
        → s'.groups ≡ insert id s.next s.groups
        → ((p : ℕ) → s'.heap p ≡ update s.heap s.next (some (new_arc id g 2)) p)
        → open_fds k s'.trace ≡ d.device ∷ g ∷ open_fds k s.trace
        → attached k s'.trace ≡ g ∷ attached k s.trace
        → Opening s (ok d, s')
    opens_again :
        {d : VfioDevice} {s' : State} (id h : ℕ) (a : ArcInner)
        → lookup id s.groups ≡ some h
        → s.heap h ≡ some a
        → d.group ≡ h
        → s'.next ≡ s.next
        → s'.groups ≡ s.groups
        → ((p : ℕ) → s'.heap p ≡ update s.heap h (some (referred a (a.strong + 1))) p)
        → open_fds k s'.trace ≡ d.device ∷ open_fds k s.trace
        → attached k s'.trace ≡ attached k s.trace
        → Opening s (ok d, s')
    leaves_group :
        {e : VfioError} {s' : State} (id : ℕ) (g : Fd)
        → lookup id s.groups ≡ none
        → s'.next ≡ suc s.next
        → s'.groups ≡ insert id s.next s.groups
        → ((p : ℕ) → s'.heap p ≡ update s.heap s.next (some (new_arc id g 1)) p)
        → open_fds k s'.trace ≡ g ∷ open_fds k s.trace
        → attached k s'.trace ≡ g ∷ attached k s.trace
        → Opening s (err e, s')
    changes_nothing :
        {e : VfioError} {s' : State}
        → s.next ≤ s'.next
        → s'.groups ≡ s.groups
        → ((p : ℕ) → s'.heap p ≡ s.heap p)
        → open_fds k s'.trace ≡ open_fds k s.trace
        → (P → attached k s'.trace ≡ attached k s.trace)
        → Opening s (err e, s')
    panics : {x : Fault} {s' : State} → Opening s (fault x, s')

module _ (k : Kernel) where
  -- The drop of a device in the group `a`, which the map has under `id`.
  pub data Closing (d : VfioDevice) (id : ℕ) (a : ArcInner) (s s' : State) : Type 0 where
    closes_device :
        s'.next ≡ s.next
        → s'.groups ≡ s.groups
        → ((p : ℕ) → s'.heap p ≡ update s.heap d.group (some (referred a (a.strong - 1))) p)
        → open_fds k s'.trace ≡ without d.device (open_fds k s.trace)
        → attached k s'.trace ≡ attached k s.trace
        → (a.strong ≡ 2 → last_refused k s'.trace ≡ true)
        → Closing d id a s s'
    releases_group :
        a.strong ≡ 2
        → s'.next ≡ s.next
        → s'.groups ≡ erase id s.groups
        → ((p : ℕ) → s'.heap p ≡ update s.heap d.group none p)
        → open_fds k s'.trace ≡ without a.value.group (without d.device (open_fds k s.trace))
        → attached k s'.trace ≡ without a.value.group (attached k s.trace)
        → Closing d id a s s'
