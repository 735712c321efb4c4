-- ===== src/Session/Registry.antt =====
-- What a container promises, without `Arc`s, descriptors and calls: how many devices of each group
-- are open in it.
pub mod Steps
pub mod Runs
use vfio.Prelude.{
  Bool, true, ◌≤◌, ◌<◌, ℕ, suc, ◌-◌, ◌+◌, ◌≡◌, ◌≢◌, refl, sym, subst, ◌∙◌, Option, none, some,
  arith, lookup, insert, erase, lookup-insert, lookup-erase, IsDistinct, Dict, ◌==◌, if◌then◌else◌,
  Bool-cases, Option-cases, inl, inr,
}
use vfio.Host.Call.{SysPath}
use vfio.Session.{Op, attach, detach, operating, mapping, unmapping}
use vfio.Host.Kernel.{Kernel}
use vfio.Host.Resources.{last_refused}
use vfio.Host.Action.{State, ArcInner, VfioGroup, update}
use vfio.Session.Invariant.{Inv, mapped_once}

-- For each group id: nothing, if the container does not have the group, or its open devices.
abbrev pub Entries : Type 0
Entries = ℕ → Option ℕ

-- The number of all open devices, those of each group, and whether the hypervisor or the kernel
-- refused the last call.
pub record Registry : Type 0 where
  pub devices : ℕ
  pub groups : Entries
  pub refused : Bool

abbrev pub devices_in : Option ℕ → ℕ
devices_in none = 0
devices_in (some n) = n

-- The entries with another one for an id.
abbrev pub IsEntry : Entries → ℕ → Option ℕ → Entries → Type 0
IsEntry r id o r' = (j : ℕ) → r' j ≡ (if j == id then o else r j)

-- The same devices of the same groups.
abbrev pub IsSame : Registry → Registry → Type 0
IsSame r r' = (r'.devices ≡ r.devices) × ((j : ℕ) → r'.groups j ≡ r.groups j)

-- A client's other operations than opening and dropping.
abbrev pub IsUse : Op → Type 0
IsUse (attach path) = ⊥
IsUse (detach i) = ⊥
IsUse (operating i o) = Unit {0}
IsUse (mapping mem) = Unit {0}
IsUse (unmapping mem) = Unit {0}

-- What an operation may do to the registry.
pub data Change : Op → Registry → Registry → Type 0 where
  -- one device more, of one group
  opens :
      {path : SysPath} {r r' : Registry} (id : ℕ)
      → r'.devices ≡ suc r.devices
      → IsEntry r.groups id (some (suc (devices_in (r.groups id)))) r'.groups
      → Change (attach path) r r'
  -- nothing
  fails : {path : SysPath} {r r' : Registry} → IsSame r r' → Change (attach path) r r'
  -- a group is opened, but no device of it
  keeps_group :
      {path : SysPath} {r r' : Registry} (id : ℕ)
      → r'.devices ≡ r.devices
      → r.groups id ≡ none
      → IsEntry r.groups id (some 0) r'.groups
      → Change (attach path) r r'
  -- there is no such device
  misses : {i : ℕ} {r r' : Registry} → r.devices ≤ i → IsSame r r' → Change (detach i) r r'
  -- one device less, of one group; a group without devices stays only where it is not let go
  closes :
      {i : ℕ} {r r' : Registry} (id n : ℕ)
      → i < r.devices
      → suc r'.devices ≡ r.devices
      → r.groups id ≡ some (suc n)
      → (n ≡ 0 → r'.refused ≡ true)
      → IsEntry r.groups id (some n) r'.groups
      → Change (detach i) r r'
  -- the last device of the group goes, and the group with it
  releases :
      {i : ℕ} {r r' : Registry} (id : ℕ)
      → i < r.devices
      → suc r'.devices ≡ r.devices
      → r.groups id ≡ some 1
      → IsEntry r.groups id none r'.groups
      → Change (detach i) r r'
  -- nothing
  uses : {op : Op} {r r' : Registry} → IsUse op → IsSame r r' → Change op r r'

-- A group's devices are the references to it besides the map's.
abbrev pub entry_of : State → Option ℕ → Option ℕ
entry_of s none = none
entry_of s (some h) = elim (s.heap h) [ none ↦ none | some a ↦ some (a.strong - 1) ]

abbrev pub view : State → Entries
view s id = entry_of s (lookup id s.groups)

-- The registry of a state with so many open devices.
abbrev pub registry : Kernel → ℕ → State → Registry
registry k n s = record { devices = n; groups = view s; refused = last_refused k s.trace }

-- A step that sets the count of one mapped group.
pub set-view :
    (u : ℕ → ℕ) (s s' : State) (id h m : ℕ) (a : ArcInner)
    → Inv u s
    → lookup id s.groups ≡ some h
    → s'.groups ≡ s.groups
    → ((p : ℕ) → s'.heap p ≡ update s.heap h (some (record a { strong = suc m })) p)
    → IsEntry (view s) id (some m) (view s')
set-view u s s' id h m a v at same heap j = elim (Option-cases (lookup j s.groups)) [
  | inl free ↦ rw same (ground (arith))
  | inr (p, e) ↦ rw same (ground (arith, heap p, heap h, mapped_once u s id j h v at))
]

pub insert-view :
    (u : ℕ → ℕ) (s s' : State) (id h m : ℕ) (a : ArcInner)
    → Inv u s
    → s.heap h ≡ none
    → s'.groups ≡ insert id h s.groups
    → ((p : ℕ) → s'.heap p ≡ update s.heap h (some (record a { strong = suc m })) p)
    → IsEntry (view s) id (some m) (view s')
insert-view u s s' id h m a v fresh more heap j = elim (Option-cases (lookup j s.groups)) [
  | inl free ↦ rw more (ground (arith, lookup-insert j id h s.groups, heap h))
  | inr (p, e) ↦
      rw more (ground (arith, lookup-insert j id h s.groups, heap p, heap h, v.mapped j p e))
]

pub erase-view :
    (u : ℕ → ℕ) (s s' : State) (id h : ℕ)
    → Inv u s
    → lookup id s.groups ≡ some h
    → s'.groups ≡ erase id s.groups
    → ((p : ℕ) → s'.heap p ≡ update s.heap h none p)
    → IsEntry (view s) id none (view s')
erase-view u s s' id h v at less heap j = elim (Option-cases (lookup j s.groups)) [
  | inl free ↦ rw less (ground (arith, lookup-erase j id s.groups v.distinct))
  | inr (p, e) ↦
      rw less
        (ground (arith, lookup-erase j id s.groups v.distinct, heap p, mapped_once u s id j h v at))
]

pub same-view :
    (s s' : State)
    → s'.groups ≡ s.groups
    → ((p : ℕ) → s'.heap p ≡ s.heap p)
    → (j : ℕ) → view s' j ≡ view s j
same-view s s' same heap j = elim (Option-cases (lookup j s.groups)) [
  | inl free ↦ rw same (ground arith)
  | inr (p, e) ↦ rw same (ground (arith, heap p))
]

pub view-users :
    (u : ℕ → ℕ) (s : State) (id h : ℕ)
    → Inv u s
    → lookup id s.groups ≡ some h
    → view s id ≡ some (u h)
view-users u s id h v at = ground (arith, v.mapped id h at)
