-- ===== src/Container/Create.antt =====
-- `get_group` for a new id: either the group is open, attached and mapped, or nothing is left behind.
use vfio.Prelude.{◌+◌, ℕ, suc, ◌≡◌, none, some, ◌∷◌, arith, lookup, insert, ◌≤◌}
use vfio.Error.{Outcome, ok, err, fault}
use vfio.Host.Call.{Fd}
use vfio.Host.Kernel.{Kernel}
use vfio.Host.Action.{State, ArcInner, update}
use vfio.Host.Resources.{open_fds, attached}
use vfio.Container.{VfioContainer, create_group, get_group}
use vfio.Container.Attach.{Detaches, CreatesIf, create_group-CreatesIf}

module _ (k : Kernel) where
  -- A new group is the next allocation, referred to by the map and by the caller, and its file is
  -- open and attached; after an error all is as before.
  abbrev pub Creates : ℕ → State → Outcome ℕ × State → Type 0
  Creates id s (ok h, s') =
      (h ≡ s.next)
      × (g : Fd) × ((p : ℕ)
          → s'.heap p
            ≡ update s.heap s.next
                (some (record { value = record { id = id; group = g }; strong = 2 })) p)
      × (s'.next ≡ suc s.next)
      × (s'.groups ≡ insert id s.next s.groups)
      × (open_fds k s'.trace ≡ g ∷ open_fds k s.trace)
      × (attached k s'.trace ≡ g ∷ attached k s.trace)
  Creates id s (err e, s') =
      ((p : ℕ) → s'.heap p ≡ s.heap p)
      × (s.next ≤ s'.next)
      × (s'.groups ≡ s.groups)
      × (open_fds k s'.trace ≡ open_fds k s.trace)
      × (attached k s'.trace ≡ attached k s.trace)
  Creates id s (fault x, s') = ⊥

  CreatesIf→Creates :
      (c : VfioContainer) (detaches : Detaches k c) (id : ℕ) (s : State) (x : Outcome ℕ × State)
      → CreatesIf k c {P = Unit {0}} (λ _. detaches) id s x
      → Creates id s x
  CreatesIf→Creates c detaches id s (ok h, s') i = i
  CreatesIf→Creates c detaches id s (err e, s') i = (i.0, i.1, i.2, i.3, i.4 tt)
  CreatesIf→Creates c detaches id s (fault x, s') i = i

  -- For a group id that is not in the map, in a state whose next allocation is free, and if the
  -- kernel does detach the group attached last when it is asked to: where it succeeds, the group is
  -- the new allocation with the id, referred to twice, by the map and by the caller, and exactly
  -- one more descriptor is open, the group's, and attached; where it fails at any step, living
  -- groups, map, open descriptors and attached groups are as before. It never panics.
  pub create_group-Creates :
      (c : VfioContainer) (id : ℕ) (s : State)
      → Detaches k c
      → s.heap s.next ≡ none
      → Creates id s (create_group k c id s)
  create_group-Creates c id s detaches fresh =
      CreatesIf→Creates c detaches id s (create_group k c id s)
        (create_group-CreatesIf k c (λ _. detaches) id s fresh)

  pub get_group_new :
      (c : VfioContainer) (id : ℕ) (s : State)
      → lookup id s.groups ≡ none
      → get_group k c id s ≡ create_group k c id s
  unfolding get_group
  get_group_new c id s free = ground arith

  -- For an id whose group is in the map and lives, get_group returns this very group and does
  -- nothing but count one more reference to it.
  pub get_group_again :
      (c : VfioContainer) (id h : ℕ) (a : ArcInner) (s : State)
      → lookup id s.groups ≡ some h
      → s.heap h ≡ some a
      → get_group k c id s
        ≡ (ok h, record s { heap = update s.heap h (some (record a { strong = a.strong + 1 })) })
  unfolding get_group
  get_group_again c id h a s at there = ground arith
