-- ===== src/Session/Files/Groups.antt =====
-- What creating, counting and releasing groups does to the files that the groups hold.
use vfio.Prelude.{
  ℕ, ◌+◌, ◌≡◌, none, some, arith, lookup, erase, insert, lookup-erase, erase-IsDistinct,
}
use vfio.Host.Call.{Fd}
use vfio.Host.Action.{State, ArcInner, update}
use vfio.Session.Invariant.{Inv, mapped_once}
use vfio.Session.Effects.{new_arc}
use vfio.Session.Files.{
  one_if, group_files, Unmapped, group_files-same, group_files-Unmapped, group_files-insert,
  group_files-erase,
}

-- A new group's file joins those of the groups.
pub created_files :
    (u : ℕ → ℕ) (x : Fd) (s s' : State) (id n : ℕ) (g : Fd)
    → Inv u s
    → lookup id s.groups ≡ none
    → s'.groups ≡ insert id s.next s.groups
    → ((p : ℕ) → s'.heap p ≡ update s.heap s.next (some (new_arc id g n)) p)
    → group_files x s'.heap s'.groups ≡ one_if x g + group_files x s.heap s.groups
created_files u x s s' id n g inv free groups heap =
    let unmapped : Unmapped s.next s.groups =
      λ j at. ground (arith, inv.mapped j s.next at, inv.fresh s.next) in
    rw groups (
      ground (
        arith,
        group_files-insert x s'.heap id s.next s.groups free,
        heap s.next,
        group_files-Unmapped x s.heap s'.heap (some (new_arc id g n)) s.next s.groups heap unmapped
            inv.distinct,
      ))

-- Other counts of references leave the files as they are.
pub kept_files :
    (x : Fd) (s s' : State) (h n : ℕ) (a : ArcInner)
    → s.heap h ≡ some a
    → s'.groups ≡ s.groups
    → ((p : ℕ) → s'.heap p ≡ update s.heap h (some (record a { strong = n })) p)
    → group_files x s'.heap s'.groups ≡ group_files x s.heap s.groups
kept_files x s s' h n a there groups heap =
    rw groups (group_files-same x s.heap s'.heap s.groups (λ p. ground (arith, heap p)))

-- The file of a group that goes is no longer among them.
pub released_files :
    (u : ℕ → ℕ) (x : Fd) (s s' : State) (id h : ℕ) (a : ArcInner)
    → Inv u s
    → lookup id s.groups ≡ some h
    → s.heap h ≡ some a
    → s'.groups ≡ erase id s.groups
    → ((p : ℕ) → s'.heap p ≡ update s.heap h none p)
    → group_files x s.heap s.groups ≡ one_if x a.value.group + group_files x s'.heap s'.groups
released_files u x s s' id h a inv at there groups heap =
    let unmapped : Unmapped h (erase id s.groups) = λ j e.
      ground (arith, lookup-erase j id s.groups inv.distinct, mapped_once u s id j h inv at) in
    rw groups (
      ground (
        arith,
        group_files-erase x s.heap id h s.groups at,
        group_files-Unmapped x s.heap s'.heap none h (erase id s.groups) heap unmapped
            (erase-IsDistinct id s.groups inv.distinct),
      ))
