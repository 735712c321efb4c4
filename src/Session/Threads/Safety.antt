-- ===== src/Session/Threads/Safety.antt =====
-- What holds whenever threads have opened and dropped devices, in any order of their steps.
use vfio.Prelude.{
  ℕ, suc, ◌<◌, ◌≤◌, ◌≡◌, refl, subst, sym, some, none, arith, lookup, [], get_elem?, inl, inr,
  IsDistinct,
}
use vfio.Host.Kernel.{Kernel}
use vfio.Host.Action.{ArcInner}
use vfio.Container.{VfioContainer}
use vfio.Device.Irq.{VfioDevice}
use vfio.Session.Threads.{Phase, opened, System, Step, spawn, pick, Reach, start, later}
use vfio.Session.Threads.Counts.{refs, uses, total, le-total}
use vfio.Session.Threads.Shared.{Shared}
use vfio.Session.Threads.References.{same-Shared}
use vfio.Session.Threads.Moves.{all_refs, all_uses, Move-Shared}

abbrev pub Agrees : System → Type 0
Agrees m = Shared (all_refs m.threads) (all_uses m.threads) m.state

start-Agrees :
    (m : System)
    → m.threads ≡ []
    → m.state.groups ≡ []
    → ((h : ℕ) → m.state.heap h ≡ none)
    → Agrees m
start-Agrees m no_threads no_groups empty = record {
  distinct = subst IsDistinct (sym no_groups) tt;
  mapped = λ id h e. ground arith;
  loose = λ h a e. ground (arith, empty h);
  alive = λ h pos. absurd (ground arith);
  live = λ h pos. absurd (ground arith);
  fresh = λ h le. empty h;
}

module _ (k : Kernel) (c : VfioContainer) where
  Step-Agrees : (m n : System) → Agrees m → Step k c m n → Agrees n
  Step-Agrees m n v (spawn e) = rw e (
      same-Shared _ _ _ _ m.state m.state v (λ h. omega arith) (λ h. omega arith) (λ h. refl)
        (omega arith) refl)
  Step-Agrees m n v (pick i p p' there move e) =
      subst (λ ps. Shared (all_refs ps) (all_uses ps) n.state) (sym e)
        (Move-Shared k c m.threads i p p' there m.state n.state v move)

  Reach-Agrees : {m : System} → Reach k c m → Agrees m
  Reach-Agrees (start no_threads no_groups empty) = start-Agrees _ no_threads no_groups empty
  Reach-Agrees (later r step) = Step-Agrees _ _ (Reach-Agrees r) step

  -- Whenever any number of threads have opened and dropped devices in one container, in any order
  -- of their steps, from a container without groups, and whatever the kernel answers: a device that
  -- a thread has open has its group in the container's map, under the group's own id, the group
  -- lives, and its strong count is one, for the map, plus the references that all the threads hold
  -- in the phases they are in.
  pub open_device_mapped :
      (m : System) (i : ℕ) (d : VfioDevice)
      → Reach k c m
      → get_elem? m.threads i ≡ some (opened d)
      → (id : ℕ) × (a : ArcInner) × (lookup id m.state.groups ≡ some d.group)
        × (m.state.heap d.group ≡ some a)
        × (a.value.id ≡ id)
        × (a.strong ≡ suc (total (refs d.group) m.threads))
  open_device_mapped m i d r there =
      let v = Reach-Agrees r in
      let (id, at) =
        v.live d.group (ground (arith, le-total (uses d.group) m.threads i (opened d))) in
      let (a, alive, named, counted) = v.mapped id d.group at in (id, a, at, alive, named, counted)

  -- Whenever threads have opened and dropped devices in one container, in any order of their steps,
  -- from a container without groups: an Arc that a thread refers to in its phase lives, and its
  -- strong count is no less than that thread's references to it.
  referred_alive :
      (m : System) (i h : ℕ) (p : Phase)
      → Reach k c m
      → get_elem? m.threads i ≡ some p
      → 0 < refs h p
      → (a : ArcInner) × (m.state.heap h ≡ some a) × (refs h p ≤ a.strong)
  referred_alive m i h p r there referred =
      let v = Reach-Agrees r in
      let few = le-total (refs h) m.threads i p there in
      let (a, alive) = v.alive h (omega arith) in
      (
        a,
        alive,
        elim (v.loose h a alive) [
          | inl q ↦ omega arith
          | inr (id, at) ↦ ground (arith, v.mapped id h at)
        ],
      )
