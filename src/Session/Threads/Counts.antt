-- ===== src/Session/Threads/Counts.antt =====
-- How many references the threads have to a group.
use vfio.Prelude.{
  ℕ, zero, suc, ◌+◌, ◌≤◌, ◌≡◌, some, List, [], ◌∷◌, arith, get_elem?, ◌==◌, if◌then◌else◌,
}
use vfio.Session.Threads.{Phase, idle, holding, opened, closed, cloned, put, unput, set}

abbrev pub at_group : ℕ → ℕ → ℕ → ℕ
at_group h g n = if g == h then n else 0

-- The references of a thread to an `Arc`.
abbrev pub refs : ℕ → Phase → ℕ
refs h idle = 0
refs h (holding g) = at_group h g 1
refs h (opened d) = at_group h d.group 1
refs h (closed d) = at_group h d.group 1
refs h (cloned d) = at_group h d.group 2
refs h (put d) = at_group h d.group 2
refs h (unput d) = at_group h d.group 1

-- Those of a thread that is not past `put_group`'s lock.
abbrev pub uses : ℕ → Phase → ℕ
uses h idle = 0
uses h (holding g) = at_group h g 1
uses h (opened d) = at_group h d.group 1
uses h (closed d) = at_group h d.group 1
uses h (cloned d) = at_group h d.group 2
uses h (put d) = 0
uses h (unput d) = 0

abbrev pub total : (Phase → ℕ) → List Phase → ℕ
total w [] = 0
total w (p ∷ ps) = w p + total w ps

pub total-set :
    (w : Phase → ℕ) (ps : List Phase) (i : ℕ) (p q : Phase)
    → get_elem? ps i ≡ some p
    → total w (set ps i q) + w p ≡ total w ps + w q
total-set w [] i p q e = ground arith
total-set w (x ∷ ps) zero p q e = ground arith
total-set w (x ∷ ps) (suc i) p q e = ground (arith, total-set w ps i p q)

pub le-total :
    (w : Phase → ℕ) (ps : List Phase) (i : ℕ) (p : Phase)
    → get_elem? ps i ≡ some p
    → w p ≤ total w ps
le-total w [] i p e = ground arith
le-total w (x ∷ ps) zero p e = ground arith
le-total w (x ∷ ps) (suc i) p e = ground (arith, le-total w ps i p)

uses-le-refs : (h : ℕ) (p : Phase) → uses h p ≤ refs h p
uses-le-refs h p = ground arith

pub total-le : (h : ℕ) (ps : List Phase) → total (uses h) ps ≤ total (refs h) ps
total-le h [] = omega arith
total-le h (p ∷ ps) = omega (arith, uses-le-refs h p, total-le h ps)
