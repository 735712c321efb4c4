-- ===== src/Session/Files.antt =====
-- How often a descriptor is held by a container's groups and by its open devices.
pub mod Groups
pub mod Holds
pub mod Runs
use vfio.Prelude.{
  ℕ, suc, ◌+◌, ◌-◌, ◌≡◌, ◌≢◌, refl, ℤ, eq_ℤ, eq_ℤ→eq, eq_ℤ_refl, Option, none, some, List, [], ◌∷◌,
  arith, lookup, insert, erase, Dict, IsDistinct, if◌then◌else◌, ◌==◌, get_elem?, zero,
}
use vfio.Host.Call.{Fd}
use vfio.Host.Action.{ArcInner, update}
use vfio.Host.Resources.{without}
use vfio.Device.Irq.{VfioDevice}
use vfio.Session.{remove_at}

abbrev pub one_if : Fd → Fd → ℕ
one_if x y = if eq_ℤ x y then 1 else 0

abbrev pub count : Fd → List Fd → ℕ
count x [] = 0
count x (y ∷ ys) = one_if x y + count x ys

pub count-without : (x y : Fd) (fds : List Fd) → count x (without y fds) ≡ count x fds - one_if x y
count-without x y [] = ground arith
count-without x y (z ∷ fds) =
    ground (arith, count-without x y fds, eq_ℤ→eq y z, eq_ℤ→eq x y, eq_ℤ→eq x z, eq_ℤ_refl y)

-- The file of the group that an `Arc` points to.
abbrev pub held : Fd → Option ArcInner → ℕ
held x none = 0
held x (some a) = one_if x a.value.group

-- The files of the mapped groups.
abbrev pub group_files : Fd → (ℕ → Option ArcInner) → Dict ℕ → ℕ
group_files x heap [] = 0
group_files x heap ((id, h) ∷ groups) = held x (heap h) + group_files x heap groups

-- The files of the devices.
abbrev pub device_files : Fd → List VfioDevice → ℕ
device_files x [] = 0
device_files x (d ∷ ds) = one_if x d.device + device_files x ds

pub device_files-remove_at :
    (x : Fd) (i : ℕ) (ds : List VfioDevice) (d : VfioDevice)
    → get_elem? ds i ≡ some d
    → device_files x ds ≡ one_if x d.device + device_files x (remove_at i ds)
unfolding remove_at
device_files-remove_at x i [] d e = cc
device_files-remove_at x zero (y ∷ ds) d e = ground arith
device_files-remove_at x (suc i) (y ∷ ds) d e = ground (arith, device_files-remove_at x i ds d)

-- No key is mapped to the handle.
abbrev pub Unmapped : ℕ → Dict ℕ → Type 0
Unmapped h groups = (id : ℕ) → lookup id groups ≢ some h

-- A heap that has the same files behind every mapped handle.
pub group_files-same :
    (x : Fd) (heap heap' : ℕ → Option ArcInner) (groups : Dict ℕ)
    → ((p : ℕ) → held x (heap' p) ≡ held x (heap p))
    → group_files x heap' groups ≡ group_files x heap groups
group_files-same x heap heap' [] same = refl
group_files-same x heap heap' ((id, h) ∷ groups) same =
    ground (arith, same h, group_files-same x heap heap' groups same)

pub group_files-Unmapped :
    (x : Fd) (heap heap' : ℕ → Option ArcInner) (o : Option ArcInner) (h : ℕ) (groups : Dict ℕ)
    → ((p : ℕ) → heap' p ≡ update heap h o p)
    → Unmapped h groups
    → IsDistinct groups
    → group_files x heap' groups ≡ group_files x heap groups
group_files-Unmapped x heap heap' o h [] changed free distinct = refl
group_files-Unmapped x heap heap' o h ((id, p) ∷ groups) changed free (first, distinct) =
    let rest : Unmapped h groups = λ j at. ground (arith, free j) in
    ground (
      arith,
      changed p,
      free id,
      group_files-Unmapped x heap heap' o h groups changed rest distinct,
    )

pub group_files-insert :
    (x : Fd) (heap : ℕ → Option ArcInner) (id h : ℕ) (groups : Dict ℕ)
    → lookup id groups ≡ none
    → group_files x heap (insert id h groups) ≡ held x (heap h) + group_files x heap groups
group_files-insert x heap id h [] free = refl
group_files-insert x heap id h ((j, p) ∷ groups) free =
    ground (arith, group_files-insert x heap id h groups)

pub group_files-erase :
    (x : Fd) (heap : ℕ → Option ArcInner) (id h : ℕ) (groups : Dict ℕ)
    → lookup id groups ≡ some h
    → group_files x heap groups ≡ held x (heap h) + group_files x heap (erase id groups)
group_files-erase x heap id h [] at = cc
group_files-erase x heap id h ((j, p) ∷ groups) at =
    ground (arith, group_files-erase x heap id h groups)
