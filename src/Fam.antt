-- ===== src/Fam.antt =====
-- crates/vfio-ioctls/src/fam.rs: vectors with room for a flexible array member. `usize` has 64 bits;
-- sums that the source does not check wrap, as in a release build; `none` is a panic.
pub mod Bounds
use vfio.Prelude.{
  ℕ, ◌+◌, ◌-◌, ◌*◌, ◌/◌, ◌%◌, ◌^◌, Option, none, some, List, replicate, ltb, if◌then◌else◌,
}

abbrev pub usize_mod : ℕ
usize_mod = 2 ^ 64

abbrev pub isize_max : ℕ
isize_max = 2 ^ 63 - 1

-- `usize::checked_mul` and `usize::checked_add`.
abbrev pub checked : ℕ → Option ℕ
checked n = if ltb n usize_mod then some n else none

abbrev pub or_panic {ℓ κ} : {A : Type ℓ} {B : Type κ} → Option A → (A → Option B) → Option B
or_panic none f = none
or_panic (some a) f = f a

-- `vec_with_size_in_bytes::<T>`, with `size` for `size_of::<T>()` and `default` for `T::default()`.
-- `Vec::with_capacity` panics where the bytes exceed `isize::MAX`.
abbrev pub rounded_size : ℕ → ℕ → ℕ
rounded_size size size_in_bytes = (size_in_bytes + size - 1) % usize_mod / size

unfoldable pub vec_with_size_in_bytes {ℓ} : {T : Type ℓ} → ℕ → T → ℕ → Option (List T)
vec_with_size_in_bytes size default size_in_bytes =
    let n = rounded_size size size_in_bytes in
    if ltb isize_max (n * size) then none else some (replicate n default)

-- `vec_with_array_field::<T, F>(count)`, with `field_size` for `size_of::<F>()`.
unfoldable pub vec_with_array_field {ℓ} : {T : Type ℓ} → ℕ → T → ℕ → ℕ → Option (List T)
unfolding vec_with_size_in_bytes
vec_with_array_field size default field_size count =
    or_panic (checked (count * field_size)) λ element_space.
      or_panic (checked (element_space + size))
        λ vec_size_bytes. vec_with_size_in_bytes size default vec_size_bytes
