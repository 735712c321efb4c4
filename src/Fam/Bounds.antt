-- ===== src/Fam/Bounds.antt =====
-- The vectors of fam.rs hold the header and the array, with less than one element to spare.
use native.Mathlib.Nat.{div-mul-le_self, lt-div-mul-add, div-eq_of_lt}
use vfio.Prelude.{
  ℕ, ◌+◌, ◌-◌, ◌*◌, ◌%◌, ◌≤◌, ◌<◌, ◌≡◌, none, some, List, [], arith, length, length-replicate,
  replicate,
}
use vfio.Fam.{usize_mod, isize_max, rounded_size, vec_with_array_field}

rounded_size_bounds :
    (size n : ℕ)
    → 0 < size
    → n + size ≤ usize_mod
    → (n ≤ rounded_size size n * size) × (rounded_size size n * size < n + size)
rounded_size_bounds size n h k =
    let m : ℕ = n + size - 1 in
    let e : m % usize_mod ≡ m = omega arith in
    rw e (
      omega (arith, div-mul-le_self m size),
      omega (arith, div-mul-le_self m size, lt-div-mul-add {a = m} h),
    )

-- A sum past the end of `usize` wraps to fewer bytes than an element.
rounded_size_wrapped :
    (size n : ℕ) → n < usize_mod → usize_mod < n + size → size ≤ usize_mod → rounded_size size n ≡ 0
rounded_size_wrapped size n h k small =
    let e : (n + size - 1) % usize_mod < size = omega arith in div-eq_of_lt e

-- For a header of `size` bytes and `count` fields of `field_size` bytes the vector is made whenever
-- the header, the fields and one more header are at most `isize::MAX` bytes; it holds header and
-- fields, and is less than one header larger.
pub vec_with_array_field_fits {ℓ} :
    {T : Type ℓ} (size : ℕ) (default : T) (field_size count : ℕ)
    → 0 < size
    → count * field_size + (size + size) ≤ isize_max
    → (v : List T) × (vec_with_array_field size default field_size count ≡ some v)
      × (size + count * field_size ≤ length v * size)
      × (length v * size < size + count * field_size + size)
unfolding vec_with_array_field
vec_with_array_field_fits size default field_size count h k =
    let n : ℕ = count * field_size + size in
    let b : (n ≤ rounded_size size n * size) × (rounded_size size n * size < n + size) =
      rounded_size_bounds size n h (omega arith) in
    (
      replicate (rounded_size size n) default,
      ground arith,
      rw (length-replicate (rounded_size size n) default) (omega arith),
      rw (length-replicate (rounded_size size n) default) (omega arith),
    )

-- Where header and fields do not fit `usize` at all, the call panics.
vec_with_array_field_overflow {ℓ} :
    {T : Type ℓ} (size : ℕ) (default : T) (field_size count : ℕ)
    → usize_mod ≤ count * field_size + size
    → vec_with_array_field size default field_size count ≡ none
unfolding vec_with_array_field
vec_with_array_field_overflow size default field_size count h = ground arith

-- Where header and fields fit `usize`, but not with one more header, the rounding wraps, and the
-- call returns an empty vector with no room for the header.
pub vec_with_array_field_wraps {ℓ} :
    {T : Type ℓ} (size : ℕ) (default : T) (field_size count : ℕ)
    → size ≤ usize_mod
    → count * field_size + size < usize_mod
    → usize_mod < count * field_size + (size + size)
    → vec_with_array_field size default field_size count ≡ some []
unfolding vec_with_array_field
vec_with_array_field_wraps size default field_size count small h k =
    ground (arith, rounded_size_wrapped size (count * field_size + size))
