-- ===== src/Bindings/Layout.antt =====
-- The memory layout that `#[repr(C)]` gives a struct: each field at the next multiple of its
-- alignment, the size rounded up to the largest alignment. The structs of
-- crates/vfio-bindings/src/bindings_v5_0_0/vfio.rs are written as the layouts of their fields.
use vfio.Prelude.{ℕ, ◌+◌, ◌-◌, ◌*◌, ◌%◌, List, [], ◌∷◌, if◌then◌else◌, ltb}

pub record Layout : Type 0 where
  pub size : ℕ
  pub align : ℕ

abbrev pub prim : ℕ → Layout
prim w = record { size = w; align = w }

-- `__IncompleteArrayField<T>`, the pair of a `PhantomData<T>` and a `[T; 0]`.
abbrev pub incomplete_array : Layout → Layout
incomplete_array t = record { size = 0; align = t.align }

abbrev pub round_up : ℕ → ℕ → ℕ
round_up n a = n + (a - n % a) % a

abbrev pub offsets_from : ℕ → List Layout → List ℕ
offsets_from n [] = []
offsets_from n (f ∷ fs) = round_up n f.align ∷ offsets_from (round_up n f.align + f.size) fs

abbrev pub end_from : ℕ → List Layout → ℕ
end_from n [] = n
end_from n (f ∷ fs) = end_from (round_up n f.align + f.size) fs

abbrev pub max_align : ℕ → List Layout → ℕ
max_align a [] = a
max_align a (f ∷ fs) = max_align (if ltb a f.align then f.align else a) fs

abbrev pub repr_c : List Layout → Layout
repr_c fs = record { size = round_up (end_from 0 fs) (max_align 1 fs); align = max_align 1 fs }

abbrev pub size_of : List Layout → ℕ
size_of fs = (repr_c fs).size

abbrev pub array : ℕ → Layout → Layout
array n t = record { size = n * t.size; align = t.align }

abbrev pub max_size : ℕ → List Layout → ℕ
max_size n [] = n
max_size n (f ∷ fs) = max_size (if ltb n f.size then f.size else n) fs

-- A union is as large and as aligned as it must be for each of its fields, all at offset 0.
abbrev pub repr_c_union : List Layout → Layout
repr_c_union fs = record {
  size = round_up (max_size 0 fs) (max_align 1 fs);
  align = max_align 1 fs;
}
