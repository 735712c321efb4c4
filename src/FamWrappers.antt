-- ===== src/FamWrappers.antt =====
-- crates/vfio-bindings/src/fam_wrappers.rs: `IrqSet`, the wrapper of vmm-sys-util over `vfio_irq_set`,
-- and the unit test that builds the same set with a vector. `usize` has 64 bits; sums wrap, as in a
-- release build; `none` is a panic.
pub mod Same
use vfio.Prelude.{
  ℕ, zero, suc, ◌+◌, ◌-◌, ◌*◌, ◌/◌, ◌%◌, ◌^◌, ◌≤◌, ◌<◌, ◌≡◌, Bool, Option, none, some, List, [],
  ◌∷◌, ◌++◌, length, take, drop, replicate, ltb, ◌==◌, ◌&&◌, bit_or, if◌then◌else◌,
}
use vfio.Bindings.Structs.{VfioIrqSet, size_of_irq_set}
use vfio.Fam.{usize_mod, isize_max}
use vfio.Bindings.Constants.{vfio_irq_set_data_eventfd, vfio_irq_set_action_trigger}
use vfio.Device.Irq.{default_irq_set, size_of_u32}

abbrev pub msix_max_vectors : ℕ
msix_max_vectors = 2048

-- A `Vec<vfio_irq_set>` that is not empty: the first element, and the bytes behind it, of which the
-- flexible array `data` takes the first.
pub record IrqSetVec : Type 0 where
  pub header : VfioIrqSet
  pub bytes : List ℕ

-- `FamStructWrapper<vfio_irq_set>`, in whose documentation `new` makes a zeroed set with this number
-- of entries in a vector of the fewest elements that have room for them, and fails past the limit
-- that `generate_fam_struct_impl!` is given.
pub record FamStructWrapper : Type 0 where
  pub new : ℕ → Option IrqSetVec
  pub new_zeroed :
      (count : ℕ)
      → count ≤ msix_max_vectors
      → new count
        ≡ some (record {
          header = record default_irq_set { count = count };
          bytes = replicate ((count + 19) / size_of_irq_set * size_of_irq_set) 0;
        })
  pub new_limit : (count : ℕ) → msix_max_vectors < count → new count ≡ none

infixl 5 ◌>>=◌
abbrev ◌>>=◌ {ℓ κ} : {A : Type ℓ} {B : Type κ} → Option A → (A → Option B) → Option B
none >>= f = none
some a >>= f = f a

-- The test's own routines, which check no sum.
abbrev pub vec_with_size_in_bytes {ℓ} : {T : Type ℓ} → ℕ → T → ℕ → Option (List T)
vec_with_size_in_bytes size default size_in_bytes =
    let rounded_size = (size_in_bytes + size - 1) % usize_mod / size in
    if ltb isize_max (rounded_size * size) then none else some (replicate rounded_size default)

abbrev pub vec_with_array_field {ℓ} : {T : Type ℓ} → ℕ → T → ℕ → ℕ → Option (List T)
vec_with_array_field size default field_size count =
    let element_space = (count * field_size) % usize_mod in
    vec_with_size_in_bytes size default ((size + element_space) % usize_mod)

abbrev pub as_irq_set : List VfioIrqSet → Option IrqSetVec
as_irq_set [] = none
as_irq_set (v ∷ vs) =
    some (record { header = v; bytes = replicate (length vs * size_of_irq_set) 0 })

-- The opinionated `PartialEq`.
abbrev pub eq_irq_set : VfioIrqSet → VfioIrqSet → Bool
eq_irq_set a b =
    a.argsz == b.argsz
    && (a.flags == b.flags && (a.index == b.index && (a.start == b.start && a.count == b.count)))

-- A sum of `u32`.
abbrev add_u32 : ℕ → ℕ → ℕ
add_u32 a b = (a + b) % 2 ^ 32

abbrev from_le : List ℕ → ℕ
from_le [] = 0
from_le (b ∷ bytes) = b + 256 * from_le bytes

abbrev u32_at : ℕ → List ℕ → ℕ
u32_at offset bytes = from_le (take size_of_u32 (drop offset bytes))

-- The elements of a vector, as `iter` yields them.
abbrev pub elements_from : ℕ → List ℕ → List VfioIrqSet
elements_from zero bytes = []
elements_from (suc n) bytes =
    record {
      argsz = u32_at 0 bytes;
      flags = u32_at 4 bytes;
      index = u32_at 8 bytes;
      start = u32_at 12 bytes;
      count = u32_at 16 bytes;
    }
    ∷ elements_from n (drop size_of_irq_set bytes)

abbrev pub elements : IrqSetVec → List VfioIrqSet
elements set = set.header ∷ elements_from (length set.bytes / size_of_irq_set) set.bytes

-- `a.iter().zip(b.iter()).filter(|&(a, b)| a == b).count()`
abbrev pub same_count : List VfioIrqSet → List VfioIrqSet → ℕ
same_count [] bs = 0
same_count (a ∷ as') [] = 0
same_count (a ∷ as') (b ∷ bs) =
    if eq_irq_set a b then suc (same_count as' bs) else same_count as' bs

module _ (write_u32 : List ℕ → ℕ → List ℕ) where
  -- `let fd = &mut fds[fds_offset..fds_offset + size_of::<u32>()]`, and the write into it.
  abbrev pub write_fd : ℕ → ℕ → List ℕ → Option (List ℕ)
  write_fd fds_offset event_fd fds =
      if ltb (length fds) (fds_offset + size_of_u32)
      then none
      else some (
          take fds_offset fds
          ++ (write_u32 (take size_of_u32 (drop fds_offset fds)) event_fd
              ++ drop (fds_offset + size_of_u32) fds))

  -- The test's loop over the descriptors, from `index` on, as the wrapper's block has it.
  unfoldable pub write_fam : ℕ → List ℕ → List ℕ → Option (List ℕ)
  write_fam index [] fds_fam = some fds_fam
  write_fam index (event_fd ∷ event_fds) fds_fam =
      write_fd (index * size_of_u32) event_fd fds_fam >>= write_fam (suc index) event_fds

  -- The wrapper's block: the descriptors, then the header's fields. `as_mut_slice` of the wrapper
  -- has as many entries as the header counts.
  abbrev pub fill_fam : List ℕ → IrqSetVec → Option IrqSetVec
  fill_fam event_fds set = do
    fds_fam ← write_fam 0 event_fds (take set.header.count set.bytes)
    some (record {
      header = record {
        argsz = add_u32 size_of_irq_set (length event_fds * size_of_u32 % 2 ^ 32);
        flags = bit_or vfio_irq_set_data_eventfd vfio_irq_set_action_trigger;
        index = 1;
        start = 0;
        count = length event_fds % 2 ^ 32;
      };
      bytes = fds_fam ++ drop set.header.count set.bytes;
    })

  abbrev pub irq_set_wrapper : FamStructWrapper → List ℕ → Option IrqSetVec
  irq_set_wrapper w event_fds = w.new (length event_fds * size_of_u32) >>= fill_fam event_fds

  -- The loop of the vector's block.
  unfoldable pub write_vec : ℕ → List ℕ → List ℕ → Option (List ℕ)
  write_vec index [] fds_vec = some fds_vec
  write_vec index (event_fd ∷ event_fds) fds_vec =
      write_fd (index * size_of_u32) event_fd fds_vec >>= write_vec (suc index) event_fds

  -- The vector's block: the header's fields, then the descriptors.
  abbrev pub fill_vec : List ℕ → IrqSetVec → Option IrqSetVec
  fill_vec event_fds set =
      let header : VfioIrqSet = record {
        argsz = add_u32 size_of_irq_set (length event_fds * size_of_u32 % 2 ^ 32);
        flags = bit_or vfio_irq_set_data_eventfd vfio_irq_set_action_trigger;
        index = 1;
        start = 0;
        count = length event_fds % 2 ^ 32;
      } in
      do
        fds_vec ← write_vec 0 event_fds (take (length event_fds * size_of_u32) set.bytes)
        some (record {
          header = header;
          bytes = fds_vec ++ drop (length event_fds * size_of_u32) set.bytes;
        })

  abbrev pub irq_set_vec : List ℕ → Option IrqSetVec
  irq_set_vec event_fds = do
    elements ← vec_with_array_field size_of_irq_set default_irq_set size_of_u32 (length event_fds)
    set ← as_irq_set elements
    fill_vec event_fds set

  -- The test, for any descriptors: whether the assertion holds.
  abbrev pub irqset_fam_test : FamStructWrapper → List ℕ → Option Bool
  irqset_fam_test w event_fds = do
    irq_set_wrapper' ← irq_set_wrapper w event_fds
    irq_set_vec' ← irq_set_vec event_fds
    some (
        same_count (elements irq_set_vec') (elements irq_set_wrapper')
        == length (elements irq_set_vec'))
