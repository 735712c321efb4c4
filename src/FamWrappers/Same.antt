-- ===== src/FamWrappers/Same.antt =====
-- The wrapper and the vector hold the same set, which is the one that `enable_irq` sends.
use mathlib.Core.List.{append_assoc}
use vfio.Prelude.{
  Option-cases, inl, inr, ℕ, zero, suc, ◌+◌, ◌-◌, ◌*◌, ◌/◌, ◌%◌, ◌^◌, ◌≤◌, ◌<◌, ◌≡◌, refl, sym, ap,
  ◌∙◌, true, false, some, List, [], ◌∷◌, ◌++◌, arith, length, length-append, take-length,
  drop-length, take, drop, replicate, length-take, length-replicate, ltb,
}
use vfio.Bindings.Structs.{VfioIrqSet, size_of_irq_set}
use vfio.Device.Caps.Bytes.{to_le}
use vfio.Device.Irq.{default_irq_set}
use vfio.Device.Irq.Enable.{WritesU32}
use vfio.FamWrappers.{
  IrqSetVec, FamStructWrapper, msix_max_vectors, vec_with_array_field, write_fd, write_fam,
  write_vec, fill_fam, fill_vec, irq_set_vec, irq_set_wrapper, eq_irq_set, elements, same_count,
  irqset_fam_test,
}

-- The descriptors one after another, as four bytes each.
abbrev pub u32_bytes : List ℕ → List ℕ
u32_bytes [] = []
u32_bytes (n ∷ ns) = to_le 4 n ++ u32_bytes ns

abbrev pub AllU32 : List ℕ → Type 0
AllU32 [] = Unit {0}
AllU32 (n ∷ ns) = (n < 2 ^ 32) × AllU32 ns

eq_irq_set_refl : (a : VfioIrqSet) → eq_irq_set a a ≡ true
eq_irq_set_refl a = ground arith

same_count_refl : (as' : List VfioIrqSet) → same_count as' as' ≡ length as'
same_count_refl [] = refl
same_count_refl (a ∷ as') = ground (arith, eq_irq_set_refl a, same_count_refl as')

drop-beyond : {A : Type 0} (xs ys : List A) (n : ℕ) → drop (length xs + n) (xs ++ ys) ≡ drop n ys
drop-beyond [] ys n = ap {A = ℕ} (λ m. drop m ys) (omega arith)
drop-beyond (x ∷ xs) ys n =
    let e : suc (length xs) + n ≡ suc (length xs + n) = omega arith in rw e (drop-beyond xs ys n)

drop-replicate : {A : Type 0} (n k : ℕ) (a : A) → drop n (replicate k a) ≡ replicate (k - n) a
drop-replicate zero k a = ap {A = ℕ} (λ m. replicate m a) (omega arith)
drop-replicate (suc n) zero a = ap {A = ℕ} (λ m. replicate m a) {x = 0} (omega arith)
drop-replicate (suc n) (suc k) a =
    drop-replicate n k a ∙ ap {A = ℕ} (λ m. replicate m a) (omega arith)

module _ (write_u32 : List ℕ → ℕ → List ℕ) (writes : WritesU32 write_u32) where
  write_fd-append :
      (done rest : List ℕ) (a b c d n : ℕ)
      → n < 2 ^ 32
      → write_fd write_u32 (length done) n (done ++ a ∷ b ∷ c ∷ d ∷ rest)
        ≡ some (done ++ (to_le 4 n ++ rest))
  write_fd-append done rest a b c d n small =
      let bytes : List ℕ = a ∷ b ∷ c ∷ d ∷ rest in
      let room : ltb (length (done ++ bytes)) (length done + 4) ≡ false =
        ground (arith, length-append done bytes) in
      rw
        (
          room,
          take-length done bytes,
          drop-length done bytes,
          drop-beyond done bytes 4,
          writes a b c d n small,
        )
        refl

  write_fam-append :
      (index : ℕ) (fds done rest : List ℕ)
      → AllU32 fds
      → length done ≡ index * 4
      → length rest ≡ length fds * 4
      → write_fam write_u32 index fds (done ++ rest) ≡ some (done ++ u32_bytes fds)
  unfolding write_fam
  write_fam-append index [] done [] small placed room = refl
  write_fam-append index [] done (r ∷ rest) small placed room = absurd (omega arith)
  write_fam-append index (fd ∷ fds) done [] small placed room = absurd (omega arith)
  write_fam-append index (fd ∷ fds) done (a ∷ []) small placed room = absurd (omega arith)
  write_fam-append index (fd ∷ fds) done (a ∷ b ∷ []) small placed room = absurd (omega arith)
  write_fam-append index (fd ∷ fds) done (a ∷ b ∷ c ∷ []) small placed room = absurd (omega arith)
  write_fam-append index (fd ∷ fds) done (a ∷ b ∷ c ∷ d ∷ rest) (first, small) placed room =
      let place : index * 4 ≡ length done = omega arith in
      let next : length (done ++ to_le 4 fd) ≡ suc index * 4 =
        omega (arith, length-append done (to_le 4 fd)) in
      rw
        (
          place,
          write_fd-append done rest a b c d fd first,
          sym (append_assoc done (to_le 4 fd) rest),
          write_fam-append (suc index) fds (done ++ to_le 4 fd) rest small next (omega arith),
        )
        (ap some (append_assoc done (to_le 4 fd) (u32_bytes fds)))

  -- The two loops write the same.
  write_vec-write_fam :
      (index : ℕ) (fds bytes : List ℕ)
      → write_vec write_u32 index fds bytes ≡ write_fam write_u32 index fds bytes
  unfolding write_vec write_fam
  write_vec-write_fam index [] bytes = refl
  write_vec-write_fam index (fd ∷ fds) bytes =
      elim (Option-cases (write_fd write_u32 (index * 4) fd bytes)) [
        | inl outside ↦ rw outside refl
        | inr (x, e) ↦ rw e (write_vec-write_fam (suc index) fds x)
      ]

  -- The set that both build: zeros fill the last element.
  abbrev pub event_set : List ℕ → IrqSetVec
  event_set fds =
      let spare = (length fds * 4 + 19) / 20 * 20 - length fds * 4 in
      record {
        header = record {
          argsz = 20 + length fds * 4;
          flags = 36;
          index = 1;
          start = 0;
          count = length fds;
        };
        bytes = u32_bytes fds ++ replicate spare 0;
      }

  abbrev zeros : ℕ → List ℕ
  zeros n = replicate ((n * 4 + 19) / 20 * 20) 0

  write_fam-zeros :
      (fds : List ℕ)
      → AllU32 fds
      → write_fam write_u32 0 fds (take (length fds * 4) (zeros (length fds)))
        ≡ some (u32_bytes fds)
  write_fam-zeros fds small =
      write_fam-append 0 fds [] (take (length fds * 4) (zeros (length fds))) small refl (
        omega (
          arith,
          length-take {A = ℕ} (length fds * 4) (zeros (length fds)),
          length-replicate {A = ℕ} ((length fds * 4 + 19) / 20 * 20) 0,
        ))

  fill_fam-zeros :
      (fds : List ℕ)
      → AllU32 fds
      → length fds * 4 ≤ msix_max_vectors
      → fill_fam write_u32 fds (record {
        header = record default_irq_set { count = length fds * 4 };
        bytes = zeros (length fds);
      })
        ≡ some (event_set fds)
  fill_fam-zeros fds small limit =
      let size : (20 + length fds * 4 % 2 ^ 32) % 2 ^ 32 ≡ 20 + length fds * 4 = omega arith in
      let count : length fds % 2 ^ 32 ≡ length fds = omega arith in
      rw
        (
          write_fam-zeros fds small,
          drop-replicate {A = ℕ} (length fds * 4) ((length fds * 4 + 19) / 20 * 20) 0,
          size,
          count,
        )
        refl

  fill_vec-zeros :
      (fds : List ℕ)
      → AllU32 fds
      → length fds * 4 ≤ msix_max_vectors
      → fill_vec write_u32 fds (record { header = default_irq_set; bytes = zeros (length fds) })
        ≡ some (event_set fds)
  fill_vec-zeros fds small limit =
      let size : (20 + length fds * 4 % 2 ^ 32) % 2 ^ 32 ≡ 20 + length fds * 4 = omega arith in
      let count : length fds % 2 ^ 32 ≡ length fds = omega arith in
      rw
        (
          write_vec-write_fam 0 fds (take (length fds * 4) (zeros (length fds))),
          write_fam-zeros fds small,
          drop-replicate {A = ℕ} (length fds * 4) ((length fds * 4 + 19) / 20 * 20) 0,
          size,
          count,
        )
        refl

  vec-zeros :
      (n : ℕ)
      → n * 4 ≤ msix_max_vectors
      → vec_with_array_field size_of_irq_set default_irq_set 4 n
        ≡ some (replicate (suc ((n * 4 + 19) / 20)) default_irq_set)
  vec-zeros n limit =
      let rounded : ((20 + n * 4 % 2 ^ 64) % 2 ^ 64 + 20 - 1) % 2 ^ 64 / 20
          ≡ suc ((n * 4 + 19) / 20) =
        omega arith in
      let fits : ltb (2 ^ 63 - 1) (suc ((n * 4 + 19) / 20) * 20) ≡ false = ground arith in
      rw (rounded, fits) refl

  -- For write_u32 as documented, the wrapper of vmm-sys-util as documented, and descriptors that
  -- fit u32 and take at most 2048 bytes: the set built in the vector and the set built in the
  -- wrapper are both the one of interrupt index 1 with the eventfd and trigger flags, the exact
  -- size and count, the descriptors as four little-endian bytes each, and zeros to the end of the
  -- last element; and the assertion of irqset_fam_test holds.
  pub irqset_fam_test_lem :
      (w : FamStructWrapper) (fds : List ℕ)
      → AllU32 fds
      → length fds * 4 ≤ msix_max_vectors
      → (irq_set_vec write_u32 fds ≡ some (event_set fds))
        × (irq_set_wrapper write_u32 w fds ≡ some (event_set fds))
        × (irqset_fam_test write_u32 w fds ≡ some true)
  irqset_fam_test_lem w fds small limit =
      let by_vec : irq_set_vec write_u32 fds ≡ some (event_set fds) =
        rw
          (
            vec-zeros (length fds) limit,
            length-replicate ((length fds * 4 + 19) / 20) default_irq_set,
          )
          (fill_vec-zeros fds small limit) in
      let by_wrapper : irq_set_wrapper write_u32 w fds ≡ some (event_set fds) =
        rw (w.new_zeroed (length fds * 4) limit) (fill_fam-zeros fds small limit) in
      (
        by_vec,
        by_wrapper,
        rw (by_vec, by_wrapper) (ground (arith, same_count_refl (elements (event_set fds)))),
      )
