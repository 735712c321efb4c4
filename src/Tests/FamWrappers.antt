-- ===== src/Tests/FamWrappers.antt =====
-- The unit test of crates/vfio-bindings/src/fam_wrappers.rs, and its theorem at concrete inputs.
use vfio.Prelude.{
  ℕ, ◌+◌, ◌*◌, ◌/◌, ◌≤◌, ◌<◌, ◌≡◌, refl, true, Option, none, some, List, [], ◌∷◌, arith, ltb,
  replicate, if◌then◌else◌,
}
use vfio.Device.Caps.Bytes.{to_le}
use vfio.Device.Irq.{default_irq_set}
use vfio.FamWrappers.{
  IrqSetVec, FamStructWrapper, msix_max_vectors, write_fam, write_vec, irq_set_vec, irq_set_wrapper,
  irqset_fam_test,
}
use vfio.FamWrappers.Same.{event_set, irqset_fam_test_lem}

abbrev write_u32 : List ℕ → ℕ → List ℕ
write_u32 bytes n = to_le 4 n

abbrev zeroed : ℕ → IrqSetVec
zeroed count = record {
  header = record default_irq_set { count = count };
  bytes = replicate ((count + 19) / 20 * 20) 0;
}

abbrev new_set : ℕ → Option IrqSetVec
new_set count = if ltb msix_max_vectors count then none else some (zeroed count)

new_set-zeroed : (count : ℕ) → count ≤ msix_max_vectors → new_set count ≡ some (zeroed count)
new_set-zeroed count fits = ground arith

new_set-limit : (count : ℕ) → msix_max_vectors < count → new_set count ≡ none
new_set-limit count large = ground arith

abbrev wrapper : FamStructWrapper
wrapper = record { new = new_set; new_zeroed = new_set-zeroed; new_limit = new_set-limit }

abbrev event_fds : List ℕ
event_fds = 0 ∷ 1 ∷ 2 ∷ 3 ∷ 4 ∷ 5 ∷ []

irqset_fam_test_passes : irqset_fam_test write_u32 wrapper event_fds ≡ some true
unfolding write_fam write_vec
irqset_fam_test_passes = refl

irqset_fam_test_example :
    (irq_set_vec write_u32 event_fds
      ≡ some (event_set write_u32 (λ a b c d n small. refl) event_fds))
    × (irq_set_wrapper write_u32 wrapper event_fds
        ≡ some (event_set write_u32 (λ a b c d n small. refl) event_fds))
    × (irqset_fam_test write_u32 wrapper event_fds ≡ some true)
irqset_fam_test_example =
    irqset_fam_test_lem write_u32 (λ a b c d n small. refl) wrapper event_fds (ground arith)
      (omega arith)
