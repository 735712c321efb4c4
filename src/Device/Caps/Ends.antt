-- ===== src/Device/Caps/Ends.antt =====
-- When the loop over a capability chain ends.
use vfio.Prelude.{
  ℕ, zero, suc, ◌+◌, ◌-◌, ◌≤◌, ◌<◌, ◌≡◌, ◌≢◌, refl, ◌⊎◌, inl, inr, none, some, List, [], ◌∷◌, ◌++◌,
  drop, arith, length, ltb, Bool-cases, Option-cases,
}
use vfio.Error.{fault, out_of_fuel}
use vfio.Device.Caps.{VfioRegionInfoCap, read_le, read_header, read_link, walk}

-- Wherever a capability's header could stand in the bytes behind the `vfio_region_info`, it points
-- further on, or below the end of the struct.
abbrev pub IsForward : List ℕ → Type 0
IsForward bytes =
    (offset next : ℕ) (caps : List VfioRegionInfoCap)
    → 32 ≤ offset
    → read_link (drop (offset - 32) bytes) ≡ some (caps, next)
    → (offset < next) ⊎ (next < 32)

read_link-nil : read_link [] ≡ none
unfolding read_link read_header read_le
read_link-nil = refl

-- A header that can be read begins inside of the bytes.
read_link-lt :
    (bytes : List ℕ) (n : ℕ) (x : List VfioRegionInfoCap × ℕ)
    → read_link (drop n bytes) ≡ some x
    → n < length bytes
read_link-lt [] zero x e = ground (arith, read_link-nil)
read_link-lt [] (suc n) x e = ground (arith, read_link-nil)
read_link-lt (b ∷ bytes) zero x e = omega arith
read_link-lt (b ∷ bytes) (suc n) x e = omega (arith, read_link-lt bytes n x e)

-- The offsets that a chain of headers leads to from one.
pub data Reached (bytes : List ℕ) (start : ℕ) : ℕ → Type 0 where
  at_start : Reached bytes start start
  onward :
      {offset next : ℕ} {caps : List VfioRegionInfoCap}
      → Reached bytes start offset
      → 32 ≤ offset
      → read_link (drop (offset - 32) bytes) ≡ some (caps, next)
      → Reached bytes start next

-- Each header that the chain from an offset leads to, and that can be read, points further on, or
-- below the end of the struct.
abbrev pub IsForwardFrom : ℕ → List ℕ → Type 0
IsForwardFrom start bytes =
    (offset next : ℕ) (caps : List VfioRegionInfoCap)
    → Reached bytes start offset
    → 32 ≤ offset
    → read_link (drop (offset - 32) bytes) ≡ some (caps, next)
    → (offset < next) ⊎ (next < 32)

walk_ends :
    (f : ℕ) (bytes : List ℕ) (start offset : ℕ) (caps : List VfioRegionInfoCap)
    → IsForwardFrom start bytes
    → Reached bytes start offset
    → 1 ≤ f
    → (offset < 32) ⊎ (length bytes + 33 ≤ f + offset)
    → walk f bytes offset caps ≢ fault out_of_fuel
unfolding walk
walk_ends zero bytes start offset caps forward here some_fuel enough = absurd (omega arith)
walk_ends (suc f) bytes start offset caps forward here some_fuel enough =
    elim (Bool-cases (ltb offset 32)) [
      | inl past ↦ ground arith
      | inr inside ↦ elim (Option-cases (read_link (drop (offset - 32) bytes))) [
        | inl cut ↦ ground arith
        | inr ((pushed, next), e) ↦
            let placed = read_link-lt bytes (offset - 32) (pushed, next) e in
            let behind : 32 ≤ offset = ground arith in
            let further = forward offset next pushed here behind e in
            let there : Reached bytes start next = onward here behind e in
            ground (arith, walk_ends f bytes start next (caps ++ pushed) forward there)
      ]
    ]

-- The loop never runs out of a fuel of two more than there are bytes, where the headers that it
-- comes to point further on or below the header of the struct.
pub walk_from-ne-out_of_fuel :
    (bytes : List ℕ) (offset : ℕ) (caps : List VfioRegionInfoCap)
    → IsForwardFrom offset bytes
    → walk (length bytes + 2) bytes offset caps ≢ fault out_of_fuel
walk_from-ne-out_of_fuel bytes offset caps forward =
    walk_ends (length bytes + 2) bytes offset offset caps forward at_start (omega arith)
      (elim (Bool-cases (ltb offset 32)) [
        | inl past ↦ inl (ground arith)
        | inr inside ↦ inr (ground arith)
      ])

-- Where every header that can be read anywhere in the bytes points further on or below the header
-- of the struct, whether or not the bytes are a well-formed chain, the loop over the capabilities,
-- begun at any offset, never runs out of a fuel of two more than there are bytes.
pub walk-ne-out_of_fuel :
    (bytes : List ℕ) (offset : ℕ) (caps : List VfioRegionInfoCap)
    → IsForward bytes
    → walk (length bytes + 2) bytes offset caps ≢ fault out_of_fuel
walk-ne-out_of_fuel bytes offset caps forward =
    walk_from-ne-out_of_fuel bytes offset caps
      (λ o next pushed here inside e. forward o next pushed inside e)

-- A capability behind the vfio_region_info that names its own offset as the next keeps the loop
-- over the capabilities going: it runs out of every fuel.
pub walk_loops :
    (f : ℕ) (bytes : List ℕ) (offset : ℕ) (pushed caps : List VfioRegionInfoCap)
    → 32 ≤ offset
    → read_link (drop (offset - 32) bytes) ≡ some (pushed, offset)
    → walk f bytes offset caps ≡ fault out_of_fuel
unfolding walk
walk_loops zero bytes offset pushed caps inside self = refl
walk_loops (suc f) bytes offset pushed caps inside self =
    ground (arith, walk_loops f bytes offset pushed (caps ++ pushed))
