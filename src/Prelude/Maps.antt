-- ===== src/Prelude/Maps.antt =====
-- std's HashMap with u32 keys, as an association list without order.
use Prim.Native.Nat.{ℕ}
use mathlib.Core.Path.{◌≡◌, refl}
use mathlib.Core.Logic.{◌≢◌}
use mathlib.Core.Bool.{Bool, true, false}
use mathlib.Core.Option.{Option, none, some}
use mathlib.Core.List.{List, [], ◌∷◌}
use native.Mathlib.Omega.{arith}
use vfio.Prelude.Tests.{◌==◌, if◌then◌else◌}

abbrev pub is_none {ℓ} : {A : Type ℓ} → Option A → Bool
is_none none = true
is_none (some a) = false

abbrev pub Dict {ℓ} : Type ℓ → Type ℓ
Dict V = List (ℕ × V)

module _ {ℓ} {V : Type ℓ} where
  -- `remove`
  abbrev pub erase : ℕ → Dict V → Dict V
  erase key [] = []
  erase key ((i, w) ∷ rest) = if key == i then rest else (i, w) ∷ erase key rest

  -- `get`
  abbrev pub lookup : ℕ → Dict V → Option V
  lookup key [] = none
  lookup key (entry ∷ rest) = if key == entry.0 then some entry.1 else lookup key rest

  pub lookup-erase_ne :
      (i key : ℕ) (map : Dict V) → i ≢ key → lookup i (erase key map) ≡ lookup i map
  lookup-erase_ne i key [] other = refl
  lookup-erase_ne i key (entry ∷ rest) other = ground (arith, lookup-erase_ne i key rest other)

  -- `insert`, which replaces the value of a key that is there.
  abbrev pub insert : ℕ → V → Dict V → Dict V
  insert key value [] = (key, value) ∷ []
  insert key value ((i, w) ∷ rest) =
      if key == i then (key, value) ∷ rest else (i, w) ∷ insert key value rest

  pub lookup-insert :
      (j k : ℕ) (v : V) (d : Dict V)
      → lookup j (insert k v d) ≡ (if j == k then some v else lookup j d)
  lookup-insert j k v [] = ground arith
  lookup-insert j k v (e ∷ d) = ground (arith, lookup-insert j k v d)

  pub erase-insert : (k : ℕ) (v : V) (d : Dict V) → lookup k d ≡ none → erase k (insert k v d) ≡ d
  erase-insert k v [] h = ground arith
  erase-insert k v (e ∷ d) h = ground (arith, erase-insert k v d)

  -- No key stands twice.
  abbrev pub IsDistinct : Dict V → Type 0
  IsDistinct [] = Unit {0}
  IsDistinct (e ∷ d) = (is_none (lookup e.0 d) ≡ true) × IsDistinct d

  pub insert-IsDistinct : (k : ℕ) (v : V) (d : Dict V) → IsDistinct d → IsDistinct (insert k v d)
  insert-IsDistinct k v [] h = (refl, tt)
  insert-IsDistinct k v (e ∷ d) h =
      ground (arith, insert-IsDistinct k v d h.1, lookup-insert e.0 k v d)

  pub erase-IsDistinct : (k : ℕ) (d : Dict V) → IsDistinct d → IsDistinct (erase k d)
  erase-IsDistinct k [] h = tt
  erase-IsDistinct k (e ∷ d) h = ground (arith, erase-IsDistinct k d h.1, lookup-erase_ne e.0 k d)

  pub lookup-erase :
      (j k : ℕ) (d : Dict V)
      → IsDistinct d
      → lookup j (erase k d) ≡ (if j == k then none else lookup j d)
  lookup-erase j k [] h = ground arith
  lookup-erase j k (e ∷ d) h = ground (arith, lookup-erase j k d h.1)
