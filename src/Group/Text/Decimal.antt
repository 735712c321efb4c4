-- ===== src/Group/Text/Decimal.antt =====
-- The group id that a device's `iommu_group` link names, against the meaning of decimal digits.
use vfio.Prelude.{
  ℕ, ◌+◌, ◌-◌, ◌*◌, ◌^◌, ◌≤◌, ◌<◌, ◌≡◌, refl, Bool, true, false, Option, none, some, List, [], ◌∷◌,
  ◌++◌, arith, ltb, ◌==◌, ◌&&◌, if◌then◌else◌,
}
use vfio.Group.Text.{
  is_between, is_parent_dir, file_name, is_utf8, utf8_from, lead, parse_digits, parse_unsigned,
  parse_u32,
}

-- The number that digits stand for, behind others that stand for `n`.
abbrev pub value_from : ℕ → List ℕ → ℕ
value_from n [] = n
value_from n (c ∷ cs) = value_from (n * 10 + (c - b'0')) cs

abbrev pub all_digits : List ℕ → Bool
all_digits [] = true
all_digits (c ∷ cs) = is_between b'0' b'9' c && all_digits cs

-- A number below 2 ^ 32 in decimal digits, one at least.
abbrev pub decimal : List ℕ → Option ℕ
decimal [] = none
decimal (c ∷ cs) =
    if all_digits (c ∷ cs) && ltb (value_from 0 (c ∷ cs)) (2 ^ 32)
    then some (value_from 0 (c ∷ cs))
    else none

-- The same, behind one plus sign.
abbrev pub signed_decimal : List ℕ → Option ℕ
signed_decimal [] = none
signed_decimal (c ∷ cs) = if c == b'+' then decimal cs else decimal (c ∷ cs)

le-value_from : (n : ℕ) (cs : List ℕ) → n ≤ value_from n cs
le-value_from n [] = omega arith
le-value_from n (c ∷ cs) = omega (arith, le-value_from (n * 10 + (c - b'0')) cs)

parse_digits_lem :
    (n : ℕ) (cs : List ℕ)
    → n < 2 ^ 32
    → parse_digits n cs
      ≡ (if all_digits cs && ltb (value_from n cs) (2 ^ 32) then some (value_from n cs) else none)
unfolding parse_digits
parse_digits_lem n [] small = ground arith
parse_digits_lem n (c ∷ cs) small =
    ground
      (arith, parse_digits_lem (n * 10 + (c - b'0')) cs, le-value_from (n * 10 + (c - b'0')) cs)

parse_unsigned_lem : (cs : List ℕ) → parse_unsigned cs ≡ decimal cs
unfolding parse_unsigned
parse_unsigned_lem [] = refl
parse_unsigned_lem (c ∷ cs) = parse_digits_lem 0 (c ∷ cs) (omega arith)

-- Decimal digits, behind at most one plus sign.
pub parse_u32_lem : (cs : List ℕ) → parse_u32 cs ≡ signed_decimal cs
unfolding parse_u32
parse_u32_lem [] = refl
parse_u32_lem (c ∷ cs) = ground (arith, parse_unsigned_lem cs, parse_unsigned_lem (c ∷ cs))

-- Digits are text.
utf8_from-digits : (cs : List ℕ) → all_digits cs ≡ true → utf8_from 0 0x80 0xbf cs ≡ true
unfolding utf8_from lead
utf8_from-digits [] h = refl
utf8_from-digits (c ∷ cs) h = ground (arith, utf8_from-digits cs)

pub is_utf8-digits : (cs : List ℕ) → all_digits cs ≡ true → is_utf8 cs ≡ true
unfolding is_utf8
is_utf8-digits cs h = utf8_from-digits cs h

is_parent_dir-digits : (cs : List ℕ) → all_digits cs ≡ true → is_parent_dir cs ≡ false
is_parent_dir-digits [] h = refl
is_parent_dir-digits (a ∷ []) h = refl
is_parent_dir-digits (a ∷ b ∷ []) h = ground arith
is_parent_dir-digits (a ∷ b ∷ c ∷ cs) h = refl

pub file_name-append :
    (dir : List (List ℕ)) (part : List ℕ)
    → is_parent_dir part ≡ false
    → file_name (dir ++ part ∷ []) ≡ some part
file_name-append [] part h = rw h
file_name-append (p ∷ []) part h = rw h
file_name-append (p ∷ q ∷ dir) part h = file_name-append (q ∷ dir) part h

pub file_name-digits :
    (dir : List (List ℕ)) (cs : List ℕ)
    → all_digits cs ≡ true
    → file_name (dir ++ cs ∷ []) ≡ some cs
file_name-digits dir cs h = file_name-append dir cs (is_parent_dir-digits cs h)
