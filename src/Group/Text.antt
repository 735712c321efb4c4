-- ===== src/Group/Text.antt =====
-- The parts of std's `Path`, `OsStr`, `CString` and `str` that crates/vfio-ioctls/src/vfio_device.rs
-- uses, over bytes: the last component of a path, the test for UTF-8, NUL bytes, and `parse::<u32>`.
pub mod Decimal
use vfio.Prelude.{
  ℕ, zero, suc, ◌+◌, ◌-◌, ◌*◌, ◌^◌, Bool, false, Option, none, some, List, [], ◌∷◌, if◌then◌else◌,
  ltb, leb, ◌==◌, ◌&&◌, ◌||◌,
}
use vfio.Host.Call.{SysPath}

abbrev pub is_parent_dir : List ℕ → Bool
is_parent_dir (a ∷ b ∷ []) = a == b'.' && b == b'.'
is_parent_dir _ = false

-- `Path::file_name`: none for a path that ends in `..` or has no component.
abbrev pub file_name : SysPath → Option (List ℕ)
file_name [] = none
file_name (p ∷ []) = if is_parent_dir p then none else some p
file_name (p ∷ q ∷ r) = file_name (q ∷ r)

abbrev pub is_between : ℕ → ℕ → ℕ → Bool
is_between lo hi b = leb lo b && leb b hi

-- For the first byte of a character: how many more follow, and the range of the next one.
pub lead : ℕ → Option (ℕ × ℕ × ℕ)
lead b =
    if ltb b 0x80
    then some (0, 0x80, 0xbf)
    else if is_between 0xc2 0xdf b
    then some (1, 0x80, 0xbf)
    else if b == 0xe0
    then some (2, 0xa0, 0xbf)
    else if b == 0xed
    then some (2, 0x80, 0x9f)
    else if is_between 0xe1 0xef b
    then some (2, 0x80, 0xbf)
    else if b == 0xf0
    then some (3, 0x90, 0xbf)
    else if is_between 0xf1 0xf3 b
    then some (3, 0x80, 0xbf)
    else if b == 0xf4
    then some (3, 0x80, 0x8f)
    else none

pub utf8_from : ℕ → ℕ → ℕ → List ℕ → Bool
unfolding lead
utf8_from need lo hi [] = need == 0
utf8_from zero lo hi (b ∷ bs) = elim (lead b) [ none ↦ false | some (n, l, h) ↦ utf8_from n l h bs ]
utf8_from (suc n) lo hi (b ∷ bs) = is_between lo hi b && utf8_from n 0x80 0xbf bs

-- `OsStr::to_str` succeeds.
unfoldable pub is_utf8 : List ℕ → Bool
unfolding utf8_from
is_utf8 bs = utf8_from 0 0x80 0xbf bs

-- `CString::new` fails.
abbrev pub has_nul : List ℕ → Bool
has_nul [] = false
has_nul (b ∷ bs) = b == 0 || has_nul bs

pub parse_digits : ℕ → List ℕ → Option ℕ
parse_digits acc [] = some acc
parse_digits acc (c ∷ cs) =
    if is_between b'0' b'9' c && ltb (acc * 10 + (c - b'0')) (2 ^ 32)
    then parse_digits (acc * 10 + (c - b'0')) cs
    else none

pub parse_unsigned : List ℕ → Option ℕ
unfolding parse_digits
parse_unsigned [] = none
parse_unsigned (c ∷ cs) = parse_digits 0 (c ∷ cs)

-- `str::parse::<u32>`: one `+` may stand in front.
unfoldable pub parse_u32 : List ℕ → Option ℕ
unfolding parse_unsigned
parse_u32 [] = none
parse_u32 (c ∷ cs) = if c == b'+' then parse_unsigned cs else parse_unsigned (c ∷ cs)
