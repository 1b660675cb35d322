-- ===== src/CString.antt =====
-- What the programs use of C's <string.h> and <stdlib.h>, on texts as lists of bytes without the
-- closing NUL: strncmp against a literal, strcmp, isspace, atoi and strtoull.
pub mod Laws
use Prim.Native.Char.{code}
use Prim.Native.String.{String}
use p4_ubpf_scripts.Common.{
  ℕ, zero, suc, ℤ, pos, negsuc, ◌+◌, ◌-◌, ◌*◌, ◌%◌, ◌^◌, min, Bool, true, false, ◌&&◌, ◌||◌,
  if◌then◌else◌, ltb, leb, ◌==◌, List, [], ◌∷◌,
}

abbrev pub Text : Type 0
Text = List ℕ

-- the bytes of an ASCII literal
abbrev pub codes : String → Text
codes String.[] = []
codes (String.◌∷◌ c s) = code c ∷ codes s

-- `strncmp(text, prefix, strlen(prefix)) == 0`
unfoldable pub starts_with : Text → Text → Bool
starts_with [] text = true
starts_with (c ∷ cs) [] = false
starts_with (c ∷ cs) (d ∷ ds) = c == d && starts_with cs ds

-- `strcmp(a, b) == 0`
unfoldable pub same_text : Text → Text → Bool
same_text [] [] = true
same_text [] (d ∷ ds) = false
same_text (c ∷ cs) [] = false
same_text (c ∷ cs) (d ∷ ds) = c == d && same_text cs ds

-- `text + n`
unfoldable pub skip : ℕ → Text → Text
skip zero text = text
skip (suc n) [] = []
skip (suc n) (c ∷ cs) = skip n cs

-- isspace in the C locale
abbrev pub is_space : ℕ → Bool
is_space c = c == 32 || leb 9 c && leb c 13

abbrev pub is_digit : ℕ → Bool
is_digit c = leb b'0' c && leb c b'9'

unfoldable pub skip_spaces : Text → Text
skip_spaces [] = []
skip_spaces (c ∷ cs) = if is_space c then skip_spaces cs else c ∷ cs

-- The number that the digits at the front spell, after those that make up `n`.
unfoldable pub digits_from : ℕ → Text → ℕ
digits_from n [] = n
digits_from n (c ∷ cs) =
    let rest = digits_from (n * 10 + (c - b'0')) cs in if is_digit c then rest else n

pub record Spelled : Type 0 where
  pub negative : Bool
  pub magnitude : ℕ

-- The optional sign and the digits behind it.
unfoldable pub signed_digits : Text → Spelled
signed_digits [] = record { negative = false; magnitude = 0 }
signed_digits (c ∷ cs) =
    if c == b'-'
    then record { negative = true; magnitude = digits_from 0 cs }
    else record { negative = false; magnitude = digits_from 0 (if c == b'+' then cs else c ∷ cs) }

-- The `int` with the low 32 bits of `w`.
abbrev pub int_of_bits : ℕ → ℤ
int_of_bits w =
    let bits = w % 2 ^ 32 in if ltb bits (2 ^ 31) then pos bits else negsuc (2 ^ 32 - 1 - bits)

-- atoi as the C library of the targets does it: strtol, which stops at the ends of `long`, cut
-- down to `int`.
unfoldable pub atoi : Text → ℤ
atoi text =
    let n = signed_digits (skip_spaces text) in
    if n.negative
    then int_of_bits (2 ^ 64 - min n.magnitude (2 ^ 63))
    else int_of_bits (min n.magnitude (2 ^ 63 - 1))

-- strtoull with base 10: a minus sign negates modulo 2 ^ 64, and too much is ULLONG_MAX.
unfoldable pub strtoull : Text → ℕ
strtoull text =
    let n = signed_digits (skip_spaces text) in
    if ltb n.magnitude (2 ^ 64)
    then (if n.negative then (2 ^ 64 - n.magnitude) % 2 ^ 64 else n.magnitude)
    else 2 ^ 64 - 1
