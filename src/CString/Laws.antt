-- ===== src/CString/Laws.antt =====
-- Decimal texts, and what the conversions of <stdlib.h> make of them.
use native.Mathlib.Nat.{pow-suc}
use p4_ubpf_scripts.Common.{
  ℕ, zero, suc, pos, ◌+◌, ◌*◌, ◌/◌, ◌%◌, ◌^◌, ◌<◌, ◌≡◌, refl, sym, ap, ◌∙◌, Bool-cases, inl, inr,
  [], ◌∷◌, ◌++◌, length, arith, true, false, if◌then◌else◌, ltb,
}
use p4_ubpf_scripts.CString.{
  Text, starts_with, skip, is_digit, digits_from, skip_spaces, signed_digits, atoi, strtoull,
}

pub starts_with-append : (p t : Text) → starts_with p (p ++ t) ≡ true
unfolding starts_with
starts_with-append [] t = refl
starts_with-append (c ∷ cs) t = ground (arith, starts_with-append cs t)

pub skip-append : (p t : Text) (n : ℕ) → n ≡ length p → skip n (p ++ t) ≡ t
unfolding skip
skip-append [] t n e = rw e
skip-append (c ∷ cs) t n e = rw e (skip-append cs t (length cs) refl)

-- `printf("%u", n)`, with room for `fuel` digits, in front of `rest`.
unfoldable pub print_digits : ℕ → ℕ → Text → Text
print_digits zero n rest = rest
print_digits (suc fuel) n rest =
    let done = (b'0' + n % 10) ∷ rest in
    let more = print_digits fuel (n / 10) done in if ltb n 10 then done else more

digit-is_digit : (n : ℕ) → is_digit (b'0' + n % 10) ≡ true
digit-is_digit n = ground arith

digits_from-digit :
    (m n : ℕ) (rest : Text)
    → digits_from m ((b'0' + n % 10) ∷ rest) ≡ digits_from (m * 10 + n % 10) rest
unfolding digits_from
digits_from-digit m n rest = rw (digit-is_digit n) (ap (λ k. digits_from k rest) (omega arith))

-- The digits of a number spell it.
pub digits_from-print_digits :
    (fuel n : ℕ) (rest : Text)
    → n < 10 ^ suc fuel
    → digits_from 0 (print_digits (suc fuel) n rest) ≡ digits_from n rest
unfolding print_digits
digits_from-print_digits zero n rest h =
    let small : ltb n 10 ≡ true = ground arith in
    rw small (digits_from-digit 0 n rest ∙ ap (λ k. digits_from k rest) (ground arith))
digits_from-print_digits (suc fuel) n rest h = elim (Bool-cases (ltb n 10)) [
  | inl small ↦ rw small (digits_from-digit 0 n rest ∙ ap (λ k. digits_from k rest) (ground arith))
  | inr large ↦
      rw (large, print_digits)
        (digits_from-print_digits fuel (n / 10) ((b'0' + n % 10) ∷ rest)
            (omega (arith, pow-suc 10 (suc fuel)))
          ∙ digits_from-digit (n / 10) n rest
          ∙ ap (λ k. digits_from k rest) (omega arith))
]

-- The text begins with a digit, so no space and no sign stands in front.
print_digits-digit :
    (fuel n : ℕ) (rest : Text)
    → (c : ℕ) × (cs : Text) × (print_digits (suc fuel) n rest ≡ c ∷ cs) × (is_digit c ≡ true)
unfolding print_digits
print_digits-digit zero n rest = (b'0' + n % 10, rest, ground arith, digit-is_digit n)
print_digits-digit (suc fuel) n rest = elim (Bool-cases (ltb n 10)) [
  | inl small ↦ (b'0' + n % 10, rest, rw small, digit-is_digit n)
  | inr large ↦
      let (c, cs, e, d) = print_digits-digit fuel (n / 10) ((b'0' + n % 10) ∷ rest) in
      (c, cs, rw (large, print_digits) e, d)
]

unsigned :
    (c : ℕ) (cs : Text)
    → is_digit c ≡ true
    → signed_digits (skip_spaces (c ∷ cs))
      ≡ record { negative = false; magnitude = digits_from 0 (c ∷ cs) }
unfolding signed_digits skip_spaces
unsigned c cs d = ground arith

unsigned-print_digits :
    (fuel n : ℕ)
    → n < 10 ^ suc fuel
    → signed_digits (skip_spaces (print_digits (suc fuel) n []))
      ≡ record { negative = false; magnitude = n }
unfolding digits_from
unsigned-print_digits fuel n h =
    let (c, cs, e, d) = print_digits-digit fuel n [] in
    let spelled : digits_from 0 (c ∷ cs) ≡ n =
      ap (digits_from 0) (sym e) ∙ digits_from-print_digits fuel n [] h in
    rw e (unsigned c cs d ∙ ap (λ k. record { negative = false; magnitude = k }) spelled)

-- atoi reads back what `%d` prints of an `int` that is not negative.
pub atoi-print_digits :
    (fuel n : ℕ) → n < 10 ^ suc fuel → n < 2 ^ 31 → atoi (print_digits (suc fuel) n []) ≡ pos n
unfolding atoi
atoi-print_digits fuel n h small = rw (unsigned-print_digits fuel n h) (ground arith)

-- strtoull reads back what `%llu` prints.
pub strtoull-print_digits :
    (fuel n : ℕ) → n < 10 ^ suc fuel → n < 2 ^ 64 → strtoull (print_digits (suc fuel) n []) ≡ n
unfolding strtoull
strtoull-print_digits fuel n h small = rw (unsigned-print_digits fuel n h) (ground arith)
