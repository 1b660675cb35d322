-- ===== src/Common/Bits.antt =====
-- `|` of a shifted number with another, one binary digit at a time.
use Prim.Native.Nat.{
  ℕ, zero, suc, ◌+◌, ◌*◌, ◌/◌, ◌%◌, ◌^◌, ◌≤◌, ◌<◌, max, bit_or, digits, bit_or-bitwise,
}
use mathlib.Core.Path.{◌≡◌, refl, ap, ◌∙◌}
use native.Mathlib.Nat.{pow-suc}
use native.Mathlib.Omega.{arith}

-- What the native `bit_or` stands for, with its fuel.
abbrev or_digits : ℕ → ℕ → ℕ → ℕ
or_digits n a b = digits (λ x. x) max n a b

-- More fuel than the first number has digits changes nothing.
or_digits_enough : (n m a b : ℕ) → a ≤ n → a ≤ m → or_digits n a b ≡ or_digits m a b
or_digits_enough zero zero a b hn hm = refl
or_digits_enough (suc n) zero zero b hn hm = refl
or_digits_enough zero (suc m) zero b hn hm = refl
or_digits_enough (suc n) (suc m) zero b hn hm = refl
or_digits_enough zero (suc m) (suc a) b hn hm = absurd (omega arith)
or_digits_enough (suc n) zero (suc a) b hn hm = absurd (omega arith)
or_digits_enough (suc n) (suc m) (suc a) b hn hm =
    omega (arith, or_digits_enough n m (suc a / 2) (b / 2) (omega arith) (omega arith))

bit_or-halves : (a b : ℕ) → bit_or a b ≡ bit_or (a / 2) (b / 2) * 2 + max (a % 2) (b % 2)
bit_or-halves zero b = omega (arith, bit_or-bitwise 0 b, bit_or-bitwise 0 (b / 2))
bit_or-halves (suc a) b = omega (
  arith,
  bit_or-bitwise (suc a) b,
  bit_or-bitwise (suc a / 2) (b / 2),
  or_digits_enough a (suc a / 2) (suc a / 2) (b / 2) (omega arith) (omega arith),
)

bit_or-zero_below : (n a : ℕ) → a ≤ n → bit_or a 0 ≡ a
bit_or-zero_below n zero h = refl
bit_or-zero_below zero (suc a) h = absurd (omega arith)
bit_or-zero_below (suc n) (suc a) h =
    omega (arith, bit_or-halves (suc a) 0, bit_or-zero_below n (suc a / 2) (omega arith))

pub bit_or-zero : (a : ℕ) → bit_or a 0 ≡ a
bit_or-zero a = bit_or-zero_below a a (omega arith)

double : (q k : ℕ) → q * 2 ^ suc k ≡ q * 2 ^ k * 2
double q k = omega (arith, ap (λ (t : ℕ). q * t) (pow-suc 2 k))

-- `(q << k) | r`, where `r` has the digits of `t` below `k` and those of `s` from there on.
pub bit_or-shifted :
    (k q s t : ℕ) → t < 2 ^ k → bit_or (q * 2 ^ k) (s * 2 ^ k + t) ≡ bit_or q s * 2 ^ k + t
bit_or-shifted zero q s t fits =
    let left : q * 1 ≡ q = omega arith in
    let right : s * 1 + t ≡ s = omega arith in rw (left, right) (omega arith)
bit_or-shifted (suc k) q s t fits =
    let left : q * 2 ^ suc k / 2 ≡ q * 2 ^ k = omega (arith, double q k) in
    let right : (s * 2 ^ suc k + t) / 2 ≡ s * 2 ^ k + t / 2 = omega (arith, double s k) in
    let low : (s * 2 ^ suc k + t) % 2 ≡ t % 2 = omega (arith, double s k) in
    let even : q * 2 ^ suc k % 2 ≡ 0 = omega (arith, double q k) in
    let rest = bit_or-shifted k q s (t / 2) (omega (arith, pow-suc 2 k)) in
    bit_or-halves (q * 2 ^ suc k) (s * 2 ^ suc k + t)
    ∙ rw (left, right, low, even, rest) (omega (arith, double (bit_or q s) k))

pub bit_or-lt : (k a b : ℕ) → a < 2 ^ k → b < 2 ^ k → bit_or a b < 2 ^ k
bit_or-lt zero zero zero ha hb = omega arith
bit_or-lt zero zero (suc b) ha hb = absurd (omega arith)
bit_or-lt zero (suc a) b ha hb = absurd (omega arith)
bit_or-lt (suc k) a b ha hb = omega (
  arith,
  bit_or-halves a b,
  pow-suc 2 k,
  bit_or-lt k (a / 2) (b / 2) (omega (arith, pow-suc 2 k)) (omega (arith, pow-suc 2 k)),
)
