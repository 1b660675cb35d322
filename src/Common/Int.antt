-- ===== src/Common/Int.antt =====
-- C's signed integers: process ids, thread ids and counters that are compared with -1 or 0.
use Prim.Native.Nat.{ℕ, zero, suc, ◌+◌}
use mathlib.Core.Path.{◌≡◌, refl}
use mathlib.Core.Logic.{◌↔◌}
use mathlib.Core.Bool.{Bool, true, false}
use native.Mathlib.Omega.{arith}
use p4_ubpf_scripts.Common.Tests.{ltb, ◌==◌}

-- `negsuc n` is -(n + 1).
pub data ℤ : Type 0 where
  pos : ℕ → ℤ
  negsuc : ℕ → ℤ

abbrev pub minus_one : ℤ
minus_one = negsuc 0

abbrev pub ltb_ℤ : ℤ → ℤ → Bool
ltb_ℤ (pos a) (pos b) = ltb a b
ltb_ℤ (pos a) (negsuc b) = false
ltb_ℤ (negsuc a) (pos b) = true
ltb_ℤ (negsuc a) (negsuc b) = ltb b a

infix 50 ◌==ℤ◌
abbrev pub ◌==ℤ◌ : ℤ → ℤ → Bool
pos a ==ℤ pos b = a == b
pos a ==ℤ negsuc b = false
negsuc a ==ℤ pos b = false
negsuc a ==ℤ negsuc b = a == b

-- `x + 1` and `x - 1`
abbrev pub increment : ℤ → ℤ
increment (pos n) = pos (n + 1)
increment (negsuc zero) = pos 0
increment (negsuc (suc n)) = negsuc n

abbrev pub decrement : ℤ → ℤ
decrement (pos zero) = negsuc 0
decrement (pos (suc n)) = pos n
decrement (negsuc n) = negsuc (n + 1)

pub ==ℤ_iff : (a b : ℤ) → ((a ==ℤ b) ≡ true) ↔ (a ≡ b)
==ℤ_iff a b = ground arith

pub ==ℤ_refl : (a : ℤ) → (a ==ℤ a) ≡ true
==ℤ_refl a = ground arith

-- the integer, or 0 below 0
abbrev pub pos_part : ℤ → ℕ
pos_part (pos n) = n
pos_part (negsuc n) = 0

-- The three outcomes that C code tells apart by `x < 0` and `x == 0`.
pub data Sign (x : ℤ) : Type 0 where
  below : ltb_ℤ x (pos 0) ≡ true → Sign x
  at_zero : ltb_ℤ x (pos 0) ≡ false → (x ==ℤ pos 0) ≡ true → Sign x
  above : ltb_ℤ x (pos 0) ≡ false → (x ==ℤ pos 0) ≡ false → ltb_ℤ (pos 0) x ≡ true → Sign x

pub sign : (x : ℤ) → Sign x
sign (pos zero) = at_zero refl refl
sign (pos (suc n)) = above (ground arith) (ground arith) (ground arith)
sign (negsuc n) = below refl
