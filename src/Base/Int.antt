-- ===== src/Base/Int.antt =====
-- Signed integers, and the wrap-around of the source's `int64`.
use Prim.Native.Nat.{ℕ, suc, ◌+◌, ◌-◌, ◌%◌, ◌^◌}
use mathlib.Core.Bool.{Bool, true, false}
use mathlib.Core.Path.{◌≡◌}
use native.Mathlib.Omega.{arith}
use inferbus.Base.Tests.{if◌then◌else◌, leb, ltb, nat_beq}

-- `negsuc n` is -(n + 1).
pub data ℤ : Type 0 where
  pos : ℕ → ℤ
  negsuc : ℕ → ℤ

abbrev pub pos_part : ℤ → ℕ
pos_part (pos n) = n
pos_part (negsuc n) = 0

abbrev pub neg_part : ℤ → ℕ
neg_part (pos n) = 0
neg_part (negsuc n) = suc n

-- a ≤ b, as a test.
abbrev pub le_int : ℤ → ℤ → Bool
le_int a b = leb (pos_part a + neg_part b) (pos_part b + neg_part a)

abbrev pub eq_int : ℤ → ℤ → Bool
eq_int (pos a) (pos b) = nat_beq a b
eq_int (negsuc a) (negsuc b) = nat_beq a b
eq_int (pos a) (negsuc b) = false
eq_int (negsuc a) (pos b) = false

-- The residue modulo 2 ^ 64, and the `int64` that a residue stands for.
abbrev pub residue : ℤ → ℕ
residue (pos n) = n % 2 ^ 64
residue (negsuc n) = 2 ^ 64 - 1 - n % 2 ^ 64

abbrev pub of_residue : ℕ → ℤ
of_residue r = if ltb r (2 ^ 63) then pos r else negsuc (2 ^ 64 - 1 - r)

-- `int64` addition.
unfoldable pub add_int64 : ℤ → ℤ → ℤ
add_int64 a b = of_residue ((residue a + residue b) % 2 ^ 64)

pub eq_int_eq : (a b : ℤ) → eq_int a b ≡ true → a ≡ b
eq_int_eq (pos a) (pos b) h = ground arith
eq_int_eq (negsuc a) (negsuc b) h = ground arith
eq_int_eq (pos a) (negsuc b) h = cc
eq_int_eq (negsuc a) (pos b) h = cc

pub eq_int_refl : (a : ℤ) → eq_int a a ≡ true
eq_int_refl (pos a) = ground arith
eq_int_refl (negsuc a) = ground arith

pub le_int_refl : (a : ℤ) → le_int a a ≡ true
le_int_refl a = ground arith

pub le_int_trans : (a b c : ℤ) → le_int a b ≡ true → le_int b c ≡ true → le_int a c ≡ true
le_int_trans a b c h k = ground arith

pub le_int_total : (a b : ℤ) → le_int a b ≡ false → le_int b a ≡ true
le_int_total a b h = ground arith
