-- ===== src/Prelude/Masks.antt =====
-- `&` with a mask of one bit, and with the masks of the codec.
use Prim.Native.Nat.{ℕ, ◌*◌, ◌/◌, ◌%◌}
use mathlib.Core.Path.{◌≡◌}
use native.Mathlib.Omega.{arith}
use native_ldac_xm5_windows.Prelude.Tests.{◌==◌, if◌then◌else◌}
use native_ldac_xm5_windows.Prelude.Words.{bits_and, byte_and, bits_and-mod, bits_and-div}

pub byte_and-1 : (x : ℕ) → byte_and x 1 ≡ x % 2
unfolding bits_and
byte_and-1 x = omega arith

pub byte_and-2 : (x : ℕ) → byte_and x 2 ≡ 2 * (x / 2 % 2)
unfolding bits_and
byte_and-2 x = omega arith

pub byte_and-4 : (x : ℕ) → byte_and x 4 ≡ 4 * (x / 4 % 2)
unfolding bits_and
byte_and-4 x = omega arith

pub byte_and-8 : (x : ℕ) → byte_and x 8 ≡ 8 * (x / 8 % 2)
unfolding bits_and
byte_and-8 x = omega arith

pub byte_and-16 : (x : ℕ) → byte_and x 16 ≡ 16 * (x / 16 % 2)
unfolding bits_and
byte_and-16 x = omega arith

pub byte_and-32 : (x : ℕ) → byte_and x 32 ≡ 32 * (x / 32 % 2)
unfolding bits_and
byte_and-32 x = omega arith

pub byte_and-7 : (x : ℕ) → byte_and x 0x07 ≡ x % 8
unfolding bits_and
byte_and-7 x = omega arith

pub byte_and-60 : (x : ℕ) → byte_and x 0x3C ≡ 4 * (x / 4 % 16)
unfolding bits_and
byte_and-60 x = omega arith

-- The lowest bits of a conjunction, one by one.
pub and_bit-0 : (a b : ℕ) → byte_and a b % 2 ≡ (if b % 2 == 0 then 0 else a % 2)
and_bit-0 a b = bits_and-mod 7 a b

pub and_bit-1 : (a b : ℕ) → byte_and a b / 2 % 2 ≡ (if b / 2 % 2 == 0 then 0 else a / 2 % 2)
and_bit-1 a b = ground (arith, bits_and-div 7 a b, bits_and-mod 6 (a / 2) (b / 2))

pub and_bit-2 : (a b : ℕ) → byte_and a b / 4 % 2 ≡ (if b / 4 % 2 == 0 then 0 else a / 4 % 2)
and_bit-2 a b = ground (
  arith,
  bits_and-div 7 a b,
  bits_and-div 6 (a / 2) (b / 2),
  bits_and-mod 5 (a / 2 / 2) (b / 2 / 2),
)

pub and_bit-3 : (a b : ℕ) → byte_and a b / 8 % 2 ≡ (if b / 8 % 2 == 0 then 0 else a / 8 % 2)
and_bit-3 a b = ground (
  arith,
  bits_and-div 7 a b,
  bits_and-div 6 (a / 2) (b / 2),
  bits_and-div 5 (a / 2 / 2) (b / 2 / 2),
  bits_and-mod 4 (a / 2 / 2 / 2) (b / 2 / 2 / 2),
)

pub and_bit-4 : (a b : ℕ) → byte_and a b / 16 % 2 ≡ (if b / 16 % 2 == 0 then 0 else a / 16 % 2)
and_bit-4 a b = ground (
  arith,
  bits_and-div 7 a b,
  bits_and-div 6 (a / 2) (b / 2),
  bits_and-div 5 (a / 2 / 2) (b / 2 / 2),
  bits_and-div 4 (a / 2 / 2 / 2) (b / 2 / 2 / 2),
  bits_and-mod 3 (a / 2 / 2 / 2 / 2) (b / 2 / 2 / 2 / 2),
)

pub and_bit-5 : (a b : ℕ) → byte_and a b / 32 % 2 ≡ (if b / 32 % 2 == 0 then 0 else a / 32 % 2)
and_bit-5 a b = ground (
  arith,
  bits_and-div 7 a b,
  bits_and-div 6 (a / 2) (b / 2),
  bits_and-div 5 (a / 2 / 2) (b / 2 / 2),
  bits_and-div 4 (a / 2 / 2 / 2) (b / 2 / 2 / 2),
  bits_and-div 3 (a / 2 / 2 / 2 / 2) (b / 2 / 2 / 2 / 2),
  bits_and-mod 2 (a / 2 / 2 / 2 / 2 / 2) (b / 2 / 2 / 2 / 2 / 2),
)
