-- ===== src/Prelude/Words.antt =====
-- Bytes: `&` bit by bit, byte order, and lists of bytes.
use Prim.Native.Nat.{ℕ, zero, suc, ◌+◌, ◌*◌, ◌/◌, ◌%◌, ◌<◌}
use native.Mathlib.Omega.{arith}
use native_ldac_xm5_windows.Prelude.Tests.{◌==◌, if◌then◌else◌}
use mathlib.Core.Path.{◌≡◌, refl, ap}
use mathlib.Core.List.{List, [], ◌∷◌, ◌++◌}
use native_ldac_xm5_windows.Prelude.Lists.{length}

-- `a & b` on words of `n` bits: a bit of `a` stays where `b` has one.
unfoldable pub bits_and : ℕ → ℕ → ℕ → ℕ
bits_and zero a b = 0
bits_and (suc n) a b = (if b % 2 == 0 then 0 else a % 2) + 2 * bits_and n (a / 2) (b / 2)

-- `a & b` on `std::uint8_t`.
abbrev pub byte_and : ℕ → ℕ → ℕ
byte_and = bits_and 8

pub bits_and-mod : (n a b : ℕ) → bits_and (suc n) a b % 2 ≡ (if b % 2 == 0 then 0 else a % 2)
unfolding bits_and
bits_and-mod n a b = ground arith

pub bits_and-div : (n a b : ℕ) → bits_and (suc n) a b / 2 ≡ bits_and n (a / 2) (b / 2)
unfolding bits_and
bits_and-div n a b = ground arith

-- A list of bytes.
abbrev pub Bytes : List ℕ → Type 0
Bytes [] = Unit {0}
Bytes (b ∷ bs) = (b < 256) × Bytes bs

-- `packet + n`, and the first `n` bytes.
unfoldable pub drop : ℕ → List ℕ → List ℕ
drop zero bs = bs
drop (suc n) [] = []
drop (suc n) (b ∷ bs) = drop n bs

unfoldable pub take : ℕ → List ℕ → List ℕ
take zero bs = []
take (suc n) [] = []
take (suc n) (b ∷ bs) = b ∷ take n bs

pub take-append : (xs ys : List ℕ) → take (length xs) (xs ++ ys) ≡ xs
unfolding take
take-append [] ys = refl
take-append (x ∷ xs) ys = ap (λ t. x ∷ t) (take-append xs ys)

pub drop-append : (xs ys : List ℕ) → drop (length xs) (xs ++ ys) ≡ ys
unfolding drop
drop-append [] ys = refl
drop-append (x ∷ xs) ys = drop-append xs ys

pub length-append : (xs ys : List ℕ) → length (xs ++ ys) ≡ length xs + length ys
length-append [] ys = omega arith
length-append (x ∷ xs) ys = omega (arith, length-append xs ys)
