-- ===== src/Prelude/Tests.antt =====
-- Boolean tests on the native numbers and on enumerations, the conditional, and machine words.
use Prim.Native.Nat.{ℕ, ◌%◌, compare, Ordering}
use mathlib.Core.Path.{◌≡◌, refl}
use mathlib.Core.Logic.{◌⊎◌, inl, inr}
use mathlib.Core.Bool.{Bool, true, false}

abbrev pub ltb : ℕ → ℕ → Bool
ltb a b = elim (compare a b) [ Ordering.lt ↦ true | _ ↦ false ]

abbrev pub leb : ℕ → ℕ → Bool
leb a b = elim (compare a b) [ Ordering.gt ↦ false | _ ↦ true ]

infix 50 ◌==◌
abbrev pub ◌==◌ : ℕ → ℕ → Bool
a == b = elim (compare a b) [ Ordering.eq ↦ true | _ ↦ false ]

infix 1 if◌then◌else◌
abbrev pub if◌then◌else◌ {ℓ} : {A : Type ℓ} → Bool → A → A → A
if true then x else y = x
if false then x else y = y

pub Bool-cases : (b : Bool) → (b ≡ true) ⊎ (b ≡ false)
Bool-cases true = inl refl
Bool-cases false = inr refl

-- What holds of both branches, each under its test, holds of the whole.
pub if_rule {ℓ κ} :
    {A : Type ℓ} (P : A → Type κ) (b : Bool) (x y : A)
    → (b ≡ true → P x)
    → (b ≡ false → P y)
    → P (if b then x else y)
if_rule P true x y p q = p refl
if_rule P false x y p q = q refl

-- The same of a branch by `elim`.
pub branch_rule {ℓ κ} :
    {A : Type ℓ} (P : A → Type κ) (b : Bool) (x y : A)
    → (b ≡ true → P x)
    → (b ≡ false → P y)
    → P (elim b [ true ↦ x | false ↦ y ])
branch_rule P true x y p q = p refl
branch_rule P false x y p q = q refl

-- An enumeration with the number of each enumerator, as the compiler numbers them.
pub record Enum (A : Type 0) : Type 0 where
  pub value : A → ℕ

-- The `==` of an enumeration.
infix 50 ◌is◌
abbrev pub ◌is◌ : {A : Type 0} ⦃e : Enum A⦄ → A → A → Bool
◌is◌ ⦃e⦄ a b = e.value a == e.value b

-- The largest `std::uint64_t` and `std::uint32_t`.
abbrev pub u64_max : ℕ
u64_max = 18446744073709551615

abbrev pub u32_max : ℕ
u32_max = 4294967295

-- A sum kept in 64 bits, as `std::uint64_t` keeps it.
abbrev pub u64 : ℕ → ℕ
u64 n = n % 18446744073709551616

abbrev pub u32 : ℕ → ℕ
u32 n = n % 4294967296

-- `static_cast<std::uint8_t>`.
abbrev pub u8 : ℕ → ℕ
u8 n = n % 256

-- A flag as a number, to count by.
abbrev pub bit : Bool → ℕ
bit true = 1
bit false = 0
