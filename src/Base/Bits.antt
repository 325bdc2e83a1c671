-- ===== src/Base/Bits.antt =====
-- The lowest bit of a number, as `& 0x1` gives it.
use Prim.Native.Nat.{ℕ, zero, suc, ◌/◌, ◌%◌, ◌≤◌, min, bit_and, digits, bit_and-bitwise}
use mathlib.Core.Path.{◌≡◌, refl}
use native.Mathlib.Omega.{arith}

-- What the conjunction of `value` and `mask` comes to when it is taken digit by digit, in at most
-- `rounds` of them.
abbrev conjunction : ℕ → ℕ → ℕ → ℕ
conjunction rounds value mask = digits (λ rest. zero) min rounds value mask

-- An empty mask lets no digit through, however many are looked at.
conjunction-zero : (rounds value : ℕ) → conjunction rounds value 0 ≡ 0
conjunction-zero zero value = refl
conjunction-zero (suc rounds) zero = refl
conjunction-zero (suc rounds) (suc value) = omega (arith, conjunction-zero rounds (suc value / 2))

-- The mask 1 lets the last digit through, and is empty for the others.
conjunction-one : (rounds value : ℕ) → value ≤ rounds → conjunction rounds value 1 ≡ value % 2
conjunction-one zero zero enough = refl
conjunction-one zero (suc value) enough = absurd (omega arith)
conjunction-one (suc rounds) zero enough = refl
conjunction-one (suc rounds) (suc value) enough =
    omega (arith, conjunction-zero rounds (suc value / 2))

pub bit_and-one : (value : ℕ) → bit_and value 1 ≡ value % 2
bit_and-one value =
    omega (arith, bit_and-bitwise value 1, conjunction-one value value (omega arith))
