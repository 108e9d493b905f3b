-- ===== src/Base/Bits.antt =====
-- When exclusive or and or of two numbers are zero.
use Prim.Native.Nat.{
  ℕ, zero, suc, ◌/◌, ◌%◌, ◌≤◌, max, bit_or, bit_xor, digits, differ, bit_or-bitwise,
  bit_xor-bitwise,
}
use mathlib.Core.Path.{◌≡◌, refl, ap, sym, ◌∙◌}
use native.Mathlib.Omega.{arith}
use native.Mathlib.Nat.{le_refl}

eq_of_differ : (x y : ℕ) → differ x y ≡ 0 → x ≡ y
eq_of_differ zero y h = sym h
eq_of_differ (suc x) zero h = h
eq_of_differ (suc x) (suc y) h = ap suc (eq_of_differ x y h)

differ_self : (x : ℕ) → differ x x ≡ 0
differ_self zero = refl
differ_self (suc x) = differ_self x

eq_of_digits : (n a b : ℕ) → a ≤ n → digits (λ y. y) differ n a b ≡ 0 → a ≡ b
eq_of_digits zero zero b h e = sym e
eq_of_digits zero (suc a) b h e = absurd (omega arith)
eq_of_digits (suc n) zero b h e = sym e
eq_of_digits (suc n) (suc a) b h e =
    let halves : suc a / 2 ≡ b / 2 =
      eq_of_digits n (suc a / 2) (b / 2) (omega arith) (omega arith) in
    let lowest : suc a % 2 ≡ b % 2 = eq_of_differ (suc a % 2) (b % 2) (omega arith) in omega arith

digits_self : (n a : ℕ) → a ≤ n → digits (λ y. y) differ n a a ≡ 0
digits_self zero zero h = refl
digits_self zero (suc a) h = absurd (omega arith)
digits_self (suc n) zero h = refl
digits_self (suc n) (suc a) h =
    omega (arith, digits_self n (suc a / 2) (omega arith), differ_self (suc a % 2))

-- Exclusive or is zero of equal numbers only.
pub eq_of_bit_xor : (a b : ℕ) → bit_xor a b ≡ 0 → a ≡ b
eq_of_bit_xor a b h = eq_of_digits a a b (le_refl a) (sym (bit_xor-bitwise a b) ∙ h)

pub bit_xor_self : (a : ℕ) → bit_xor a a ≡ 0
bit_xor_self a = bit_xor-bitwise a a ∙ digits_self a a (le_refl a)

zero_of_digits : (n a b : ℕ) → a ≤ n → digits (λ y. y) max n a b ≡ 0 → (a ≡ 0) × (b ≡ 0)
zero_of_digits zero zero b h e = (refl, e)
zero_of_digits zero (suc a) b h e = absurd (omega arith)
zero_of_digits (suc n) zero b h e = (refl, e)
zero_of_digits (suc n) (suc a) b h e =
    let (left, right) = zero_of_digits n (suc a / 2) (b / 2) (omega arith) (omega arith) in
    (omega arith, omega arith)

-- Or is zero of zeros only.
pub zero_of_bit_or : (a b : ℕ) → bit_or a b ≡ 0 → (a ≡ 0) × (b ≡ 0)
zero_of_bit_or a b h = zero_of_digits a a b (le_refl a) (sym (bit_or-bitwise a b) ∙ h)

pub zero-bit_or : (b : ℕ) → bit_or 0 b ≡ b
zero-bit_or b = bit_or-bitwise 0 b
