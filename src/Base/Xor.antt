-- ===== src/Base/Xor.antt =====
-- Bounds of the bitwise operations, and when an exclusive or is 0.
use Prim.Native.Nat.{
  ℕ, zero, suc, ◌/◌, ◌%◌, ◌^◌, ◌≤◌, ◌<◌, min, bit_and, bit_xor, digits, differ, bit_and-bitwise,
  bit_xor-bitwise,
}
use mathlib.Core.Path.{◌≡◌, refl, sym, ap, ◌∙◌}
use native.Mathlib.Nat.{pow-suc}
use native.Mathlib.Omega.{arith}

differ_bound : (x y : ℕ) → x < 2 → y < 2 → differ x y < 2
differ_bound zero y p q = q
differ_bound (suc zero) zero p q = omega arith
differ_bound (suc zero) (suc y) p q = omega arith
differ_bound (suc (suc x)) y p q = absurd (omega arith)

-- Digits that stay below 2 give numbers that stay below the same power.
module _ (z : ℕ → ℕ) (f : ℕ → ℕ → ℕ) (z_bound : (k b : ℕ) → b < 2 ^ k → z b < 2 ^ k)
    (f_bound : (x y : ℕ) → x < 2 → y < 2 → f x y < 2) where
  digits_bound : (k n a b : ℕ) → a < 2 ^ k → b < 2 ^ k → digits z f n a b < 2 ^ k
  digits_bound k zero a b p q = z_bound k b q
  digits_bound k (suc n) zero b p q = z_bound k b q
  digits_bound zero (suc n) (suc a) b p q = absurd (omega arith)
  digits_bound (suc k) (suc n) (suc a) b p q =
      let more =
        digits_bound k n (suc a / 2) (b / 2) (omega (arith, pow-suc 2 k))
          (omega (arith, pow-suc 2 k)) in
      omega (arith, pow-suc 2 k, f_bound (suc a % 2) (b % 2) (omega arith) (omega arith))

pub bit_xor_bound : (k a b : ℕ) → a < 2 ^ k → b < 2 ^ k → bit_xor a b < 2 ^ k
bit_xor_bound k a b p q = omega (
  arith,
  bit_xor-bitwise a b,
  digits_bound (λ b'. b') differ (λ _ _ h. h) differ_bound k a a b p q,
)

and_digits_bound : (k n a b : ℕ) → b < 2 ^ k → digits (λ b'. 0) min n a b < 2 ^ k
and_digits_bound k zero a b q = omega arith
and_digits_bound k (suc n) zero b q = omega arith
and_digits_bound zero (suc n) (suc a) b q =
    let more = and_digits_bound zero n (suc a / 2) (b / 2) (omega arith) in omega arith
and_digits_bound (suc k) (suc n) (suc a) b q =
    let more = and_digits_bound k n (suc a / 2) (b / 2) (omega (arith, pow-suc 2 k)) in
    omega (arith, pow-suc 2 k)

-- The bound of the second number is enough.
pub bit_and_bound : (k a b : ℕ) → b < 2 ^ k → bit_and a b < 2 ^ k
bit_and_bound k a b q = omega (arith, bit_and-bitwise a b, and_digits_bound k a a b q)

differ_self : (x : ℕ) → differ x x ≡ 0
differ_self zero = refl
differ_self (suc x) = differ_self x

differ_zero : (x y : ℕ) → differ x y ≡ 0 → x ≡ y
differ_zero zero y h = sym h
differ_zero (suc x) zero h = absurd (omega arith)
differ_zero (suc x) (suc y) h = ap suc (differ_zero x y h)

digits_self : (n a : ℕ) → a ≤ n → digits (λ b. b) differ n a a ≡ 0
digits_self zero a h = omega arith
digits_self (suc n) zero h = refl
digits_self (suc n) (suc a) h =
    omega (arith, digits_self n (suc a / 2) (omega arith), differ_self (suc a % 2))

digits_zero : (n a b : ℕ) → a ≤ n → digits (λ b'. b') differ n a b ≡ 0 → a ≡ b
digits_zero zero a b h e = omega arith
digits_zero (suc n) zero b h e = sym e
digits_zero (suc n) (suc a) b h e = omega (
  arith,
  digits_zero n (suc a / 2) (b / 2) (omega arith) (omega arith),
  differ_zero (suc a % 2) (b % 2) (omega arith),
)

pub bit_xor_self : (a : ℕ) → bit_xor a a ≡ 0
bit_xor_self a = bit_xor-bitwise a a ∙ digits_self a a (omega arith)

pub bit_xor_zero : (a b : ℕ) → bit_xor a b ≡ 0 → a ≡ b
bit_xor_zero a b h = digits_zero a a b (omega arith) (sym (bit_xor-bitwise a b) ∙ h)
