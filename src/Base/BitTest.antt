-- ===== src/Base/BitTest.antt =====
-- One bit of a number.
use Prim.Native.Nat.{
  ℕ, zero, suc, ◌+◌, ◌*◌, ◌/◌, ◌%◌, ◌^◌, ◌≤◌, min, bit_and, digits, bit_and-bitwise,
}
use mathlib.Core.Path.{◌≡◌, refl, ap, ap₂, ◌∙◌}
use native.Mathlib.Nat.{pow-suc, div-div-eq-div-mul, zero-div}
use native.Mathlib.Omega.{arith}

and_zero : (n a : ℕ) → digits (λ b. 0) min n a 0 ≡ 0
and_zero zero a = refl
and_zero (suc n) zero = refl
and_zero (suc n) (suc a) = omega (arith, and_zero n (suc a / 2))

halves : (a m : ℕ) → a / 2 / 2 ^ m ≡ a / 2 ^ suc m
halves a m = div-div-eq-div-mul a 2 (2 ^ m) ∙ ap (λ (k : ℕ). a / k) (omega (arith, pow-suc 2 m))

none_of_zero : (m : ℕ) → 0 ≡ 0 / 2 ^ m % 2 * 2 ^ m
none_of_zero m = rw (zero-div (2 ^ m)) (omega arith)

and_power : (m n a : ℕ) → a ≤ n → digits (λ b. 0) min n a (2 ^ m) ≡ a / 2 ^ m % 2 * 2 ^ m
and_power m zero zero h = none_of_zero m
and_power m zero (suc a) h = absurd (omega arith)
and_power m (suc n) zero h = none_of_zero m
and_power zero (suc n) (suc a) h = omega (arith, and_zero n (suc a / 2))
and_power (suc m) (suc n) (suc a) h =
    ap₂ (λ b r. digits (λ b'. 0) min n (suc a / 2) b * 2 + min (suc a % 2) r) half even
    ∙ last (digits (λ b'. 0) min n (suc a / 2) (2 ^ m)) (suc a % 2)
        (and_power m n (suc a / 2) (omega arith))
  where
    half : 2 ^ suc m / 2 ≡ 2 ^ m
    half = omega (arith, pow-suc 2 m)

    even : 2 ^ suc m % 2 ≡ 0
    even = omega (arith, pow-suc 2 m)

    last :
        (d r : ℕ)
        → d ≡ suc a / 2 / 2 ^ m % 2 * 2 ^ m
        → d * 2 + min r 0 ≡ suc a / 2 ^ suc m % 2 * 2 ^ suc m
    last d r e = rw (← halves (suc a) m, pow-suc 2 m, e) (omega arith)

pub bit_and-power : (a m : ℕ) → bit_and a (2 ^ m) ≡ a / 2 ^ m % 2 * 2 ^ m
bit_and-power a m = bit_and-bitwise a (2 ^ m) ∙ and_power m a a (omega arith)
