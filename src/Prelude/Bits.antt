-- ===== src/Prelude/Bits.antt =====
-- Joining a high and a low field by `|`, and cutting a low field off by `&`, as arithmetic.
use Prim.Native.Nat.{
  ℕ, zero, suc, ◌+◌, ◌-◌, ◌*◌, ◌/◌, ◌^◌, ◌≤◌, ◌<◌, min, max, digits, bit_or, bit_and,
  bit_or-bitwise, bit_and-bitwise,
}
use mathlib.Core.Path.{◌≡◌, refl, ap, ◌∙◌}
use native.Mathlib.Nat.{pow-suc, one-le-pow, le_refl}
use native.Mathlib.Omega.{arith}

abbrev or_digits : ℕ → ℕ → ℕ → ℕ
or_digits n a b = digits (λ y. y) max n a b

abbrev and_digits : ℕ → ℕ → ℕ → ℕ
and_digits n a b = digits (λ y. 0) min n a b

or_digits-zero : (n a : ℕ) → a ≤ n → or_digits n a 0 ≡ a
or_digits-zero zero a le = omega (arith, le)
or_digits-zero (suc n) zero le = refl
or_digits-zero (suc n) (suc a) le =
    omega (arith, le, or_digits-zero n (suc a / 2) (omega (arith, le)))

and_digits-zero : (n a : ℕ) → and_digits n a 0 ≡ 0
and_digits-zero zero a = refl
and_digits-zero (suc n) zero = refl
and_digits-zero (suc n) (suc a) = omega (arith, and_digits-zero n (suc a / 2))

double_field : (k q : ℕ) → q * 2 ^ suc k ≡ q * 2 ^ k * 2
double_field k q = omega (arith, ap (λ (p : ℕ). q * p) (pow-suc 2 k))

or_digits_fields : (k n a q r : ℕ) → a ≡ q * 2 ^ k → r < 2 ^ k → a ≤ n → or_digits n a r ≡ a + r
or_digits_fields zero n a q r high low le =
    let none : r ≡ 0 = omega (arith, low) in rw none (omega (arith, or_digits-zero n a le))
or_digits_fields (suc k) zero a q r high low le = omega (arith, le)
or_digits_fields (suc k) (suc n) zero q r high low le = omega arith
or_digits_fields (suc k) (suc n) (suc a) q r high low le =
    let half = double_field k q in
    omega (
      arith,
      high,
      half,
      or_digits_fields k n (suc a / 2) q (r / 2) (omega (arith, high, half))
          (omega (arith, low, pow-suc 2 k)) (omega (arith, le)),
    )

and_digits_fields :
    (k n a q r : ℕ) → a ≡ q * 2 ^ k + r → r < 2 ^ k → a ≤ n → and_digits n a (2 ^ k - 1) ≡ r
and_digits_fields zero n a q r fields low le = omega (arith, low, and_digits-zero n a)
and_digits_fields (suc k) zero a q r fields low le = omega (arith, fields, le)
and_digits_fields (suc k) (suc n) zero q r fields low le = omega (arith, fields)
and_digits_fields (suc k) (suc n) (suc a) q r fields low le =
    let half = double_field k q in
    let pow = pow-suc 2 k in
    let some_bit : 1 ≤ 2 ^ k = one-le-pow k 2 (omega arith) in
    let mask : (2 ^ suc k - 1) / 2 ≡ 2 ^ k - 1 = omega (arith, pow, some_bit) in
    let ih : and_digits n (suc a / 2) ((2 ^ suc k - 1) / 2) ≡ r / 2 = rw mask (
      and_digits_fields k n (suc a / 2) q (r / 2) (omega (arith, fields, half))
        (omega (arith, low, pow)) (omega (arith, le))) in
    omega (arith, fields, half, pow, some_bit, low, ih)

-- The high field stands above the bit `k`, the low one below.
pub bit_or_fields : (k q r : ℕ) → r < 2 ^ k → bit_or (q * 2 ^ k) r ≡ q * 2 ^ k + r
bit_or_fields k q r low =
    bit_or-bitwise (q * 2 ^ k) r
    ∙ or_digits_fields k (q * 2 ^ k) (q * 2 ^ k) q r refl low (le_refl _)

pub bit_and_low : (k q r : ℕ) → r < 2 ^ k → bit_and (q * 2 ^ k + r) (2 ^ k - 1) ≡ r
bit_and_low k q r low =
    bit_and-bitwise (q * 2 ^ k + r) (2 ^ k - 1)
    ∙ and_digits_fields k (q * 2 ^ k + r) (q * 2 ^ k + r) q r refl low (le_refl _)
