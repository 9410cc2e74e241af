-- ===== src/Prelude/Bits.antt =====
-- When the bitwise operations are zero, for numbers of every width.
use Prim.Native.Nat.{
  ℕ, zero, suc, ◌/◌, ◌%◌, ◌≤◌, max, digits, differ, bit_or, bit_xor, bit_or-bitwise,
  bit_xor-bitwise,
}
use mathlib.Core.Logic.{◌↔◌}
use mathlib.Core.Path.{◌≡◌, refl, ◌∙◌, sym}
use native.Mathlib.Omega.{arith}

abbrev or_digits : ℕ → ℕ → ℕ → ℕ
or_digits n a b = digits (λ b. b) max n a b

abbrev xor_digits : ℕ → ℕ → ℕ → ℕ
xor_digits n a b = digits (λ b. b) differ n a b

differ-eq-zero : (x y : ℕ) → differ x y ≡ 0 → x ≡ y
differ-eq-zero zero y h = omega arith
differ-eq-zero (suc x) zero h = omega arith
differ-eq-zero (suc x) (suc y) h = omega (arith, differ-eq-zero x y h)

differ_self : (x : ℕ) → differ x x ≡ 0
differ_self zero = refl
differ_self (suc x) = differ_self x

or_digits-eq-zero : (n a b : ℕ) → a ≤ n → or_digits n a b ≡ 0 → (a ≡ 0) × (b ≡ 0)
or_digits-eq-zero zero a b h e = omega arith
or_digits-eq-zero (suc n) zero b h e = omega arith
or_digits-eq-zero (suc n) (suc a) b h e =
    omega (arith, or_digits-eq-zero n (suc a / 2) (b / 2) (omega arith) (omega arith))

xor_digits-eq-zero : (n a b : ℕ) → a ≤ n → xor_digits n a b ≡ 0 → a ≡ b
xor_digits-eq-zero zero a b h e = omega arith
xor_digits-eq-zero (suc n) zero b h e = omega arith
xor_digits-eq-zero (suc n) (suc a) b h e = omega (
  arith,
  xor_digits-eq-zero n (suc a / 2) (b / 2) (omega arith) (omega arith),
  differ-eq-zero (suc a % 2) (b % 2) (omega arith),
)

xor_digits_self : (n a : ℕ) → a ≤ n → xor_digits n a a ≡ 0
xor_digits_self zero a h = omega arith
xor_digits_self (suc n) zero h = refl
xor_digits_self (suc n) (suc a) h =
    omega (arith, xor_digits_self n (suc a / 2) (omega arith), differ_self (suc a % 2))

pub bit_or-eq-zero : (a b : ℕ) → (bit_or a b ≡ 0) ↔ ((a ≡ 0) × (b ≡ 0))
bit_or-eq-zero a b = (
  λ e. or_digits-eq-zero a a b (omega arith) (sym (bit_or-bitwise a b) ∙ e),
  λ h. or-zero h.0 h.1,
)
  where
    or-zero : a ≡ 0 → b ≡ 0 → bit_or a b ≡ 0
    or-zero p q = rw (p, q)

pub bit_xor-eq-zero : (a b : ℕ) → (bit_xor a b ≡ 0) ↔ (a ≡ b)
bit_xor-eq-zero a b = (
  λ e. xor_digits-eq-zero a a b (omega arith) (sym (bit_xor-bitwise a b) ∙ e),
  λ h. rw h (bit_xor-bitwise b b ∙ xor_digits_self b b (omega arith)),
)
