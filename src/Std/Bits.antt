-- ===== src/Std/Bits.antt =====
-- The bit operations of the comparison in constant time: when they give zero. The native
-- operations mean `bitwise`, a recursion on binary digits with fuel.
use Prim.Native.Nat.{max, digits, differ, bit_or, bit_xor, bit_or-bitwise, bit_xor-bitwise}
use native.Mathlib.Nat.{le_refl}
use secret_management.Prelude.{ℕ, zero, suc, ◌/◌, ◌%◌, ◌≤◌, ◌≡◌, refl, sym, ap, ◌↔◌, arith}

differ-eq-zero : (x y : ℕ) → differ x y ≡ 0 → x ≡ y
differ-eq-zero zero y e = sym e
differ-eq-zero (suc x) zero e = e
differ-eq-zero (suc x) (suc y) e = omega (arith, differ-eq-zero x y e)

differ_self : (x : ℕ) → differ x x ≡ 0
differ_self zero = refl
differ_self (suc x) = differ_self x

-- The digits of the exclusive or, with fuel for those of the first number.
xor_digits-eq-zero_iff :
    {n : ℕ} {a : ℕ} → a ≤ n → (b : ℕ) → (digits (λ b. b) differ n a b ≡ 0) ↔ (a ≡ b)
xor_digits-eq-zero_iff {n = suc n} {a = suc a} h b =
    let (high, same_high) = xor_digits-eq-zero_iff {n = n} {a = suc a / 2} (omega arith) (b / 2) in
    (
      λ e. omega (arith, differ-eq-zero (suc a % 2) (b % 2) (omega arith), high (omega arith)),
      λ e. omega (
        arith,
        ap (λ (c : ℕ). differ (suc a % 2) (c % 2)) (sym e),
        differ_self (suc a % 2),
        same_high (omega arith),
      ),
    )
xor_digits-eq-zero_iff {n = suc n} {a = zero} h b = (sym, sym)
xor_digits-eq-zero_iff {n = zero} {a = suc a} h b = absurd (omega arith)
xor_digits-eq-zero_iff {n = zero} {a = zero} h b = (sym, sym)

-- `x ^ y == 0` exactly when `x == y`.
pub bit_xor-eq-zero_iff : (a b : ℕ) → (bit_xor a b ≡ 0) ↔ (a ≡ b)
bit_xor-eq-zero_iff a b = rw (bit_xor-bitwise a b) (xor_digits-eq-zero_iff (le_refl a) b)

-- The digits of the inclusive or.
or_digits-eq-zero :
    {n : ℕ} {a : ℕ} → a ≤ n → (b : ℕ) → digits (λ b. b) max n a b ≡ 0 → (a ≡ 0) × (b ≡ 0)
or_digits-eq-zero {n = suc n} {a = suc a} h b e =
    let high = or_digits-eq-zero {n = n} {a = suc a / 2} (omega arith) (b / 2) (omega arith) in
    omega (arith, high)
or_digits-eq-zero {n = suc n} {a = zero} h b e = (refl, e)
or_digits-eq-zero {n = zero} {a = suc a} h b e = absurd (omega arith)
or_digits-eq-zero {n = zero} {a = zero} h b e = (refl, e)

-- `a | b == 0` exactly when both are.
pub bit_or-eq-zero_iff : (a b : ℕ) → (bit_or a b ≡ 0) ↔ ((a ≡ 0) × (b ≡ 0))
bit_or-eq-zero_iff a b = (
  λ e. or_digits-eq-zero (le_refl a) b (omega (arith, bit_or-bitwise a b)),
  λ e. rw (e.0, e.1) refl,
)
