-- ===== src/Base/Bits/Digits.antt =====
-- One equation for the lowest binary digit of `bit_and`, `bit_or` and `bit_xor`. The native
-- operations recur on digits with a count of digits to go, which is dropped here.
use Prim.Native.Nat.{ℕ, zero, suc, ◌+◌, ◌*◌, ◌/◌, ◌%◌, ◌≤◌, ◌<◌, min, max, differ}
use Prim.Native.Nat.{bit_and, bit_or, bit_xor, digits}
use Prim.Native.Nat.{bit_and-bitwise, bit_or-bitwise, bit_xor-bitwise}
use mathlib.Core.Path.{◌≡◌, refl}
use native.Mathlib.Omega.{arith}

module _ (rest : ℕ → ℕ) (op : ℕ → ℕ → ℕ) where
  -- Two counts that are both large enough give one result.
  count_free :
      (left right : ℕ) (x y : ℕ)
      → x ≤ left
      → x ≤ right
      → digits rest op left x y ≡ digits rest op right x y
  count_free zero zero x y hl hr = refl
  count_free zero (suc right) (suc x) y hl hr = absurd (omega arith)
  count_free zero (suc right) zero y hl hr = refl
  count_free (suc left) zero (suc x) y hl hr = absurd (omega arith)
  count_free (suc left) zero zero y hl hr = refl
  count_free (suc left) (suc right) zero y hl hr = refl
  count_free (suc left) (suc right) (suc x) y hl hr =
      let half = count_free left right (suc x / 2) (y / 2) (omega arith) (omega arith) in
      omega (arith, half)

  -- Halving a positive number lowers the count by enough.
  count_halved :
      (x y : ℕ)
      → digits rest op x (suc x / 2) (y / 2) ≡ digits rest op (suc x / 2) (suc x / 2) (y / 2)
  count_halved x y = count_free x (suc x / 2) (suc x / 2) (y / 2) (omega arith) (omega arith)

differ_of_bits : (x y : ℕ) → x < 2 → y < 2 → differ x y ≡ (x + y) % 2
differ_of_bits zero y hx hy = omega arith
differ_of_bits (suc zero) zero hx hy = refl
differ_of_bits (suc zero) (suc zero) hx hy = refl
differ_of_bits (suc zero) (suc (suc y)) hx hy = absurd (omega arith)
differ_of_bits (suc (suc x)) y hx hy = absurd (omega arith)

pub and_digit : (x y : ℕ) → bit_and x y ≡ bit_and (x / 2) (y / 2) * 2 + min (x % 2) (y % 2)
and_digit zero y = simp bit_and-bitwise (omega arith)
and_digit (suc x) y = simp bit_and-bitwise (omega (arith, count_halved (λ _. zero) min x y))

pub or_digit : (x y : ℕ) → bit_or x y ≡ bit_or (x / 2) (y / 2) * 2 + max (x % 2) (y % 2)
or_digit zero y = simp bit_or-bitwise (omega arith)
or_digit (suc x) y = simp bit_or-bitwise (omega (arith, count_halved (λ t. t) max x y))

pub xor_digit : (x y : ℕ) → bit_xor x y ≡ bit_xor (x / 2) (y / 2) * 2 + (x + y) % 2
xor_digit zero y = simp bit_xor-bitwise (omega arith)
xor_digit (suc x) y = simp bit_xor-bitwise (
    omega (
      arith,
      count_halved (λ t. t) differ x y,
      differ_of_bits (suc x % 2) (y % 2) (omega arith) (omega arith),
    ))
