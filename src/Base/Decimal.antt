-- ===== src/Base/Decimal.antt =====
-- Numbers as `printf` writes them, and as `scanf` and `strtol` read them back.
use Prim.Native.Nat.{ℕ, zero, suc, ◌+◌, ◌-◌, ◌*◌, ◌/◌, ◌%◌, ◌^◌, ◌≤◌, ◌<◌}
use mathlib.Core.Path.{◌≡◌, refl, ap, ◌∙◌}
use mathlib.Core.Bool.{Bool, true, ◌&&◌}
use mathlib.Core.Logic.{inl, inr}
use mathlib.Core.List.{List, [], ◌∷◌, ◌++◌}
use native.Mathlib.Omega.{arith}
use okmx8mm.Base.Tests.{if◌then◌else◌, ltb, leb, Bool-cases}
use okmx8mm.Base.Lists.{length, length-append}
use okmx8mm.Base.Ends.{append_assoc}

-- `%u`, `%d` and `%ld` of a number that is not negative and has at most so many digits.
unfoldable pub decimal : ℕ → ℕ → List ℕ
decimal zero n = []
decimal (suc places) n =
    let front = decimal places (n / 10) in
    if ltb n 10 then (48 + n) ∷ [] else front ++ ((48 + n % 10) ∷ [])

unfoldable pub is_decimal : ℕ → Bool
is_decimal c = leb 48 c && leb c 57

-- The digits at the front: their value after the value so far, their count, and the rest.
unfoldable pub scan_digits : ℕ → ℕ → List ℕ → ℕ × ℕ × List ℕ
unfolding is_decimal
scan_digits value count [] = (value, count, [])
scan_digits value count (c ∷ cs) =
    let further = scan_digits (value * 10 + (c - 48)) (count + 1) cs in
    if is_decimal c then further else (value, count, c ∷ cs)

scan_digit :
    (value count d : ℕ) (rest : List ℕ)
    → d < 10
    → scan_digits value count ((48 + d) ∷ rest) ≡ scan_digits (value * 10 + d) (count + 1) rest
unfolding scan_digits is_decimal
scan_digit value count d rest h =
    let digit : (leb 48 (48 + d) && leb (48 + d) 57) ≡ true = ground (arith, h) in
    let own : 48 + d - 48 ≡ d = omega arith in rw (digit, own) refl

-- What is printed is read, up to what follows.
pub scan-decimal :
    (places n count : ℕ) (rest : List ℕ)
    → n < 10 ^ places
    → scan_digits 0 count (decimal places n ++ rest)
      ≡ scan_digits n (count + length (decimal places n)) rest
unfolding decimal
scan-decimal zero n count rest h =
    let none_left : n ≡ 0 = omega (arith, h) in
    let same : count + 0 ≡ count = omega arith in rw (none_left, same) refl
scan-decimal (suc places) n count rest h = elim (Bool-cases (ltb n 10)) [
  | inl small ↦
      let below : n < 10 = ground (arith, small) in
      let own : 0 * 10 + n ≡ n = omega arith in
      rw small (scan_digit 0 count n rest below ∙ ap (λ v. scan_digits v (count + 1) rest) own)
  | inr large ↦
      let front = decimal places (n / 10) in
      let last = n % 10 in
      let below : last < 10 = omega arith in
      let fits : n / 10 < 10 ^ places = omega (arith, h) in
      let value : n / 10 * 10 + n % 10 ≡ n = omega arith in
      let total : count + length front + 1 ≡ count + length (front ++ ((48 + last) ∷ [])) =
        omega (arith, length-append front ((48 + last) ∷ [])) in
      rw (large, append_assoc front ((48 + last) ∷ []) rest)
        (scan-decimal places (n / 10) count ((48 + last) ∷ rest) fits
          ∙ scan_digit (n / 10) (count + length front) last rest below
          ∙ (rw (value, total) refl))
]

pub length-decimal : (places n : ℕ) → length (decimal places n) ≤ places
unfolding decimal
length-decimal zero n = omega arith
length-decimal (suc places) n = elim (Bool-cases (ltb n 10)) [
  | inl small ↦ rw small (omega arith)
  | inr large ↦
      let front = decimal places (n / 10) in
      let last : List ℕ = (48 + n % 10) ∷ [] in
      rw large (omega (arith, length-append front last, length-decimal places (n / 10)))
]
