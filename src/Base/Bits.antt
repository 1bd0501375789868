-- ===== src/Base/Bits.antt =====
-- The bit operations at variables: `bit_or` of disjoint fields, low masks, and the laws of
-- `bit_xor`, for numbers of any width.
mod Digits
use Digits.{and_digit, or_digit, xor_digit}
use Prim.Native.Nat.{ℕ, zero, suc, ◌+◌, ◌-◌, ◌*◌, ◌/◌, ◌%◌, ◌^◌, ◌≤◌, ◌<◌}
use Prim.Native.Nat.{bit_and, bit_or, bit_xor, bit_xor-bitwise}
use mathlib.Core.Path.{◌≡◌, refl, ap}
use native.Mathlib.Nat.{pow-suc, one-le-pow}
use native.Mathlib.Omega.{arith}

times_double : (q k : ℕ) → q * 2 ^ suc k ≡ 2 * (q * 2 ^ k)
times_double q k = omega (arith, ap (λ (t : ℕ). q * t) (pow-suc 2 k))

or_zero_within : (n a : ℕ) → a ≤ n → bit_or a 0 ≡ a
or_zero_within n zero h = refl
or_zero_within zero (suc a) h = absurd (omega arith)
or_zero_within (suc n) (suc a) h =
    omega (arith, or_digit (suc a) 0, or_zero_within n (suc a / 2) (omega arith))

and_zero_within : (n a : ℕ) → a ≤ n → bit_and a 0 ≡ 0
and_zero_within n zero h = refl
and_zero_within zero (suc a) h = absurd (omega arith)
and_zero_within (suc n) (suc a) h =
    omega (arith, and_digit (suc a) 0, and_zero_within n (suc a / 2) (omega arith))

-- A high field and a low field of `k` bits are joined by a sum.
pub or_of_fields : (k high low : ℕ) → low < 2 ^ k → bit_or (high * 2 ^ k) low ≡ high * 2 ^ k + low
or_of_fields zero high low h = ground (arith, or_zero_within high high (omega arith))
or_of_fields (suc k) high low h = ground (
  arith,
  or_digit (high * 2 ^ suc k) low,
  times_double high k,
  or_of_fields k high (low / 2) (omega arith),
)

and_of_fields : (k high low : ℕ) → low < 2 ^ k → bit_and (high * 2 ^ k + low) (2 ^ k - 1) ≡ low
and_of_fields zero high low h =
    rw (and_zero_within (high * 2 ^ 0 + low) (high * 2 ^ 0 + low) (omega arith)) (omega arith)
and_of_fields (suc k) high low h = ground (
  arith,
  and_digit (high * 2 ^ suc k + low) (2 ^ suc k - 1),
  times_double high k,
  pow-suc 2 k,
  and_of_fields k high (low / 2) (omega arith),
)

or_comm_within : (n a b : ℕ) → a + b ≤ n → bit_or a b ≡ bit_or b a
or_comm_within n zero zero h = refl
or_comm_within zero (suc a) b h = absurd (omega arith)
or_comm_within zero zero (suc b) h = absurd (omega arith)
or_comm_within (suc n) zero (suc b) h =
    omega
      (arith, or_digit 0 (suc b), or_digit (suc b) 0, or_comm_within n 0 (suc b / 2) (omega arith))
or_comm_within (suc n) (suc a) b h = omega (
  arith,
  or_digit (suc a) b,
  or_digit b (suc a),
  or_comm_within n (suc a / 2) (b / 2) (omega arith),
)

-- The same with the low field on the left.
pub or_of_low_field :
    (k high low : ℕ) → low < 2 ^ k → bit_or low (high * 2 ^ k) ≡ high * 2 ^ k + low
or_of_low_field k high low h = ground (
  arith,
  or_comm_within (low + high * 2 ^ k) low (high * 2 ^ k) (omega arith),
  or_of_fields k high low,
)

-- A mask of the low `k` bits is a remainder.
pub and_of_mask : (k a : ℕ) → bit_and a (2 ^ k - 1) ≡ a % 2 ^ k
and_of_mask k a = ground (arith, one-le-pow k 2, and_of_fields k (a / 2 ^ k) (a % 2 ^ k))

-- The exclusive or of two `k`-bit numbers has `k` bits.
pub xor_bound : (k a b : ℕ) → a < 2 ^ k → b < 2 ^ k → bit_xor a b < 2 ^ k
xor_bound zero zero zero ha hb = omega arith
xor_bound zero zero (suc b) ha hb = absurd (omega arith)
xor_bound zero (suc a) b ha hb = absurd (omega arith)
xor_bound (suc k) a b ha hb = omega (
  arith,
  pow-suc 2 k,
  xor_digit a b,
  xor_bound k (a / 2) (b / 2) (omega (arith, pow-suc 2 k)) (omega (arith, pow-suc 2 k)),
)

pub xor-div : (a b : ℕ) → bit_xor a b / 2 ≡ bit_xor (a / 2) (b / 2)
xor-div a b = omega (arith, xor_digit a b)

pub xor-mod : (a b : ℕ) → bit_xor a b % 2 ≡ (a + b) % 2
xor-mod a b = omega (arith, xor_digit a b)

pub zero-xor : (b : ℕ) → bit_xor 0 b ≡ b
zero-xor b = bit_xor-bitwise 0 b

xor_self_within : (n a : ℕ) → a ≤ n → bit_xor a a ≡ 0
xor_self_within n zero h = zero-xor 0
xor_self_within zero (suc a) h = absurd (omega arith)
xor_self_within (suc n) (suc a) h =
    omega (arith, xor_digit (suc a) (suc a), xor_self_within n (suc a / 2) (omega arith))

pub xor_self : (a : ℕ) → bit_xor a a ≡ 0
xor_self a = xor_self_within a a (omega arith)

xor_comm_within : (n a b : ℕ) → a + b ≤ n → bit_xor a b ≡ bit_xor b a
xor_comm_within n zero zero h = refl
xor_comm_within zero (suc a) b h = absurd (omega arith)
xor_comm_within zero zero (suc b) h = absurd (omega arith)
xor_comm_within (suc n) zero (suc b) h =
    omega (
      arith,
      xor_digit 0 (suc b),
      xor_digit (suc b) 0,
      xor_comm_within n 0 (suc b / 2) (omega arith),
    )
xor_comm_within (suc n) (suc a) b h = omega (
  arith,
  xor_digit (suc a) b,
  xor_digit b (suc a),
  xor_comm_within n (suc a / 2) (b / 2) (omega arith),
)

pub xor_comm : (a b : ℕ) → bit_xor a b ≡ bit_xor b a
xor_comm a b = xor_comm_within (a + b) a b (omega arith)

pub xor-zero : (a : ℕ) → bit_xor a 0 ≡ a
xor-zero a = omega (arith, xor_comm a 0, zero-xor a)

xor_assoc_within : (n a b c : ℕ) → a + b + c ≤ n → bit_xor (bit_xor a b) c ≡ bit_xor a (bit_xor b c)
xor_assoc_within n zero b c h = rw (zero-xor b, zero-xor (bit_xor b c))
xor_assoc_within zero (suc a) b c h = absurd (omega arith)
xor_assoc_within (suc n) (suc a) b c h = ground (
  arith,
  xor_digit (bit_xor (suc a) b) c,
  xor_digit (suc a) (bit_xor b c),
  xor-div (suc a) b,
  xor-div b c,
  xor-mod (suc a) b,
  xor-mod b c,
  xor_assoc_within n (suc a / 2) (b / 2) (c / 2) (omega arith),
)

pub xor_assoc : (a b c : ℕ) → bit_xor (bit_xor a b) c ≡ bit_xor a (bit_xor b c)
xor_assoc a b c = xor_assoc_within (a + b + c) a b c (omega arith)

pub xor_regroup : (a b k : ℕ) → bit_xor (bit_xor a k) b ≡ bit_xor (bit_xor a b) k
xor_regroup a b k = rw (xor_assoc a k b, xor_comm k b, ← xor_assoc a b k)

pub xor_cancel_pair : (a b k : ℕ) → bit_xor (bit_xor a k) (bit_xor b k) ≡ bit_xor a b
xor_cancel_pair a b k =
    rw (← xor_assoc (bit_xor a k) b k, xor_regroup a b k, xor_assoc (bit_xor a b) k k, xor_self k)
      (xor-zero (bit_xor a b))

pub xor_cancel : (a b : ℕ) → bit_xor (bit_xor a b) b ≡ a
xor_cancel a b = rw (xor_assoc, xor_self) (xor-zero a)

-- Exclusive or with a number of `k` bits leaves the bits above alone.
pub xor_low_field :
    (k high low b : ℕ)
    → low < 2 ^ k
    → b < 2 ^ k
    → bit_xor (high * 2 ^ k + low) b ≡ high * 2 ^ k + bit_xor low b
xor_low_field zero high low b hl hb = ground (arith, xor-zero (high * 1 + 0), xor-zero 0)
xor_low_field (suc k) high low b hl hb = ground (
  arith,
  xor_digit (high * 2 ^ suc k + low) b,
  xor_digit low b,
  times_double high k,
  pow-suc 2 k,
  xor_low_field k high (low / 2) (b / 2) (omega (arith, pow-suc 2 k)) (omega (arith, pow-suc 2 k)),
)
