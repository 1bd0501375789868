-- ===== src/Mqtt/Remaining.antt =====
-- The remaining length, and the algorithm by which the MQTT standard decodes it.
use Prim.Native.Nat.{bit_or}
use okmx8mm.Base.{ℕ, zero, suc, ◌+◌, ◌-◌, ◌*◌, ◌/◌, ◌%◌, ◌^◌, ◌≤◌, ◌<◌, ◌≡◌, refl, ap, ◌∙◌, arith}
use okmx8mm.Base.{
  List, [], ◌∷◌, ◌++◌, true, false, Bool-cases, Option, none, some, inl, inr, length, ltb, ◌/=◌,
}
use okmx8mm.Base.{if◌then◌else◌, u8, Result, ok, err}
use okmx8mm.Base.Bits.{or_of_low_field}
use okmx8mm.Mqtt.{encode_loop, encode_remaining_length}

-- Seven bits at a time, the lowest first; a byte of 128 or more goes on.
abbrev pub decode_length : List ℕ → Option (ℕ × List ℕ)
decode_length [] = none
decode_length (b ∷ bs) =
    let rest = decode_length bs in
    if ltb b 128
    then some (b, bs)
    else (elim rest [ none ↦ none | some found ↦ some (b - 128 + 128 * found.0, found.1) ])

-- The digits that the loop writes are those of the value.
abbrev pub Encoded : ℕ → ℕ → Result (List ℕ) → Type 0
Encoded left value result =
    (digits : List ℕ) × (result ≡ ok digits)
    × (0 < length digits)
    × (length digits ≤ left)
    × ((tail : List ℕ) → decode_length (digits ++ tail) ≡ some (value, tail))

high_bit : (d : ℕ) → d < 128 → bit_or d 0x80 ≡ 128 + d
high_bit d h = or_of_low_field 7 1 d h ∙ omega arith

-- What fits in so many digits.
abbrev pub limit : ℕ → ℕ
limit zero = 1
limit (suc left) = 128 * limit left

last_digit : (left value : ℕ) → value < 128 → Encoded (suc left) value (ok (u8 (value % 128) ∷ []))
last_digit left value h =
    (u8 (value % 128) ∷ [], refl, omega arith, omega arith, λ tail. rw (same, small) refl)
  where
    same : u8 (value % 128) ≡ value
    same = omega arith

    small : ltb value 128 ≡ true
    small = ground arith

further_digit :
    (left value : ℕ) (result : Result (List ℕ))
    → Encoded left (value / 128) result
    → Encoded
        (suc left)
        value
        (elim result [ ok digits ↦ ok (bit_or (u8 (value % 128)) 0x80 ∷ digits) | err n ↦ err n ])
further_digit left value result (digits, e, some_digit, few, decoded) = rw e (
  bit_or (u8 (value % 128)) 0x80 ∷ digits,
  refl,
  omega arith,
  omega arith,
  λ tail. rw (large, decoded tail) (ap (λ n. some (n, tail)) whole),
)
  where
    high : bit_or (u8 (value % 128)) 0x80 ≡ 128 + value % 128
    high = ap (λ d. bit_or d 0x80) (omega arith) ∙ high_bit (value % 128) (omega arith)

    large : ltb (bit_or (u8 (value % 128)) 0x80) 128 ≡ false
    large = ground (arith, high)

    whole : bit_or (u8 (value % 128)) 0x80 - 128 + 128 * (value / 128) ≡ value
    whole = omega (arith, high)

encode_loop-Encoded :
    (left room value : ℕ)
    → left < room
    → value < limit (suc left)
    → Encoded (suc left) value (encode_loop (suc left) room value)
unfolding encode_loop
encode_loop-Encoded left zero value h below = absurd (omega arith)
encode_loop-Encoded zero (suc room) value h below =
    let ends : (value / 128 /= 0) ≡ false = ground arith in
    rw ends (last_digit 0 value (omega arith))
encode_loop-Encoded (suc left) (suc room) value h below = elim (Bool-cases (value / 128 /= 0)) [
  | inl more ↦ rw more (
      further_digit (suc left) value (encode_loop (suc left) room (value / 128))
        (encode_loop-Encoded left room (value / 128) (omega arith) (omega arith)))
  | inr ends ↦ rw ends (last_digit (suc left) value (ground arith))
]

-- A length below 2 ^ 28 is encoded in one to four bytes, from which the algorithm of the MQTT
-- standard reads it back, whatever bytes follow.
pub encode_remaining_length-Encoded :
    (value : ℕ) → value < 2 ^ 28 → Encoded 4 value (encode_remaining_length 4 value)
unfolding encode_remaining_length
encode_remaining_length-Encoded value h = encode_loop-Encoded 3 4 value (omega arith) h
