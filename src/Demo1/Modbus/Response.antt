-- ===== src/Demo1/Modbus/Response.antt =====
-- A slave's response, described independently, and the parser.
use Prim.Native.Nat.{bit_or, bit_and}
use okmx8mm.Base.{ℕ, ◌+◌, ◌-◌, ◌*◌, ◌/◌, ◌%◌, ◌^◌, ◌≤◌, ◌≡◌, ◌≢◌, refl, sym, ap, ◌∙◌, arith}
use okmx8mm.Base.{
  List, [], ◌∷◌, ◌++◌, some, true, false, length, get_or, ok, u8, u16, All, IsU16, ◌<<<◌, ◌>>>◌,
}
use okmx8mm.Base.{length-append, get_or-append, append-snoc, length-snoc}
use okmx8mm.Base.Bits.{or_of_fields}
use okmx8mm.Crc.{crc16_modbus}
use okmx8mm.Crc.Detect.{crc16_prefix, crc16-lt}
use okmx8mm.Wire.{join_u16}
use okmx8mm.Wire.Join.{join-put_u16}
use okmx8mm.Demo1.Modbus.{modbus_crc16, read_registers, bad_crc, parse_read_response}

-- The registers, high byte first.
abbrev pub be_bytes : List ℕ → List ℕ
be_bytes [] = []
be_bytes (r ∷ rs) = r / 256 ∷ r % 256 ∷ be_bytes rs

abbrev pub body_of : ℕ → List ℕ → List ℕ
body_of slave_id registers = slave_id ∷ 0x03 ∷ length registers * 2 ∷ be_bytes registers

-- The response of a slave that holds these registers.
abbrev pub response_of : ℕ → List ℕ → List ℕ
response_of slave_id registers =
    let crc =
      crc16_modbus (some (body_of slave_id registers)) (length (body_of slave_id registers)) in
    body_of slave_id registers ++ (u8 (bit_and crc 0xFF) ∷ u8 (crc >>> 8) ∷ [])

get_or_at {ℓ} :
    {A : Type ℓ} (xs : List A) (y : A) (ys : List A) (d : A) (i : ℕ)
    → length xs ≡ i
    → get_or (xs ++ (y ∷ ys)) i d ≡ y
get_or_at xs y ys d i h = ap (λ j. get_or (xs ++ (y ∷ ys)) j d) (sym h) ∙ get_or-append xs y ys d

get_or_after {ℓ} :
    {A : Type ℓ} (xs : List A) (x y : A) (ys : List A) (d : A) (i : ℕ)
    → length xs ≡ i
    → get_or (xs ++ (x ∷ y ∷ ys)) (i + 1) d ≡ y
get_or_after xs x y ys d i h =
    ap (λ t. get_or t (i + 1) d) (append-snoc xs (y ∷ ys) x)
    ∙ get_or_at (xs ++ (x ∷ [])) y ys d (i + 1) (length-snoc xs x ∙ omega arith)

rejoin : (r : ℕ) → IsU16 r → bit_or (u16 ((r / 256) <<< 8)) (r % 256) ≡ r
rejoin r h =
    ap (λ n. bit_or n (r % 256)) fits
    ∙ or_of_fields 8 (r / 256) (r % 256) (omega arith)
    ∙ omega arith
  where
    fits : u16 ((r / 256) <<< 8) ≡ (r / 256) * 2 ^ 8
    fits = omega arith

read_registers-be_bytes :
    (before rs tail : List ℕ) (index : ℕ)
    → length before ≡ 3 + index * 2
    → All IsU16 rs
    → read_registers (length rs) index (before ++ (be_bytes rs ++ tail)) ≡ rs
unfolding read_registers
read_registers-be_bytes before [] tail index h all = refl
read_registers-be_bytes before (r ∷ rs) tail index h all =
    let others =
      ap (read_registers (length rs) (index + 1)) moved
      ∙ read_registers-be_bytes before' rs tail (index + 1) longer all.1 in
    λ i. first i ∷ others i
  where
    frame : List ℕ
    frame = before ++ (r / 256 ∷ r % 256 ∷ (be_bytes rs ++ tail))

    high : get_or frame (3 + index * 2) 0 ≡ r / 256
    high = get_or_at before (r / 256) (r % 256 ∷ (be_bytes rs ++ tail)) 0 (3 + index * 2) h

    low : get_or frame (3 + index * 2 + 1) 0 ≡ r % 256
    low = get_or_after before (r / 256) (r % 256) (be_bytes rs ++ tail) 0 (3 + index * 2) h

    first :
        bit_or (u16 (get_or frame (3 + index * 2) 0 <<< 8)) (get_or frame (3 + index * 2 + 1) 0) ≡ r
    first = rw (high, low) (rejoin r all.0)

    before' : List ℕ
    before' = (before ++ (r / 256 ∷ [])) ++ (r % 256 ∷ [])

    moved : frame ≡ before' ++ (be_bytes rs ++ tail)
    moved =
        append-snoc before (r % 256 ∷ (be_bytes rs ++ tail)) (r / 256)
        ∙ append-snoc (before ++ (r / 256 ∷ [])) (be_bytes rs ++ tail) (r % 256)

    longer : length before' ≡ 3 + (index + 1) * 2
    longer =
        omega
          (arith, length-snoc (before ++ (r / 256 ∷ [])) (r % 256), length-snoc before (r / 256))

length-be_bytes : (rs : List ℕ) → length (be_bytes rs) ≡ length rs * 2
length-be_bytes [] = refl
length-be_bytes (r ∷ rs) = omega (arith, length-be_bytes rs)

length-response_of :
    (slave_id : ℕ) (registers : List ℕ)
    → length (response_of slave_id registers) ≡ length registers * 2 + 5
length-response_of slave_id registers =
    let crc =
      crc16_modbus (some (body_of slave_id registers)) (length (body_of slave_id registers)) in
    omega (
      arith,
      length-append (be_bytes registers) (u8 (bit_and crc 0xFF) ∷ u8 (crc >>> 8) ∷ []),
      length-be_bytes registers,
    )

good_crc :
    (body : List ℕ)
    → let crc = crc16_modbus (some body) (length body) in
      bad_crc (body ++ (u8 (bit_and crc 0xFF) ∷ u8 (crc >>> 8) ∷ [])) ≡ false
unfolding bad_crc modbus_crc16 crc16_modbus join_u16
good_crc body =
    rw
      (
        size,
        size',
        get_or_at body (u8 (bit_and crc 0xFF)) (u8 (crc >>> 8) ∷ []) 0 (length body) refl,
        get_or_after body (u8 (bit_and crc 0xFF)) (u8 (crc >>> 8)) [] 0 (length body) refl,
        join-put_u16 crc (crc16-lt body (length body)),
        crc16_prefix body (u8 (bit_and crc 0xFF) ∷ u8 (crc >>> 8) ∷ []) (length body) refl,
      )
      (ground arith)
  where
    crc : ℕ
    crc = crc16_modbus (some body) (length body)

    tail : List ℕ
    tail = u8 (bit_and crc 0xFF) ∷ u8 (crc >>> 8) ∷ []

    size : length (body ++ tail) - 2 ≡ length body
    size = omega (arith, length-append body tail)

    size' : length (body ++ tail) - 1 ≡ length body + 1
    size' = omega (arith, length-append body tail)

-- The parser takes the registers, of 16 bits each, up to 125 and no more than it is given room
-- for, out of the response of the slave that it expects, whose number is not 0.
pub parse-response_of :
    (slave_id max_registers : ℕ) (registers : List ℕ)
    → slave_id ≢ 0
    → length registers ≤ max_registers
    → length registers ≤ 125
    → All IsU16 registers
    → parse_read_response slave_id (some (response_of slave_id registers)) true max_registers
      ≡ ok registers
unfolding parse_read_response
parse-response_of slave_id max_registers registers some_slave room few all =
    rw (good_crc body, taken) (ground (arith, some_slave, size))
  where
    body : List ℕ
    body = body_of slave_id registers

    size : length (response_of slave_id registers) ≡ length registers * 2 + 5
    size = length-response_of slave_id registers

    count : u16 (length registers * 2 / 2) ≡ length registers
    count = omega arith

    taken :
        read_registers (u16 (length registers * 2 / 2)) 0 (response_of slave_id registers)
        ≡ registers
    taken =
        ap (λ n. read_registers n 0 (response_of slave_id registers)) count
        ∙ read_registers-be_bytes (slave_id ∷ 0x03 ∷ length registers * 2 ∷ []) registers
            (u8 (bit_and (crc16_modbus (some body) (length body)) 0xFF)
              ∷ u8 (crc16_modbus (some body) (length body) >>> 8)
              ∷ [])
            0 refl all
