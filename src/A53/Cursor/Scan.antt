-- ===== src/A53/Cursor/Scan.antt =====
-- What `sscanf` does with the format of the cursor file in
-- OKMX8MM-Demo2/a53/src/storage_writer.c.
use okmx8mm.Base.{ℕ, zero, suc, ◌+◌, ◌-◌, ◌*◌, ◌^◌, List, [], ◌∷◌, u32, codes, scan_digits}
use okmx8mm.Base.{
  Bool, true, false, ◌&&◌, ◌||◌, Option, none, some, length, leb, ◌==◌, if◌then◌else◌,
}
use okmx8mm.Config.{is_space, trim_front}

-- A byte of the format of `sscanf`: white space takes any amount of it, another byte itself.
unfoldable pub scan_literal : List ℕ → List ℕ → Option (List ℕ)
scan_literal [] text = some text
scan_literal (c ∷ cs) text =
    let spaced = scan_literal cs (trim_front text) in
    if is_space c
    then spaced
    else elim text [ [] ↦ none | d ∷ ds ↦ if d == c then scan_literal cs ds else none ]

-- `%255[^\n]` with so many bytes left: the name and the rest.
unfoldable pub take_line : ℕ → List ℕ → List ℕ × List ℕ
take_line zero text = ([], text)
take_line (suc left) [] = ([], [])
take_line (suc left) (c ∷ cs) =
    let (name, rest) = take_line left cs in if c == 10 then ([], c ∷ cs) else (c ∷ name, rest)

unfoldable pub scan_sign : List ℕ → Bool × List ℕ
scan_sign [] = (false, [])
scan_sign (c ∷ cs) =
    if c == 45 then (true, cs) else if c == 43 then (false, cs) else (false, c ∷ cs)

-- `%u` and `%ld`: the sign, the value and the rest. Values out of the range of `long` are undefined
-- in C.
unfoldable pub scan_number : List ℕ → Option ((Bool × ℕ) × List ℕ)
scan_number text =
    let (negative, unsigned) = scan_sign (trim_front text) in
    let (value, count, rest) = scan_digits 0 0 unsigned in
    if count == 0 then none else some ((negative, value), rest)

-- The value of a hexadecimal digit.
unfoldable pub hex_value : ℕ → Option ℕ
hex_value c =
    if leb 48 c && leb c 57
    then some (c - 48)
    else if leb 65 c && leb c 70
    then some (c - 55)
    else if leb 97 c && leb c 102
    then some (c - 87)
    else none

-- The hexadecimal digits at the front, at most so many: their value and count.
unfoldable pub scan_hex_digits : ℕ → ℕ → ℕ → List ℕ → ℕ × ℕ
scan_hex_digits zero value count text = (value, count)
scan_hex_digits (suc left) value count [] = (value, count)
scan_hex_digits (suc left) value count (c ∷ cs) = elim (hex_value c) [
  | none ↦ (value, count)
  | some d ↦ scan_hex_digits left (value * 16 + d) (count + 1) cs
]

-- An optional `0x` in front of the digits, which counts for the width.
unfoldable pub scan_prefix : List ℕ → ℕ × List ℕ
scan_prefix [] = (0, [])
scan_prefix (c ∷ []) = (0, c ∷ [])
scan_prefix (c ∷ d ∷ rest) =
    if c == 48 && (d == 120 || d == 88) then (2, rest) else (0, c ∷ d ∷ rest)

-- `%8X`.
unfoldable pub scan_hex : List ℕ → Option ℕ
scan_hex text =
    let unspaced = trim_front text in
    let (negative, unsigned) = scan_sign unspaced in
    let (skipped, digits) = scan_prefix unsigned in
    let width = 8 - (length unspaced - length unsigned) - skipped in
    let (value, count) = scan_hex_digits width 0 0 digits in
    if count == 0 then none else some (if negative then u32 (2 ^ 32 - value) else value)

-- What the format gives: signs and values.
pub record Fields : Type 0 where
  pub name : List ℕ
  pub number : Bool × ℕ
  pub offset : Bool × ℕ
  pub bytes : Bool × ℕ
  pub checksum : ℕ

infixl 5 ◌>>=◌
abbrev pub ◌>>=◌ : {A B : Type 0} → Option A → (A → Option B) → Option B
none >>= f = none
some a >>= f = f a

-- A number after a literal of the format.
unfoldable pub scan_field : List ℕ → List ℕ → Option ((Bool × ℕ) × List ℕ)
scan_field label text = scan_literal label text >>= scan_number

-- `file=%255[^\n]`.
unfoldable pub scan_name : List ℕ → Option (List ℕ × List ℕ)
scan_name text = scan_literal (codes "file=") text >>= λ rest.
    if length (take_line 255 rest).0 == 0 then none else some (take_line 255 rest)

-- The `sscanf` of `read_storage_cursor`, where it returns 5.
unfoldable pub scan_cursor : List ℕ → Option Fields
scan_cursor text = do
  (name, after_name) ← scan_name text
  (number, after_number) ← scan_field (codes "\nsequence=") after_name
  (offset, after_offset) ← scan_field (codes "\nbyte_offset=") after_number
  (bytes, after_bytes) ← scan_field (codes "\nline_bytes=") after_offset
  rest ← scan_literal (codes "\nline_checksum=") after_bytes
  checksum ← scan_hex rest
  some
      (record { name = name; number = number; offset = offset; bytes = bytes; checksum = checksum })
