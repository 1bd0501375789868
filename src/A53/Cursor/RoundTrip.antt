-- ===== src/A53/Cursor/RoundTrip.antt =====
-- The cursor file is read back as it is written.
use okmx8mm.Base.{ℕ, zero, suc, ◌+◌, ◌-◌, ◌*◌, ◌/◌, ◌%◌, ◌^◌, ◌≤◌, ◌<◌, ◌≡◌, refl, ap, ◌∙◌, arith}
use okmx8mm.Base.{List, [], ◌∷◌, ◌++◌, Bool, false, ◌||◌, some, length, codes}
use okmx8mm.Base.{ltb, ◌==◌, Bool-cases, inl, inr, decimal, is_decimal, scan_digits}
use okmx8mm.Base.{scan-decimal, All}
use okmx8mm.Config.{is_space, trim_front}
use okmx8mm.A53.Cursor.{Cursor, hex_digit, print_hex, cursor_text}
use okmx8mm.A53.Cursor.Scan.{
  scan_literal, take_line, scan_sign, scan_number, hex_value, scan_hex_digits, scan_prefix,
}
use okmx8mm.A53.Cursor.Scan.{scan_hex, scan_field, scan_name, scan_cursor}

decimal_head :
    (places n : ℕ)
    → (c : ℕ) × (cs : List ℕ) × (decimal (suc places) n ≡ c ∷ cs) × (48 ≤ c) × (c ≤ 57)
unfolding decimal
decimal_head zero n = elim (Bool-cases (ltb n 10)) [
  | inl small ↦ (48 + n, [], rw small refl, omega arith, ground (arith, small))
  | inr large ↦ (48 + n % 10, [], rw large refl, omega arith, omega arith)
]
decimal_head (suc places) n = elim (Bool-cases (ltb n 10)) [
  | inl small ↦ (48 + n, [], rw small refl, omega arith, ground (arith, small))
  | inr large ↦
      let (c, cs, shape, low, high) = decimal_head places (n / 10) in
      (c, cs ++ ((48 + n % 10) ∷ []), rw (large, shape) refl, low, high)
]

digit_facts :
    (c : ℕ) → 48 ≤ c → c ≤ 57 → (is_space c ≡ false) × ((c == 45) ≡ false) × ((c == 43) ≡ false)
digit_facts c low high =
    (ground (arith, low, high), ground (arith, low, high), ground (arith, low, high))

digits_start :
    (places n : ℕ) (rest : List ℕ)
    → scan_sign (trim_front (decimal (suc places) n ++ rest))
      ≡ (false, decimal (suc places) n ++ rest)
unfolding trim_front scan_sign
digits_start places n rest =
    let (c, cs, shape, low, high) = decimal_head places n in
    let (space, minus, plus) = digit_facts c low high in rw (shape, space, minus, plus) refl

scan_number-decimal :
    (places n : ℕ) (rest : List ℕ)
    → n < 10 ^ suc places
    → scan_number (decimal (suc places) n ++ (10 ∷ rest)) ≡ some ((false, n), 10 ∷ rest)
unfolding scan_number scan_digits is_decimal
scan_number-decimal places n rest h =
    let (c, cs, shape, low, high) = decimal_head places n in
    let long : length (decimal (suc places) n) ≡ suc (length cs) = ap length shape in
    let some_digit : (0 + length (decimal (suc places) n) == 0) ≡ false = ground (arith, long) in
    rw (digits_start places n (10 ∷ rest), scan-decimal (suc places) n 0 (10 ∷ rest) h, some_digit)
      refl

take_line-name :
    (left : ℕ) (name rest : List ℕ)
    → length name ≤ left
    → All (λ c. (c == 10) ≡ false) name
    → take_line left (name ++ (10 ∷ rest)) ≡ (name, 10 ∷ rest)
unfolding take_line
take_line-name zero [] rest short clean = refl
take_line-name zero (c ∷ cs) rest short clean = absurd (omega (arith, short))
take_line-name (suc left) [] rest short clean = refl
take_line-name (suc left) (c ∷ cs) rest short clean =
    let fits : length cs ≤ left = omega (arith, short) in
    rw (clean.0, take_line-name left cs rest fits clean.1) refl

hex_facts :
    (d : ℕ)
    → d < 16
    → (is_space (hex_digit d) ≡ false)
      × ((hex_digit d == 45) ≡ false)
      × ((hex_digit d == 43) ≡ false)
      × ((hex_digit d == 120 || hex_digit d == 88) ≡ false)
unfolding hex_digit
hex_facts d h = (ground (arith, h), ground (arith, h), ground (arith, h), ground (arith, h))

hex_value-digit : (d : ℕ) → d < 16 → hex_value (hex_digit d) ≡ some d
unfolding hex_digit hex_value
hex_value-digit d h = ground (arith, h)

scan_hex_digit :
    (left value count d : ℕ) (rest : List ℕ)
    → d < 16
    → scan_hex_digits (suc left) value count (hex_digit d ∷ rest)
      ≡ scan_hex_digits left (value * 16 + d) (count + 1) rest
unfolding scan_hex_digits
scan_hex_digit left value count d rest h = rw (hex_value-digit d h, scan_hex_digits) refl

hex_prefix :
    (a b : ℕ) (rest : List ℕ)
    → b < 16
    → scan_prefix (hex_digit a ∷ hex_digit b ∷ rest) ≡ (0, hex_digit a ∷ hex_digit b ∷ rest)
unfolding scan_prefix
hex_prefix a b rest h = let (space, minus, plus, no_x) = hex_facts b h in ground (arith, no_x)

hex_sign :
    (a : ℕ) (rest : List ℕ)
    → a < 16
    → (trim_front (hex_digit a ∷ rest) ≡ hex_digit a ∷ rest)
      × (scan_sign (hex_digit a ∷ rest) ≡ (false, hex_digit a ∷ rest))
unfolding trim_front scan_sign
hex_sign a rest h =
    let (space, minus, plus, no_x) = hex_facts a h in (rw space refl, rw (minus, plus) refl)

scan_hex_end :
    (value count n : ℕ) (rest : List ℕ)
    → value ≡ n
    → scan_hex_digits 0 value count rest ≡ (n, count)
unfolding scan_hex_digits
scan_hex_end value count n rest e = rw e refl

eight_digits :
    (n : ℕ) (rest : List ℕ) → n < 2 ^ 32 → scan_hex_digits 8 0 0 (print_hex n ++ rest) ≡ (n, 8)
unfolding print_hex
eight_digits n rest h =
    scan_hex_digit 7 0 0 (n / 0x10000000 % 16) _ (omega arith)
    ∙ scan_hex_digit 6 _ _ (n / 0x1000000 % 16) _ (omega arith)
    ∙ scan_hex_digit 5 _ _ (n / 0x100000 % 16) _ (omega arith)
    ∙ scan_hex_digit 4 _ _ (n / 0x10000 % 16) _ (omega arith)
    ∙ scan_hex_digit 3 _ _ (n / 0x1000 % 16) _ (omega arith)
    ∙ scan_hex_digit 2 _ _ (n / 0x100 % 16) _ (omega arith)
    ∙ scan_hex_digit 1 _ _ (n / 0x10 % 16) _ (omega arith)
    ∙ scan_hex_digit 0 _ _ (n % 16) _ (omega arith)
    ∙ scan_hex_end _ _ n rest (omega (arith, h))

scan_hex_start :
    (a b v c : ℕ) (rest : List ℕ)
    → a < 16
    → b < 16
    → scan_hex_digits 8 0 0 (hex_digit a ∷ hex_digit b ∷ rest) ≡ (v, suc c)
    → scan_hex (hex_digit a ∷ hex_digit b ∷ rest) ≡ some v
unfolding scan_hex
scan_hex_start a b v c rest ha hb scanned =
    let (kept, unsigned) = hex_sign a (hex_digit b ∷ rest) ha in
    let width : 8
          - (length (hex_digit a ∷ hex_digit b ∷ rest) - length (hex_digit a ∷ hex_digit b ∷ rest))
          - 0
        ≡ 8 =
      omega arith in
    let counted : (suc c == 0) ≡ false = ground arith in
    rw (kept, unsigned, hex_prefix a b rest hb, width, scanned, counted) refl

scan_hex-print_hex : (n : ℕ) (rest : List ℕ) → n < 2 ^ 32 → scan_hex (print_hex n ++ rest) ≡ some n
unfolding print_hex
scan_hex-print_hex n rest h =
    scan_hex_start (n / 0x10000000 % 16) (n / 0x1000000 % 16) n 7 _ (omega arith) (omega arith)
      (eight_digits n rest h)

-- A cursor whose name fits the format, and whose numbers fit their types.
pub record IsWritable (cursor : Cursor) : Type 0 where
  pub named : 0 < length cursor.file_name
  pub short : length cursor.file_name ≤ 255
  pub one_line : All (λ c. (c == 10) ≡ false) cursor.file_name
  pub sequence_fits : cursor.sequence < 2 ^ 32
  pub offset_fits : cursor.byte_offset < 2 ^ 63
  pub bytes_fit : cursor.line_bytes < 2 ^ 63
  pub checksum_fits : cursor.line_checksum < 2 ^ 32

scan_name-name :
    (name rest : List ℕ)
    → 0 < length name
    → length name ≤ 255
    → All (λ c. (c == 10) ≡ false) name
    → scan_name (codes "file=" ++ (name ++ (10 ∷ rest))) ≡ some (name, 10 ∷ rest)
unfolding scan_name scan_literal
scan_name-name name rest named short clean =
    let some_name : (length name == 0) ≡ false = ground (arith, named) in
    rw (take_line-name 255 name rest short clean, some_name) refl

scan_cursor_steps :
    (text name t1 t2 t3 t4 rest : List ℕ) (number offset bytes : Bool × ℕ) (checksum : ℕ)
    → scan_name text ≡ some (name, t1)
    → scan_field (codes "\nsequence=") t1 ≡ some (number, t2)
    → scan_field (codes "\nbyte_offset=") t2 ≡ some (offset, t3)
    → scan_field (codes "\nline_bytes=") t3 ≡ some (bytes, t4)
    → scan_literal (codes "\nline_checksum=") t4 ≡ some rest
    → scan_hex rest ≡ some checksum
    → scan_cursor text
      ≡ some (record {
        name = name;
        number = number;
        offset = offset;
        bytes = bytes;
        checksum = checksum;
      })
unfolding scan_cursor
scan_cursor_steps text name t1 t2 t3 t4 rest number offset bytes checksum e1 e2 e3 e4 e5 e6 =
    rw (e1, e2, e3, e4, e5, e6) refl

sequence_field :
    (n : ℕ) (rest : List ℕ)
    → n < 2 ^ 32
    → scan_field (codes "\nsequence=") (codes "\nsequence=" ++ (decimal 10 n ++ (10 ∷ rest)))
      ≡ some ((false, n), 10 ∷ rest)
unfolding scan_field scan_literal trim_front
sequence_field n rest h = scan_number-decimal 9 n rest (omega (arith, h))

offset_field :
    (n : ℕ) (rest : List ℕ)
    → n < 2 ^ 63
    → scan_field (codes "\nbyte_offset=") (codes "\nbyte_offset=" ++ (decimal 19 n ++ (10 ∷ rest)))
      ≡ some ((false, n), 10 ∷ rest)
unfolding scan_field scan_literal trim_front
offset_field n rest h = scan_number-decimal 18 n rest (omega (arith, h))

bytes_field :
    (n : ℕ) (rest : List ℕ)
    → n < 2 ^ 63
    → scan_field (codes "\nline_bytes=") (codes "\nline_bytes=" ++ (decimal 19 n ++ (10 ∷ rest)))
      ≡ some ((false, n), 10 ∷ rest)
unfolding scan_field scan_literal trim_front
bytes_field n rest h = scan_number-decimal 18 n rest (omega (arith, h))

checksum_label :
    (rest : List ℕ)
    → scan_literal (codes "\nline_checksum=") (codes "\nline_checksum=" ++ rest) ≡ some rest
unfolding scan_literal trim_front
checksum_label rest = refl

pub scan_cursor-cursor_text :
    (cursor : Cursor)
    → IsWritable cursor
    → scan_cursor (cursor_text cursor)
      ≡ some (record {
        name = cursor.file_name;
        number = (false, cursor.sequence);
        offset = (false, cursor.byte_offset);
        bytes = (false, cursor.line_bytes);
        checksum = cursor.line_checksum;
      })
unfolding cursor_text
scan_cursor-cursor_text cursor w =
    scan_cursor_steps _ _ _ _ _ _ _ _ _ _ _
      (scan_name-name cursor.file_name _ w.named w.short w.one_line)
      (sequence_field cursor.sequence _ w.sequence_fits)
      (offset_field cursor.byte_offset _ w.offset_fits)
      (bytes_field cursor.line_bytes _ w.bytes_fit) (checksum_label _)
      (scan_hex-print_hex cursor.line_checksum (codes "\n") w.checksum_fits)
