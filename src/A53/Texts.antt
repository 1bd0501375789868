-- ===== src/A53/Texts.antt =====
-- The texts of the storage and its cursor have no zero bytes, and how long they are.
use okmx8mm.Base.{ℕ, zero, suc, ◌+◌, ◌/◌, ◌%◌, ◌≤◌, ◌≡◌, refl, arith}
use okmx8mm.Base.{List, [], ◌∷◌, ◌++◌, Bool, true, false, ◌&&◌, Bool-cases, inl, inr}
use okmx8mm.Base.{length, ltb, ◌==◌, codes}
use okmx8mm.Base.{decimal, length-decimal, length-append, All, All-append}
use okmx8mm.A53.Cursor.{Cursor, hex_digit, print_hex, cursor_text}
use okmx8mm.A53.Append.{}
use okmx8mm.A53.Check.{until_zero}

abbrev pub NoZero : List ℕ → Type 0
NoZero text = All (λ c. (c == 0) ≡ false) text

pub NoZero-append : (xs ys : List ℕ) → NoZero xs → NoZero ys → NoZero (xs ++ ys)
NoZero-append xs ys h k = All-append (λ c. (c == 0) ≡ false) xs ys h k

pub until_zero-append : (xs ys : List ℕ) → NoZero xs → until_zero (xs ++ ys) ≡ xs ++ until_zero ys
unfolding until_zero
until_zero-append [] ys h = refl
until_zero-append (x ∷ xs) ys h = rw (h.0, until_zero-append xs ys h.1) refl

pub until_zero-whole : (text : List ℕ) → NoZero text → until_zero text ≡ text
unfolding until_zero
until_zero-whole [] h = refl
until_zero-whole (x ∷ xs) h = rw (h.0, until_zero-whole xs h.1) refl

pub decimal-NoZero : (places n : ℕ) → NoZero (decimal places n)
unfolding decimal
decimal-NoZero zero n = tt
decimal-NoZero (suc places) n = elim (Bool-cases (ltb n 10)) [
  | inl small ↦ rw small (ground arith, tt)
  | inr large ↦ rw large (
      NoZero-append (decimal places (n / 10)) ((48 + n % 10) ∷ []) (decimal-NoZero places (n / 10))
        (ground arith, tt))
]

hex_digit-ne : (d : ℕ) → (hex_digit d == 0) ≡ false
unfolding hex_digit
hex_digit-ne d = ground arith

print_hex-NoZero : (n : ℕ) → NoZero (print_hex n)
unfolding print_hex
print_hex-NoZero n =
    let first = hex_digit-ne in
    (
      first (n / 0x10000000 % 16),
      (
        first (n / 0x1000000 % 16),
        (first (n / 0x100000 % 16), (first (n / 0x10000 % 16), lower n)),
      ),
    )
  where
    lower :
        (n : ℕ)
        → NoZero (
            hex_digit (n / 0x1000 % 16)
            ∷ hex_digit (n / 0x100 % 16)
            ∷ hex_digit (n / 0x10 % 16)
            ∷ hex_digit (n % 16)
            ∷ [])
    lower n = (
      hex_digit-ne (n / 0x1000 % 16),
      (hex_digit-ne (n / 0x100 % 16), (hex_digit-ne (n / 0x10 % 16), (hex_digit-ne (n % 16), tt))),
    )

-- A text that is known byte by byte.
abbrev pub clean : List ℕ → Bool
clean [] = true
clean (c ∷ cs) = ltb 0 c && clean cs

pub clean-NoZero : (text : List ℕ) → clean text ≡ true → NoZero text
clean-NoZero [] h = tt
clean-NoZero (c ∷ cs) h = (ground (arith, h), clean-NoZero cs (ground (arith, h)))

after_label :
    (label : List ℕ) (rest : List ℕ) → clean label ≡ true → NoZero rest → NoZero (label ++ rest)
after_label label rest h k = NoZero-append label rest (clean-NoZero label h) k

after_decimal : (places n : ℕ) (rest : List ℕ) → NoZero rest → NoZero (decimal places n ++ rest)
after_decimal places n rest k = NoZero-append (decimal places n) rest (decimal-NoZero places n) k

pub cursor_text-NoZero : (cursor : Cursor) → NoZero cursor.file_name → NoZero (cursor_text cursor)
unfolding cursor_text
cursor_text-NoZero cursor named = after_label (codes "file=") _ refl (
    NoZero-append cursor.file_name _ named (
      after_label (codes "\nsequence=") _ refl (
        after_decimal 10 cursor.sequence _ (
          after_label (codes "\nbyte_offset=") _ refl (
            after_decimal 19 cursor.byte_offset _ (
              after_label (codes "\nline_bytes=") _ refl (
                after_decimal 19 cursor.line_bytes _ (
                  after_label (codes "\nline_checksum=") _ refl (
                    NoZero-append (print_hex cursor.line_checksum) (codes "\n")
                      (print_hex-NoZero cursor.line_checksum) (refl, tt))))))))))

-- The length of a text in front of another.
pub label_length :
    (label rest : List ℕ) (n m : ℕ)
    → length label ≡ n
    → length rest ≤ m
    → length (label ++ rest) ≤ n + m
label_length label rest n m h k = omega (arith, h, k, length-append label rest)

pub number_length :
    (places n m : ℕ) (rest : List ℕ)
    → length rest ≤ m
    → length (decimal places n ++ rest) ≤ places + m
number_length places n m rest k =
    omega (arith, k, length-append (decimal places n) rest, length-decimal places n)

pub length-cursor_text :
    (cursor : Cursor) → length cursor.file_name ≤ 255 → length (cursor_text cursor) ≤ 511
unfolding cursor_text print_hex
length-cursor_text cursor short =
    let checksum = print_hex cursor.line_checksum ++ codes "\n" in
    let fields : length (
          codes "\nsequence="
          ++ (decimal 10 cursor.sequence
              ++ (codes "\nbyte_offset="
                  ++ (decimal 19 cursor.byte_offset
                      ++ (codes "\nline_bytes="
                          ++ (decimal 19 cursor.line_bytes
                              ++ (codes "\nline_checksum=" ++ checksum)))))))
        ≤ 10 + (10 + (13 + (19 + (12 + (19 + (15 + 9)))))) =
      label_length (codes "\nsequence=") _ 10 _ refl (
        number_length 10 cursor.sequence _ _ (
          label_length (codes "\nbyte_offset=") _ 13 _ refl (
            number_length 19 cursor.byte_offset _ _ (
              label_length (codes "\nline_bytes=") _ 12 _ refl (
                number_length 19 cursor.line_bytes _ _
                  (label_length (codes "\nline_checksum=") checksum 15 9 refl (omega arith))))))) in
    omega (arith, short, fields, length-append cursor.file_name _)
