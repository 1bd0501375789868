-- ===== src/Config/Text.antt =====
-- What the parser of the configuration makes of texts without spaces at their ends, of keys, and
-- of numbers.
use okmx8mm.Base.{ℕ, suc, ◌+◌, ◌-◌, ◌*◌, ◌^◌, ◌≤◌, ◌<◌, ◌≡◌, refl, arith, ap, ◌∙◌}
use okmx8mm.Base.{List, [], ◌∷◌, ◌++◌, Bool, true, false, ◌&&◌, ◌||◌, some, ◌==◌}
use okmx8mm.Base.{length, ltb, leb, ℤ, pos, minus}
use okmx8mm.Config.{
  is_space, is_digit, trim_front, trim_end, cons_unless_space, trim, same, read_digits,
}
use okmx8mm.Config.{read_sign, strtol, parse_int, split}

-- A text whose first and last bytes are no spaces.
abbrev pub IsTrimmed : List ℕ → Type 0
IsTrimmed text = (trim_front text ≡ text) × (trim_end text ≡ text)

pub trim-IsTrimmed : (text : List ℕ) → IsTrimmed text → trim text ≡ text
trim-IsTrimmed text h = rw (h.0, h.1) refl

pub cons_kept : (c : ℕ) (cs : List ℕ) → is_space c ≡ false → cons_unless_space c cs ≡ c ∷ cs
cons_kept c [] h = rw h refl
cons_kept c (d ∷ ds) h = refl

cons_before :
    (x : ℕ) (xs : List ℕ) (c : ℕ) (ys : List ℕ)
    → cons_unless_space x (xs ++ (c ∷ ys)) ≡ x ∷ (xs ++ (c ∷ ys))
cons_before x [] c ys = refl
cons_before x (d ∷ ds) c ys = refl

-- Spaces at the end go, up to the last byte that is none.
pub trim_end-append :
    (xs : List ℕ) (c : ℕ) (ys : List ℕ)
    → is_space c ≡ false
    → trim_end (xs ++ (c ∷ ys)) ≡ xs ++ (c ∷ trim_end ys)
unfolding trim_end
trim_end-append [] c ys h = cons_kept c (trim_end ys) h
trim_end-append (x ∷ xs) c ys h =
    ap (cons_unless_space x) (trim_end-append xs c ys h) ∙ cons_before x xs c (trim_end ys)

pub trim_end-space :
    (xs : List ℕ) (c : ℕ) → is_space c ≡ true → trim_end (xs ++ (c ∷ [])) ≡ trim_end xs
unfolding trim_end
trim_end-space [] c h = rw h refl
trim_end-space (x ∷ xs) c h = ap (cons_unless_space x) (trim_end-space xs c h)

-- The bytes of keys: small letters, digits and `_`.
abbrev pub is_word : ℕ → Bool
is_word c = (leb 97 c && leb c 122) || is_digit c || c == 95

abbrev pub all_word : List ℕ → Bool
all_word [] = true
all_word (c ∷ cs) = is_word c && all_word cs

word_parts :
    (c : ℕ) (cs : List ℕ) → all_word (c ∷ cs) ≡ true → (is_space c ≡ false) × (all_word cs ≡ true)
word_parts c cs h = ground arith

pub all_word-IsTrimmed : (text : List ℕ) → all_word text ≡ true → IsTrimmed text
unfolding trim_front trim_end
all_word-IsTrimmed [] h = (refl, refl)
all_word-IsTrimmed (c ∷ cs) h =
    let (no_space, words) = word_parts c cs h in
    (
      rw no_space refl,
      ap (cons_unless_space c) (all_word-IsTrimmed cs words).1 ∙ cons_kept c cs no_space,
    )

pub split-word :
    (key value : List ℕ) → all_word key ≡ true → split (key ++ (61 ∷ value)) ≡ some (key, value)
unfolding split
split-word [] value h = refl
split-word (c ∷ cs) value h =
    let (other, words) : ((c == 61) ≡ false) × (all_word cs ≡ true) = ground arith in
    rw (other, split-word cs value words) refl

pub same_sound : (xs ys : List ℕ) → same xs ys ≡ true → xs ≡ ys
same_sound [] [] h = refl
same_sound [] (d ∷ ds) h = absurd (ground (arith, h))
same_sound (c ∷ cs) [] h = absurd (ground (arith, h))
same_sound (c ∷ cs) (d ∷ ds) h =
    let (first, rest) : (c ≡ d) × (same cs ds ≡ true) = ground arith in
    rw first (ap (λ t. d ∷ t) (same_sound cs ds rest))

pub same_refl : (xs : List ℕ) → same xs xs ≡ true
same_refl [] = refl
same_refl (x ∷ xs) = ground (arith, same_refl xs)

-- The value of digits, after that of the digits in front of them.
abbrev pub value_of : ℕ → List ℕ → ℕ
value_of value [] = value
value_of value (d ∷ ds) = value_of (value * 10 + d) ds

abbrev pub digits : List ℕ → List ℕ
digits [] = []
digits (d ∷ ds) = (48 + d) ∷ digits ds

abbrev pub AllDigit : List ℕ → Type 0
AllDigit [] = Unit
AllDigit (d ∷ ds) = (d < 10) × AllDigit ds

pub read_digits-digits :
    (value count : ℕ) (ds : List ℕ)
    → AllDigit ds
    → read_digits value count (digits ds) ≡ (value_of value ds, count + length ds, [])
unfolding read_digits
read_digits-digits value count [] h = ground arith
read_digits-digits value count (d ∷ ds) h =
    let small : d < 10 = h.0 in
    let digit : is_digit (48 + d) ≡ true = ground (arith, small) in
    let own : 48 + d - 48 ≡ d = omega arith in
    let sum : count + 1 + length ds ≡ count + suc (length ds) = omega arith in
    rw (digit, own, read_digits-digits (value * 10 + d) (count + 1) ds h.1, sum) refl

-- A number in decimal digits, with a minus or without.
abbrev pub int_text : Bool → List ℕ → List ℕ
int_text true ds = 45 ∷ digits ds
int_text false ds = digits ds

abbrev pub int_of : Bool → List ℕ → ℤ
int_of true ds = minus (value_of 0 ds)
int_of false ds = pos (value_of 0 ds)

-- There is a digit, and the number fits into an `int`.
abbrev pub IsInt : Bool → List ℕ → Type 0
IsInt true ds = AllDigit ds × (0 < length ds) × (value_of 0 ds ≤ 2 ^ 31)
IsInt false ds = AllDigit ds × (0 < length ds) × (value_of 0 ds < 2 ^ 31)

first_digit :
    (d : ℕ)
    → d < 10
    → (is_space (48 + d) ≡ false) × ((48 + d == 45) ≡ false) × ((48 + d == 43) ≡ false)
first_digit d h = (ground arith, ground arith, ground arith)

pub parse_int-digits :
    (negative : Bool) (ds : List ℕ)
    → IsInt negative ds
    → parse_int (int_text negative ds) ≡ some (int_of negative ds)
unfolding parse_int strtol read_sign trim_front trim_end
parse_int-digits true [] h = absurd (omega arith)
parse_int-digits true (d ∷ ds) h =
    let v = value_of 0 (d ∷ ds) in
    let some_digit : (0 + length (d ∷ ds) == 0) ≡ false = ground arith in
    let long : ltb v (2 ^ 63 + 1) ≡ true = ground (arith, h.2) in
    let fits : ltb (2 ^ 31) v ≡ false = ground (arith, h.2) in
    rw (parse_int, strtol, read_digits-digits 0 0 (d ∷ ds) h.0, some_digit, long, fits) refl
parse_int-digits false [] h = absurd (omega arith)
parse_int-digits false (d ∷ ds) h =
    let v = value_of 0 (d ∷ ds) in
    let (no_space, no_minus, no_plus) = first_digit d h.0.0 in
    let some_digit : (0 + length (d ∷ ds) == 0) ≡ false = ground arith in
    let long : ltb v (2 ^ 63) ≡ true = ground (arith, h.2) in
    let fits : leb (2 ^ 31) v ≡ false = ground (arith, h.2) in
    rw
      (
        parse_int,
        strtol,
        no_space,
        no_minus,
        no_plus,
        read_digits-digits 0 0 (d ∷ ds) h.0,
        some_digit,
        long,
        fits,
      )
      refl
