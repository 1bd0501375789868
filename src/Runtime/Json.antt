-- ===== src/Runtime/Json.antt =====
-- The strings of the status file: `write_json_string` in
-- OKMX8MM-Demo3/data-collector-demo3/src/runtime/demo3_runtime_status.c. A text is the list of
-- its bytes, which are not zero.
use okmx8mm.Base.{ℕ, ◌≡◌, refl, sym, ap, ◌∙◌, arith, List, [], ◌∷◌, ◌++◌, map}
use okmx8mm.Base.{
  Bool, true, false, ◌||◌, append_assoc, append-snoc, Option, none, some, ltb, ◌==◌, if◌then◌else◌,
}

-- The branches for one byte.
unfoldable pub escape_byte : ℕ → List ℕ
escape_byte c =
    if c == 92 || c == 34
    then 92 ∷ c ∷ []
    else if c == 10
    then 92 ∷ 110 ∷ []
    else if c == 13
    then 92 ∷ 114 ∷ []
    else if c == 9
    then 92 ∷ 116 ∷ []
    else if ltb c 0x20
    then 63 ∷ []
    else c ∷ []

-- The loop over the bytes.
unfoldable pub escape : List ℕ → List ℕ
escape [] = []
escape (c ∷ cs) = escape_byte c ++ escape cs

-- `none` is the null pointer.
unfoldable pub write_json_string : Option (List ℕ) → List ℕ
write_json_string none = 34 ∷ 34 ∷ []
write_json_string (some text) = 34 ∷ (escape text ++ (34 ∷ []))

-- A reader of JSON strings, behind the opening quote: the text, and what follows the closing
-- quote. The Boolean says that a backslash has been read; a control byte is refused.
abbrev pub unescaped : ℕ → ℕ
unescaped c = if c == 110 then 10 else if c == 114 then 13 else if c == 116 then 9 else c

abbrev pub push : ℕ → Option (List ℕ × List ℕ) → Option (List ℕ × List ℕ)
push c none = none
push c (some (text, rest)) = some (c ∷ text, rest)

abbrev pub read_string : Bool → List ℕ → Option (List ℕ × List ℕ)
read_string escaped [] = none
read_string true (c ∷ cs) = push (unescaped c) (read_string false cs)
read_string false (c ∷ cs) =
    let plain = read_string false cs in
    let special = read_string true cs in
    if c == 34
    then some ([], cs)
    else if c == 92
    then special
    else if ltb c 0x20
    then none
    else push c plain

-- The byte that a reader sees: a question mark for the control bytes without an escape.
abbrev pub shown : ℕ → ℕ
shown c = if (c == 10 || c == 13 || c == 9) then c else if ltb c 0x20 then 63 else c

read-escape_byte :
    (c : ℕ) (rest : List ℕ)
    → read_string false (escape_byte c ++ rest) ≡ push (shown c) (read_string false rest)
unfolding escape_byte
read-escape_byte c rest = ground arith

read-escape :
    (text tail : List ℕ)
    → read_string false (escape text ++ (34 ∷ tail)) ≡ some (map shown text, tail)
unfolding escape
read-escape [] tail = refl
read-escape (c ∷ cs) tail =
    ap (read_string false) (append_assoc (escape_byte c) (escape cs) (34 ∷ tail))
    ∙ read-escape_byte c (escape cs ++ (34 ∷ tail))
    ∙ ap (push (shown c)) (read-escape cs tail)

-- The reader of a whole string.
abbrev pub read_json : List ℕ → Option (List ℕ × List ℕ)
read_json [] = none
read_json (c ∷ cs) = if c == 34 then read_string false cs else none

-- What the writer puts in the file is a JSON string of the text: a reader reads the text, with a
-- question mark for each control byte that has no escape, and stops behind the closing quote,
-- whatever follows.
pub read-write_json_string :
    (text tail : List ℕ)
    → read_json (write_json_string (some text) ++ tail) ≡ some (map shown text, tail)
unfolding write_json_string
read-write_json_string text tail =
    ap (read_string false) (sym (append-snoc (escape text) tail 34)) ∙ read-escape text tail
