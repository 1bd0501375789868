-- ===== src/Config/Line.antt =====
-- A setting as a line of the file, and what the parser makes of it.
use okmx8mm.Base.{ℕ, suc, ◌+◌, ◌<◌, ◌≡◌, refl, arith, ap, ◌∙◌, sym, inl, inr}
use okmx8mm.Base.{List, [], ◌∷◌, ◌++◌, Bool, true, false, ◌&&◌, some, ◌==◌, leb, ltb}
use okmx8mm.Base.{length, length-append, Bool-cases, pos, codes, subst}
use okmx8mm.Config.{
  is_space, trim_front, trim_end, same, cons_unless_space, Config, put, Kind, string, int, bool,
}
use okmx8mm.Config.{kind_in, kind_of, table, copy_value, parse_bool, apply_value, apply_line}
use okmx8mm.Config.Text.{IsTrimmed, trim-IsTrimmed, trim_end-append, trim_end-space, all_word}
use okmx8mm.Config.Text.{all_word-IsTrimmed, split-word, same_sound, int_text, int_of, IsInt}
use okmx8mm.Config.Text.{cons_kept, digits, AllDigit, parse_int-digits}

pub data Setting : Type 0 where
  text : List ℕ → List ℕ → Setting
  number : List ℕ → Bool → List ℕ → Setting
  flag : List ℕ → Bool → Setting

abbrev pub key_of : Setting → List ℕ
key_of (text key value) = key
key_of (number key negative ds) = key
key_of (flag key on) = key

abbrev pub written : Setting → List ℕ
written (text key value) = value
written (number key negative ds) = int_text negative ds
written (flag key true) = codes "true"
written (flag key false) = codes "false"

abbrev pub line_of : Setting → List ℕ
line_of s = key_of s ++ (61 ∷ (written s ++ (10 ∷ [])))

-- What the setting is to do.
abbrev pub assign : Config → Setting → Config
assign config (text key value) = record config { texts = put config.texts key value }
assign config (number key negative ds) = record config {
  numbers = put config.numbers key (int_of negative ds);
}
assign config (flag key true) = record config { numbers = put config.numbers key (pos 1) }
assign config (flag key false) = record config { numbers = put config.numbers key (pos 0) }

abbrev pub NoNewline : List ℕ → Type 0
NoNewline [] = Unit
NoNewline (c ∷ cs) = ((c == 10) ≡ false) × NoNewline cs

-- The key is one of its kind, and the value can be written.
abbrev pub IsSetting : Setting → Type 0
IsSetting (text key value) =
    (kind_of key ≡ some string) × (length value < 128) × IsTrimmed value × NoNewline value
IsSetting (number key negative ds) =
    (kind_of key ≡ some int) × (length ds < 127) × IsInt negative ds
IsSetting (flag key on) = kind_of key ≡ some bool

abbrev good_key : List ℕ → Bool
good_key [] = false
good_key (c ∷ cs) = all_word (c ∷ cs) && ltb (length (c ∷ cs)) 32

abbrev good_keys : List (List ℕ × Kind) → Bool
good_keys [] = true
good_keys (entry ∷ entries) = good_key entry.0 && good_keys entries

table-good : good_keys table ≡ true
table-good = refl

good_key_in :
    (entries : List (List ℕ × Kind)) (key : List ℕ) (kind : Kind)
    → good_keys entries ≡ true
    → kind_in entries key ≡ some kind
    → good_key key ≡ true
good_key_in [] key kind h e = absurd (ground (arith, e))
good_key_in (entry ∷ entries) key kind h e =
    let (first, rest) : (good_key entry.0 ≡ true) × (good_keys entries ≡ true) = ground arith in
    elim (Bool-cases (same key entry.0)) [
      | inl equal ↦ subst (λ k. good_key k ≡ true) (sym (same_sound key entry.0 equal)) first
      | inr other ↦
          let skipped : kind_in (entry ∷ entries) key ≡ kind_in entries key = rw other refl in
          good_key_in entries key kind rest (sym skipped ∙ e)
    ]

-- A key of the table is a short word.
pub key_is_word :
    (key : List ℕ) (kind : Kind)
    → kind_of key ≡ some kind
    → (all_word key ≡ true) × (0 < length key) × (length key < 32)
unfolding kind_of
key_is_word [] kind e = absurd (ground (arith, good_key_in table [] kind table-good e))
key_is_word (c ∷ cs) kind e = ground (arith, good_key_in table (c ∷ cs) kind table-good e)

-- A line with a word, `=` and a value.
pub apply_line-parts :
    (config : Config) (key value : List ℕ)
    → all_word key ≡ true
    → 0 < length key
    → length key < 32
    → length value < 128
    → IsTrimmed value
    → apply_line true config (key ++ (61 ∷ (value ++ (10 ∷ [])))) ≡ apply_value config key value
unfolding apply_line
apply_line-parts config [] value word some_key short_key short h = absurd (omega arith)
apply_line-parts config (c ∷ cs) value word some_key short_key short h =
    let key = c ∷ cs in
    let line = key ++ (61 ∷ (value ++ (10 ∷ []))) in
    let fits : leb 256 (length line) ≡ false =
      ground
        (arith, length-append key (61 ∷ (value ++ (10 ∷ []))), length-append value (10 ∷ [])) in
    let (no_space, no_comment) : (is_space c ≡ false) × ((c == 35) ≡ false) =
      ground (arith, word) in
    let front : trim_front line ≡ line = unfold trim_front in rw no_space refl in
    let end : trim_end line ≡ key ++ (61 ∷ value) =
      trim_end-append key 61 (value ++ (10 ∷ [])) refl
      ∙ ap (λ t. key ++ (61 ∷ t)) (trim_end-space value 10 refl ∙ h.1) in
    rw
      (
        apply_line,
        fits,
        front,
        end,
        no_comment,
        split-word key value word,
        trim-IsTrimmed key (all_word-IsTrimmed key word),
        trim-IsTrimmed value h,
      )
      refl

length-digits : (ds : List ℕ) → length (digits ds) ≡ length ds
length-digits [] = refl
length-digits (d ∷ ds) = ap suc (length-digits ds)

no_space_at : (d : ℕ) → d < 10 → (is_space (48 + d) ≡ false) × ((48 + d == 10) ≡ false)
no_space_at d h = (ground arith, ground arith)

digits-IsTrimmed : (ds : List ℕ) → AllDigit ds → IsTrimmed (digits ds) × NoNewline (digits ds)
unfolding trim_front trim_end
digits-IsTrimmed [] h = ((refl, refl), tt)
digits-IsTrimmed (d ∷ ds) h =
    let ((front, end), none_in) = digits-IsTrimmed ds h.1 in
    (
      (
        rw (no_space_at d h.0).0 refl,
        ap (cons_unless_space (48 + d)) end ∙ cons_kept (48 + d) (digits ds) (no_space_at d h.0).0,
      ),
      ((no_space_at d h.0).1, none_in),
    )

pub written-IsTrimmed :
    (s : Setting)
    → IsSetting s
    → IsTrimmed (written s) × NoNewline (written s) × (length (written s) < 128)
unfolding trim_front trim_end
written-IsTrimmed (text key value) h = (h.2, h.3, h.1)
written-IsTrimmed (number key true ds) h =
    let ((front, end), none_in) = digits-IsTrimmed ds h.2.0 in
    (
      (refl, ap (cons_unless_space 45) end ∙ cons_kept 45 (digits ds) refl),
      (refl, none_in),
      omega (arith, length-digits ds, h.1),
    )
written-IsTrimmed (number key false ds) h =
    let (trimmed, none_in) = digits-IsTrimmed ds h.2.0 in
    (trimmed, none_in, omega (arith, length-digits ds, h.1))
written-IsTrimmed (flag key true) h =
    ((refl, refl), (refl, (refl, (refl, (refl, tt)))), omega arith)
written-IsTrimmed (flag key false) h =
    ((refl, refl), (refl, (refl, (refl, (refl, (refl, tt))))), omega arith)

apply_value-setting :
    (config : Config) (s : Setting)
    → IsSetting s
    → apply_value config (key_of s) (written s) ≡ (pos 0, assign config s)
unfolding apply_value copy_value parse_bool
apply_value-setting config (text key value) h =
    let fits : leb 128 (length value) ≡ false = ground (arith, h.1) in
    rw (apply_value, h.0, copy_value, fits) refl
apply_value-setting config (number key negative ds) h =
    rw (apply_value, h.0, parse_int-digits negative ds h.2) refl
apply_value-setting config (flag key true) h = rw (apply_value, h) refl
apply_value-setting config (flag key false) h = rw (apply_value, h) refl

pub kind_of_setting : (s : Setting) → IsSetting s → (kind : Kind) × (kind_of (key_of s) ≡ some kind)
kind_of_setting (text key value) h = (string, h.0)
kind_of_setting (number key negative ds) h = (int, h.0)
kind_of_setting (flag key on) h = (bool, h)

-- The line of a setting sets its member, and no other.
pub apply_line-setting :
    (config : Config) (s : Setting)
    → IsSetting s
    → apply_line true config (line_of s) ≡ (pos 0, assign config s)
apply_line-setting config s h =
    let (kind, known) = kind_of_setting s h in
    let (word, some_key, short_key) = key_is_word (key_of s) kind known in
    let (trimmed, none_in, short) = written-IsTrimmed s h in
    apply_line-parts config (key_of s) (written s) word some_key short_key short trimmed
    ∙ apply_value-setting config s h
