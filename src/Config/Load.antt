-- ===== src/Config/Load.antt =====
-- A whole configuration file.
use okmx8mm.Base.{ℕ, zero, suc, ◌+◌, ◌≤◌, ◌≡◌, refl, arith, ap, ◌∙◌, sym, length, All}
use okmx8mm.Base.{List, [], ◌∷◌, ◌++◌, true, false, ◌==◌, some, pos, minus, append_assoc}
use okmx8mm.Base.{length-append, append-nil}
use okmx8mm.Config.{Config, apply_line}
use okmx8mm.Config.Reading.{fgets_lines, load_lines, load}
use okmx8mm.Config.Text.{all_word}
use okmx8mm.Config.Line.{
  Setting, IsSetting, line_of, assign, key_of, written, NoNewline, key_is_word,
}
use okmx8mm.Config.Line.{written-IsTrimmed, kind_of_setting, apply_line-setting}

fgets_lines-line :
    (left : ℕ) (line rest : List ℕ)
    → NoNewline line
    → length line ≤ left
    → fgets_lines left (line ++ (10 ∷ rest)) ≡ (line ++ (10 ∷ [])) ∷ fgets_lines 254 rest
unfolding fgets_lines
fgets_lines-line zero [] rest h short = refl
fgets_lines-line (suc left) [] rest h short = refl
fgets_lines-line zero (c ∷ cs) rest h short = absurd (omega arith)
fgets_lines-line (suc left) (c ∷ cs) rest h short =
    rw (h.0, fgets_lines-line left cs rest h.1 (omega arith)) refl

NoNewline-append : (xs ys : List ℕ) → NoNewline xs → NoNewline ys → NoNewline (xs ++ ys)
NoNewline-append [] ys h k = k
NoNewline-append (x ∷ xs) ys h k = (h.0, NoNewline-append xs ys h.1 k)

all_word-NoNewline : (key : List ℕ) → all_word key ≡ true → NoNewline key
all_word-NoNewline [] h = tt
all_word-NoNewline (c ∷ cs) h =
    let (other, words) : ((c == 10) ≡ false) × (all_word cs ≡ true) = ground (arith, h) in
    (other, all_word-NoNewline cs words)

-- The file with these settings, line by line.
abbrev pub file : List Setting → List ℕ
file [] = []
file (s ∷ ss) = line_of s ++ file ss

abbrev pub assign_all : Config → List Setting → Config
assign_all config [] = config
assign_all config (s ∷ ss) = assign_all (assign config s) ss

fgets_lines-setting :
    (s : Setting) (rest : List ℕ)
    → IsSetting s
    → fgets_lines 254 (line_of s ++ rest) ≡ line_of s ∷ fgets_lines 254 rest
fgets_lines-setting s rest h =
    let (kind, known) = kind_of_setting s h in
    let (word, some_key, short_key) = key_is_word (key_of s) kind known in
    let (trimmed, none_in, short) = written-IsTrimmed s h in
    let line = key_of s ++ (61 ∷ written s) in
    let whole : line_of s ≡ line ++ (10 ∷ []) =
      sym (append_assoc (key_of s) (61 ∷ written s) (10 ∷ [])) in
    let clean =
      NoNewline-append (key_of s) (61 ∷ written s) (all_word-NoNewline (key_of s) word)
        (refl, none_in) in
    let fits : length line ≤ 254 = omega (arith, length-append (key_of s) (61 ∷ written s)) in
    ap (λ t. fgets_lines 254 (t ++ rest)) whole
    ∙ ap (fgets_lines 254) (append_assoc line (10 ∷ []) rest)
    ∙ fgets_lines-line 254 line rest clean fits
    ∙ ap (λ t. t ∷ fgets_lines 254 rest) (sym whole)

-- The settings from the front of a file, and then the rest of it.
load_lines-settings :
    (number : ℕ) (config : Config) (ss : List Setting) (rest : List ℕ)
    → All IsSetting ss
    → load_lines number config (fgets_lines 254 (file ss ++ rest))
      ≡ load_lines (number + length ss) (assign_all config ss) (fgets_lines 254 rest)
unfolding load_lines
load_lines-settings number config [] rest h =
    let same : number + 0 ≡ number = omega arith in rw same refl
load_lines-settings number config (s ∷ ss) rest h =
    let next : number + 1 + length ss ≡ number + suc (length ss) = omega arith in
    rw
      (
        append_assoc (line_of s) (file ss) rest,
        fgets_lines-setting s (file ss ++ rest) h.0,
        load_lines,
        apply_line-setting config s h.0,
      )
      (load_lines-settings (number + 1) (assign config s) ss rest h.1
        ∙ ap (λ n. load_lines n (assign_all config (s ∷ ss)) (fgets_lines 254 rest)) next)

-- A file of settings is loaded without an error, and each setting is made in its order.
pub load-settings :
    (config : Config) (ss : List Setting)
    → All IsSetting ss
    → load true config (some (file ss)) ≡ (pos 0, assign_all config ss)
unfolding load load_lines fgets_lines
load-settings config ss h =
    ap (λ t. load_lines 0 config (fgets_lines 254 t)) (sym (append-nil (file ss)))
    ∙ load_lines-settings 0 config ss [] h

-- A line behind settings that the parser refuses ends the load with its number, and the settings
-- in front of it are made.
pub load-bad_line :
    (config after : Config) (ss : List Setting) (bad rest : List ℕ)
    → All IsSetting ss
    → NoNewline bad
    → length bad ≤ 254
    → apply_line true (assign_all config ss) (bad ++ (10 ∷ [])) ≡ (minus 1, after)
    → load true config (some (file ss ++ (bad ++ (10 ∷ rest))))
      ≡ (minus (1000 + (length ss + 1)), after)
unfolding load load_lines
load-bad_line config after ss bad rest h clean short refused =
    load_lines-settings 0 config ss (bad ++ (10 ∷ rest)) h
    ∙ rw (fgets_lines-line 254 bad rest clean short, load_lines, refused)
        (ap (λ n. (minus (1000 + (n + 1)), after)) same)
  where
    same : 0 + length ss ≡ length ss
    same = omega arith
