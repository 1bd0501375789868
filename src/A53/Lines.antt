-- ===== src/A53/Lines.antt =====
-- What the line of a batch starts with, and how long it is.
use okmx8mm.Base.{ℕ, zero, suc, ◌+◌, ◌-◌, ◌<◌, ◌≡◌, refl, ap, ◌∙◌, arith}
use okmx8mm.Base.{List, [], ◌∷◌, ◌++◌, Bool, true, false, Bool-cases, inl, inr}
use okmx8mm.Base.{some, Option-cases, length, get_or, ltb, leb, codes}
use okmx8mm.Base.{ℤ, pos, decimal, length-append, append_assoc, append-nil}
use okmx8mm.A53.{Batch}
use okmx8mm.A53.Append.{
  line_capacity, header_text, channel_text, append_text, append_comma, append_channels, line_of,
}
use okmx8mm.A53.Check.{until_zero, starts_with, contains, sequence_text}
use okmx8mm.A53.Texts.{NoZero, NoZero-append, until_zero-append, decimal-NoZero, clean-NoZero}

append_text-parts :
    (line text longer : List ℕ)
    → append_text line text ≡ some longer
    → (longer ≡ line ++ text) × (length longer < line_capacity)
unfolding append_text
append_text-parts line text longer h =
    elim (Bool-cases (leb (line_capacity - length line) (length text))) [
      | inl full ↦ absurd (ground (arith, full, h))
      | inr room ↦
          let same : longer ≡ line ++ text = ground (arith, room, h) in
          (same, ground (arith, room, ap length same, length-append line text))
    ]

append_comma-longer :
    (more : Bool) (line longer : List ℕ)
    → append_comma more line ≡ some longer
    → (rest : List ℕ) × (longer ≡ line ++ rest)
unfolding append_comma
append_comma-longer false line longer h = ([], ground (arith, h, append-nil line))
append_comma-longer true line longer h = (44 ∷ [], ground (arith, h))

append_channels-longer :
    (left channel count : ℕ) (samples : List ℤ) (line longer : List ℕ)
    → append_channels left channel count samples line ≡ some longer
    → (rest : List ℕ) × (longer ≡ line ++ rest)
unfolding append_channels
append_channels-longer zero channel count samples line longer h =
    ([], ground (arith, h, append-nil line))
append_channels-longer (suc left) channel count samples line longer h =
    let text = channel_text channel (get_or samples channel (pos 0)) in
    elim (Option-cases (append_text line text)) [
      | inr full ↦ absurd (ground (arith, full, h))
      | inl (first, fits) ↦ elim (Option-cases (append_comma (ltb (channel + 1) count) first)) [
        | inr full ↦ absurd (ground (arith, fits, full, h))
        | inl (second, comma) ↦
            let run : append_channels left (channel + 1) count samples second ≡ some longer =
              ground (arith, fits, comma, h) in
            let (more, e) =
              append_channels-longer left (channel + 1) count samples second longer run in
            let (c, e') = append_comma-longer (ltb (channel + 1) count) first second comma in
            let (e'', room) = append_text-parts line text first fits in
            (
              text ++ (c ++ more),
              e
                  ∙ ap (λ t. t ++ more) (e' ∙ ap (λ t. t ++ c) e'')
                  ∙ append_assoc (line ++ text) c more
                  ∙ append_assoc line text (c ++ more),
            )
      ]
    ]

-- A line starts with the header, and fits into its buffer.
pub line_of-parts :
    (batch : Batch) (line : List ℕ)
    → line_of batch ≡ some line
    → (rest : List ℕ) × (line ≡ header_text batch ++ rest) × (length line < line_capacity)
unfolding line_of
line_of-parts batch line h =
    let count = batch.analog_channel_count in
    let samples = get_or batch.analog_samples 0 [] in
    elim (Bool-cases (leb line_capacity (length (header_text batch)))) [
      | inl long ↦ absurd (ground (arith, long, h))
      | inr short ↦
          elim (Option-cases (append_channels count 0 count samples (header_text batch))) [
            | inr full ↦ absurd (ground (arith, short, full, h))
            | inl (body, fits) ↦
                let run : append_text body (codes "}}\n") ≡ some line =
                  ground (arith, short, fits, h) in
                let (whole, room) = append_text-parts body (codes "}}\n") line run in
                let (rest, e) =
                  append_channels-longer count 0 count samples (header_text batch) body fits in
                (
                  rest ++ codes "}}\n",
                  whole
                      ∙ ap (λ t. t ++ codes "}}\n") e
                      ∙ append_assoc (header_text batch) rest (codes "}}\n"),
                  room,
                )
          ]
    ]

starts_with-append : (part rest : List ℕ) → starts_with part (part ++ rest) ≡ true
starts_with-append [] rest = refl
starts_with-append (p ∷ ps) rest = ground (arith, starts_with-append ps rest)

starts_with-contains :
    (part text : List ℕ) → starts_with part text ≡ true → contains part text ≡ true
unfolding contains
starts_with-contains part [] h = h
starts_with-contains part (c ∷ cs) h = rw h refl

contains-second :
    (part : List ℕ) (c : ℕ) (cs : List ℕ)
    → starts_with part cs ≡ true
    → contains part (c ∷ cs) ≡ true
unfolding contains
contains-second part c cs h = ground (arith, starts_with-contains part cs h)

contains_found :
    (c : ℕ) (part rest : List ℕ)
    → NoZero (c ∷ part)
    → contains part (until_zero (c ∷ (part ++ rest))) ≡ true
contains_found c part rest clean_part =
    rw (until_zero-append (c ∷ part) rest clean_part)
      (contains-second part c (part ++ until_zero rest) (starts_with-append part (until_zero rest)))

header_start :
    (batch : Batch) (rest : List ℕ)
    → (more : List ℕ) × (header_text batch ++ rest ≡ 123 ∷ (sequence_text batch.sequence ++ more))
unfolding header_text sequence_text
header_start batch rest =
    (_, ap (λ t. codes "{\"sequence\":" ++ t) (append_assoc (decimal 10 batch.sequence) _ rest))

sequence_text-NoZero : (sequence : ℕ) → NoZero (sequence_text sequence)
unfolding sequence_text
sequence_text-NoZero sequence =
    NoZero-append (codes "\"sequence\":") (decimal 10 sequence)
      (clean-NoZero (codes "\"sequence\":") refl) (decimal-NoZero 10 sequence)

-- The check finds the sequence number in a line that starts with the header.
pub contains-sequence :
    (batch : Batch) (rest : List ℕ)
    → contains (sequence_text batch.sequence) (until_zero (header_text batch ++ rest)) ≡ true
contains-sequence batch rest =
    let (more, shape) = header_start batch rest in
    rw shape (
      contains_found 123 (sequence_text batch.sequence) more
        (refl, sequence_text-NoZero batch.sequence))
