-- ===== src/A53/Recovery.antt =====
-- A storage whose check has passed is recovered after a line was torn.
use okmx8mm.Base.{ℕ, zero, suc, ◌+◌, ◌-◌, ◌≤◌, ◌≡◌, refl, sym, ap, ◌∙◌, arith}
use okmx8mm.Base.{List, [], ◌∷◌, ◌++◌, true, false, Bool-cases, inl, inr}
use okmx8mm.Base.{Option, some, Option-cases, length, take, drop, ltb, leb}
use okmx8mm.Base.{take-append, pos, minus, length-append, append-nil, subst}
use okmx8mm.A53.{Batch, Disk, put, Works}
use okmx8mm.A53.Cursor.{Cursor, cursor_path_of, build_cursor_path}
use okmx8mm.A53.Append.{Calls, held, append_line, line_of, append_batch}
use okmx8mm.A53.Check.{
  read_storage_cursor, last_line, line_matches, verify_cursor_line, validate_cursor, cut_tail,
}
use okmx8mm.A53.Check.{recover_tail}
use okmx8mm.A53.Outcomes.{append_line-Appended}
use okmx8mm.A53.Paths.{put_self, put_ne, cursor_path-ne}

length-take_le : (n : ℕ) (xs : List ℕ) → length (take n xs) ≤ length xs
length-take_le zero xs = omega arith
length-take_le (suc n) [] = omega arith
length-take_le (suc n) (x ∷ xs) = omega (arith, length-take_le n xs)

take_part :
    (k n : ℕ) (xs ys : List ℕ) → k + n ≤ length xs → take n (drop k (xs ++ ys)) ≡ take n (drop k xs)
take_part zero zero xs ys h = refl
take_part zero (suc n) [] ys h = absurd (omega (arith, h))
take_part zero (suc n) (x ∷ xs) ys h = ap (λ t. x ∷ t) (take_part zero n xs ys (omega (arith, h)))
take_part (suc k) zero [] ys h = refl
take_part (suc k) (suc n) [] ys h = absurd (omega (arith, h))
take_part (suc k) n (x ∷ xs) ys h = take_part k n xs ys (omega (arith, h))

-- What a check that passes has found.
pub record IsChecked (cursor : Cursor) (content : List ℕ) : Type 0 where
  pub ends : length content ≡ cursor.byte_offset
  pub matches : line_matches cursor (last_line cursor content) ≡ true

-- The last line stays the same line when something is appended.
last_line-append :
    (cursor : Cursor) (content tail : List ℕ)
    → IsChecked cursor content
    → last_line cursor (content ++ tail) ≡ last_line cursor content
unfolding line_matches
last_line-append cursor content tail checked =
    let whole : length (last_line cursor content) ≡ cursor.line_bytes =
      ground (arith, checked.matches) in
    elim (Bool-cases (ltb cursor.byte_offset cursor.line_bytes)) [
      | inl less ↦
          let no_start : cursor.byte_offset - cursor.line_bytes ≡ 0 = ground (arith, less) in
          let all : last_line cursor content ≡ take cursor.line_bytes content = rw no_start refl in
          absurd (
            ground (
              arith,
              less,
              whole,
              ap length all,
              checked.ends,
              length-take_le cursor.line_bytes content,
            ))
      | inr enough ↦
          take_part (cursor.byte_offset - cursor.line_bytes) cursor.line_bytes content tail
            (ground (arith, enough, checked.ends))
    ]

-- The cursor is read from a file of its own.
read-cursor_file :
    (works : Works) (path : List ℕ) (after disk : Disk)
    → after (cursor_path_of path) ≡ disk (cursor_path_of path)
    → read_storage_cursor works path after ≡ read_storage_cursor works path disk
unfolding read_storage_cursor build_cursor_path
read-cursor_file works path after disk same = elim (Bool-cases (leb 512 (length path + 7))) [
  | inl long ↦ rw long refl
  | inr fits ↦ rw (fits, same) refl
]

-- The storage has something at its end, and its cursor is as before.
abbrev pub Torn : List ℕ → List ℕ → Disk → Disk → Type 0
Torn path content disk after =
    (tail : List ℕ) × (after path ≡ some (content ++ tail))
    × (after (cursor_path_of path) ≡ disk (cursor_path_of path))

Torn-same :
    (path content : List ℕ) (disk : Disk) → disk path ≡ some content → Torn path content disk disk
Torn-same path content disk found = ([], found ∙ ap some (sym (append-nil content)), refl)

Torn-put :
    (path content old tail : List ℕ) (disk : Disk)
    → old ≡ content
    → Torn path content disk (put disk path (old ++ tail))
Torn-put path content old tail disk e = (
  tail,
  put_self disk path (old ++ tail) ∙ ap (λ t. some (t ++ tail)) e,
  put_ne disk path (old ++ tail) (cursor_path_of path) (cursor_path-ne path),
)

Torn-held :
    (path content old : List ℕ) (disk : Disk)
    → old ≡ content
    → Torn path content disk (put disk path old)
Torn-held path content old disk e =
    subst (λ t. Torn path content disk (put disk path t)) (append-nil old)
      (Torn-put path content old [] disk e)

module _ (works : Works) (all_work : (n : ℕ) → works n ≡ true) where
  validated_cursor :
      (path content : List ℕ) (cursor : Cursor) (disk : Disk)
      → disk path ≡ some content
      → read_storage_cursor works path disk ≡ some cursor
      → validate_cursor works path disk ≡ pos 0
      → IsChecked cursor content
  unfolding validate_cursor verify_cursor_line
  validated_cursor path content cursor disk found read valid = record {
    ends = ground (arith, found, read, valid);
    matches = ground (arith, found, read, valid);
  }

  -- A check that returns 0 has read a cursor that fits the content.
  validated-parts :
      (path content : List ℕ) (disk : Disk)
      → disk path ≡ some content
      → validate_cursor works path disk ≡ pos 0
      → (cursor : Cursor) × (read_storage_cursor works path disk ≡ some cursor)
        × IsChecked cursor content
  unfolding validate_cursor
  validated-parts path content disk found valid =
      elim (Option-cases (read_storage_cursor works path disk)) [
        | inr unread ↦ absurd (ground (arith, unread, valid))
        | inl (cursor, read) ↦
            (cursor, read, validated_cursor path content cursor disk found read valid)
      ]

  verify_checked :
      (path content tail : List ℕ) (cursor : Cursor) (disk : Disk)
      → disk path ≡ some (content ++ tail)
      → IsChecked cursor content
      → verify_cursor_line works path cursor disk ≡ true
  unfolding verify_cursor_line
  verify_checked path content tail cursor disk found checked =
      let matches = ap (line_matches cursor) (last_line-append cursor content tail checked) in
      rw (found, verify_cursor_line, all_work 3, all_work 4, all_work 5, all_work 6)
        (matches ∙ checked.matches)

  cut_checked :
      (path content tail : List ℕ) (cursor : Cursor) (disk : Disk)
      → IsChecked cursor content
      → cut_tail works path cursor (content ++ tail) disk ≡ (pos 0, put disk path content)
  unfolding cut_tail
  cut_checked path content tail cursor disk checked =
      let sizes = length-append content tail in
      let reaches : ltb (length (content ++ tail)) cursor.byte_offset ≡ false =
        ground (arith, sizes, checked.ends) in
      let cut : take cursor.byte_offset (content ++ tail) ≡ content =
        ap (λ n. take n (content ++ tail)) (sym checked.ends)
        ∙ take-append content tail (length content) refl in
      rw (all_work 8, all_work 9, all_work 10, all_work 11, all_work 12, reaches, cut) refl

  recover_checked :
      (path content tail : List ℕ) (cursor : Cursor) (disk : Disk)
      → disk path ≡ some (content ++ tail)
      → read_storage_cursor works path disk ≡ some cursor
      → IsChecked cursor content
      → recover_tail works path disk ≡ (pos 0, put disk path content)
  unfolding recover_tail
  recover_checked path content tail cursor disk found read checked =
      rw
        (
          read,
          recover_tail,
          verify_checked path content tail cursor disk found checked,
          all_work 7,
          found,
        )
        (cut_checked path content tail cursor disk checked)

  recover-Torn :
      (path content : List ℕ) (disk after : Disk)
      → disk path ≡ some content
      → validate_cursor works path disk ≡ pos 0
      → Torn path content disk after
      → recover_tail works path after ≡ (pos 0, put after path content)
  recover-Torn path content disk after found valid (tail, torn, kept) =
      let (cursor, read, checked) = validated-parts path content disk found valid in
      recover_checked path content tail cursor after torn
        (read-cursor_file works path after disk kept ∙ read) checked

-- An append that fails before it writes the cursor leaves the storage with something at its end.
append_line-Torn :
    (calls : Calls) (path content : List ℕ) (line : Option (List ℕ)) (disk : Disk)
    → disk path ≡ some content
    → (append_line calls path line disk).0 ≡ false
    → Torn path content disk (append_line calls path line disk).1
append_line-Torn calls path content line disk found torn =
    let same : held (disk path) ≡ content = ap held found in
    let failing =
      λ (after : Disk) (e : append_line calls path line disk ≡ (false, after))
          (t : Torn path content disk after).
        subst (Torn path content disk) (sym (ap (λ r. r.1) e)) t in
    elim (append_line-Appended calls path line disk) [
      | inl (inl e) ↦ failing disk e (Torn-same path content disk found)
      | inl (inr e) ↦
          failing (put disk path (held (disk path))) e
            (Torn-held path content (held (disk path)) disk same)
      | inr (text, fits, inl e) ↦ absurd (ground (arith, e, torn))
      | inr (text, fits, inr e) ↦
          failing (put disk path (held (disk path) ++ take calls.reach text)) e
            (Torn-put path content (held (disk path)) (take calls.reach text) disk same)
    ]

-- Where the calls of the C library in the check and in the recovery succeed: if the check of a
-- storage returns 0 and an append then fails before it writes the cursor, whatever part of the line
-- reached the file, the append returns -1, and the recovery returns 0 and brings back what the
-- storage held before.
pub append_batch-recovered :
    (works : Works) (calls : Calls) (path content : List ℕ) (batch : Batch) (disk : Disk)
    → ((n : ℕ) → works n ≡ true)
    → disk path ≡ some content
    → validate_cursor works path disk ≡ pos 0
    → (append_line calls path (line_of batch) disk).0 ≡ false
    → ((append_batch calls path batch disk).0 ≡ minus 1)
      × ((recover_tail works path (append_batch calls path batch disk).1).0 ≡ pos 0)
      × ((recover_tail works path (append_batch calls path batch disk).1).1 path ≡ some content)
unfolding append_batch
append_batch-recovered works calls path content batch disk all_work found valid failed =
    let after = (append_line calls path (line_of batch) disk).1 in
    let run =
      recover-Torn works all_work path content disk after found valid
        (append_line-Torn calls path content (line_of batch) disk found failed) in
    rw failed (refl, ap (λ r. r.0) run, ap (λ r. r.1 path) run ∙ put_self after path content)
