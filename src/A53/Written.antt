-- ===== src/A53/Written.antt =====
-- The check passes on a storage and a cursor that were written together.
use okmx8mm.Base.{ℕ, zero, suc, ◌+◌, ◌-◌, ◌^◌, ◌≤◌, ◌<◌, ◌≡◌, refl, ap, ◌∙◌, arith}
use okmx8mm.Base.{List, [], ◌∷◌, ◌++◌, Bool, true, false}
use okmx8mm.Base.{some, length, take, drop, leb, ◌==◌}
use okmx8mm.Base.{pos, length-append, All}
use okmx8mm.Config.{same}
use okmx8mm.Config.Text.{same_refl}
use okmx8mm.A53.{Disk, Works, make_parents, ensure_parent_directories}
use okmx8mm.A53.Cursor.{
  Cursor, cursor_path_of, build_cursor_path, base_name, fnv_step, fnv_loop, checksum_fnv1a,
  cursor_text,
}
use okmx8mm.A53.Cursor.RoundTrip.{scan_cursor-cursor_text}
use okmx8mm.A53.Check.{unsigned_of, checked_cursor, read_storage_cursor, last_line, line_matches}
use okmx8mm.A53.Check.{verify_cursor_line, validate_cursor}
use okmx8mm.A53.Texts.{NoZero, until_zero-whole, cursor_text-NoZero, length-cursor_text}

make_parents_all :
    (mkdir : List ℕ → Bool) (front rest : List ℕ)
    → ((path : List ℕ) → mkdir path ≡ true)
    → make_parents mkdir front rest ≡ true
unfolding make_parents
make_parents_all mkdir front [] h = refl
make_parents_all mkdir front (c ∷ cs) h =
    ground (arith, h front, make_parents_all mkdir (front ++ (c ∷ [])) cs h)

pub parents_made :
    (mkdir : List ℕ → Bool) (path : List ℕ)
    → ((path : List ℕ) → mkdir path ≡ true)
    → length path < 512
    → ensure_parent_directories mkdir path ≡ true
unfolding ensure_parent_directories
parents_made mkdir [] h short = refl
parents_made mkdir (c ∷ cs) h short =
    let fits : leb 512 (length (c ∷ cs)) ≡ false = ground (arith, short) in
    rw fits (make_parents_all mkdir (c ∷ []) cs h)

fnv_bound : (hash : ℕ) (text : List ℕ) → hash < 2 ^ 32 → fnv_loop hash text < 2 ^ 32
unfolding fnv_loop fnv_step
fnv_bound hash [] h = h
fnv_bound hash (byte ∷ rest) h = fnv_bound (fnv_step hash byte) rest (omega arith)

pub checksum_bound : (text : List ℕ) → checksum_fnv1a text < 2 ^ 32
unfolding checksum_fnv1a
checksum_bound text = fnv_bound 2166136261 text (omega arith)

take_all : (n : ℕ) (xs : List ℕ) → length xs ≤ n → take n xs ≡ xs
take_all zero [] h = refl
take_all zero (x ∷ xs) h = absurd (omega (arith, h))
take_all (suc n) [] h = refl
take_all (suc n) (x ∷ xs) h = ap (λ t. x ∷ t) (take_all n xs (omega (arith, h)))

drop_front : (xs ys : List ℕ) → drop (length xs) (xs ++ ys) ≡ ys
drop_front [] ys = refl
drop_front (x ∷ xs) ys = drop_front xs ys

-- A path whose cursor file can be named, and whose last part fits the format of the cursor.
pub record IsStorage (path : List ℕ) : Type 0 where
  pub fits : length path + 7 < 512
  pub named : 0 < length (base_name path)
  pub short : length (base_name path) ≤ 255
  pub one_line : All (λ c. (c == 10) ≡ false) (base_name path)
  pub no_zero : NoZero (base_name path)

-- What the numbers of a cursor have to do with one another.
pub record IsCursor (path : List ℕ) (cursor : Cursor) : Type 0 where
  pub name : cursor.file_name ≡ base_name path
  pub sequence_fits : cursor.sequence < 2 ^ 32
  pub offset_fits : cursor.byte_offset < 2 ^ 63
  pub checksum_fits : cursor.line_checksum < 2 ^ 32
  pub line_some : 0 < cursor.line_bytes
  pub line_fits : cursor.line_bytes < 1024
  pub inside : cursor.line_bytes ≤ cursor.byte_offset

checked_cursor-fields :
    (path : List ℕ) (cursor : Cursor)
    → IsCursor path cursor
    → checked_cursor path (record {
      name = cursor.file_name;
      number = (false, cursor.sequence);
      offset = (false, cursor.byte_offset);
      bytes = (false, cursor.line_bytes);
      checksum = cursor.line_checksum;
    })
      ≡ some cursor
unfolding checked_cursor unsigned_of
checked_cursor-fields path cursor h =
    let named : same cursor.file_name (base_name path) ≡ true =
      rw h.name (same_refl (base_name path)) in
    ground (arith, named, h.sequence_fits, h.offset_fits, h.line_some, h.line_fits, h.inside)

cursor_text-some : (cursor : Cursor) → (length (cursor_text cursor) == 0) ≡ false
unfolding cursor_text
cursor_text-some cursor = ground arith

module _ (works : Works) (all_work : (n : ℕ) → works n ≡ true) (path : List ℕ)
    (storage : IsStorage path) where
  read-written :
      (cursor : Cursor) (disk : Disk)
      → IsCursor path cursor
      → disk (cursor_path_of path) ≡ some (cursor_text cursor)
      → read_storage_cursor works path disk ≡ some cursor
  unfolding read_storage_cursor build_cursor_path
  read-written cursor disk h found =
      let fits : leb 512 (length path + 7) ≡ false = ground (arith, storage.fits) in
      let text = cursor_text cursor in
      let named : NoZero cursor.file_name = rw h.name storage.no_zero in
      let short : length cursor.file_name ≤ 255 = rw h.name storage.short in
      let all = take_all 511 text (length-cursor_text cursor short) in
      let whole = until_zero-whole text (cursor_text-NoZero cursor named) in
      let scanned = scan_cursor-cursor_text cursor (record {
        named = rw h.name storage.named;
        short = short;
        one_line = rw h.name storage.one_line;
        sequence_fits = h.sequence_fits;
        offset_fits = h.offset_fits;
        bytes_fit = omega (arith, h.line_fits);
        checksum_fits = h.checksum_fits;
      }) in
      rw
        (
          fits,
          all_work 0,
          all_work 1,
          all_work 2,
          found,
          cursor_text-some cursor,
          all,
          whole,
          scanned,
        )
        (checked_cursor-fields path cursor h)

  pub validate-written :
      (cursor : Cursor) (old line : List ℕ) (disk : Disk)
      → IsCursor path cursor
      → disk (cursor_path_of path) ≡ some (cursor_text cursor)
      → disk path ≡ some (old ++ line)
      → length old + length line ≡ cursor.byte_offset
      → length line ≡ cursor.line_bytes
      → line_matches cursor line ≡ true
      → validate_cursor works path disk ≡ pos 0
  unfolding validate_cursor verify_cursor_line
  validate-written cursor old line disk h found stored ends size matches =
      let read = read-written cursor disk h found in
      let start : cursor.byte_offset - cursor.line_bytes ≡ length old = omega (arith, ends, size) in
      let last : last_line cursor (old ++ line) ≡ line =
        ap (λ n. take cursor.line_bytes (drop n (old ++ line))) start
        ∙ ap (take cursor.line_bytes) (drop_front old line)
        ∙ take_all cursor.line_bytes line (omega (arith, size)) in
      let whole : (length (old ++ line) == cursor.byte_offset) ≡ true =
        ground (arith, ends, length-append old line) in
      let good = ap (line_matches cursor) last ∙ matches in
      let verified : verify_cursor_line works path cursor disk ≡ true =
        rw (stored, verify_cursor_line, all_work 3, all_work 4, all_work 5, all_work 6) good in
      rw (read, validate_cursor, stored, all_work 7, all_work 8, all_work 9, whole, verified) refl
