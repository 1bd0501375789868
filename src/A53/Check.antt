-- ===== src/A53/Check.antt =====
-- The check of the storage against its cursor, and the recovery of its end:
-- OKMX8MM-Demo2/a53/src/storage_writer.c, `read_storage_cursor` to `a53_storage_recover_tail`. Paths
-- are not null here.
use okmx8mm.Base.{ℕ, ◌-◌, ◌^◌, List, [], ◌∷◌, ◌++◌, Bool, true, false, not, ◌&&◌, ◌||◌}
use okmx8mm.Base.{Option, none, some, length, take, drop, ltb, leb, ◌==◌, if◌then◌else◌}
use okmx8mm.Base.{ℤ, pos, minus, codes, decimal, u32}
use okmx8mm.Config.{same}
use okmx8mm.A53.{Disk, put, Works}
use okmx8mm.A53.Cursor.{Cursor, base_name, checksum_fnv1a, build_cursor_path}
use okmx8mm.A53.Cursor.Scan.{Fields, scan_cursor, ◌>>=◌}

-- A text of C ends at its first zero.
unfoldable pub until_zero : List ℕ → List ℕ
until_zero [] = []
until_zero (c ∷ cs) = if c == 0 then [] else c ∷ until_zero cs

-- The conversion of what `%u` read to `uint32_t`.
unfoldable pub unsigned_of : Bool × ℕ → ℕ
unsigned_of (negative, value) = if negative then u32 (2 ^ 32 - u32 value) else u32 value

-- The test `<= 0`.
abbrev pub not_positive : Bool × ℕ → Bool
not_positive (negative, value) = negative || value == 0

-- The checks of the fields at the end of `read_storage_cursor`.
unfoldable pub checked_cursor : List ℕ → Fields → Option Cursor
checked_cursor path fields =
    if not (same fields.name (base_name path))
      || not_positive fields.offset
      || not_positive fields.bytes
      || leb 1024 fields.bytes.1
      || ltb fields.offset.1 fields.bytes.1
    then none
    else some (record {
      file_name = fields.name;
      sequence = unsigned_of fields.number;
      byte_offset = fields.offset.1;
      line_bytes = fields.bytes.1;
      line_checksum = fields.checksum;
    })

-- `read_storage_cursor`; the buffer takes 511 bytes.
unfoldable pub read_storage_cursor : Works → List ℕ → Disk → Option Cursor
read_storage_cursor works path disk = do
  cursor_path ← build_cursor_path path
  content ← if works 0 then disk cursor_path else none
  text ← if works 1 && works 2 && not (length content == 0) then some (take 511 content) else none
  fields ← scan_cursor (until_zero text)
  checked_cursor path fields

abbrev pub starts_with : List ℕ → List ℕ → Bool
starts_with [] text = true
starts_with (p ∷ ps) [] = false
starts_with (p ∷ ps) (c ∷ cs) = p == c && starts_with ps cs

-- `strstr`, where it does not return null.
unfoldable pub contains : List ℕ → List ℕ → Bool
contains part [] = starts_with part []
contains part (c ∷ cs) = starts_with part (c ∷ cs) || contains part cs

-- The bytes that the cursor says are the last line.
abbrev pub last_line : Cursor → List ℕ → List ℕ
last_line cursor content =
    take cursor.line_bytes (drop (cursor.byte_offset - cursor.line_bytes) content)

unfoldable pub sequence_text : ℕ → List ℕ
sequence_text sequence = codes "\"sequence\":" ++ decimal 10 sequence

unfoldable pub line_matches : Cursor → List ℕ → Bool
line_matches cursor line =
    length line == cursor.line_bytes
    && (checksum_fnv1a line == cursor.line_checksum
        && contains (sequence_text cursor.sequence) (until_zero line))

-- `verify_cursor_line`, where it returns 0.
unfoldable pub verify_cursor_line : Works → List ℕ → Cursor → Disk → Bool
verify_cursor_line works path cursor disk = elim (disk path) [
  | none ↦ false
  | some content ↦
      works 3
      && (works 4 && (works 5 && (works 6 && line_matches cursor (last_line cursor content))))
]

-- `a53_storage_validate_cursor`.
unfoldable pub validate_cursor : Works → List ℕ → Disk → ℤ
validate_cursor works path disk = elim (read_storage_cursor works path disk) [
  | none ↦ minus 1
  | some cursor ↦ elim (disk path) [
    | none ↦ minus 1
    | some content ↦
        if works 7
          && (works 8 && works 9)
          && (length content == cursor.byte_offset && verify_cursor_line works path cursor disk)
        then pos 0
        else minus 1
  ]
]

-- From the open storage to the end of `a53_storage_recover_tail`: `truncate_open_file` has two calls
-- before it cuts the file and one after.
unfoldable pub cut_tail : Works → List ℕ → Cursor → List ℕ → Disk → ℤ × Disk
cut_tail works path cursor content disk =
    let cut = put disk path (take cursor.byte_offset content) in
    if not (works 8) || ltb (length content) cursor.byte_offset
    then (minus 1, disk)
    else if not (works 9 && works 10)
    then (minus 1, disk)
    else (if works 11 && works 12 then pos 0 else minus 1, cut)

-- `a53_storage_recover_tail`.
unfoldable pub recover_tail : Works → List ℕ → Disk → ℤ × Disk
recover_tail works path disk = elim (read_storage_cursor works path disk) [
  | none ↦ (minus 1, disk)
  | some cursor ↦
      if not (verify_cursor_line works path cursor disk && works 7)
      then (minus 1, disk)
      else elim (disk path) [
        | none ↦ (minus 1, disk)
        | some content ↦ cut_tail works path cursor content disk
      ]
]
