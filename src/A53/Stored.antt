-- ===== src/A53/Stored.antt =====
-- A batch that is stored passes the check of the storage.
use okmx8mm.Base.{ℕ, ◌+◌, ◌-◌, ◌^◌, ◌<◌, ◌≡◌, refl, sym, ap, ◌∙◌, arith}
use okmx8mm.Base.{List, ◌++◌, true, false, codes}
use okmx8mm.Base.{some, length, leb, ◌==◌}
use okmx8mm.Base.{pos, length-append}
use okmx8mm.A53.{Batch, Disk, put, Works}
use okmx8mm.A53.Cursor.{Cursor, cursor_path_of, build_cursor_path, cursor_text}
use okmx8mm.A53.Cursor.{write_storage_cursor}
use okmx8mm.A53.Append.{Calls, held, append_line, line_of, cursor_of, append_batch, header_text}
use okmx8mm.A53.Check.{until_zero, line_matches}
use okmx8mm.A53.Check.{validate_cursor, contains, sequence_text}
use okmx8mm.A53.Paths.{put_self, put_ne, cursor_path-ne}
use okmx8mm.A53.Lines.{line_of-parts}
use okmx8mm.A53.Lines.{contains-sequence}
use okmx8mm.A53.Written.{parents_made, checksum_bound, IsStorage, IsCursor, validate-written}

cursor_path_short : (path : List ℕ) → length path + 7 < 512 → length (cursor_path_of path) < 512
cursor_path_short path h = omega (arith, h, length-append path (codes ".cursor"))

-- The calls of the C library all succeed.
pub record AllSucceed (calls : Calls) : Type 0 where
  pub made : (path : List ℕ) → calls.mkdir path ≡ true
  pub done : (n : ℕ) → calls.works n ≡ true
  pub taken : calls.missing ≡ 0

append_line-whole :
    (calls : Calls) (path line : List ℕ) (disk : Disk)
    → length path + 7 < 512
    → AllSucceed calls
    → append_line calls path (some line) disk ≡ (true, put disk path (held (disk path) ++ line))
unfolding append_line
append_line-whole calls path line disk short ok =
    let made = parents_made calls.mkdir path ok.made (omega (arith, short)) in
    let all : (length line - calls.missing == length line) ≡ true = ground (arith, ok.taken) in
    rw (made, ok.done 0, ok.done 1, ok.done 2, ok.done 3, ok.done 4, all) refl

write_cursor-whole :
    (calls : Calls) (path line : List ℕ) (cursor : Cursor) (disk : Disk)
    → length path + 7 < 512
    → AllSucceed calls
    → write_storage_cursor calls.mkdir calls.works calls.cursor_reach path cursor disk
      ≡ (pos 0, put disk (cursor_path_of path) (cursor_text cursor))
unfolding write_storage_cursor build_cursor_path
write_cursor-whole calls path line cursor disk short ok =
    let fits : leb 512 (length path + 7) ≡ false = ground (arith, short) in
    let made =
      parents_made calls.mkdir (cursor_path_of path) ok.made (cursor_path_short path short) in
    rw (fits, write_storage_cursor, made, ok.done 6, ok.done 7) refl

-- The cursor of a batch that is stored.
cursor_of-IsCursor :
    (path : List ℕ) (batch : Batch) (old line : List ℕ)
    → line_of batch ≡ some line
    → batch.sequence < 2 ^ 32
    → length old + length line < 2 ^ 63
    → IsCursor path (cursor_of path batch old line)
unfolding cursor_of header_text
cursor_of-IsCursor path batch old line fits sequence size =
    let (rest, start, room) = line_of-parts batch line fits in
    record {
      name = refl;
      sequence_fits = sequence;
      offset_fits = size;
      checksum_fits = checksum_bound line;
      line_some = rw start (omega arith);
      line_fits = room;
      inside = omega arith;
    }

cursor_of-matches :
    (path : List ℕ) (batch : Batch) (old line : List ℕ)
    → line_of batch ≡ some line
    → line_matches (cursor_of path batch old line) line ≡ true
unfolding line_matches cursor_of
cursor_of-matches path batch old line fits =
    let (rest, start, room) = line_of-parts batch line fits in
    let found : contains (sequence_text batch.sequence) (until_zero line) ≡ true =
      rw start (contains-sequence batch rest) in
    ground (arith, found)

pub append_batch-whole :
    (calls : Calls) (path line : List ℕ) (batch : Batch) (disk : Disk)
    → AllSucceed calls
    → length path + 7 < 512
    → line_of batch ≡ some line
    → append_batch calls path batch disk ≡ (
      pos 0,
      put
          (put disk path (held (disk path) ++ line))
          (cursor_path_of path)
          (cursor_text (cursor_of path batch (held (disk path)) line)),
    )
unfolding append_batch
append_batch-whole calls path line batch disk ok short fits =
    let stored = put disk path (held (disk path) ++ line) in
    let wrote : append_line calls path (line_of batch) disk ≡ (true, stored) =
      rw fits (append_line-whole calls path line disk short ok) in
    rw (wrote, fits, wrote)
      (write_cursor-whole calls path line (cursor_of path batch (held (disk path)) line) stored
        short ok)

-- If the line of a batch fits its buffer, the path is that of a storage and all calls of the C
-- library succeed, the append returns 0, the storage holds the line after what it held, and the
-- check of the storage returns 0.
pub append_batch-validated :
    (works : Works) (calls : Calls) (path line : List ℕ) (batch : Batch) (disk : Disk)
    → ((n : ℕ) → works n ≡ true)
    → AllSucceed calls
    → IsStorage path
    → line_of batch ≡ some line
    → batch.sequence < 2 ^ 32
    → length (held (disk path)) + length line < 2 ^ 63
    → ((append_batch calls path batch disk).0 ≡ pos 0)
      × ((append_batch calls path batch disk).1 path ≡ some (held (disk path) ++ line))
      × (validate_cursor works path (append_batch calls path batch disk).1 ≡ pos 0)
unfolding cursor_of
append_batch-validated works calls path line batch disk all_work ok storage fits sequence size =
    let old = held (disk path) in
    let cursor = cursor_of path batch old line in
    let stored = put disk path (old ++ line) in
    let after = put stored (cursor_path_of path) (cursor_text cursor) in
    let run = append_batch-whole calls path line batch disk ok storage.fits fits in
    let kept : after path ≡ some (old ++ line) =
      put_ne stored (cursor_path_of path) (cursor_text cursor) path
        (λ e. cursor_path-ne path (sym e))
      ∙ put_self disk path (old ++ line) in
    let valid =
      validate-written works all_work path storage cursor old line after
        (cursor_of-IsCursor path batch old line fits sequence size)
        (put_self stored (cursor_path_of path) (cursor_text cursor)) kept refl refl
        (cursor_of-matches path batch old line fits) in
    (
      ap (λ r. r.0) run,
      ap (λ r. r.1 path) run ∙ kept,
      ap (λ r. validate_cursor works path r.1) run ∙ valid,
    )
