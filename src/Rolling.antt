-- ===== src/Rolling.antt =====
-- The rolling of the storage files, which deletes the oldest folders while space is short:
-- file_storage_rolling in OKMX8MM-Demo3/data-collector-demo3/src/file-storage/file-storage.c. The
-- file system and `mktime` are parameters.
pub mod Ends
use okmx8mm.Base.{
  ℕ, zero, suc, ◌+◌, ◌-◌, ◌*◌, ◌^◌, List, [], ◌∷◌, ◌++◌, Bool, true, false, not, ◌&&◌, ◌||◌,
}
use okmx8mm.Base.{Option, none, some, ltb, leb, ◌==◌, if◌then◌else◌, ℤ, pos, minus, codes, length}
use okmx8mm.Base.{failed, take, scan_digits}
use okmx8mm.Config.{same, trim_front}
use okmx8mm.A53.Check.{contains}
use okmx8mm.A53.Cursor.Scan.{scan_number, scan_sign}

-- What `readdir` tells of an entry.
pub record Entry : Type 0 where
  pub name : List ℕ
  pub is_folder : Bool

-- The calls: the free bytes, the entries of a folder that can be opened, and `rm -rf`.
pub record Folders (W : Type 0) : Type 0 where
  pub free : W → Option ℕ
  pub entries : List ℕ → W → Option (List Entry)
  pub remove : List ℕ → W → W

-- `mktime` in milliseconds, which are not negative here, of the first day of a year and month as `sscanf` reads them, and of a
-- day of such a month.
pub record Calendar : Type 0 where
  pub month_time : Bool × ℕ → Bool × ℕ → ℕ
  pub date_time : Bool × ℕ → Bool × ℕ → Bool × ℕ → ℕ

abbrev pub int64_max : ℕ
int64_max = 2 ^ 63 - 1

-- `%02d`: at most two bytes, of which the first may be a sign.
unfoldable pub scan_two : List ℕ → Option (Bool × ℕ)
scan_two text =
    let unspaced = trim_front text in
    let (negative, unsigned) = scan_sign unspaced in
    let width = 2 - (length unspaced - length unsigned) in
    let (value, count, rest) = scan_digits 0 0 (take width unsigned) in
    if count == 0 then none else some (negative, value)

-- `%d-%02d`.
unfoldable pub scan_month : List ℕ → Option ((Bool × ℕ) × (Bool × ℕ))
scan_month name = elim (scan_number name) [
  | none ↦ none
  | some (year, rest) ↦ elim rest [
    | [] ↦ none
    | c ∷ cs ↦
        if not (c == 45)
        then none
        else elim (scan_two cs) [ none ↦ none | some month ↦ some (year, month) ]
  ]
]

abbrev pub is_dots : List ℕ → Bool
is_dots name = same name (codes ".") || same name (codes "..")

-- The oldest folder so far: its time and its name.
abbrev pub Oldest : Type 0
Oldest = ℕ × List ℕ

-- One of the two loops that look for the oldest folder; `time_of` is the time of a name.
unfoldable pub find_oldest : (List ℕ → Option ℕ) → Oldest → List Entry → Oldest
find_oldest time_of best [] = best
find_oldest time_of best (entry ∷ rest) =
    let next : Oldest = elim (time_of entry.name) [
      | none ↦ best
      | some time ↦
          if is_dots entry.name || not entry.is_folder
          then best
          else if ltb time best.0
          then (time, entry.name)
          else best
    ] in
    find_oldest time_of next rest

abbrev pub child : List ℕ → List ℕ → List ℕ
child path name = path ++ (47 ∷ name)

-- The free bytes, where -1 stands for a failing `statfs`, are below the limit.
abbrev pub is_short : ℕ → Option ℕ → Bool
is_short limit none = true
is_short limit (some free) = ltb free limit

abbrev pub same_free : Option ℕ → Option ℕ → Bool
same_free none none = true
same_free none (some b) = false
same_free (some a) none = false
same_free (some a) (some b) = a == b

-- The rest of a round, after the search: the code where the loop ends, and the folder to remove.
unfoldable pub choose : ℕ → List ℕ → Oldest → Bool × Oldest → Option ℤ × Option (List ℕ)
choose today path (month_time, month_name) (opened, (time, day_name)) =
    let code = if opened then pos 0 else minus 1 in
    let folder = child (child path month_name) day_name in
    if leb today time
    then (some code, none)
    else (if opened then none else some code, if time == int64_max then none else some folder)

-- A line of the table of mounts names the SD card.
unfoldable pub finds_card : List (List ℕ) → Bool
finds_card [] = false
finds_card (line ∷ rest) = contains (codes "/media/sdcard") line || finds_card rest

-- `file_storage_check_sdcard_mount`, over the lines of /proc/mounts if it can be opened: the code,
-- and whether it reports an error of the storage to the LEDs.
unfoldable pub check_sdcard_mount : Option (List (List ℕ)) → ℤ × Bool
check_sdcard_mount none = (minus 1, true)
check_sdcard_mount (some lines) = if finds_card lines then (pos 0, false) else (pos 1, true)

module _ (calendar : Calendar) where
  abbrev pub time_of_month : List ℕ → Option ℕ
  time_of_month name = elim (scan_month name) [
    | none ↦ none
    | some (year, month) ↦ some (calendar.month_time year month)
  ]

  -- The time of a day in the month of a folder.
  abbrev pub time_of_date : List ℕ → List ℕ → Option ℕ
  time_of_date month_name name = elim (scan_month month_name) [
    | none ↦ none
    | some (year, month) ↦ elim (scan_two name) [
      | none ↦ none
      | some day ↦ some (calendar.date_time year month day)
    ]
  ]

module _ {W : Type 0} (folders : Folders W) (calendar : Calendar) where
  -- The search within the oldest month: whether the month could be opened, and the oldest day.
  unfoldable pub oldest_date : List ℕ → Oldest → W → Bool × Oldest
  oldest_date path (time, month_name) w =
      if not (ltb time int64_max)
      then (true, (int64_max, []))
      else elim (folders.entries (child path month_name) w) [
        | none ↦ (false, (int64_max, []))
        | some days ↦ (true, find_oldest (time_of_date calendar month_name) (int64_max, []) days)
      ]

  unfoldable pub removed : Option (List ℕ) → W → W
  removed none w = w
  removed (some folder) w = folders.remove folder w

  -- The loop, on fuel; `last` is the free space of the round before.
  unfoldable pub roll_loop : ℕ → List ℕ → ℕ → ℕ → Option ℕ → W → Option (ℤ × W)
  roll_loop zero path limit today last w = none
  roll_loop (suc fuel) path limit today last w =
      let free = folders.free w in
      if not (is_short limit free) || same_free free last
      then some (pos 0, w)
      else elim (folders.entries path w) [
        | none ↦ some (minus 1, w)
        | some months ↦
            let month = find_oldest (time_of_month calendar) (int64_max, []) months in
            let chosen = choose today path month (oldest_date path month w) in
            let after = removed chosen.1 w in
            let further = roll_loop fuel path limit today free after in
            elim chosen.0 [ some c ↦ some (c, after) | none ↦ further ]
      ]

  -- `file_storage_rolling`. `mounts` are the lines for the check of the SD card, which is made where
  -- the path is on it.
  unfoldable pub rolling : ℕ → Option (List (List ℕ)) → List ℕ → ℕ → ℕ → W → Option (ℤ × W)
  rolling fuel mounts path limit today w =
      if contains (codes "/media/sdcard/") path && failed (check_sdcard_mount mounts).0
      then some (pos 0, w)
      else elim (folders.free w) [
        | none ↦ some (minus 1, w)
        | some free ↦
            if ltb limit free then some (pos 0, w) else roll_loop fuel path limit today (some 0) w
      ]
