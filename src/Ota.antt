-- ===== src/Ota.antt =====
-- The staging of an update: OKMX8MM-Demo3/data-collector-demo3/src/ota/demo3_ota.c. Both
-- functions write a temporary file and rename it. `none` is a null path, and the calls of stdio are
-- a parameter.
pub mod Stage
pub mod Marker
use okmx8mm.Base.{ℕ, ◌+◌, ◌≡◌, List, [], ◌∷◌, ◌++◌, Bool, true, false, not, ◌&&◌, ◌||◌}
use okmx8mm.Base.{
  Option, none, some, length, Result, ok, err, leb, ◌==◌, ◌/=◌, if◌then◌else◌, codes,
}
use okmx8mm.Config.{same}
use okmx8mm.Files.{Files, Source}

abbrev pub temporary_of : List ℕ → List ℕ
temporary_of path = path ++ codes ".tmp"

-- `make_temporary_path` for paths that are not null.
unfoldable pub make_temporary_path : ℕ → List ℕ → Option (List ℕ)
make_temporary_path capacity path =
    if length path == 0 || leb capacity (length path + 5) then none else some (temporary_of path)

-- The codes that a read error and a failing `fclose` of the package leave.
unfoldable pub source_code : Source → List (List ℕ) → ℕ → ℕ
source_code source left code =
    let read = if source.has_failed left then 5 else code in
    if not source.closes && read == 0 then 6 else read

unfoldable pub staged_code : Bool → ℕ → ℕ
staged_code closed code = if not closed && code == 0 then 7 else code

-- The text of the marker.
unfoldable pub marker_text : List ℕ → List ℕ
marker_text staging =
    codes "{\"action\":\"reboot-required\",\"staged_package\":\"" ++ (staging ++ codes "\"}\n")

module _ {D : Type 0} (files : Files D) where
  -- The loop that copies: the pieces that it leaves, and the code so far.
  unfoldable pub copy_loop : List ℕ → List (List ℕ) → D → (List (List ℕ) × ℕ) × D
  copy_loop temporary [] d = (([], 0), d)
  copy_loop temporary (piece ∷ rest) d =
      let (count, after) = files.write temporary piece d in
      let further = copy_loop temporary rest after in
      if count /= length piece then ((rest, 4), after) else further

  -- The end of `demo3_ota_stage_package`, after both files are closed.
  unfoldable pub commit : List ℕ → List ℕ → ℕ → D → Result (Unit {0}) × D
  commit temporary staging code d =
      let (renamed, after) = files.rename temporary staging d in
      if code /= 0
      then (err code, files.remove temporary d)
      else if renamed
      then (ok tt, after)
      else (err 8, files.remove temporary after)

  -- The copy, from the open update to the result.
  unfoldable pub copy_package : Source → List ℕ → List ℕ → D → Result (Unit {0}) × D
  copy_package source temporary staging d =
      let ((left, code), copied) = copy_loop temporary source.pieces d in
      let (closed, after) = files.close temporary copied in
      commit temporary staging (staged_code closed (source_code source left code)) after

  -- What follows the checks of the arguments.
  unfoldable pub stage_to : List ℕ → List ℕ → List ℕ → D → Result (Unit {0}) × D
  stage_to update temporary staging d =
      let (opened, after) = files.open_write temporary d in
      if not (files.open_read update d)
      then (err 2, d)
      else if opened
      then copy_package (files.source update after) temporary staging after
      else (err 3, after)

  -- `demo3_ota_stage_package`.
  unfoldable pub stage_package : Option (List ℕ) → Option (List ℕ) → D → Result (Unit {0}) × D
  stage_package none staging d = (err 1, d)
  stage_package (some update) none d = (err 1, d)
  stage_package (some update) (some staging) d =
      if length update == 0 || length staging == 0 || same update staging
      then (err 1, d)
      else elim (make_temporary_path 512 staging) [
        | none ↦ (err 1, d)
        | some temporary ↦ stage_to update temporary staging d
      ]

  -- The rest of `demo3_ota_write_reboot_marker`, once the temporary file is open. `fprintf` fails
  -- where it writes less than its text.
  unfoldable pub write_marker : List ℕ → List ℕ → List ℕ → D → Result (Unit {0}) × D
  write_marker temporary marker text d =
      let (count, written) = files.write temporary text d in
      let (closed, after) = files.close temporary written in
      let (renamed, moved) = files.rename temporary marker after in
      if count /= length text || not closed
      then (err 3, files.remove temporary after)
      else if renamed
      then (ok tt, moved)
      else (err 4, files.remove temporary moved)

  -- `demo3_ota_write_reboot_marker`.
  unfoldable pub write_reboot_marker : Option (List ℕ) → Option (List ℕ) → D → Result (Unit {0}) × D
  write_reboot_marker none staging d = (err 1, d)
  write_reboot_marker (some marker) none d = (err 1, d)
  write_reboot_marker (some marker) (some staging) d =
      if length staging == 0 then (err 1, d) else elim (make_temporary_path 512 marker) [
        | none ↦ (err 1, d)
        | some temporary ↦
            let (opened, after) = files.open_write temporary d in
            if opened
            then write_marker temporary marker (marker_text staging) after
            else (err 2, after)
      ]
