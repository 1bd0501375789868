-- ===== src/Runtime/File.antt =====
-- The status file: `demo3_runtime_status_write` in
-- OKMX8MM-Demo3/data-collector-demo3/src/runtime/demo3_runtime_status.c. It writes a temporary file
-- and renames it. The results of its writes are not looked at.
use okmx8mm.Base.{ℕ, ◌+◌, ◌≡◌, ◌≢◌, refl, ap, ◌∙◌, List, [], ◌∷◌, ◌++◌}
use okmx8mm.Base.{Option, none, some, length, Result, ok, err, Bool-cases, inl, inr, append_assoc}
use okmx8mm.Base.{sym, append-nil, if◌then◌else◌, not, codes, leb, ◌==◌, ◌||◌, decimal}
use okmx8mm.Files.{Files, joined, IsDisk, Replaced, renamed-Replaced}
use okmx8mm.Ota.{temporary_of}
use okmx8mm.Ota.Stage.{temporary-ne}
use okmx8mm.Runtime.{Status}
use okmx8mm.Runtime.Json.{write_json_string}

-- The text of the first `fprintf`. A `uint32_t` has at most ten digits.
unfoldable pub counters_text : Status → List ℕ
counters_text status =
    codes "{\"ok\":"
    ++ ((if status.ok then codes "true" else codes "false")
        ++ (codes ",\"received_frames\":"
            ++ (decimal 10 status.received_frames
                ++ (codes ",\"stored_samples\":"
                    ++ (decimal 10 status.stored_samples
                        ++ (codes ",\"can_sent_samples\":"
                            ++ (decimal 10 status.can_sent_samples
                                ++ (codes ",\"mqtt_sent_samples\":"
                                    ++ (decimal 10 status.mqtt_sent_samples
                                        ++ (codes ",\"ota_staged\":"
                                            ++ (decimal 10 status.ota_staged
                                                ++ (codes ",\"invalid_frames\":"
                                                    ++ (decimal 10 status.invalid_frames
                                                        ++ (codes ",\"storage_errors\":"
                                                            ++ (decimal 10 status.storage_errors
                                                            ++ (codes ",\"can_errors\":"
                                                            ++ (decimal 10 status.can_errors
                                                            ++ (codes ",\"mqtt_errors\":"
                                                            ++ (decimal 10 status.mqtt_errors
                                                            ++ (codes ",\"ota_errors\":"
                                                            ++ (decimal 10 status.ota_errors
                                                            ++ codes
                                                            ",\"last_error\":")))))))))))))))))))))

-- The pieces that are written, in order.
unfoldable pub status_pieces : Status → List (List ℕ)
status_pieces status =
    counters_text status ∷ write_json_string (some status.last_error) ∷ codes "}\n" ∷ []

module _ {D : Type 0} (files : Files D) where
  unfoldable pub write_pieces : List ℕ → List (List ℕ) → D → D
  write_pieces temporary [] d = d
  write_pieces temporary (piece ∷ rest) d =
      write_pieces temporary rest (files.write temporary piece d).1

  -- From the open temporary file to the end.
  unfoldable pub replace_status : List ℕ → List ℕ → List (List ℕ) → D → Result (Unit {0}) × D
  replace_status temporary path pieces d =
      let (closed, after) = files.close temporary (write_pieces temporary pieces d) in
      let (renamed, moved) = files.rename temporary path after in
      if not closed
      then (err 3, files.remove temporary after)
      else if renamed
      then (ok tt, moved)
      else (err 4, files.remove temporary moved)

  -- `demo3_runtime_status_write`; `none` is a null pointer.
  unfoldable pub write_status : Option (List ℕ) → Option Status → D → Result (Unit {0}) × D
  write_status none status d = (err 1, d)
  write_status (some path) none d = (err 1, d)
  write_status (some path) (some status) d =
      let (opened, after) = files.open_write (temporary_of path) d in
      if length path == 0 || leb 512 (length path + 5)
      then (err 1, d)
      else if opened
      then replace_status (temporary_of path) path (status_pieces status) after
      else (err 2, after)

module _ {D : Type 0} (files : Files D) (content : List ℕ → D → Option (List ℕ))
    (disk : IsDisk files content) where
  write_pieces-others :
      (temporary other : List ℕ) (pieces : List (List ℕ)) (d : D)
      → other ≢ temporary
      → content other (write_pieces files temporary pieces d) ≡ content other d
  unfolding write_pieces
  write_pieces-others temporary other [] d ne = refl
  write_pieces-others temporary other (piece ∷ rest) d ne =
      write_pieces-others temporary other rest (files.write temporary piece d).1 ne
      ∙ disk.write_others temporary piece other d ne

  module _
      (all_written : (path bytes : List ℕ) (d : D)
        → (files.write path bytes d).0 ≡ length bytes) where
    write_pieces-whole :
        (temporary old : List ℕ) (pieces : List (List ℕ)) (d : D)
        → content temporary d ≡ some old
        → content temporary (write_pieces files temporary pieces d) ≡ some (old ++ joined pieces)
    unfolding write_pieces
    write_pieces-whole temporary old [] d h = h ∙ ap some (sym (append-nil old))
    write_pieces-whole temporary old (piece ∷ rest) d h =
        write_pieces-whole temporary (old ++ piece) rest (files.write temporary piece d).1
          (disk.writes temporary piece old d h (all_written temporary piece d))
        ∙ ap some (append_assoc old piece (joined rest))

    replace_status-Replaced :
        (temporary path : List ℕ) (pieces : List (List ℕ)) (start d : D)
        → path ≢ temporary
        → content path d ≡ content path start
        → content temporary d ≡ some []
        → Replaced content path
            (some (joined pieces))
            start
            (replace_status files temporary path pieces d)
    unfolding replace_status
    replace_status-Replaced temporary path pieces start d ne kept empty =
        let written = write_pieces files temporary pieces d in
        let after = files.close temporary written in
        let same =
          disk.close_others temporary path written ne
          ∙ write_pieces-others temporary path pieces d ne
          ∙ kept in
        elim (Bool-cases after.0) [
          | inr failed ↦ rw failed (disk.remove_others temporary path after.1 ne ∙ same)
          | inl closed ↦ rw closed (
              renamed-Replaced files content disk temporary path 4 (some (joined pieces)) start
                after.1 ne same
                (disk.closes temporary written closed
                  ∙ write_pieces-whole temporary [] pieces d empty))
        ]

    -- On a file system that does as documented and takes every write whole: the function returns 0,
    -- and then the path holds the JSON text of the status, or it returns an error, and then the
    -- path holds what it held at the start.
    pub write_status-Replaced :
        (path : List ℕ) (status : Status) (d : D)
        → Replaced content path
            (some (joined (status_pieces status)))
            d
            (write_status files (some path) (some status) d)
    unfolding write_status
    write_status-Replaced path status d =
        let temporary = temporary_of path in
        let opened = files.open_write temporary d in
        let kept = disk.open_others temporary path d (temporary-ne path) in
        elim (Bool-cases (length path == 0 || leb 512 (length path + 5))) [
          | inl bad ↦ rw bad refl
          | inr good ↦ elim (Bool-cases opened.0) [
            | inr failed ↦ rw (good, failed) kept
            | inl done ↦
                rw (good, done)
                  (replace_status-Replaced temporary path (status_pieces status) d opened.1
                    (temporary-ne path) kept (disk.opens temporary d done))
          ]
        ]
