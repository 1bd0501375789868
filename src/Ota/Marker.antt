-- ===== src/Ota/Marker.antt =====
-- The marker that asks for a reboot is written whole or not at all.
use okmx8mm.Base.{ℕ, ◌+◌, ◌≡◌, ◌≢◌, refl, ◌∙◌, arith, List, [], Bool, true, false, Bool-cases}
use okmx8mm.Base.{Option, some, length, inl, inr, leb, ◌/=◌, ◌==◌, ◌||◌, not}
use okmx8mm.Files.{Files, IsDisk, Replaced, renamed-Replaced}
use okmx8mm.Ota.{temporary_of, make_temporary_path, marker_text, write_marker, write_reboot_marker}
use okmx8mm.Ota.Stage.{temporary-ne}

marker_checks :
    (count size : ℕ) (closed : Bool)
    → ((count /= size || not closed) ≡ false)
    → (count ≡ size) × (closed ≡ true)
marker_checks count size closed h = ground (arith, h)

module _ {D : Type 0} (files : Files D) (content : List ℕ → D → Option (List ℕ))
    (disk : IsDisk files content) where
  write_marker-Replaced :
      (temporary marker text : List ℕ) (start d : D)
      → marker ≢ temporary
      → content marker d ≡ content marker start
      → content temporary d ≡ some []
      → Replaced content marker (some text) start (write_marker files temporary marker text d)
  unfolding write_marker
  write_marker-Replaced temporary marker text start d ne kept empty =
      let written = files.write temporary text d in
      let after = files.close temporary written.1 in
      let same =
        disk.close_others temporary marker written.1 ne
        ∙ disk.write_others temporary text marker d ne
        ∙ kept in
      elim (Bool-cases (written.0 /= length text || not after.0)) [
        | inl short ↦ rw short (disk.remove_others temporary marker after.1 ne ∙ same)
        | inr full ↦
            let (all, closed) = marker_checks written.0 (length text) after.0 full in
            let bytes =
              disk.closes temporary written.1 closed ∙ disk.writes temporary text [] d empty all in
            rw full (
              renamed-Replaced files content disk temporary marker 4 (some text) start after.1 ne
                same bytes)
      ]

  -- For paths that are not null and a file system that does as documented: the function returns 0,
  -- and then the marker holds its whole text, or it returns an error, and then the path of the
  -- marker holds what it held at the start.
  pub write_reboot_marker-Replaced :
      (marker staging : List ℕ) (d : D)
      → Replaced content marker
          (some (marker_text staging))
          d
          (write_reboot_marker files (some marker) (some staging) d)
  unfolding write_reboot_marker make_temporary_path
  write_reboot_marker-Replaced marker staging d =
      let opened = files.open_write (temporary_of marker) d in
      let kept = disk.open_others (temporary_of marker) marker d (temporary-ne marker) in
      elim (Bool-cases (length staging == 0)) [
        | inl bad ↦ rw bad refl
        | inr good ↦ elim (Bool-cases (length marker == 0 || leb 512 (length marker + 5))) [
          | inl long ↦ rw (good, long) refl
          | inr short ↦ elim (Bool-cases opened.0) [
            | inr failed ↦ rw (good, short, failed) kept
            | inl done ↦
                rw (good, short, done)
                  (write_marker-Replaced (temporary_of marker) marker (marker_text staging) d
                    opened.1 (temporary-ne marker) kept (disk.opens (temporary_of marker) d done))
          ]
        ]
      ]
