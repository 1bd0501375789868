-- ===== src/Tests/Files.antt =====
-- Tests of the functions that replace files, on a file system in which no call fails.
use okmx8mm.Base.{ℕ, ◌≡◌, ◌≢◌, refl, ap, ◌∙◌, arith, List, [], ◌∷◌, ◌++◌, Bool, true, false, codes}
use okmx8mm.Base.{Option, none, some, length, append-nil, if◌then◌else◌, Bool-cases, inl, inr}
use okmx8mm.A53.{Disk, put}
use okmx8mm.A53.Paths.{put_self, put_ne}
use okmx8mm.Config.{same}
use okmx8mm.Config.Text.{same_sound}
use okmx8mm.Files.{Files, joined, IsDisk, Replaced}
use okmx8mm.Ota.{stage_package, make_temporary_path, stage_to, copy_package, commit, staged_code}
use okmx8mm.Ota.{source_code, copy_loop}
use okmx8mm.Ota.Stage.{stage_package-Replaced}
use okmx8mm.Runtime
use okmx8mm.Runtime.File.{status_pieces, write_status, write_status-Replaced}

abbrev piece_of : Option (List ℕ) → List (List ℕ)
piece_of none = []
piece_of (some bytes) = bytes ∷ []

abbrev is_some : Option (List ℕ) → Bool
is_some none = false
is_some (some bytes) = true

abbrev appended : Option (List ℕ) → List ℕ → List ℕ
appended none bytes = bytes
appended (some old) bytes = old ++ bytes

abbrev without : Disk → List ℕ → Disk
without disk path other = if same other path then none else disk other

abbrev renamed : List ℕ → List ℕ → Option (List ℕ) → Disk → Bool × Disk
renamed from to none disk = (false, disk)
renamed from to (some bytes) disk = (true, put (without disk from) to bytes)

abbrev memory : Files Disk
memory = record {
  open_read = λ path disk. is_some (disk path);
  source = λ path disk. record {
    pieces = piece_of (disk path);
    has_failed = λ left. false;
    closes = true;
  };
  open_write = λ path disk. (true, put disk path []);
  write = λ path bytes disk. (length bytes, put disk path (appended (disk path) bytes));
  close = λ path disk. (true, disk);
  rename = λ from to disk. renamed from to (disk from) disk;
  remove = λ path disk. without disk path;
}

abbrev content : List ℕ → Disk → Option (List ℕ)
content path disk = disk path

without_ne :
    (disk : Disk) (path other : List ℕ) → other ≢ path → without disk path other ≡ disk other
without_ne disk path other ne = elim (Bool-cases (same other path)) [
  | inl equal ↦ absurd (ne (same_sound other path equal))
  | inr different ↦ rw different refl
]

holds_lem : (o : Option (List ℕ)) → is_some o ≡ true → (bytes : List ℕ) × (o ≡ some bytes)
holds_lem none h = absurd (ground (arith, h))
holds_lem (some bytes) h = (bytes, refl)

piece_lem : (bytes : List ℕ) (o : Option (List ℕ)) → o ≡ some bytes → joined (piece_of o) ≡ bytes
piece_lem bytes o h = rw h (append-nil bytes)

appended_lem :
    (old bytes : List ℕ) (o : Option (List ℕ)) → o ≡ some old → appended o bytes ≡ old ++ bytes
appended_lem old bytes o h = rw h refl

renamed_lem :
    (from to : List ℕ) (o : Option (List ℕ)) (disk : Disk)
    → (renamed from to o disk).0 ≡ true
    → (renamed from to o disk).1 to ≡ o
renamed_lem from to none disk h = absurd (ground (arith, h))
renamed_lem from to (some bytes) disk h = put_self (without disk from) to bytes

renamed_fails :
    (from to : List ℕ) (o : Option (List ℕ)) (disk : Disk) (path : List ℕ)
    → (renamed from to o disk).0 ≡ false
    → (renamed from to o disk).1 path ≡ disk path
renamed_fails from to none disk path h = refl
renamed_fails from to (some bytes) disk path h = absurd (ground (arith, h))

memory-IsDisk : IsDisk memory content
memory-IsDisk = record {
  holds = λ path d h. holds_lem (d path) h;
  delivers = λ path bytes d h sound. piece_lem bytes (d path) h;
  opens = λ path d h. put_self d path [];
  writes = λ path bytes old d h whole.
      put_self d path (appended (d path) bytes) ∙ ap some (appended_lem old bytes (d path) h);
  closes = λ path d h. refl;
  renames = λ from to d h. renamed_lem from to (d from) d h;
  rename_fails = λ from to path d h. renamed_fails from to (d from) d path h;
  open_others = λ path other d ne. put_ne d path [] other ne;
  write_others = λ path bytes other d ne. put_ne d path (appended (d path) bytes) other ne;
  close_others = λ path other d ne. refl;
  remove_others = λ path other d ne. without_ne d path other ne;
}

-- A disk with a package and an older staged file.
abbrev update_disk : Disk
update_disk =
    put (put (λ path. none) (codes "/tmp/new.pkg") (1 ∷ 2 ∷ 3 ∷ [])) (codes "/ota/staged") (9 ∷ [])

stage_package-Replaced_example :
    Replaced content
      (codes "/ota/staged")
      (content (codes "/tmp/new.pkg") update_disk)
      update_disk
      (stage_package memory (some (codes "/tmp/new.pkg")) (some (codes "/ota/staged")) update_disk)
stage_package-Replaced_example =
    stage_package-Replaced memory content memory-IsDisk (codes "/tmp/new.pkg") (codes "/ota/staged")
      update_disk (λ e. absurd (omega (arith, ap length e)))

staged :
    (stage_package memory (some (codes "/tmp/new.pkg")) (some (codes "/ota/staged")) update_disk).1
      (codes "/ota/staged")
    ≡ some (1 ∷ 2 ∷ 3 ∷ [])
unfolding stage_package make_temporary_path stage_to copy_package commit staged_code source_code
    copy_loop
staged = refl

write_status-Replaced_example :
    Replaced content
      (codes "/run/status")
      (some (joined (status_pieces Runtime.init)))
      update_disk
      (write_status memory (some (codes "/run/status")) (some Runtime.init) update_disk)
write_status-Replaced_example =
    write_status-Replaced memory content memory-IsDisk (λ path bytes d. refl) (codes "/run/status")
      Runtime.init update_disk
