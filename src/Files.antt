-- ===== src/Files.antt =====
-- The calls of stdio that write and replace files, as an interface: the C library and the file
-- system are not part of the repository. A file that is open is named by its path.
use okmx8mm.Base.{if◌then◌else◌, Bool-cases, inl, inr, ◌∙◌}
use okmx8mm.Base.{
  ℕ, ◌≡◌, ◌≢◌, List, [], ◌∷◌, ◌++◌, Bool, true, false, Option, some, length, Result, ok, err,
}

-- What is left of a file that is open for reading, while nothing writes to it: the pieces that
-- `fread` returns before it returns 0, whether `ferror` holds when some of the pieces are left, and
-- whether `fclose` returns 0.
pub record Source : Type 0 where
  pub pieces : List (List ℕ)
  pub has_failed : List (List ℕ) → Bool
  pub closes : Bool

-- Each call says whether it succeeds, `write` how many bytes it takes.
pub record Files (D : Type 0) : Type 0 where
  pub open_read : List ℕ → D → Bool
  pub source : List ℕ → D → Source
  pub open_write : List ℕ → D → Bool × D
  pub write : List ℕ → List ℕ → D → ℕ × D
  pub close : List ℕ → D → Bool × D
  pub rename : List ℕ → List ℕ → D → Bool × D
  pub remove : List ℕ → D → D

-- The bytes of the pieces, in order.
abbrev pub joined : List (List ℕ) → List ℕ
joined [] = []
joined (piece ∷ rest) = piece ++ joined rest

-- What the calls are documented to do: `content` is what a path holds, with the bytes that are
-- still in the buffer. Nothing is said of the path that a failing call is about, except that a
-- failing `rename` changes nothing.
pub record IsDisk {D : Type 0} (files : Files D) (content : List ℕ → D → Option (List ℕ))
    : Type 0 where
  pub holds :
      (path : List ℕ) (d : D)
      → files.open_read path d ≡ true
      → (bytes : List ℕ) × (content path d ≡ some bytes)
  pub delivers :
      (path bytes : List ℕ) (d : D)
      → content path d ≡ some bytes
      → (files.source path d).has_failed [] ≡ false
      → joined (files.source path d).pieces ≡ bytes
  pub opens :
      (path : List ℕ) (d : D)
      → (files.open_write path d).0 ≡ true
      → content path (files.open_write path d).1 ≡ some []
  pub writes :
      (path bytes old : List ℕ) (d : D)
      → content path d ≡ some old
      → (files.write path bytes d).0 ≡ length bytes
      → content path (files.write path bytes d).1 ≡ some (old ++ bytes)
  pub closes :
      (path : List ℕ) (d : D)
      → (files.close path d).0 ≡ true
      → content path (files.close path d).1 ≡ content path d
  pub renames :
      (from to : List ℕ) (d : D)
      → (files.rename from to d).0 ≡ true
      → content to (files.rename from to d).1 ≡ content from d
  pub rename_fails :
      (from to path : List ℕ) (d : D)
      → (files.rename from to d).0 ≡ false
      → content path (files.rename from to d).1 ≡ content path d
  pub open_others :
      (path other : List ℕ) (d : D)
      → other ≢ path
      → content other (files.open_write path d).1 ≡ content other d
  pub write_others :
      (path bytes other : List ℕ) (d : D)
      → other ≢ path
      → content other (files.write path bytes d).1 ≡ content other d
  pub close_others :
      (path other : List ℕ) (d : D)
      → other ≢ path
      → content other (files.close path d).1 ≡ content other d
  pub remove_others :
      (path other : List ℕ) (d : D)
      → other ≢ path
      → content other (files.remove path d) ≡ content other d

-- What a function that replaces a file does to its path: 0 comes with the new content, and an error
-- with what was there before.
abbrev pub Replaced :
    {D : Type 0}
    → (List ℕ → D → Option (List ℕ))
    → List ℕ
    → Option (List ℕ)
    → D
    → Result (Unit {0}) × D
    → Type 0
Replaced content path new d (ok _, after) = content path after ≡ new
Replaced content path new d (err n, after) = content path after ≡ content path d

-- The end that the functions share: the temporary file is renamed, or removed with an error.
pub renamed-Replaced :
    {D : Type 0} (files : Files D) (content : List ℕ → D → Option (List ℕ))
    → IsDisk files content
    → (temporary path : List ℕ) (n : ℕ) (new : Option (List ℕ)) (start d : D) → path ≢ temporary
    → content path d ≡ content path start
    → content temporary d ≡ new
    → Replaced content path new start (
        if (files.rename temporary path d).0
        then (ok tt, (files.rename temporary path d).1)
        else (err n, files.remove temporary (files.rename temporary path d).1))
renamed-Replaced files content disk temporary path n new start d ne kept written =
    let moved = files.rename temporary path d in
    elim (Bool-cases moved.0) [
      | inl done ↦ rw done (disk.renames temporary path d done ∙ written)
      | inr failed ↦ rw failed (
          disk.remove_others temporary path moved.1 ne
          ∙ disk.rename_fails temporary path path d failed
          ∙ kept)
    ]
