-- ===== src/A53/Paths.antt =====
-- The disk of the demo: what a write changes, and that a storage and its cursor are two files.
use okmx8mm.Base.{ℕ, ◌+◌, ◌≡◌, ◌≢◌, refl, sym, ap, ◌∙◌, arith, List, some}
use okmx8mm.Base.{length, length-append, codes, Bool-cases, inl, inr}
use okmx8mm.Config.{same}
use okmx8mm.Config.Text.{same_refl, same_sound}
use okmx8mm.A53.{Disk, put}
use okmx8mm.A53.Cursor.{cursor_path_of}

pub put_self : (disk : Disk) (path bytes : List ℕ) → put disk path bytes path ≡ some bytes
put_self disk path bytes = rw (same_refl path) refl

pub put_ne :
    (disk : Disk) (path bytes other : List ℕ)
    → other ≢ path
    → put disk path bytes other ≡ disk other
put_ne disk path bytes other ne = elim (Bool-cases (same other path)) [
  | inl equal ↦ absurd (ne (same_sound other path equal))
  | inr different ↦ rw different refl
]

pub cursor_path-ne : (path : List ℕ) → cursor_path_of path ≢ path
cursor_path-ne path e =
    let e' : length path + 7 ≡ length path =
      sym (length-append path (codes ".cursor")) ∙ ap length e in
    absurd (omega (arith, e'))
