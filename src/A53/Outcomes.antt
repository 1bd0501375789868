-- ===== src/A53/Outcomes.antt =====
-- The ways in which the append of a line ends.
use okmx8mm.Base.{ℕ, ◌-◌, ◌≡◌, refl, List, ◌++◌, Bool, true, false, not, ◌&&◌, ◌⊎◌, inl, inr}
use okmx8mm.Base.{Bool-cases, Option, some, Option-cases, length, take, ◌==◌}
use okmx8mm.A53.{Disk, put, ensure_parent_directories}
use okmx8mm.A53.Append.{Calls, held, append_line}

-- Nothing is changed; the file is there but as it was; the whole line is written; or a part of it.
abbrev pub Appended : Calls → List ℕ → Option (List ℕ) → Disk → Bool × Disk → Type 0
Appended calls path line disk result =
    ((result ≡ (false, disk)) ⊎ (result ≡ (false, put disk path (held (disk path)))))
    ⊎ ((text : List ℕ) × (line ≡ some text)
        × ((result ≡ (true, put disk path (held (disk path) ++ text)))
            ⊎ (result ≡ (false, put disk path (held (disk path) ++ take calls.reach text)))))

pub append_line-Appended :
    (calls : Calls) (path : List ℕ) (line : Option (List ℕ)) (disk : Disk)
    → Appended calls path line disk (append_line calls path line disk)
unfolding append_line
append_line-Appended calls path line disk =
    elim (Bool-cases (not (ensure_parent_directories calls.mkdir path && calls.works 0))) [
      | inl closed ↦ inl (inl (rw closed refl))
      | inr opened ↦ elim (Bool-cases (not (calls.works 1 && calls.works 2))) [
        | inl lost ↦ inl (inr (rw (opened, lost) refl))
        | inr placed ↦ elim (Option-cases line) [
          | inr long ↦ inl (inr (rw (opened, placed, long) refl))
          | inl (text, fits) ↦
              elim (Bool-cases
                (length text - calls.missing == length text && (calls.works 3 && calls.works 4))) [
                  | inl full ↦ inr (text, fits, inl (rw (opened, placed, fits, full) refl))
                  | inr short ↦ inr (text, fits, inr (rw (opened, placed, fits, short) refl))
                ]
        ]
      ]
    ]
