-- ===== src/Rolling/Ends.antt =====
-- The rolling ends, and removes no folder of today or later.
use okmx8mm.Base.{ℕ, zero, suc, ◌+◌, ◌-◌, ◌≤◌, ◌<◌, ◌≡◌, ◌≢◌, refl, arith}
use okmx8mm.Base.{List, [], ◌∷◌, Bool, not, ◌&&◌, ◌||◌, Bool-cases, inl, inr}
use okmx8mm.Base.{Option, none, some, Option-cases, ltb, leb, ◌==◌, ℤ, pos, minus, codes}
use okmx8mm.A53.Check.{contains}
use okmx8mm.Base.{failed}
use okmx8mm.Rolling.{
  check_sdcard_mount, Entry, Folders, Calendar, int64_max, Oldest, find_oldest, time_of_month,
  time_of_date, child,
}
use okmx8mm.Rolling.{removed, oldest_date, is_short, same_free, choose, roll_loop, rolling, is_dots}

-- A name is found among the entries of a folder with its time, or nothing is found.
abbrev pub Found : (List ℕ → Option ℕ) → Oldest → Type 0
Found time_of best = best.0 ≢ int64_max → time_of best.1 ≡ some best.0

find_oldest-Found :
    (time_of : List ℕ → Option ℕ) (best : Oldest) (entries : List Entry)
    → Found time_of best
    → Found time_of (find_oldest time_of best entries)
unfolding find_oldest
find_oldest-Found time_of best [] h = h
find_oldest-Found time_of best (entry ∷ rest) h = elim (Option-cases (time_of entry.name)) [
  | inr unknown ↦ rw (unknown, find_oldest) (find_oldest-Found time_of best rest h)
  | inl (time, known) ↦ elim (Bool-cases (is_dots entry.name || not entry.is_folder)) [
    | inl other ↦ rw (known, find_oldest, other) (find_oldest-Found time_of best rest h)
    | inr folder ↦ elim (Bool-cases (ltb time best.0)) [
      | inr younger ↦
          rw (known, find_oldest, folder, younger) (find_oldest-Found time_of best rest h)
      | inl older ↦
          rw (known, find_oldest, folder, older)
            (find_oldest-Found time_of (time, entry.name) rest (λ below. known))
    ]
  ]
]

-- The run ends with a code, in a state with a property.
abbrev pub Ended {ℓ} : {W : Type 0} → (W → Type ℓ) → Option (ℤ × W) → Type ℓ
Ended {W} P result = (code : ℤ) × (w : W) × (result ≡ some (code, w)) × P w

module _ {ℓ} {W : Type 0} (folders : Folders W) (calendar : Calendar) (path : List ℕ) (today : ℕ)
    (P : W → Type ℓ) where
  -- A folder of a day before today, by the names of its month and its day.
  abbrev pub OldFolder : List ℕ → Type 0
  OldFolder folder =
      (month : List ℕ) × (day : List ℕ) × (time : ℕ) × (time_of_date calendar month day ≡ some time)
      × (time < today)
      × (folder ≡ child (child path month) day)

  oldest_date-Found :
      (month : Oldest) (w : W)
      → Found (time_of_date calendar month.1) (oldest_date folders calendar path month w).1
  unfolding oldest_date
  oldest_date-Found (time, name) w = elim (Bool-cases (not (ltb time int64_max))) [
    | inl late ↦ rw late (λ ne. absurd (ne refl))
    | inr early ↦ elim (Option-cases (folders.entries (child path name) w)) [
      | inr closed ↦ rw (early, oldest_date, closed) (λ ne. absurd (ne refl))
      | inl (days, opened) ↦
          rw (early, oldest_date, opened)
            (find_oldest-Found (time_of_date calendar name) (int64_max, []) days
              (λ ne. absurd (ne refl)))
    ]
  ]

  chosen-OldFolder :
      (month : Oldest) (found : Bool × Oldest) (folder : List ℕ)
      → Found (time_of_date calendar month.1) found.1
      → (choose today path month found).1 ≡ some folder
      → OldFolder folder
  unfolding choose
  chosen-OldFolder (month_time, month) (opened, (time, day)) folder h chosen =
      elim (Bool-cases (leb today time)) [
        | inl late ↦ absurd (ground (arith, late, chosen))
        | inr early ↦ elim (Bool-cases (time == int64_max)) [
          | inl nothing ↦ absurd (ground (arith, early, nothing, chosen))
          | inr some_day ↦ (
            month,
            day,
            time,
            h (λ e. absurd (ground (arith, some_day, e))),
            ground (arith, early),
            ground (arith, early, some_day, chosen),
          )
        ]
      ]

  module _ (space : W → ℕ) (limit : ℕ) (known : (w : W) → folders.free w ≡ some (space w))
      (freed : (folder : List ℕ) (w : W)
        → OldFolder folder
        → space w ≤ space (folders.remove folder w))
      (kept : (folder : List ℕ) (w : W)
        → OldFolder folder
        → P w
        → P (folders.remove folder w)) where
    removed-kept :
        (folder : Option (List ℕ)) (w : W)
        → ((old : List ℕ) → folder ≡ some old → OldFolder old)
        → P w
        → P (removed folders calendar folder w)
          × (space w ≤ space (removed folders calendar folder w))
    unfolding removed
    removed-kept none w old h = (h, omega arith)
    removed-kept (some folder) w old h =
        (kept folder w (old folder refl) h, freed folder w (old folder refl))

    roll_loop-Ended :
        (fuel last : ℕ) (w : W)
        → last ≤ space w
        → limit - last < fuel
        → P w
        → Ended P (roll_loop folders calendar fuel path limit today (some last) w)
    unfolding roll_loop
    roll_loop-Ended zero last w grows enough h = absurd (omega (arith, enough))
    roll_loop-Ended (suc fuel) last w grows enough h =
        let free : Option ℕ = some (space w) in
        elim (Bool-cases (not (is_short limit free) || same_free free (some last))) [
          | inl done ↦ (pos 0, w, rw (known w, done) refl, h)
          | inr on ↦ elim (Option-cases (folders.entries path w)) [
            | inr closed ↦ (minus 1, w, rw (known w, on, roll_loop, closed) refl, h)
            | inl (months, opened) ↦
                let month = find_oldest (time_of_month calendar) (int64_max, []) months in
                let found = oldest_date folders calendar path month w in
                let chosen = choose today path month found in
                let after = removed folders calendar chosen.1 w in
                let (good, more) =
                  removed-kept chosen.1 w
                    (λ old e. chosen-OldFolder month found old (oldest_date-Found month w) e) h in
                elim (Option-cases chosen.0) [
                  | inl (code, stops) ↦
                      (code, after, rw (known w, on, roll_loop, opened, stops) refl, good)
                  | inr continues ↦
                      let less : limit - space w < fuel = ground (arith, on, grows, enough) in
                      let (code, last_w, ended, fine) =
                        roll_loop-Ended fuel (space w) after more less good in
                      let same : roll_loop folders calendar fuel path limit today (folders.free w)
                            after
                          ≡ some (code, last_w) =
                        rw (known w) ended in
                      (code, last_w, rw (known w, on, roll_loop, opened, continues) same, fine)
                ]
          ]
        ]

    -- On a file system whose free space is known and does not shrink when an old folder is removed,
    -- with fuel for two rounds more than the limit counts bytes the rolling ends with a code, and
    -- what held before and is kept by the removal of folders of days before today holds then.
    pub rolling-Ended :
        (fuel : ℕ) (mounts : Option (List (List ℕ))) (w : W)
        → limit + 2 ≤ fuel
        → P w
        → Ended P (rolling folders calendar fuel mounts path limit today w)
    unfolding rolling
    rolling-Ended fuel mounts w enough h =
        elim (Bool-cases
          (contains (codes "/media/sdcard/") path && failed (check_sdcard_mount mounts).0)) [
            | inl missing ↦ (pos 0, w, rw missing refl, h)
            | inr there ↦ elim (Bool-cases (ltb limit (space w))) [
              | inl plenty ↦ (pos 0, w, rw (there, known w, rolling, plenty) refl, h)
              | inr short ↦
                  let (code, last_w, ended, fine) =
                    roll_loop-Ended fuel 0 w (omega arith) (omega (arith, enough)) h in
                  (code, last_w, rw (there, known w, rolling, short) ended, fine)
            ]
          ]
