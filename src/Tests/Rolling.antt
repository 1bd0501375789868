-- ===== src/Tests/Rolling.antt =====
-- Tests of the rolling, on a file system that is the number of its free bytes.
use okmx8mm.Base.{ℕ, ◌+◌, ◌≤◌, refl, arith, List, [], ◌∷◌, true, none, some, codes}
use okmx8mm.Rolling.{Entry, Folders, Calendar, rolling}
use okmx8mm.Rolling.Ends.{Ended, rolling-Ended}

abbrev one_day : List Entry
one_day =
    record { name = codes ".."; is_folder = true }
    ∷ record { name = codes "2026-01"; is_folder = true }
    ∷ record { name = codes "05"; is_folder = true }
    ∷ []

-- Each removal frees four bytes.
abbrev disk : Folders ℕ
disk = record {
  free = λ bytes. some bytes;
  entries = λ path bytes. some one_day;
  remove = λ folder bytes. bytes + 4;
}

abbrev calendar : Calendar
calendar = record { month_time = λ year month. 100; date_time = λ year month day. 100 + day.1 }

rolling-Ended_example :
    Ended (λ bytes. 3 ≤ bytes) (rolling disk calendar 12 none (codes "/data") 10 1000 3)
rolling-Ended_example =
    rolling-Ended disk calendar (codes "/data") 1000 (λ bytes. 3 ≤ bytes) (λ bytes. bytes) 10
      (λ bytes. refl) (λ folder bytes old. omega arith) (λ folder bytes old h. omega (arith, h)) 12
      none 3 (omega arith) (omega arith)
