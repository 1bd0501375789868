-- ===== src/A53.antt =====
-- The offline demo of the A53 cores: OKMX8MM-Demo2/a53/src/ (OKMX8MM-A53-demo holds an earlier
-- copy). This file has the batch of a53_demo.h, the file system, and file_utils.c.
pub mod Cursor
pub mod Append
pub mod Check
pub mod Paths
pub mod Outcomes
pub mod Recovery
pub mod Texts
pub mod Lines
pub mod Written
pub mod Stored
pub mod Fits
pub mod Outputs
pub mod Source
pub mod Pipeline
use okmx8mm.Base.{ℕ, ◌+◌, ◌≤◌, ◌<◌, ◌≡◌, ◌^◌, List, [], ◌∷◌, ◌++◌, Bool, true, false, ◌&&◌, ◌||◌}
use okmx8mm.Base.{
  Option, none, some, length, leb, ◌==◌, if◌then◌else◌, ℤ, pos, negsuc, decimal, All,
}
use okmx8mm.Config.{same}

-- `a53_m4_batch_t`.
pub record Batch : Type 0 where
  pub sequence : ℕ
  pub start_timestamp_us : ℕ
  pub sample_rate_hz : ℕ
  pub sample_count : ℕ
  pub analog_channel_count : ℕ
  pub aggregate_valid_mask : ℕ
  pub analog_samples : List (List ℤ)
  pub digital_states : List ℕ
  pub speed_pulse_delta : ℕ
  pub speed_period_us : ℕ

-- What each path holds; `none` is no file.
abbrev pub Disk : Type 0
Disk = List ℕ → Option (List ℕ)

abbrev pub put : Disk → List ℕ → List ℕ → Disk
put disk path bytes other = if same other path then some bytes else disk other

-- Which of the calls of the C library succeed, by their number in the function's run.
abbrev pub Works : Type 0
Works = ℕ → Bool

abbrev pub is_separator : ℕ → Bool
is_separator ch = ch == 47 || ch == 92

-- The loop of `ensure_parent_directories` from the second byte on. `mkdir` says whether the
-- directory is there afterwards.
unfoldable pub make_parents : (List ℕ → Bool) → List ℕ → List ℕ → Bool
make_parents mkdir front [] = true
make_parents mkdir front (c ∷ cs) =
    let further = make_parents mkdir (front ++ (c ∷ [])) cs in
    if is_separator c then mkdir front && further else further

unfoldable pub ensure_parent_directories : (List ℕ → Bool) → List ℕ → Bool
ensure_parent_directories mkdir [] = true
ensure_parent_directories mkdir (c ∷ cs) =
    if leb 512 (length (c ∷ cs)) then false else make_parents mkdir (c ∷ []) cs

-- `%d` of an `int16_t`.
unfoldable pub print_int : ℤ → List ℕ
print_int (pos n) = decimal 5 n
print_int (negsuc n) = 45 ∷ decimal 5 (n + 1)
