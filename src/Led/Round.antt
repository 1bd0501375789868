-- ===== src/Led/Round.antt =====
-- A round of the thread of the LEDs ends, or it never does.
use Prim.Native.Nat.{bit_and}
use okmx8mm.Base.{ℕ, ◌+◌, ◌≤◌, ◌<◌, ◌^◌, ◌≡◌, refl, arith, ap, ◌∙◌, inl, inr, ◌⊎◌, ◌≢◌}
use okmx8mm.Base.{List, ◌++◌, true, none, some, ◌==◌, ◌<<<◌, subst}
use okmx8mm.Base.{all_below, all_below_sound, eq-cases}
use okmx8mm.Led.{
  Context, LedState, Lamp, search_sensor, running_part, sensor_part, error_part, tick,
  reset_running,
}
use okmx8mm.Led.Search.{IsFlagged, search_sensor-found, search_sensor-index, search_sensor-lost}

-- Of flags below 2 ^ 8 the ninth is clear.
ninth_clear : all_below 256 (λ flags. bit_and flags (1 <<< 8) == 0) ≡ true
ninth_clear = refl

running_part-kept :
    (c : Context)
    → ((running_part c).0.error_sensor_flags ≡ c.error_sensor_flags)
      × ((running_part c).0.error_sensor_index ≡ c.error_sensor_index)
unfolding running_part reset_running
running_part-kept c = ground arith

sensor_part-index :
    (c : Context)
    → ((sensor_part c).0.error_sensor_index ≤ c.error_sensor_index + 1)
      × (((c.error_sensor_flags == 0) ≡ true)
          → (sensor_part c).0.error_sensor_index ≡ c.error_sensor_index)
unfolding sensor_part
sensor_part-index c = ground arith

error_part-index : (c : Context) → (error_part c).0.error_sensor_index ≡ c.error_sensor_index
unfolding error_part
error_part-index c = ground arith

found_index :
    (c : Context) (goal : ℕ)
    → c.error_sensor_index < 9
    → (c.error_sensor_flags ≡ 0) ⊎ ((goal < 8) × IsFlagged c.error_sensor_flags goal)
    → (k : ℕ) × (search_sensor 9 c.error_sensor_flags c.error_sensor_index ≡ some k)
unfolding search_sensor
found_index c goal small (inl none_set) =
    let zero_flags : (c.error_sensor_flags == 0) ≡ true = ground (arith, none_set) in
    (c.error_sensor_index, rw (search_sensor, zero_flags) refl)
found_index c goal small (inr (near, set_at)) =
    search_sensor-found c.error_sensor_flags c.error_sensor_index goal small near set_at

-- The state that a round leaves once the search has found an index.
abbrev after_search : Context → ℕ → Context
after_search c index =
    let (c1, sensor) = sensor_part (record (running_part c).0 { error_sensor_index = index }) in
    let (c2, errors) = error_part c1 in record c2 { ticks = c2.ticks + 50 }

tick-found :
    (c : Context) (k : ℕ)
    → search_sensor 9 (running_part c).0.error_sensor_flags (running_part c).0.error_sensor_index
      ≡ some k
    → (outputs : List (Lamp × LedState)) × (tick 9 c ≡ some (after_search c k, outputs))
unfolding tick
tick-found c k e =
    let (c1, sensor) = sensor_part (record (running_part c).0 { error_sensor_index = k }) in
    let (c2, errors) = error_part c1 in
    ((running_part c).1 ++ (sensor ++ errors), rw (tick, e) refl)

-- An index that was found for flags below 2 ^ 8 leaves room for the step to the next one.
after_search-index :
    (c : Context) (k : ℕ)
    → c.error_sensor_flags < 2 ^ 8
    → k < 9
    → ((c.error_sensor_flags == 0) ≡ true) ⊎ IsFlagged c.error_sensor_flags k
    → (after_search c k).error_sensor_index < 9
after_search-index c k low small found =
    let c0 = record (running_part c).0 { error_sensor_index = k } in
    let (flags, index) = running_part-kept c in
    let (bound, same) = sensor_part-index c0 in
    let last = error_part-index (sensor_part c0).0 in
    elim found [
      | inl zero_flags ↦
          let unchanged = same (ap (λ f. f == 0) flags ∙ zero_flags) in
          omega (arith, last, unchanged, small)
      | inr set_at ↦ elim (eq-cases k 8) [
        | inl ninth ↦
            let clear =
              all_below_sound 256 (λ f. bit_and f (1 <<< 8) == 0) c.error_sensor_flags ninth_clear
                low in
            let set_ninth = subst (IsFlagged c.error_sensor_flags) ninth set_at in
            absurd (ground (arith, clear, set_ninth))
        | inr before ↦ omega (arith, last, bound, small, before)
      ]
    ]

-- A round ends within nine steps of its search, with fifty ticks more, if there is no flag or one
-- of the first eight is set. If there is no flag behind these eight, the next round starts with an
-- index below nine again.
pub tick-ends :
    (c : Context) (goal : ℕ)
    → c.error_sensor_index < 9
    → (c.error_sensor_flags ≡ 0) ⊎ ((goal < 8) × IsFlagged c.error_sensor_flags goal)
    → (next : Context) × (outputs : List (Lamp × LedState)) × (tick 9 c ≡ some (next, outputs))
      × (c.error_sensor_flags < 2 ^ 8 → next.error_sensor_index < 9)
tick-ends c goal small flagged =
    let (flags, index) = running_part-kept c in
    let (k, found) = found_index c goal small flagged in
    let (near, set_at) =
      search_sensor-index 9 c.error_sensor_flags c.error_sensor_index k small found in
    let kept = (λ i. search_sensor 9 (flags i) (index i)) ∙ found in
    let (outputs, ended) = tick-found c k kept in
    (after_search c k, outputs, ended, λ low. after_search-index c k low near set_at)

-- With a flag set, but none of the first eight, a round that starts with an index below eight
-- never ends: no number of steps of its search is enough.
pub tick-lost :
    (c : Context) (fuel : ℕ)
    → c.error_sensor_index < 8
    → c.error_sensor_flags ≢ 0
    → ((j : ℕ) → j < 8 → (bit_and c.error_sensor_flags (1 <<< j) == 0) ≡ true)
    → tick fuel c ≡ none
unfolding tick
tick-lost c fuel small some_flag clear =
    let (flags, index) = running_part-kept c in
    let lost =
      (λ i. search_sensor fuel (flags i) (index i))
      ∙ search_sensor-lost fuel c.error_sensor_flags c.error_sensor_index
          (ground (arith, some_flag)) clear small in
    rw (tick, lost) refl
