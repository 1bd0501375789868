-- ===== src/Tests/Led.antt =====
-- Tests of the LED controller.
use Prim.Native.Nat.{bit_and}
use okmx8mm.Base.{
  ◌<◌, ◌^◌, ◌≡◌, refl, arith, inr, List, [], ◌∷◌, some, none, ◌==◌, ◌<<<◌, all_below_sound,
}
use okmx8mm.Led.{
  Context, started, LedState, Lamp, dark, running_lamp, sensor_lamp, error_lamp, tick,
}
use okmx8mm.Led.{
  set_sensor_error_status, running_part, reset_running, search_sensor, sensor_part, error_part,
}
use okmx8mm.Led.Round.{tick-ends, tick-lost}

-- The sixth sensor fails, and the search stands at the last one.
abbrev failing : Context
failing = record started {
  error_sensor_flags = 32;
  error_sensor_index = 8;
  ticks = 3000;
  mysql_error_status = 1;
}

failing_lem : set_sensor_error_status 5 1 (record failing { error_sensor_flags = 0 }) ≡ failing
unfolding set_sensor_error_status
failing_lem = refl

tick-ends_example :
    (next : Context) × (outputs : List (Lamp × LedState)) × (tick 9 failing ≡ some (next, outputs))
    × (32 < 2 ^ 8 → next.error_sensor_index < 9)
tick-ends_example = tick-ends failing 5 (omega arith) (inr (omega arith, refl))

-- Only the ninth sensor fails.
abbrev stuck : Context
stuck = record failing { error_sensor_flags = 256; error_sensor_index = 3 }

tick-lost_example : tick 1000 stuck ≡ none
tick-lost_example =
    tick-lost stuck 1000 (omega arith) (λ e. absurd (omega arith))
      (λ j small. all_below_sound 8 (λ j. bit_and 256 (1 <<< j) == 0) j refl small)

-- The three lamps in the first round that finds it.
outputs_lem :
    elim (tick 9 failing) [ none ↦ [] | some (next, outputs) ↦ outputs ]
    ≡ (running_lamp, dark) ∷ (sensor_lamp, dark) ∷ (error_lamp, dark) ∷ []
unfolding tick running_part reset_running search_sensor sensor_part error_part
outputs_lem = refl
