-- ===== src/Led.antt =====
-- The controller of the LEDs, OKMX8MM-Demo3/data-collector-demo3/src/led/led.c: one round of its
-- thread, in which no other thread writes the context, and the calls of the other threads. Each
-- output is kept as the LED and its state.
pub mod Search
pub mod Round
use Prim.Native.Nat.{bit_and, bit_or}
use okmx8mm.Base.{ℕ, zero, suc, ◌+◌, ◌-◌, ◌^◌, List, [], ◌∷◌, ◌++◌, Bool, true, false}
use okmx8mm.Base.{Option, none, some, ltb, leb, ◌==◌, ◌/=◌, if◌then◌else◌, ◌<<<◌}

-- `led_state_t`; zero, which `memset` leaves, is `lit`.
pub data LedState : Type 0 where
  lit dark : LedState

pub data Lamp : Type 0 where
  running_lamp sensor_lamp error_lamp : Lamp

-- The context, with the flips of the lamps and the index of the sensor that are local variables
-- of the thread. `public_active` is COMM_ACTIVE; an error status is its number.
pub record Context : Type 0 where
  pub ticks : ℕ
  pub public_active : Bool
  pub system_running_led_state : LedState
  pub system_running_last_flicker_ticks : ℕ
  pub system_running_last_reset_ticks : ℕ
  pub public_packet_last_reset_ticks : ℕ
  pub error_sensor_flags : ℕ
  pub error_sensor_led_state : LedState
  pub error_sensor_last_flicker_ticks : ℕ
  pub error_sensor_last_reset_ticks : ℕ
  pub mysql_error_status : ℕ
  pub storage_error_status : ℕ
  pub error_led_state : LedState
  pub error_last_flicker_ticks : ℕ
  pub error_last_reset_ticks : ℕ
  pub system_running_flips : ℕ
  pub error_sensor_flips : ℕ
  pub error_sensor_index : ℕ
  pub error_flips : ℕ

-- What `start_led_controller` and the start of the thread leave.
abbrev pub started : Context
started = record {
  ticks = 0;
  public_active = true;
  system_running_led_state = lit;
  system_running_last_flicker_ticks = 0;
  system_running_last_reset_ticks = 0;
  public_packet_last_reset_ticks = 0;
  error_sensor_flags = 0;
  error_sensor_led_state = lit;
  error_sensor_last_flicker_ticks = 0;
  error_sensor_last_reset_ticks = 0;
  mysql_error_status = 0;
  storage_error_status = 0;
  error_led_state = lit;
  error_last_flicker_ticks = 0;
  error_last_reset_ticks = 0;
  system_running_flips = 0;
  error_sensor_flips = 0;
  error_sensor_index = 0;
  error_flips = 0;
}

abbrev pub flip_led_state : LedState → LedState
flip_led_state lit = dark
flip_led_state dark = lit

-- The flip of a lamp that may still light up, and the count of the times that it did.
abbrev pub flipped : ℕ → ℕ → LedState → LedState
flipped flips most state = if ltb flips most then flip_led_state state else dark

abbrev pub counted : ℕ → LedState → ℕ
counted flips lit = flips + 1
counted flips dark = flips

-- The resets of the running lamp and of the public packet.
unfoldable pub reset_running : Context → Context
reset_running c =
    let c1 =
      if leb (c.system_running_last_reset_ticks + 2000) c.ticks
      then record c { system_running_last_reset_ticks = c.ticks; system_running_flips = 0 }
      else c in
    if leb (c1.public_packet_last_reset_ticks + 5000) c1.ticks
    then record c1 { public_packet_last_reset_ticks = c1.ticks; public_active = false }
    else c1

unfoldable pub running_part : Context → Context × List (Lamp × LedState)
running_part before =
    let c = reset_running before in
    let interval = if c.public_active then 1000 else 200 in
    let most = if c.public_active then 1 else 3 in
    let state = flipped c.system_running_flips most c.system_running_led_state in
    if leb (c.system_running_last_flicker_ticks + interval) c.ticks
    then (
      record c {
        system_running_last_flicker_ticks = c.ticks;
        system_running_led_state = state;
        system_running_flips = counted c.system_running_flips state;
      },
      (running_lamp, state) ∷ [],
    )
    else (c, [])

abbrev pub next_index : ℕ → ℕ
next_index index = if leb 8 (index + 1) then 0 else index + 1

-- The search for a sensor with an error, on fuel; `none` says that it ran out.
unfoldable pub search_sensor : ℕ → ℕ → ℕ → Option ℕ
search_sensor zero flags index = none
search_sensor (suc fuel) flags index =
    let rest = search_sensor fuel flags (next_index index) in
    if flags == 0 then some index else if bit_and flags (1 <<< index) == 0 then rest else some index

unfoldable pub sensor_part : Context → Context × List (Lamp × LedState)
sensor_part c =
    let most = c.error_sensor_index + 1 in
    let c1 =
      if leb (c.error_sensor_last_reset_ticks + 3000) c.ticks
      then record c {
        error_sensor_last_reset_ticks = c.ticks;
        error_sensor_flips = 0;
        error_sensor_index = c.error_sensor_index + 1;
      }
      else c in
    let state = flipped c1.error_sensor_flips most c1.error_sensor_led_state in
    if c.error_sensor_flags == 0
    then (
      record c { error_sensor_led_state = dark; error_sensor_flips = 0 },
      (sensor_lamp, dark) ∷ [],
    )
    else if leb (c1.error_sensor_last_flicker_ticks + 200) c1.ticks
    then (
      record c1 {
        error_sensor_led_state = state;
        error_sensor_last_flicker_ticks = c1.ticks;
        error_sensor_flips = counted c1.error_sensor_flips state;
      },
      (sensor_lamp, state) ∷ [],
    )
    else (c1, [])

unfoldable pub error_part : Context → Context × List (Lamp × LedState)
error_part c =
    let status = bit_or (c.storage_error_status <<< 0) (c.mysql_error_status <<< 1) in
    let c1 =
      if leb (c.error_last_reset_ticks + 3000) c.ticks
      then record c { error_last_reset_ticks = c.ticks; error_flips = 0 }
      else c in
    let state = flipped c1.error_flips status c1.error_led_state in
    if status == 0
    then (record c { error_led_state = dark; error_flips = 0 }, (error_lamp, dark) ∷ [])
    else if leb (c1.error_last_flicker_ticks + 250) c1.ticks
    then (
      record c1 {
        error_led_state = state;
        error_last_flicker_ticks = c1.ticks;
        error_flips = counted c1.error_flips state;
      },
      (error_lamp, state) ∷ [],
    )
    else (c1, [])

-- A round of the thread; `none` says that the search did not end within the fuel.
unfoldable pub tick : ℕ → Context → Option (Context × List (Lamp × LedState))
tick fuel before =
    let (c, running) = running_part before in
    elim (search_sensor fuel c.error_sensor_flags c.error_sensor_index) [
      | none ↦ none
      | some index ↦
          let (c1, sensor) = sensor_part (record c { error_sensor_index = index }) in
          let (c2, errors) = error_part c1 in
          some (record c2 { ticks = c2.ticks + 50 }, running ++ (sensor ++ errors))
    ]

-- `led_set_public_packet_status`, and the setters of the errors; an `int` of 32 bits.
unfoldable pub set_public_packet_status : Bool → Context → Context
set_public_packet_status true c = record c {
  public_active = true;
  public_packet_last_reset_ticks = c.ticks;
}
set_public_packet_status false c = record c { public_active = false }

unfoldable pub set_sensor_error_status : ℕ → ℕ → Context → Context
set_sensor_error_status index status c = record c {
  error_sensor_flags =
      bit_or (bit_and c.error_sensor_flags (2 ^ 32 - 1 - 1 <<< index)) (status <<< index);
}

abbrev pub set_mysql_error_status : ℕ → Context → Context
set_mysql_error_status status c = record c { mysql_error_status = status }

abbrev pub set_storage_error_status : ℕ → Context → Context
set_storage_error_status status c = record c { storage_error_status = status }
