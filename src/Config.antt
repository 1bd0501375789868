-- ===== src/Config.antt =====
-- The configuration of the collector,
-- OKMX8MM-Demo3/data-collector-demo3/src/config/demo3_config.c. Texts are lists of their bytes,
-- without the terminating zero. The members of the C structure have the names of their keys, so a
-- configuration is a function of the key for the texts and one for the numbers.
pub mod Text
pub mod Line
pub mod Reading
pub mod Load
use okmx8mm.Base.{ℕ, zero, suc, ◌+◌, ◌-◌, ◌*◌, ◌^◌, List, [], ◌∷◌, ◌++◌, Bool, true, false}
use okmx8mm.Base.{◌&&◌, ◌||◌, not, Option, none, some, length, ltb, leb, ◌==◌, if◌then◌else◌}
use okmx8mm.Base.{ℤ, pos, negsuc, minus, failed, codes}

abbrev pub text_length : ℕ
text_length = 128

-- `isspace` in the C locale.
abbrev pub is_space : ℕ → Bool
is_space c = (leb 9 c && leb c 13) || c == 32

abbrev pub is_digit : ℕ → Bool
is_digit c = leb 48 c && leb c 57

unfoldable pub trim_front : List ℕ → List ℕ
trim_front [] = []
trim_front (c ∷ cs) = let rest = trim_front cs in if is_space c then rest else c ∷ cs

abbrev pub cons_unless_space : ℕ → List ℕ → List ℕ
cons_unless_space c [] = if is_space c then [] else c ∷ []
cons_unless_space c (d ∷ ds) = c ∷ d ∷ ds

unfoldable pub trim_end : List ℕ → List ℕ
trim_end [] = []
trim_end (c ∷ cs) = cons_unless_space c (trim_end cs)

abbrev pub trim : List ℕ → List ℕ
trim text = trim_end (trim_front text)

-- `copy_value`: the new text, or nothing for -1.
unfoldable pub copy_value : List ℕ → Option (List ℕ)
copy_value value = if leb text_length (length value) then none else some value

-- The digits from the front: their value, how many they are, and the rest.
unfoldable pub read_digits : ℕ → ℕ → List ℕ → ℕ × ℕ × List ℕ
read_digits value count [] = (value, count, [])
read_digits value count (c ∷ cs) =
    let rest = read_digits (value * 10 + (c - 48)) (count + 1) cs in
    if is_digit c then rest else (value, count, c ∷ cs)

-- The sign, if there is one: whether it is a minus, and the rest.
unfoldable pub read_sign : List ℕ → Bool × List ℕ
read_sign [] = (false, [])
read_sign (c ∷ cs) =
    if c == 45 then (true, cs) else if c == 43 then (false, cs) else (false, c ∷ cs)

-- `strtol` to base 10 with a `long` of 64 bits: the sign and the value, the rest, and whether
-- there is a conversion in range.
unfoldable pub strtol : List ℕ → (Bool × ℕ) × List ℕ × Bool
strtol text =
    let (negative, unsigned) = read_sign (trim_front text) in
    let (value, count, rest) = read_digits 0 0 unsigned in
    (
      (negative, value),
      rest,
      not (count == 0) && ltb value (if negative then 2 ^ 63 + 1 else 2 ^ 63),
    )

-- `parse_int`: the `int`, or nothing for -1.
unfoldable pub parse_int : List ℕ → Option ℤ
parse_int text =
    let ((negative, value), rest, converted) = strtol text in
    if not converted
    then none
    else if not (length (trim rest) == 0)
    then none
    else if negative
    then (if ltb (2 ^ 31) value then none else some (minus value))
    else (if leb (2 ^ 31) value then none else some (pos value))

-- `strcmp(a, b) == 0`.
abbrev pub same : List ℕ → List ℕ → Bool
same [] [] = true
same [] (d ∷ ds) = false
same (c ∷ cs) [] = false
same (c ∷ cs) (d ∷ ds) = c == d && same cs ds

-- `parse_bool`: 1, 0, or nothing for -1.
unfoldable pub parse_bool : List ℕ → Option ℤ
parse_bool text =
    if same text (codes "1") || same text (codes "true") || same text (codes "yes")
    then some (pos 1)
    else if same text (codes "0") || same text (codes "false") || same text (codes "no")
    then some (pos 0)
    else none

pub record Config : Type 0 where
  pub texts : List ℕ → List ℕ
  pub numbers : List ℕ → ℤ

-- A member of the structure is written.
unfoldable pub put {ℓ} : {A : Type ℓ} → (List ℕ → A) → List ℕ → A → List ℕ → A
put members key value k = if same k key then value else members k

-- What the macros APPLY_STRING, APPLY_INT and APPLY_BOOL read.
pub data Kind : Type 0 where
  string int bool : Kind

-- The chain of the macros.
abbrev pub table : List (List ℕ × Kind)
table =
    (codes "log_file_prefix", string)
    ∷ (codes "source", string)
    ∷ (codes "serial_device", string)
    ∷ (codes "baudrate", int)
    ∷ (codes "start_bits", int)
    ∷ (codes "data_bits", int)
    ∷ (codes "stop_bits", int)
    ∷ (codes "parity_bits", int)
    ∷ (codes "sample_period_ms", int)
    ∷ (codes "local_storage_path", string)
    ∷ (codes "sd_storage_path", string)
    ∷ (codes "storage_file_name", string)
    ∷ (codes "storage_compress", bool)
    ∷ (codes "sensor_power_enabled", bool)
    ∷ (codes "led_enabled", bool)
    ∷ (codes "led_running_pin", int)
    ∷ (codes "led_sensor_error_pin", int)
    ∷ (codes "led_error_pin", int)
    ∷ (codes "mysql_enabled", bool)
    ∷ (codes "mysql_host", string)
    ∷ (codes "mysql_port", int)
    ∷ (codes "mysql_user", string)
    ∷ (codes "mysql_password", string)
    ∷ (codes "mysql_database", string)
    ∷ (codes "mqtt_enabled", bool)
    ∷ (codes "mqtt_broker", string)
    ∷ (codes "mqtt_port", int)
    ∷ (codes "mqtt_topic", string)
    ∷ (codes "mqtt_client_id", string)
    ∷ (codes "status_enabled", bool)
    ∷ (codes "status_path", string)
    ∷ (codes "ota_enabled", bool)
    ∷ (codes "ota_package_path", string)
    ∷ (codes "ota_staging_path", string)
    ∷ (codes "ota_reboot_marker_path", string)
    ∷ (codes "rpmsg_device", string)
    ∷ (codes "rpmsg_poll_timeout_ms", int)
    ∷ (codes "can_enabled", bool)
    ∷ (codes "can_interface", string)
    ∷ (codes "can_id_base", int)
    ∷ (codes "public_udp_host", string)
    ∷ (codes "public_udp_port", int)
    ∷ []

-- The first macro whose key is this one.
abbrev pub kind_in : List (List ℕ × Kind) → List ℕ → Option Kind
kind_in [] key = none
kind_in (entry ∷ entries) key = if same key entry.0 then some entry.1 else kind_in entries key

unfoldable pub kind_of : List ℕ → Option Kind
kind_of = kind_in table

abbrev pub put_text : Config → List ℕ → Option (List ℕ) → ℤ × Config
put_text config key none = (minus 1, config)
put_text config key (some value) = (pos 0, record config { texts = put config.texts key value })

abbrev pub put_number : Config → List ℕ → Option ℤ → ℤ × Config
put_number config key none = (minus 1, config)
put_number config key (some value) =
    (pos 0, record config { numbers = put config.numbers key value })

-- The macros for a key and a value. A key that none of them knows is skipped.
unfoldable pub apply_value : Config → List ℕ → List ℕ → ℤ × Config
apply_value config key value = elim (kind_of key) [
  | none ↦ (pos 0, config)
  | some string ↦ put_text config key (copy_value value)
  | some int ↦ put_number config key (parse_int value)
  | some bool ↦ put_number config key (parse_bool value)
]

-- `strchr(text, '=')`: what is in front of it, and what is behind it.
unfoldable pub split : List ℕ → Option (List ℕ × List ℕ)
split [] = none
split (c ∷ cs) =
    let rest = split cs in
    if c == 61
    then some ([], cs)
    else elim rest [ none ↦ none | some (front, back) ↦ some (c ∷ front, back) ]

-- Whether a trimmed line is empty or a comment.
abbrev pub is_blank : List ℕ → Bool
is_blank [] = true
is_blank (c ∷ cs) = c == 35

-- `demo3_config_apply_line`. `given` says that no pointer is null.
unfoldable pub apply_line : Bool → Config → List ℕ → ℤ × Config
apply_line false config line = (minus 1, config)
apply_line true config line =
    if leb (text_length * 2) (length line)
    then (minus 1, config)
    else if is_blank (trim line)
    then (pos 0, config)
    else elim (split (trim line)) [
      | none ↦ (minus 1, config)
      | some (key, value) ↦ apply_value config (trim key) (trim value)
    ]
