-- ===== src/Config/Reading.antt =====
-- The load of a file, and the defaults: `demo3_config_load` and `demo3_config_init` in
-- OKMX8MM-Demo3/data-collector-demo3/src/config/demo3_config.c.
use okmx8mm.Base.{ℕ, zero, suc, ◌+◌, List, [], ◌∷◌, Bool, true, false}
use okmx8mm.Base.{Option, none, some, ◌==◌, if◌then◌else◌}
use okmx8mm.Base.{ℤ, pos, minus, failed, codes}
use okmx8mm.Config.{Config, apply_line, put}

abbrev pub cons_first : ℕ → List (List ℕ) → List (List ℕ)
cons_first c [] = (c ∷ []) ∷ []
cons_first c (line ∷ lines) = (c ∷ line) ∷ lines

-- The lines that `fgets` with a buffer of 256 bytes reads one by one; the current line has room
-- for `suc left` more bytes.
unfoldable pub fgets_lines : ℕ → List ℕ → List (List ℕ)
fgets_lines left [] = []
fgets_lines zero (c ∷ cs) = (c ∷ []) ∷ fgets_lines 254 cs
fgets_lines (suc left) (c ∷ cs) =
    let next = fgets_lines 254 cs in
    let more = fgets_lines left cs in if c == 10 then (c ∷ []) ∷ next else cons_first c more

-- The loop over the lines, with the number of the last line.
unfoldable pub load_lines : ℕ → Config → List (List ℕ) → ℤ × Config
load_lines number config [] = (pos 0, config)
load_lines number config (line ∷ lines) =
    let applied = apply_line true config line in
    let rest = load_lines (number + 1) applied.1 lines in
    if failed applied.0 then (minus (1000 + (number + 1)), applied.1) else rest

-- `demo3_config_load`, over the contents of the file, which have no zero byte, if it can be
-- opened.
unfoldable pub load : Bool → Config → Option (List ℕ) → ℤ × Config
load false config contents = (minus 1, config)
load true config none = (minus 2, config)
load true config (some contents) = load_lines 0 config (fgets_lines 254 contents)

abbrev pub put_all {ℓ} : {A : Type ℓ} → (List ℕ → A) → List (List ℕ × A) → List ℕ → A
put_all members [] = members
put_all members (entry ∷ entries) = put_all (put members entry.0 entry.1) entries

-- `demo3_config_init`, from the zeros of `memset`.
abbrev pub init : Config
init = record {
  texts =
      put_all (λ key. [])
        ((codes "log_file_prefix", codes "./runtime-data/data-collector")
          ∷ (codes "source", codes "modbus")
          ∷ (codes "local_storage_path", codes "./runtime-data/data")
          ∷ (codes "sd_storage_path", codes "./runtime-data/sd")
          ∷ (codes "storage_file_name", codes "sample")
          ∷ (codes "mysql_host", codes "127.0.0.1")
          ∷ (codes "mysql_user", codes "root")
          ∷ (codes "mysql_database", codes "crrc-data-collector")
          ∷ (codes "mqtt_topic", codes "mine/demo3/sample")
          ∷ (codes "mqtt_client_id", codes "demo3")
          ∷ (codes "status_path", codes "./runtime-data/demo3-status.json")
          ∷ (codes "ota_staging_path", codes "./runtime-data/ota/demo3-update.pending")
          ∷ (codes "ota_reboot_marker_path", codes "./runtime-data/ota/reboot-required.json")
          ∷ (codes "can_interface", codes "can0")
          ∷ (codes "public_udp_host", codes "0.0.0.0")
          ∷ []);
  numbers =
      put_all (λ key. pos 0)
        ((codes "baudrate", pos 9600)
          ∷ (codes "start_bits", pos 1)
          ∷ (codes "data_bits", pos 8)
          ∷ (codes "stop_bits", pos 1)
          ∷ (codes "sample_period_ms", pos 1000)
          ∷ (codes "mysql_port", pos 3306)
          ∷ (codes "mqtt_port", pos 1883)
          ∷ (codes "status_enabled", pos 1)
          ∷ (codes "rpmsg_poll_timeout_ms", pos 1000)
          ∷ (codes "can_id_base", pos 0x300)
          ∷ (codes "public_udp_port", pos 7000)
          ∷ []);
}
