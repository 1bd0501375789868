-- ===== src/Runtime.antt =====
-- The counters that the collector publishes:
-- OKMX8MM-Demo3/data-collector-demo3/src/runtime/demo3_runtime_status.h and
-- demo3_runtime_status.c. Its children write the JSON file. The status pointer is never null here, and the
-- counters are `uint32_t`, which wrap.
pub mod Json
pub mod File
use okmx8mm.Base.{ℕ, ◌+◌, List, [], Bool, true, false, Option, none, some, take, u32, ℤ, failed}
use okmx8mm.Base.{if◌then◌else◌, codes}

pub record Status : Type 0 where
  pub ok : Bool
  pub received_frames : ℕ
  pub stored_samples : ℕ
  pub can_sent_samples : ℕ
  pub mqtt_sent_samples : ℕ
  pub ota_staged : ℕ
  pub invalid_frames : ℕ
  pub storage_errors : ℕ
  pub can_errors : ℕ
  pub mqtt_errors : ℕ
  pub ota_errors : ℕ
  pub last_error : List ℕ

-- `snprintf` keeps what fits before the terminating zero.
abbrev pub error_length : ℕ
error_length = 128

-- `set_error` and `demo3_runtime_status_error`; `none` is a null message.
unfoldable pub set_error : Status → Option (List ℕ) → Status
set_error status none = record status { ok = false; last_error = [] }
set_error status (some message) = record status { ok = false; last_error = take 127 message }

unfoldable pub init : Status
init = record {
  ok = true;
  received_frames = 0;
  stored_samples = 0;
  can_sent_samples = 0;
  mqtt_sent_samples = 0;
  ota_staged = 0;
  invalid_frames = 0;
  storage_errors = 0;
  can_errors = 0;
  mqtt_errors = 0;
  ota_errors = 0;
  last_error = [];
}

unfoldable pub record_received : Status → Status
record_received status = record status { received_frames = u32 (status.received_frames + 1) }

unfoldable pub record_storage : Status → ℤ → Status
unfolding set_error
record_storage status result =
    if failed result
    then set_error (record status { storage_errors = u32 (status.storage_errors + 1) })
        (some (codes "storage_error"))
    else record status { stored_samples = u32 (status.stored_samples + 1) }

unfoldable pub record_can : Status → ℤ → Bool → Status
unfolding set_error
record_can status result false = status
record_can status result true =
    if failed result
    then set_error (record status { can_errors = u32 (status.can_errors + 1) })
        (some (codes "can_error"))
    else record status { can_sent_samples = u32 (status.can_sent_samples + 1) }

unfoldable pub record_mqtt : Status → ℤ → Bool → Status
unfolding set_error
record_mqtt status result false = status
record_mqtt status result true =
    if failed result
    then set_error (record status { mqtt_errors = u32 (status.mqtt_errors + 1) })
        (some (codes "mqtt_error"))
    else record status { mqtt_sent_samples = u32 (status.mqtt_sent_samples + 1) }

unfoldable pub record_ota : Status → ℤ → Status
unfolding set_error
record_ota status result =
    if failed result
    then set_error (record status { ota_errors = u32 (status.ota_errors + 1) })
        (some (codes "ota_error"))
    else record status { ota_staged = u32 (status.ota_staged + 1) }
