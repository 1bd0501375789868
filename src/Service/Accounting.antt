-- ===== src/Service/Accounting.antt =====
-- The counters account for every frame.
use okmx8mm.Base.{◌+◌, ◌≤◌, ◌≡◌, arith, true}
use okmx8mm.Base.{u32, ℤ, pos, negsuc}
use okmx8mm.Sample.{Sample}
use okmx8mm.Runtime.{set_error, record_received, record_storage, record_can, record_mqtt}
use okmx8mm.Service.{Outputs, Service, send_mqtt, store_sample}
use okmx8mm.Service.{after_step}

-- What holds between two rounds. Every received frame is stored or counted as a storage error,
-- by `uint32_t` arithmetic; while MQTT is enabled each frame was published, and after its one
-- failure MQTT stays disabled.
pub record IsAccounted {W : Type 0} (service : Service W) : Type 0 where
  pub storage :
      u32 (service.status.stored_samples + service.status.storage_errors)
      ≡ service.status.received_frames
  pub mqtt_once : service.status.mqtt_errors ≤ 1
  pub mqtt_live : service.mqtt_enabled ≡ true → service.status.mqtt_errors ≡ 0

module _ {W : Type 0} (outputs : Outputs W) where
  pub store_sample-IsAccounted :
      (service : Service W) (s : Sample)
      → IsAccounted service
      → IsAccounted (store_sample outputs service s).1
  unfolding store_sample send_mqtt record_received record_storage record_can record_mqtt
  store_sample-IsAccounted service s h = ground arith

  pub after_step-IsAccounted :
      (code : ℤ) (service : Service W)
      → IsAccounted service
      → IsAccounted (after_step outputs code service)
  unfolding after_step set_error
  after_step-IsAccounted (pos n) service h = h
  after_step-IsAccounted (negsuc n) service h = ground arith
