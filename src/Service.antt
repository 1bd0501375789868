-- ===== src/Service.antt =====
-- The collector thread of the A53 cores: `store_sample` and `run_collector` in
-- OKMX8MM-Demo3/data-collector-demo3/src/bridge/demo3_rpmsg_service.c. Files, sockets and the
-- status file are the world `W`, used through an interface.
pub mod Accounting
pub mod Launch
pub mod Start
pub mod Rounds
use okmx8mm.Base.{ℕ, zero, suc, ◌+◌, Bool, true, false, Option, none, some, ◌&&◌, ◌||◌, u32, codes}
use okmx8mm.Base.{ℤ, pos, negsuc, minus, failed, if◌then◌else◌}
use okmx8mm.Sample.{Sample}
use okmx8mm.Rpmsg.Bridge.{Read, reader_step}
use okmx8mm.Runtime
use okmx8mm.Runtime.{Status, set_error, record_received, record_storage, record_can, record_mqtt}
use okmx8mm.Runtime.{record_ota}

-- The calls that the collector makes.
pub record Outputs (W : Type 0) : Type 0 where
  -- `demo3_store_sample` on one of the two storages.
  pub store : ℕ → Sample → W → ℤ × W
  pub can_send : Sample → W → ℤ × W
  -- `demo3_mqtt_build_payload` and then `demo3_mqtt_linux_publish`: non-zero if either is.
  pub mqtt_send : Sample → W → ℤ × W
  pub mqtt_close : W → W
  pub write_status : Status → W → W

-- The part of `demo3_rpmsg_service_context_t` that changes, and the world.
pub record Service (W : Type 0) : Type 0 where
  pub status : Status
  pub can_enabled : Bool
  pub mqtt_enabled : Bool
  pub status_enabled : Bool
  pub world : W

abbrev pub storage_count : ℕ
storage_count = 2

module _ {W : Type 0} (outputs : Outputs W) where
  -- The loop over the storages, with the rounds left and the result so far.
  unfoldable pub store_all : ℕ → ℕ → ℤ → Sample → W → ℤ × W
  store_all zero i result s w = (result, w)
  store_all (suc left) i result s w =
      let stored = outputs.store i s w in
      store_all left (i + 1) (if failed stored.0 then minus 1 else result) s stored.1

  -- The CAN part: the result and the world.
  unfoldable pub send_can : Bool → Sample → W → ℤ × W
  send_can false s w = (pos 0, w)
  send_can true s w =
      let sent = outputs.can_send s w in (if failed sent.0 then minus 1 else pos 0, sent.1)

  -- The MQTT part: the result, whether MQTT stays enabled, and the world.
  unfoldable pub send_mqtt : Bool → Sample → W → ℤ × Bool × W
  send_mqtt false s w = (pos 0, false, w)
  send_mqtt true s w =
      let sent = outputs.mqtt_send s w in
      if failed sent.0 then (minus 1, false, outputs.mqtt_close sent.1) else (pos 0, true, sent.1)

  -- `demo3_runtime_status_write`, if it is enabled.
  unfoldable pub publish_status : Service W → Service W
  publish_status service =
      if service.status_enabled
      then record service { world = outputs.write_status service.status service.world }
      else service

  unfoldable pub store_sample : Service W → Sample → ℤ × Service W
  unfolding publish_status
  store_sample service s =
      let stored = store_all storage_count 0 (pos 0) s service.world in
      let can = send_can service.can_enabled s stored.1 in
      let mqtt = send_mqtt service.mqtt_enabled s can.1 in
      let received = record_received service.status in
      let after_storage = record_storage received stored.0 in
      let after_can = record_can after_storage can.0 service.can_enabled in
      let after_mqtt = record_mqtt after_can mqtt.0 service.mqtt_enabled in
      let result = if failed stored.0 || failed can.0 || failed mqtt.0 then minus 1 else pos 0 in
      (
        result,
        publish_status
            (record service { status = after_mqtt; mqtt_enabled = mqtt.1; world = mqtt.2 }),
      )

  -- What the loop of `run_collector` does after a step of the reader.
  unfoldable pub after_step : ℤ → Service W → Service W
  unfolding publish_status
  after_step (pos n) service = service
  after_step (negsuc n) service =
      let counted : Status = record service.status {
        invalid_frames = u32 (service.status.invalid_frames + 1);
      } in
      publish_status
        (record service { status = set_error counted (some (codes "rpmsg_frame_error")) })

  module _ {R : Type 0} (read : Read R) where
    -- One round of the loop.
    unfoldable pub collect : R × Service W → R × Service W
    collect (device, service) =
        let step = reader_step true (some read) device service (some store_sample) in
        (step.1, after_step step.0 step.2)

    -- Any number of rounds.
    unfoldable pub collect_rounds : ℕ → R × Service W → R × Service W
    collect_rounds zero state = state
    collect_rounds (suc n) state = collect_rounds n (collect state)
