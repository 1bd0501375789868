-- ===== src/Service/Start.antt =====
-- The collector thread up to its loop: `run_collector` in
-- OKMX8MM-Demo3/data-collector-demo3/src/bridge/demo3_rpmsg_service.c, lines 174 to 230. The
-- logs and the name of the thread are left out.
use okmx8mm.Base.{ℕ, ◌≡◌, arith, List, Bool, true, false, some, ℤ, pos}
use okmx8mm.Base.{codes, failed, if◌then◌else◌}
use okmx8mm.Runtime
use okmx8mm.Runtime.{set_error, record_ota}
use okmx8mm.Service.{Outputs, Service, publish_status}
use okmx8mm.Service.Accounting.{IsAccounted}

-- The calls that open what the loop uses, with their return codes, and the one that closes the
-- device again.
pub record Startup (W : Type 0) : Type 0 where
  pub open_device : W → ℤ × W
  pub close_device : W → W
  pub init_storage : W → ℤ × W
  pub open_can : W → ℤ × W
  pub open_mqtt : W → ℤ × W

-- Whether the thread has reached its loop, and the service then.
pub record Started (W : Type 0) : Type 0 where
  pub running : Bool
  pub service : Service W

-- The opening of an optional output: whether it stays enabled, and the world.
unfoldable pub open_output : {W : Type 0} → (W → ℤ × W) → Bool → W → Bool × W
open_output call false w = (false, w)
open_output call true w =
    let opened = call w in ((if failed opened.0 then false else true), opened.1)

module _ {W : Type 0} (outputs : Outputs W) (startup : Startup W) where
  -- The error path: the message in the status, and the status file written.
  unfoldable pub give_up : List ℕ → Service W → Service W
  give_up message service =
      publish_status outputs (record service { status = set_error service.status (some message) })

  -- The counters from which the loop starts, published.
  unfoldable pub first_status : Bool → Service W → Service W
  first_status ota_staged service = publish_status outputs (record service {
    status = if ota_staged then record_ota Runtime.init (pos 0) else Runtime.init;
  })

  -- CAN and then MQTT.
  unfoldable pub open_outputs : Service W → Service W
  open_outputs service =
      let can = open_output startup.open_can service.can_enabled service.world in
      let mqtt = open_output startup.open_mqtt service.mqtt_enabled can.1 in
      record service { can_enabled = can.0; mqtt_enabled = mqtt.0; world = mqtt.1 }

  unfoldable pub with_storage : Service W → Started W
  with_storage service =
      let stored = startup.init_storage service.world in
      if failed stored.0
      then (let ended =
            give_up (codes "storage_init_error") (record service { world = stored.1 }) in
          record {
            running = false;
            service = record ended { world = startup.close_device ended.world };
          })
      else record { running = true; service = open_outputs (record service { world = stored.1 }) }

  unfoldable pub start : Bool → Service W → Started W
  start ota_staged service =
      let fresh = first_status ota_staged service in
      let opened = startup.open_device fresh.world in
      if failed opened.0
      then record {
        running = false;
        service = give_up (codes "rpmsg_open_error") (record fresh { world = opened.1 });
      }
      else with_storage (record fresh { world = opened.1 })

  -- Whatever the calls return, the thread ends before the loop with `ok` false in its status, or
  -- it reaches the loop with `ok` true.
  pub start-ok :
      (ota_staged : Bool) (service : Service W)
      → (start ota_staged service).service.status.ok ≡ (start ota_staged service).running
  unfolding start with_storage open_outputs first_status give_up publish_status set_error
      Runtime.init record_ota
  start-ok ota_staged service = ground arith

  -- Whatever the calls return, the counters account for the frames before the first round.
  pub start-IsAccounted :
      (ota_staged : Bool) (service : Service W) → IsAccounted (start ota_staged service).service
  unfolding start with_storage open_outputs first_status give_up publish_status set_error
      Runtime.init record_ota
  start-IsAccounted ota_staged service = ground arith
