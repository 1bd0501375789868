-- ===== src/Service/Rounds.antt =====
-- Any number of rounds of the collector.
use okmx8mm.Base.{ℕ, zero, suc, ◌+◌, ◌≡◌, ◌++◌, List, refl, ap, arith, Bool, true}
use okmx8mm.Base.{u32, ℤ, pos, minus, failed, some, take, inl, inr, codes}
use okmx8mm.Base.{◌∙◌}
use okmx8mm.Sample.{Sample, IsSample}
use okmx8mm.Rpmsg.{encode}
use okmx8mm.Rpmsg.Bridge.{Read, reader_step}
use okmx8mm.Rpmsg.Bridge.Delivery.{Delivered, reader_step-Delivered, reader_step-encode}
use okmx8mm.Runtime.{set_error, record_received, record_storage, record_can, record_mqtt}
use okmx8mm.Service.{Outputs, Service, store_all, publish_status, store_sample}
use okmx8mm.Service.{after_step, collect, collect_rounds, storage_count}
use okmx8mm.Service.Accounting.{IsAccounted, store_sample-IsAccounted, after_step-IsAccounted}
use okmx8mm.Service.Start.{Startup, start, start-IsAccounted}

module _ {W : Type 0} (outputs : Outputs W) where
  Delivered-IsAccounted :
      (service : Service W) (frame : List ℕ) (result : ℤ × Service W)
      → Delivered service (store_sample outputs) frame result
      → IsAccounted service
      → IsAccounted result.1
  Delivered-IsAccounted service frame result (inl same) h = rw same h
  Delivered-IsAccounted service frame result (inr (s, decoded, ran)) h =
      rw ran (store_sample-IsAccounted outputs service s h)

  module _ {R : Type 0} (read : Read R) where
    collect-IsAccounted :
        (device : R) (service : Service W)
        → IsAccounted service
        → IsAccounted (collect outputs read (device, service)).1
    unfolding collect
    collect-IsAccounted device service h =
        let step = reader_step true (some read) device service (some (store_sample outputs)) in
        after_step-IsAccounted outputs step.0 step.2 (
          Delivered-IsAccounted service (take 63 (read device 63).1) (step.0, step.2)
            (reader_step-Delivered service (store_sample outputs) read device) h)

    rounds-IsAccounted :
        (n : ℕ) (device : R) (service : Service W)
        → IsAccounted service
        → IsAccounted (collect_rounds outputs read n (device, service)).1
    unfolding collect_rounds
    rounds-IsAccounted zero device service h = h
    rounds-IsAccounted (suc n) device service h =
        let next = collect outputs read (device, service) in
        rounds-IsAccounted n next.0 next.1 (collect-IsAccounted device service h)

    -- From the start of the thread on, after any number of rounds, and whatever the device, the
    -- storages, CAN, MQTT and the calls that open them return, every received frame is counted
    -- as stored or as a storage error, modulo 2 ^ 32; MQTT has failed at most once; and while it
    -- is enabled it has not failed.
    pub collector-IsAccounted :
        (startup : Startup W) (n : ℕ) (ota_staged : Bool) (device : R) (service : Service W)
        → IsAccounted
            (collect_rounds outputs read n
              (device, (start outputs startup ota_staged service).service)).1
    collector-IsAccounted startup n ota_staged device service =
        rounds-IsAccounted n device (start outputs startup ota_staged service).service
          (start-IsAccounted outputs startup ota_staged service)

    failed_store :
        (service : Service W) (s : Sample)
        → failed (store_all outputs storage_count 0 (pos 0) s service.world).0 ≡ true
        → (store_sample outputs service s).0 ≡ minus 1
    unfolding store_sample
    failed_store service s broken = rw broken refl

    store_sample-invalid :
        (service : Service W) (s : Sample)
        → (store_sample outputs service s).1.status.invalid_frames ≡ service.status.invalid_frames
    unfolding store_sample record_received record_storage record_can record_mqtt set_error
    store_sample-invalid service s = ground arith

    after_failure :
        (service : Service W)
        → ((after_step outputs (minus 1) service).status.invalid_frames
            ≡ u32 (service.status.invalid_frames + 1))
          × ((after_step outputs (minus 1) service).status.last_error ≡ codes "rpmsg_frame_error")
    unfolding after_step publish_status set_error
    after_failure service = ground arith

    -- A frame that the M4 core publishes for a sample, and that the device delivers whole, is
    -- counted as an invalid frame if one of the two storages cannot take the sample, and the
    -- last error is then that of a bad frame, in place of the storage's.
    pub storage_error-invalid :
        (device next : R) (service : Service W) (s : Sample) (rest : List ℕ)
        → IsSample s
        → read device 63 ≡ (pos 63, encode s ++ rest, next)
        → failed (store_all outputs storage_count 0 (pos 0) s service.world).0 ≡ true
        → let status = (collect outputs read (device, service)).1.status in
          (status.invalid_frames ≡ u32 (service.status.invalid_frames + 1))
          × (status.last_error ≡ codes "rpmsg_frame_error")
    unfolding collect
    storage_error-invalid device next service s rest valid delivered broken =
        let (counted, last) = after_failure (store_sample outputs service s).1 in
        rw
          (
            reader_step-encode service (store_sample outputs) read device next s rest valid
                delivered,
            failed_store service s broken,
          )
          (counted ∙ ap (λ n. u32 (n + 1)) (store_sample-invalid service s), last)
