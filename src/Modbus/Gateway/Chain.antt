-- ===== src/Modbus/Gateway/Chain.antt =====
-- A sample on its way from the STM32F407 through the M4 core to the A53 cores.
use okmx8mm.Base.{ℕ, ◌≡◌, ◌≢◌, refl, ap, ◌∙◌, arith, List, [], append-nil}
use okmx8mm.Base.{true, false, some, ok, ℤ, pos, Result}
use okmx8mm.Sample.{Sample, IsSample}
use okmx8mm.Sample.Registers.RoundTrip.{registers_of}
use okmx8mm.Base.{failed}
use okmx8mm.Rpmsg.{encode, publish}
use okmx8mm.Rpmsg.Bridge.{Sink, Read, reader_step}
use okmx8mm.Rpmsg.Bridge.Delivery.{reader_step-encode}
use okmx8mm.Modbus.{Bus, build_read_request, request_frame, response_frame, build_response}
use okmx8mm.Modbus.{read_sample}
use okmx8mm.Modbus.Exchange.{accepted_response, address-request, parse-response_frame}
use okmx8mm.Modbus.Gateway.{Gateway, poll, hand_on}

build_read_request-ok :
    (slave start : ℕ)
    → slave ≢ 0
    → build_read_request slave start 8 ≡ ok (request_frame slave start)
unfolding build_read_request
build_read_request-ok slave start h = ground arith

module _ {C : Type 0} (bus : Bus C) (context sent received : C) (slave capacity : ℕ) (s : Sample)
    {response : List ℕ} (valid : IsSample s) (addressed : slave ≢ 0)
    (written : bus.write context (request_frame slave 0) ≡ (pos 0, sent))
    (answered : build_response true (request_frame slave 0) s capacity ≡ ok response)
    (back : bus.read sent 57 ≡ (pos 0, response, received)) where
  the_answer : response ≡ response_frame slave (registers_of s)
  the_answer =
      accepted_response (request_frame slave 0) s capacity answered
      ∙ ap (λ t. response_frame t (registers_of s)) (address-request slave 0)

  -- Over a bus that carries the request to the slave and its answer back, the master reads the
  -- slave's sample, with its timestamp set to 0.
  pub read_sample-build_response :
      read_sample true bus context slave 0 ≡ (ok (record s { timestamp_ms = 0 }), received)
  unfolding read_sample
  read_sample-build_response =
      rw (build_read_request-ok slave 0 addressed, read_sample, written, back, the_answer)
        (ap (λ (t : Result Sample). (t, received)) (parse-response_frame slave s valid))

-- The gateway that hands each sample to `demo3_m4_rpmsg_publish`, over an endpoint's `send`.
abbrev pub forwarder : {B P : Type 0} → Bus B → (P → List ℕ → ℤ × P) → ℕ → Gateway B P
forwarder bus send slave = record {
  bus = bus;
  publish = some (publish true (some send));
  slave_id = slave;
  start_register = 0;
}

-- The sample as it leaves the registers.
abbrev pub stripped : Sample → Sample
stripped s = record s { timestamp_ms = 0 }

stripped-IsSample : {s : Sample} → IsSample s → IsSample (stripped s)
stripped-IsSample valid = record {
  sequence_fits = valid.sequence_fits;
  timestamp_fits = omega arith;
  channels = valid.channels;
  analog_fits = valid.analog_fits;
  digital_fits = valid.digital_fits;
  speed_fits = valid.speed_fits;
  flags_fit = valid.flags_fit;
}

poll-forwarder :
    {B P : Type 0} (bus : Bus B) (b : B) (p : P) (slave : ℕ) (s : Sample) (received : B)
    (send : P → List ℕ → ℤ × P)
    → read_sample true bus b slave 0 ≡ (ok (stripped s), received)
    → failed (send p (encode (stripped s))).0 ≡ false
    → poll true (forwarder bus send slave) b p ≡ record {
      code = pos 0;
      sample = some (stripped s);
      bus_context = received;
      publish_context = (send p (encode (stripped s))).1;
    }
unfolding poll hand_on publish
poll-forwarder bus b p slave s received send e accepted =
    rw (e, poll, accepted)
      λ i. record {
        code = pos 0;
        sample = some (stripped s);
        bus_context = (e i).1;
        publish_context = (send p (encode (stripped s))).1;
      }

-- `send` and `read` are the two ends of the RPMsg channel, over the states `P` and `R`. What is
-- relied on: a frame that `send` accepts is the one that the device then returns whole.
module _ {P R : Type 0} (send : P → List ℕ → ℤ × P) (read : Read R) (device drained : P → R)
    (carries : (p : P) (frame : List ℕ)
      → failed (send p frame).0 ≡ false
      → let after = (send p frame).1 in
        read (device after) 63 ≡ (pos 63, frame, drained after)) where
  -- One poll of the gateway, with a slave that answers for a sample and a channel that takes the
  -- frame, returns 0, and the reader of the A53 cores then runs its sink once, on that sample,
  -- with the timestamp 0 in place of the slave's.
  pub sample_reaches_sink :
      {B C : Type 0} (bus : Bus B) (b sent received : B) (p : P) (slave capacity : ℕ) (s : Sample)
      (context : C) (sink : Sink C) {response : List ℕ}
      → IsSample s
      → slave ≢ 0
      → bus.write b (request_frame slave 0) ≡ (pos 0, sent)
      → build_response true (request_frame slave 0) s capacity ≡ ok response
      → bus.read sent 57 ≡ (pos 0, response, received)
      → failed (send p (encode (stripped s))).0 ≡ false
      → let polled = poll true (forwarder bus send slave) b p in
        let seen = sink context (stripped s) in
        (polled.code ≡ pos 0)
        × (reader_step true (some read) (device polled.publish_context) context (some sink)
            ≡ (seen.0, drained polled.publish_context, seen.1))
  sample_reaches_sink bus b sent received p slave capacity s context sink valid addressed written
        answered back accepted =
      let after = (send p (encode (stripped s))).1 in
      rw (poll-forwarder bus b p slave s received send result accepted) (
        refl,
        reader_step-encode context sink read (device after) (drained after) (stripped s) []
            (stripped-IsSample valid) (rw append-nil (carries p (encode (stripped s)) accepted)),
      )
    where
      result : read_sample true bus b slave 0 ≡ (ok (stripped s), received)
      result =
          read_sample-build_response bus b sent received slave capacity s valid addressed written
            answered back
