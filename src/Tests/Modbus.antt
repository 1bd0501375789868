-- ===== src/Tests/Modbus.antt =====
-- Tests of the Modbus exchange and of the chain over the M4 core.
use okmx8mm.Base.{ℕ, ◌≡◌, ◌-◌, refl, arith, List, [], ◌∷◌, ◌++◌, some, true, false, take}
use okmx8mm.Base.{ok, ℤ, pos, drop, All, IsByte, get_or, replicate}
use okmx8mm.Sample.{Sample}
use okmx8mm.Sample.Registers.{sample_to_registers}
use okmx8mm.Sample.Registers.RoundTrip.{registers_of, to_registers_lem}
use okmx8mm.Wire.{put_u16_le}
use okmx8mm.Rpmsg.Bridge.{Sink, Read, reader_step}
use okmx8mm.Modbus.{
  Bus, request_frame, response_frame, response_body, build_response, parse_response, read_sample,
}
use okmx8mm.Modbus.Exchange.{build_response-request, accepted_request, parse-response_frame}
use okmx8mm.Modbus.Gateway.{poll}
use okmx8mm.Modbus.Gateway.Chain.{
  read_sample-build_response, sample_reaches_sink, forwarder, stripped,
}
use okmx8mm.Modbus.Poll
use okmx8mm.Modbus.Poll.{Uart, done}
use okmx8mm.Modbus.Poll.Direction.{poll-Listening}
use okmx8mm.Tests.Data.{reading, reading-IsSample}

abbrev blank : List ℕ
blank = replicate 28 9

to_registers_lem_example :
    sample_to_registers true reading blank ≡ ok (registers_of reading ++ (9 ∷ 9 ∷ []))
to_registers_lem_example = to_registers_lem reading blank (omega arith)

build_response-request_example :
    build_response true (request_frame 1 0) reading 57
    ≡ ok (response_frame 1 (registers_of reading))
build_response-request_example = build_response-request 1 57 reading (omega arith)

accepted_request_example : request_frame 1 0 ≡ request_frame (get_or (request_frame 1 0) 0 0) 0
accepted_request_example =
    accepted_request (request_frame 1 0) reading 57 build_response-request_example

parse-response_frame_example :
    parse_response 1 (response_frame 1 (registers_of reading))
    ≡ ok (record reading { timestamp_ms = 0 })
parse-response_frame_example = parse-response_frame 1 reading reading-IsSample

abbrev front : List ℕ
front = take 5 (response_frame 1 (registers_of reading))

abbrev back : List ℕ
back = drop 7 (response_frame 1 (registers_of reading))

front-IsByte : All IsByte front
unfolding response_frame response_body
front-IsByte = omega arith

back-IsByte : All IsByte back
unfolding response_frame response_body registers_of put_u16_le
back-IsByte = omega arith

whole : parse_response 1 (front ++ (0 ∷ 100 ∷ back)) ≡ ok (record reading { timestamp_ms = 0 })
unfolding response_frame response_body registers_of
whole = parse-response_frame_example

-- A bus on which slave 1 answers with its sample.
abbrev wire : Bus (List ℕ)
wire = record {
  write = λ held bytes. (pos 0, bytes);
  read = λ held capacity. (pos 0, response_frame 1 (registers_of reading), []);
}

read_sample-build_response_example : read_sample true wire [] 1 0 ≡ (ok (stripped reading), [])
read_sample-build_response_example =
    read_sample-build_response wire [] (request_frame 1 0) [] 1 57 reading reading-IsSample
      (omega arith) refl build_response-request_example refl

-- A channel that holds the last frame.
abbrev mailbox : List ℕ → List ℕ → ℤ × List ℕ
mailbox held frame = (pos 0, frame)

abbrev one_frame : Read (List ℕ)
one_frame held size = (pos size, held, [])

abbrev keep : Sink (List Sample)
keep kept s = (pos 0, s ∷ kept)

sample_reaches_sink_example :
    let polled = poll true (forwarder wire mailbox 1) [] [] in
    (polled.code ≡ pos 0)
    × (reader_step true (some one_frame) polled.publish_context [] (some keep)
        ≡ (pos 0, [], stripped reading ∷ []))
sample_reaches_sink_example =
    sample_reaches_sink mailbox one_frame (λ held. held) (λ held. []) (λ p frame h. refl) wire []
      (request_frame 1 0) [] [] 1 57 reading [] keep reading-IsSample (omega arith) refl
      build_response-request_example refl refl

-- A port that is the level of its direction pin, and whose bus brings the request.
abbrev port : Uart ℕ
port = record {
  receive = λ pin size time. (done, take size (drop (8 - size) (request_frame 1 0)), pin);
  transmit = λ pin bytes time. (done, pin);
  transmit_mode = λ on pin. elim on [ true ↦ 1 | false ↦ 0 ];
}

poll-Listening_example : (Poll.poll port true reading 0).1 ≡ 0
poll-Listening_example =
    poll-Listening port (λ pin. pin ≡ 0) (λ pin. refl) (λ pin size time h. h) true reading 0 refl
