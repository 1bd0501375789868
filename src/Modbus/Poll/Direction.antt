-- ===== src/Modbus/Poll/Direction.antt =====
-- The direction of the half-duplex bus over a poll.
use okmx8mm.Base.{ℕ, List, ◌++◌, Bool, true, false, take, minus}
use okmx8mm.Base.{get_or, ◌/=◌, Bool-cases, inl, inr, Result-cases, ℤ, pos}
use okmx8mm.Sample.{Sample}
use okmx8mm.Modbus.{build_response, response_length}
use okmx8mm.Modbus.Poll.{Status, done, timeout, failure, Uart, slave_address, answer}
use okmx8mm.Modbus.Poll.{receive_rest, poll, frame_timeout_ms}

-- `Listening` is any description of the states in which the port does not drive the bus. What is
-- known of the HAL: the pin set for reception makes the port listen, and a receive does not
-- touch the pin.
module _ {P : Type 0} (uart : Uart P) (Listening : P → Type 0)
    (released : (port : P) → Listening (uart.transmit_mode false port))
    (receive_keeps : (port : P) (size time : ℕ)
      → Listening port
      → Listening (uart.receive port size time).2) where
  answer-Listening :
      (request : List ℕ) (s : Sample) (port : P)
      → Listening port
      → Listening (answer uart request s port).1
  unfolding answer
  answer-Listening request s port h = elim (Bool-cases (get_or request 0 0 /= slave_address)) [
    | inl other ↦ rw other h
    | inr mine ↦ elim (Result-cases (build_response true request s response_length)) [
      | inl (response, e) ↦
          rw (mine, e) (released (uart.transmit (uart.transmit_mode true port) response 50).1)
      | inr (n, e) ↦ rw (mine, e) h
    ]
  ]

  receive_rest-Listening :
      (first : List ℕ) (s : Sample) (port : P)
      → Listening port
      → Listening (receive_rest uart first s port).1
  unfolding receive_rest
  receive_rest-Listening first s port h =
      by_status (uart.receive port 7 frame_timeout_ms).0 (uart.receive port 7 frame_timeout_ms).1
        (uart.receive port 7 frame_timeout_ms).2 (receive_keeps port 7 frame_timeout_ms h)
    where
      by_status :
          (status : Status) (rest : List ℕ) (after : P)
          → Listening after
          → Listening
              (elim status as (λ _. ℤ × P) [
                | done ↦ answer uart (take 1 first ++ take 7 rest) s after
                | timeout ↦ (minus 2, after)
                | failure ↦ (minus 2, after)
              ]).1
      by_status done rest after k = answer-Listening (take 1 first ++ take 7 rest) s after k
      by_status timeout rest after k = k
      by_status failure rest after k = k

  -- Whatever the bus and the HAL do, a poll that starts with the port listening ends so: on no
  -- path does the slave keep driving the bus.
  pub poll-Listening :
      (given : Bool) (s : Sample) (port : P) → Listening port → Listening (poll uart given s port).1
  unfolding poll
  poll-Listening false s port h = h
  poll-Listening true s port h =
      by_status (uart.receive port 1 frame_timeout_ms).0 (uart.receive port 1 frame_timeout_ms).1
        (uart.receive port 1 frame_timeout_ms).2 (receive_keeps port 1 frame_timeout_ms h)
    where
      by_status :
          (status : Status) (first : List ℕ) (after : P)
          → Listening after
          → Listening
              (elim status as (λ _. ℤ × P) [
                | done ↦ receive_rest uart first s after
                | timeout ↦ (pos 0, after)
                | failure ↦ (minus 2, after)
              ]).1
      by_status done first after k = receive_rest-Listening first s after k
      by_status timeout first after k = k
      by_status failure first after k = k
