-- ===== src/Modbus/Poll.antt =====
-- The slave's side of the bus: `demo3_modbus_slave_init` and `demo3_modbus_slave_poll` in
-- OKMX8MM-Demo3/stm32f407/applications/rs485/demo3_modbus_slave.c.
pub mod Direction
use okmx8mm.Base.{ℕ, List, [], ◌++◌, Bool, true, false, take, length, get_or, ◌/=◌, if◌then◌else◌}
use okmx8mm.Base.{Result, ok, err, ℤ, pos, minus}
use okmx8mm.Sample.{Sample}
use okmx8mm.Modbus.{build_response, response_length}

-- What the code tells apart of the status that a call of the HAL returns.
pub data Status : Type 0 where
  done timeout failure : Status

-- The calls of the HAL on the port `P`: a receive of a number of bytes within a time, a transmit
-- within a time, and the direction pin of the transceiver, set for transmission by `true`.
pub record Uart (P : Type 0) : Type 0 where
  pub receive : P → ℕ → ℕ → Status × List ℕ × P
  pub transmit : P → List ℕ → ℕ → Status × P
  pub transmit_mode : Bool → P → P

abbrev pub slave_address : ℕ
slave_address = 0x01

abbrev pub frame_timeout_ms : ℕ
frame_timeout_ms = 20

module _ {P : Type 0} (uart : Uart P) where
  unfoldable pub init : P → ℤ × P
  init port = (pos 0, uart.transmit_mode false port)

  -- The answer to a whole request.
  unfoldable pub answer : List ℕ → Sample → P → ℤ × P
  answer request s port =
      if get_or request 0 0 /= slave_address
      then (minus 3, port)
      else elim (build_response true request s response_length) [
        | err n ↦ (minus 4, port)
        | ok response ↦
            let (status, sent) = uart.transmit (uart.transmit_mode true port) response 50 in
            let listening = uart.transmit_mode false sent in
            (elim status [ done ↦ pos 0 | timeout ↦ minus 5 | failure ↦ minus 5 ], listening)
      ]

  -- The other seven bytes, behind the first.
  unfoldable pub receive_rest : List ℕ → Sample → P → ℤ × P
  receive_rest first s port =
      let (status, rest, port') = uart.receive port 7 frame_timeout_ms in
      elim status [
        | done ↦ answer (take 1 first ++ take 7 rest) s port'
        | timeout ↦ (minus 2, port')
        | failure ↦ (minus 2, port')
      ]

  -- `given` says that the sample is no null pointer.
  unfoldable pub poll : Bool → Sample → P → ℤ × P
  poll false s port = (minus 1, port)
  poll true s port =
      let (status, first, port') = uart.receive port 1 frame_timeout_ms in
      elim status [
        | done ↦ receive_rest first s port'
        | timeout ↦ (pos 0, port')
        | failure ↦ (minus 2, port')
      ]
