-- ===== src/Demo1/Transport.antt =====
-- The RS485 transport, OKMX8MM-Demo2/m4/demo1/src/demo1_rs485_transport.c: it reads a response
-- byte by byte, within a time. The port, with its clock, is the state `P`.
pub mod Frame
pub mod Clock
use okmx8mm.Base.{
  ℕ, zero, suc, ◌+◌, ◌-◌, ◌%◌, ◌^◌, List, [], ◌∷◌, ◌++◌, Bool, true, false, ◌&&◌, ◌||◌,
}
use okmx8mm.Base.{
  Option, none, some, length, get_or, ltb, leb, ◌==◌, ◌/=◌, if◌then◌else◌, Result, ok, err, ℤ,
  minus,
}

-- What `read_byte` returns: a negative code, 0, or a positive code with a byte.
pub data Received : Type 0 where
  broken nothing : Received
  byte : ℕ → Received

pub record Port (P : Type 0) : Type 0 where
  pub write_bytes : P → List ℕ → ℤ × P
  pub read_byte : P → Received × P
  pub now_us : P → ℕ × P

-- `demo1_rs485_transport_init`: the time limit that the transport keeps. `given` says that no
-- pointer is null.
unfoldable pub transport_init : Bool → ℕ → Result ℕ
transport_init false response_timeout_us = err 1
transport_init true response_timeout_us =
    if response_timeout_us == 0 then err 1 else ok response_timeout_us

-- The difference of two times, of type `uint64_t`.
abbrev pub elapsed : ℕ → ℕ → ℕ
elapsed now start = (now + 2 ^ 64 - start) % 2 ^ 64

-- The length that the third byte announces, once it is there.
unfoldable pub expected_after : ℕ → List ℕ → ℕ
expected_after expected bytes = if length bytes == 3 then get_or bytes 2 0 + 3 + 2 else expected

-- A byte that arrives.
unfoldable pub store_byte : ℕ → ℕ → List ℕ → ℕ → Option (Result (List ℕ)) × ℕ × List ℕ
store_byte capacity b bytes expected =
    if leb capacity (length bytes)
    then (some (err 4), expected, bytes)
    else let bytes' = bytes ++ (b ∷ []) in
      let expected' = expected_after expected bytes' in
      if length bytes' == 3 && ltb capacity expected'
      then (some (err 4), expected', bytes')
      else if expected' /= 0 && length bytes' == expected'
      then (some (ok bytes'), expected', bytes')
      else (none, expected', bytes')

-- What one round of the loop does with what it read: it ends, or it goes on.
unfoldable pub take_byte : ℕ → Received → List ℕ → ℕ → Option (Result (List ℕ)) × ℕ × List ℕ
take_byte capacity broken bytes expected = (some (err 2), expected, bytes)
take_byte capacity nothing bytes expected = (none, expected, bytes)
take_byte capacity (byte b) bytes expected = store_byte capacity b bytes expected

module _ {P : Type 0} (port : Port P) where
  -- `demo1_rs485_transport_write`. `given` says that no pointer is null.
  unfoldable pub write : Bool → P → List ℕ → ℤ × P
  write false p bytes = (minus 1, p)
  write true p bytes = if length bytes == 0 then (minus 1, p) else port.write_bytes p bytes

  module _ (timeout capacity start : ℕ) where
    -- The loop, on fuel: the result, where `none` says that the fuel ran out, what then stands in
    -- the buffer, and the port.
    unfoldable pub read_loop : ℕ → List ℕ → ℕ → P → Option (Result (List ℕ)) × List ℕ × P
    read_loop zero bytes expected p = (none, bytes, p)
    read_loop (suc fuel) bytes expected p =
        let now = port.now_us p in
        let got = port.read_byte now.1 in
        let taken = take_byte capacity got.0 bytes expected in
        let rest = read_loop fuel taken.2 taken.1 got.1 in
        if leb (elapsed now.0 start) timeout
        then (elim taken.0 [ some result ↦ (some result, taken.2, got.1) | none ↦ rest ])
        else (some (err 3), bytes, now.1)

  -- `demo1_rs485_transport_read`. `given` says that no pointer is null.
  unfoldable pub read : ℕ → Bool → P → ℕ → ℕ → Option (Result (List ℕ)) × List ℕ × P
  read timeout false p capacity fuel = (some (err 1), [], p)
  read timeout true p capacity fuel =
      if capacity == 0
      then (some (err 1), [], p)
      else let start = port.now_us p in read_loop timeout capacity start.0 fuel [] 0 start.1
