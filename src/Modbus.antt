-- ===== src/Modbus.antt =====
-- The Modbus RTU exchange of a sample: the M4 core asks for 26 registers, the STM32F407 answers.
-- `demo3_modbus_slave_build_response` in
-- OKMX8MM-Demo3/stm32f407/applications/rs485/demo3_modbus_codec.c and
-- `demo3_m4_modbus_read_sample` in OKMX8MM-Demo3/okmx8mm-m4/src/rs485/demo3_m4_modbus.c.
-- Local arrays that the code fills from front to back are lists of the bytes written.
pub mod Exchange
pub mod Corruption
pub mod Gateway
pub mod Poll
use Prim.Native.Nat.{bit_and, bit_or}
use okmx8mm.Base.{ℕ, zero, suc, ◌+◌, ◌-◌, ◌*◌, List, [], ◌∷◌, ◌++◌, Bool, true, false, ◌||◌}
use okmx8mm.Base.{some, length, get_or, replicate, ltb, ◌==◌, ◌/=◌, if◌then◌else◌, u8, u16}
use okmx8mm.Base.{◌<<<◌, ◌>>>◌, Result, ok, err, ℤ, failed}
use okmx8mm.Crc.{crc16_modbus}
use okmx8mm.Wire.{put_u16_le, put_u16_be, read_u16_le}
use okmx8mm.Sample.{Sample, modbus_register_count}
use okmx8mm.Sample.Registers.{sample_to_registers, sample_from_registers}

-- The length of a response: address, function, count, the registers, CRC.
abbrev pub response_length : ℕ
response_length = 57

-- The loop over the registers, with the rounds left.
put_registers : ℕ → ℕ → List ℕ → List ℕ
put_registers zero i registers = []
put_registers (suc left) i registers =
    put_u16_be (get_or registers i 0) ++ put_registers left (i + 1) registers

unfoldable pub response_body : ℕ → List ℕ → List ℕ
unfolding put_registers put_u16_be
response_body address registers =
    (address ∷ 0x03 ∷ u8 (modbus_register_count * 2) ∷ [])
    ++ put_registers modbus_register_count 0 registers

-- The response with its CRC.
unfoldable pub response_frame : ℕ → List ℕ → List ℕ
response_frame address registers =
    let body = response_body address registers in
    body ++ put_u16_le (crc16_modbus (some body) (response_length - 2))

-- The request that is refused with -2: another function, start or count.
unfoldable pub bad_request : List ℕ → Bool
bad_request request =
    get_or request 1 0 /= 0x03
    || get_or request 2 0 /= 0
    || get_or request 3 0 /= 0
    || get_or request 4 0 /= 0
    || get_or request 5 0 /= 26

unfoldable pub bad_request_crc : List ℕ → Bool
bad_request_crc request =
    let crc = crc16_modbus (some request) 6 in
    get_or request 6 0 /= u8 (bit_and crc 0xFF) || get_or request 7 0 /= u8 (crc >>> 8)

-- `demo3_modbus_slave_build_response`, with the response that it leaves at the front of the
-- buffer. `given` says that no pointer is null, and `capacity` is the buffer's. The local array
-- of registers has no initial value in the code, and all of it is written.
unfoldable pub build_response : Bool → List ℕ → Sample → ℕ → Result (List ℕ)
build_response false request s capacity = err 1
build_response true request s capacity =
    if length request /= 8 || ltb capacity response_length
    then err 1
    else if bad_request request
    then err 2
    else if bad_request_crc request
    then err 3
    else elim (sample_to_registers true s (replicate modbus_register_count 0)) [
      | ok registers ↦ ok (response_frame (get_or request 0 0) registers)
      | err n ↦ err 4
    ]

-- The request up to its CRC.
unfoldable pub request_body : ℕ → ℕ → List ℕ
request_body slave_id start_register =
    slave_id
    ∷ 0x03
    ∷ u8 (start_register >>> 8)
    ∷ u8 (bit_and start_register 0xFF)
    ∷ u8 (modbus_register_count >>> 8)
    ∷ u8 (bit_and modbus_register_count 0xFF)
    ∷ []

unfoldable pub request_frame : ℕ → ℕ → List ℕ
request_frame slave_id start_register =
    let body = request_body slave_id start_register in
    body ++ put_u16_le (crc16_modbus (some body) 6)

-- `build_read_request`; the frame pointer is never null.
unfoldable pub build_read_request : ℕ → ℕ → ℕ → Result (List ℕ)
build_read_request slave_id start_register capacity =
    if slave_id == 0 || ltb capacity 8 then err 1 else ok (request_frame slave_id start_register)

-- The loop that takes the registers out of a response.
get_registers : ℕ → ℕ → List ℕ → List ℕ
get_registers zero i response = []
get_registers (suc left) i response =
    u16 (bit_or (u16 (get_or response (3 + i * 2) 0 <<< 8)) (get_or response (3 + i * 2 + 1) 0))
    ∷ get_registers left (i + 1) response

unfoldable pub registers_in : List ℕ → List ℕ
unfolding get_registers
registers_in response = get_registers modbus_register_count 0 response

-- The second half of `demo3_m4_modbus_read_sample`, after the response is read.
unfoldable pub parse_response : ℕ → List ℕ → Result Sample
parse_response slave_id response =
    if length response /= response_length
      || get_or response 0 0 /= slave_id
      || get_or response 1 0 /= 0x03
    then err 4
    else if get_or response 2 0 /= modbus_register_count * 2
    then err 4
    else if read_u16_le response (response_length - 2)
        /= crc16_modbus (some response) (response_length - 2)
    then err 5
    else sample_from_registers true (registers_in response)

-- The callbacks of a bus, with its context before and after a call. The read is given a
-- capacity, and its list holds the bytes that it reports through `out_length`.
pub record Bus (C : Type 0) : Type 0 where
  pub write : C → List ℕ → ℤ × C
  pub read : C → ℕ → ℤ × List ℕ × C

-- `demo3_m4_modbus_read_sample`. `given` says that no pointer is null.
unfoldable pub read_sample : {C : Type 0} → Bool → Bus C → C → ℕ → ℕ → Result Sample × C
read_sample false bus context slave_id start_register = (err 1, context)
read_sample true bus context slave_id start_register =
    elim (build_read_request slave_id start_register 8) [
      | err n ↦ (err 1, context)
      | ok request ↦
          let (code, sent) = bus.write context request in
          if failed code
          then (err 2, sent)
          else let (code', response, received) = bus.read sent response_length in
            if failed code' then (err 3, received) else (parse_response slave_id response, received)
    ]
