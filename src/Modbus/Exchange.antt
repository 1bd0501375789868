-- ===== src/Modbus/Exchange.antt =====
-- The slave answers the master's request, and the master reads the sample out of the answer.
use Prim.Native.Nat.{bit_and, bit_or}
use okmx8mm.Base.{ℕ, ◌/◌, ◌%◌, ◌^◌, ◌≤◌, ◌≡◌, refl, sym, ap, ◌∙◌, arith}
use okmx8mm.Base.{List, [], ◌∷◌, ◌++◌, some, true, false, length, get_or, tabulate, tabulate-get_or}
use okmx8mm.Base.{fun_ext, All, All-get_or, replicate, IsU16, u8, u16, ◌<<<◌, ◌>>>◌, ok}
use okmx8mm.Base.{append-nil}
use okmx8mm.Base.Bits.{or_of_fields}
use okmx8mm.Crc.{crc16_modbus}
use okmx8mm.Crc.Detect.{crc16-lt, crc16_prefix}
use okmx8mm.Wire.{put_u16_le, read_u16_le}
use okmx8mm.Wire.Join.{join-put_u16, low_byte}
use okmx8mm.Sample.{Sample, IsSample}
use okmx8mm.Sample.Registers.RoundTrip.{
  registers_of, length-registers_of, to_registers_lem, from_registers_lem,
}
use okmx8mm.Modbus.{response_body, response_frame, bad_request, bad_request_crc, build_response}
use okmx8mm.Modbus.{request_body, request_frame, registers_in, parse_response}

-- The slave finds nothing wrong with the request that the master builds for start register 0.
bad_request-request : (slave : ℕ) → bad_request (request_frame slave 0) ≡ false
unfolding bad_request request_frame request_body
bad_request-request slave = refl

request_crc :
    (slave start : ℕ)
    → crc16_modbus (some (request_frame slave start)) 6
      ≡ crc16_modbus (some (request_body slave start)) 6
unfolding request_frame
request_crc slave start =
    crc16_prefix (request_body slave start)
      (put_u16_le (crc16_modbus (some (request_body slave start)) 6)) 6
      (unfold request_body in refl)

crc_bytes :
    (slave start : ℕ)
    → let crc = crc16_modbus (some (request_body slave start)) 6 in
      (get_or (request_frame slave start) 6 0 ≡ u8 (bit_and crc 0xFF))
      × (get_or (request_frame slave start) 7 0 ≡ u8 (crc >>> 8))
unfolding request_frame request_body put_u16_le
crc_bytes slave start = (refl, refl)

bad_request_crc-request : (slave start : ℕ) → bad_request_crc (request_frame slave start) ≡ false
unfolding bad_request_crc
bad_request_crc-request slave start = ground (arith, request_crc slave start, crc_bytes slave start)

length-request : (slave start : ℕ) → length (request_frame slave start) ≡ 8
unfolding request_frame request_body put_u16_le
length-request slave start = refl

pub address-request : (slave start : ℕ) → get_or (request_frame slave start) 0 0 ≡ slave
unfolding request_frame request_body
address-request slave start = refl

-- The slave answers the request that the master builds for start register 0, if its buffer has
-- room, with its address, the registers of its sample and their CRC.
pub build_response-request :
    (slave capacity : ℕ) (s : Sample)
    → 57 ≤ capacity
    → build_response true (request_frame slave 0) s capacity
      ≡ ok (response_frame slave (registers_of s))
unfolding build_response
build_response-request slave capacity s h = ground (
  arith,
  length-request slave 0,
  bad_request-request slave,
  bad_request_crc-request slave 0,
  to_registers_lem s (replicate 26 0) (omega arith),
  append-nil (registers_of s),
  address-request slave 0,
)

module _ (request : List ℕ) (s : Sample) (capacity : ℕ) {response : List ℕ}
    (accepted : build_response true request s capacity ≡ ok response) where
  accepted_length : length request ≡ 8
  unfolding build_response
  accepted_length = ground arith

  accepted_head : bad_request request ≡ false
  unfolding build_response
  accepted_head = ground arith

  accepted_crc : bad_request_crc request ≡ false
  unfolding build_response
  accepted_crc = ground arith

  accepted_bytes :
      (get_or request 1 0 ≡ 0x03)
      × (get_or request 2 0 ≡ 0)
      × (get_or request 3 0 ≡ 0)
      × (get_or request 4 0 ≡ 0)
      × (get_or request 5 0 ≡ 26)
  unfolding bad_request
  accepted_bytes = ground (arith, accepted_head)

  accepted_parts :
      request_body (get_or request 0 0) 0 ++ (get_or request 6 0 ∷ get_or request 7 0 ∷ [])
      ≡ request
  unfolding request_body
  accepted_parts = known ∙ tabulate-get_or 0 8 request accepted_length
    where
      open accepted_bytes use {
        «0» as function, «1» as start_high, «2» as start_low, «3» as count_high, «4» as count_low,
      }

      known :
          request_body (get_or request 0 0) 0 ++ (get_or request 6 0 ∷ get_or request 7 0 ∷ [])
          ≡ tabulate 8 (λ i. get_or request i 0)
      known = λ i.
          get_or request 0 0
          ∷ sym function i
          ∷ sym start_high i
          ∷ sym start_low i
          ∷ sym count_high i
          ∷ sym count_low i
          ∷ get_or request 6 0
          ∷ get_or request 7 0
          ∷ []

  accepted_crc_bytes :
      let crc = crc16_modbus (some request) 6 in
      (get_or request 6 0 ≡ u8 (bit_and crc 0xFF)) × (get_or request 7 0 ≡ u8 (crc >>> 8))
  unfolding bad_request_crc
  accepted_crc_bytes = ground (arith, accepted_crc)

  -- The slave answers no other request: one that it accepts is, byte for byte, the request that
  -- the master builds with start register 0 for the address in its first byte.
  pub accepted_request : request ≡ request_frame (get_or request 0 0) 0
  accepted_request =
      sym accepted_parts
      ∙ ap (λ (t : ℕ × ℕ). request_body address 0 ++ (t.0 ∷ t.1 ∷ [])) bytes
      ∙ whole
    where
      address : ℕ
      address = get_or request 0 0

      tail : List ℕ
      tail = get_or request 6 0 ∷ get_or request 7 0 ∷ []

      crc : ℕ
      crc = crc16_modbus (some (request_body address 0)) 6

      same_crc : crc16_modbus (some request) 6 ≡ crc
      same_crc =
          ap (λ t. crc16_modbus (some t) 6) (sym accepted_parts)
          ∙ crc16_prefix (request_body address 0) tail 6 (unfold request_body in refl)

      bytes :
          ◌≡◌ {A = ℕ × ℕ}
            (get_or request 6 0, get_or request 7 0)
            (u8 (bit_and crc 0xFF), u8 (crc >>> 8))
      bytes = λ i. (
        (accepted_crc_bytes.0 ∙ ap (λ (t : ℕ). u8 (bit_and t 0xFF)) same_crc) i,
        (accepted_crc_bytes.1 ∙ ap (λ (t : ℕ). u8 (t >>> 8)) same_crc) i,
      )

      whole :
          request_body address 0 ++ (u8 (bit_and crc 0xFF) ∷ u8 (crc >>> 8) ∷ [])
          ≡ request_frame address 0
      whole = unfold request_frame put_u16_le in refl

  -- And its answer carries that address and the registers of its sample.
  pub accepted_response : response ≡ response_frame (get_or request 0 0) (registers_of s)
  unfolding build_response
  accepted_response =
      ground (arith, to_registers_lem s (replicate 26 0) (omega arith), append-nil (registers_of s))

-- A word from its two bytes, high byte first, as the master joins them.
rejoin_u16_be :
    (v : ℕ) → IsU16 v → u16 (bit_or (u16 (u8 (v >>> 8) <<< 8)) (u8 (bit_and v 0xFF))) ≡ v
rejoin_u16_be v h = ground (arith, low_byte v, or_of_fields 8 (v / 2 ^ 8) (v % 2 ^ 8))

registers_in-response :
    (slave : ℕ) (registers : List ℕ)
    → length registers ≡ 26
    → All IsU16 registers
    → registers_in (response_frame slave registers) ≡ registers
unfolding registers_in response_frame response_body
registers_in-response slave registers h fits =
    ap (tabulate 26) (
      fun_ext (λ i.
        rejoin_u16_be (get_or registers i 0) (All-get_or IsU16 registers i 0 fits (omega arith))))
    ∙ tabulate-get_or 0 26 registers h

pub registers_of-IsU16 : (s : Sample) → IsSample s → All IsU16 (registers_of s)
unfolding registers_of
registers_of-IsU16 s valid = omega arith

module _ (slave : ℕ) (s : Sample) (valid : IsSample s) where
  abbrev answer : List ℕ
  answer = response_frame slave (registers_of s)

  answer_head :
      (length answer ≡ 57)
      × (get_or answer 0 0 ≡ slave)
      × (get_or answer 1 0 ≡ 0x03)
      × (get_or answer 2 0 ≡ 52)
  unfolding response_frame response_body put_u16_le
  answer_head = (refl, refl, refl, refl)

  answer_crc : read_u16_le answer 55 ≡ crc16_modbus (some answer) 55
  answer_crc = back ∙ sym front
    where
      body : List ℕ
      body = response_body slave (registers_of s)

      crc : ℕ
      crc = crc16_modbus (some body) 55

      front : crc16_modbus (some answer) 55 ≡ crc
      front =
          unfold response_frame in
          crc16_prefix body (put_u16_le crc) 55 (unfold response_body in refl)

      back : read_u16_le answer 55 ≡ crc
      back =
          unfold response_frame response_body read_u16_le put_u16_le in
          join-put_u16 (crc16_modbus (some (response_body slave (registers_of s))) 55)
            (crc16-lt (response_body slave (registers_of s)) 55)

  -- The master accepts the slave's answer and reads the sample out of it, all but the timestamp,
  -- which it sets to 0.
  pub parse-response_frame :
      parse_response slave (response_frame slave (registers_of s))
      ≡ ok (record s { timestamp_ms = 0 })
  unfolding parse_response
  parse-response_frame = ground (
    arith,
    answer_head,
    answer_crc,
    registers_in-response slave (registers_of s) (length-registers_of s)
        (registers_of-IsU16 s valid),
    from_registers_lem s [] valid,
    append-nil (registers_of s),
  )
