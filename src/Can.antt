-- ===== src/Can.antt =====
-- A sample as six CAN frames: `demo3_can_encode_sample` and `demo3_can_linux_send_sample` in
-- OKMX8MM-Demo3/data-collector-demo3/src/can/, and `demo3_can_send_sample` in
-- OKMX8MM-Demo3/stm32f407/applications/can/demo3_can.c.
pub mod Payload
pub mod Send
use okmx8mm.Base.{ℕ, zero, suc, ◌+◌, ◌-◌, ◌*◌, List, [], ◌∷◌, ◌++◌, Bool, true, false, get_or}
use okmx8mm.Base.{ltb, leb, if◌then◌else◌, u32, Result, ok, err, ℤ, pos, minus}
use okmx8mm.Sample.{Sample}
use okmx8mm.Wire.{put_u16_le, put_u32_le}

abbrev pub frame_count : ℕ
frame_count = 6

abbrev pub analog_frame_count : ℕ
analog_frame_count = 5

-- `demo3_can_frame_t`.
pub record Frame : Type 0 where
  pub id : ℕ
  pub dlc : ℕ
  pub bytes : List ℕ

-- The eight bytes of the frame with this index: two channels, or the other fields.
unfoldable pub frame_bytes : Sample → ℕ → List ℕ
unfolding put_u16_le put_u32_le
frame_bytes s index =
    if ltb index analog_frame_count
    then put_u32_le (get_or s.analog (index * 2) 0)
      ++ put_u32_le (get_or s.analog (index * 2 + 1) 0)
    else put_u16_le s.digital_bits ++ put_u32_le s.speed_rpm ++ put_u16_le s.flags

-- `demo3_can_encode_sample`. `given` says that neither pointer is null.
unfoldable pub encode_sample : Bool → Sample → ℕ → ℕ → Result Frame
encode_sample false s base_id index = err 1
encode_sample true s base_id index =
    if leb frame_count index
    then err 2
    else if ltb (0x7FF - (frame_count - 1)) base_id
    then err 3
    else ok (record { id = u32 (base_id + index); dlc = 8; bytes = frame_bytes s index })

-- What the code tells apart after `write` on the socket.
pub data Written : Type 0 where
  whole interrupted short : Written

-- The loop of `demo3_can_linux_send_sample`, with the rounds left, over the socket's state `W`.
unfoldable pub linux_loop :
    {W : Type 0} → (W → Frame → Written × W) → ℕ → ℕ → Sample → ℕ → W → ℤ × W
linux_loop write zero index s base_id w = (pos 0, w)
linux_loop write (suc left) index s base_id w = elim (encode_sample true s base_id index) [
  | err n ↦ (minus 2, w)
  | ok frame ↦
      let after = (write w frame).1 in
      elim (write w frame).0 [
        | whole ↦ linux_loop write left (index + 1) s base_id after
        | interrupted ↦ (minus 3, after)
        | short ↦ (minus 4, after)
      ]
]

-- `demo3_can_linux_send_sample`. `usable` says that no pointer is null and that the socket is
-- open.
unfoldable pub linux_send : {W : Type 0} → (W → Frame → Written × W) → Bool → Sample → ℕ → W → ℤ × W
linux_send write false s base_id w = (minus 1, w)
linux_send write true s base_id w = linux_loop write frame_count 0 s base_id w

-- The base of the identifiers on the STM32F407.
abbrev pub stm32_base_id : ℕ
stm32_base_id = 0x300

-- The loop of `demo3_can_send_sample`. The Boolean says that the HAL took the message.
unfoldable pub stm32_loop : {W : Type 0} → (W → Frame → Bool × W) → ℕ → ℕ → Sample → W → ℤ × W
stm32_loop add_message zero index s w = (pos 0, w)
stm32_loop add_message (suc left) index s w =
    let frame : Frame = record {
      id = u32 (stm32_base_id + index);
      dlc = 8;
      bytes = frame_bytes s index;
    } in
    let after = (add_message w frame).1 in
    let rest = stm32_loop add_message left (index + 1) s after in
    if (add_message w frame).0 then rest else (minus 2, after)

unfoldable pub stm32_send : {W : Type 0} → (W → Frame → Bool × W) → Bool → Sample → W → ℤ × W
stm32_send add_message false s w = (minus 1, w)
stm32_send add_message true s w = stm32_loop add_message frame_count 0 s w
