-- ===== src/Mqtt.antt =====
-- MQTT packets and the sending of them:
-- OKMX8MM-Demo3/data-collector-demo3/src/mqtt/demo3_mqtt_linux.c, over a socket with the state `W`.
pub mod Remaining
pub mod Sent
use Prim.Native.Nat.{bit_and, bit_or}
use okmx8mm.Base.{
  codes, get_or, ℕ, zero, suc, ◌+◌, ◌-◌, ◌/◌, ◌%◌, ◌*◌, ◌^◌, List, [], ◌∷◌, ◌++◌, Bool, true, false,
  ◌||◌,
}
use okmx8mm.Base.{Option, none, some, length, drop, ltb, ◌==◌, ◌/=◌, if◌then◌else◌, u8, u16, ◌>>>◌}
use okmx8mm.Base.{Result, ok, err, ℤ, pos, minus}

-- The loop of `encode_remaining_length`, with the digits and the room left.
unfoldable pub encode_loop : ℕ → ℕ → ℕ → Result (List ℕ)
encode_loop zero room value = err 1
encode_loop (suc left) zero value = err 1
encode_loop (suc left) (suc room) value =
    let digit = u8 (value % 128) in
    let more = value / 128 in
    let rest = encode_loop left room more in
    if more /= 0
    then (elim rest [ ok digits ↦ ok (bit_or digit 0x80 ∷ digits) | err n ↦ err n ])
    else ok (digit ∷ [])

unfoldable pub encode_remaining_length : ℕ → ℕ → Result (List ℕ)
encode_remaining_length capacity value = encode_loop 4 capacity value

-- `put_u16_be`: the bytes written.
unfoldable pub put_u16_be : ℕ → List ℕ
put_u16_be value = u8 (value >>> 8) ∷ u8 (bit_and value 0xFF) ∷ []

-- What the code tells apart after `send`: a number of bytes taken, `EINTR`, or another failure.
pub data SendStatus : Type 0 where
  taken : ℕ → SendStatus
  interrupted failure : SendStatus

abbrev pub Send : Type 0 → Type 0
Send W = W → List ℕ → SendStatus × W

module _ {W : Type 0} (send : Send W) where
  -- `send_all`, on fuel: whether it returns 0; `none` says that the fuel ran out. The bytes are
  -- those that are left.
  unfoldable pub send_all : ℕ → List ℕ → W → Option Bool × W
  send_all zero bytes w = (none, w)
  send_all (suc fuel) bytes w =
      let (status, after) = send w bytes in
      let again = send_all fuel bytes after in
      if length bytes == 0 then (some true, w) else elim status [
        | interrupted ↦ again
        | failure ↦ (some false, after)
        | taken n ↦
            let rest = send_all fuel (drop n bytes) after in
            if n == 0 then (some false, after) else rest
      ]

  -- A further send, if those before it have returned 0.
  unfoldable pub then_send : ℕ → Option Bool × W → List ℕ → Option Bool × W
  then_send fuel (none, w) bytes = (none, w)
  then_send fuel (some false, w) bytes = (some false, w)
  then_send fuel (some true, w) bytes = send_all fuel bytes w

  -- The four sends of `demo3_mqtt_linux_publish`.
  unfoldable pub send_packet : ℕ → List ℕ → List ℕ → List ℕ → W → Option Bool × W
  send_packet fuel header topic payload w =
      then_send fuel
        (then_send fuel (then_send fuel (send_all fuel header w) (put_u16_be (u16 (length topic))))
          topic)
        payload

  -- The code for the outcome of the sends.
  unfoldable pub publish_code : Option Bool → Option ℤ
  publish_code none = none
  publish_code (some true) = some (pos 0)
  publish_code (some false) = some (minus 3)

  -- `demo3_mqtt_linux_publish`. `usable` says that no pointer is null and the socket is open.
  unfoldable pub publish : ℕ → Bool → List ℕ → List ℕ → W → Option ℤ × W
  publish fuel false topic payload w = (some (minus 1), w)
  publish fuel true topic payload w =
      if length topic == 0 || ltb 65535 (length topic)
      then (some (minus 1), w)
      else elim (encode_remaining_length 4 ((2 + length topic + length payload) % 2 ^ 64)) [
        | err n ↦ (some (minus 2), w)
        | ok digits ↦
            let sent = send_packet fuel (0x30 ∷ digits) topic payload w in
            (publish_code sent.0, sent.1)
      ]

-- The packet that `mqtt_connect` sends, with the digits of its remaining length.
unfoldable pub connect_packet : List ℕ → List ℕ → List ℕ
connect_packet digits client_id =
    (0x10 ∷ digits)
    ++ put_u16_be 4
    ++ codes "MQTT"
    ++ (4 ∷ 0x02 ∷ [])
    ++ put_u16_be 60
    ++ put_u16_be (u16 (length client_id))
    ++ client_id

-- The broker accepts: the four bytes that it answers.
unfoldable pub accepted : List ℕ → Bool
accepted response =
    if get_or response 0 0 /= 0x20 || get_or response 1 0 /= 0x02 || get_or response 3 0 /= 0
    then false
    else true

module _ {W : Type 0} (send : Send W) (receive : W → ℕ → List ℕ × W) where
  -- `mqtt_connect`. `receive` is `recv` with `MSG_WAITALL`: the bytes that arrived.
  unfoldable pub mqtt_connect : ℕ → List ℕ → W → Option ℤ × W
  mqtt_connect fuel client_id w =
      if length client_id == 0 || ltb 255 (length client_id)
      then (some (minus 1), w)
      else elim (encode_remaining_length 511 (10 + 2 + length client_id)) [
        | err n ↦ (some (minus 1), w)
        | ok digits ↦
            let sent = send_all send fuel (connect_packet digits client_id) w in
            let (response, after) = receive sent.1 4 in
            elim sent.0 [
              | none ↦ (none, sent.1)
              | some false ↦ (some (minus 1), sent.1)
              | some true ↦
                  if length response /= 4
                  then (some (minus 1), after)
                  else (if accepted response then some (pos 0) else some (minus 1), after)
            ]
      ]
