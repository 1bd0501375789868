-- ===== src/Can/Payload.antt =====
-- What the six frames of a sample carry.
use okmx8mm.Base.{
  ℕ, zero, suc, ◌+◌, ◌≤◌, ◌<◌, ◌^◌, ◌≡◌, refl, arith, List, [], ◌++◌, drop, true, ok, length,
}
use okmx8mm.Base.{u32}
use okmx8mm.Sample.{Sample}
use okmx8mm.Rpmsg.{frame_body}
use okmx8mm.Can.{encode_sample, frame_bytes, frame_count}

-- The bytes of the frames from an index on.
abbrev pub bytes_from : Sample → ℕ → ℕ → List ℕ
bytes_from s zero index = []
bytes_from s (suc left) index = frame_bytes s index ++ bytes_from s left (index + 1)

-- The bytes of the six frames, in order, are those of the RPMsg payload without the sequence
-- number and the timestamp: all ten channels, the digital bits, the speed and the flags.
pub frame_bytes-payload : (s : Sample) → bytes_from s frame_count 0 ≡ drop 13 (frame_body s)
unfolding frame_bytes frame_body
frame_bytes-payload s = refl

-- Six frames are encoded exactly for a base up to 0x7FA. Each then has the standard identifier
-- of its index above the base and eight bytes.
pub encode_sample_lem :
    (s : Sample) (base index : ℕ)
    → base ≤ 0x7FA
    → index < 6
    → (encode_sample true s base index
        ≡ ok (record { id = base + index; dlc = 8; bytes = frame_bytes s index }))
      × (base + index < 2 ^ 11)
      × (length (frame_bytes s index) ≡ 8)
unfolding encode_sample
encode_sample_lem s base index h below = (encoded, omega arith, size)
  where
    same : u32 (base + index) ≡ base + index
    same = omega arith

    encoded :
        encode_sample true s base index
        ≡ ok (record { id = base + index; dlc = 8; bytes = frame_bytes s index })
    encoded = ground (arith, same)

    size : length (frame_bytes s index) ≡ 8
    size = unfold frame_bytes in ground arith
