-- ===== src/Rpmsg/RoundTrip.antt =====
-- What the M4 core publishes is what the A53 cores decode.
use okmx8mm.Base.{ℕ, ◌≡◌, refl, ap, ◌∙◌, sym, arith, length, get_or, tabulate}
use okmx8mm.Base.{tabulate-get_or, fun_ext, All-get_or, IsU32, some, true, ok, false, ==_iff}
use okmx8mm.Crc.{crc16_modbus}
use okmx8mm.Crc.Detect.{crc16-lt, crc16_prefix}
use okmx8mm.Wire.{put_u16_le, read_u16_le, join_u16}
use okmx8mm.Wire.Join.{join-put_u16, join-put_u32, rejoin_u32}
use okmx8mm.Sample.{Sample, IsSample}
use okmx8mm.Rpmsg.{frame_body, encode, decode_fields, bad_header, decode}

module _ (s : Sample) (valid : IsSample s) where
  channel_fits : (i : ℕ) → IsU32 (get_or s.analog i 0)
  channel_fits i = All-get_or IsU32 s.analog i 0 valid.analog_fits (omega arith)

  channels_back : tabulate 10 (λ i. rejoin_u32 (get_or s.analog i 0)) ≡ s.analog
  channels_back =
      ap (tabulate 10) (fun_ext (λ i. join-put_u32 (get_or s.analog i 0) (channel_fits i)))
      ∙ tabulate-get_or 0 10 s.analog valid.channels

  pub decode_fields-encode : decode_fields (encode s) ≡ s
  unfolding decode_fields encode frame_body
  decode_fields-encode = λ i. record {
    sequence = join-put_u32 s.sequence valid.sequence_fits i;
    timestamp_ms = join-put_u32 s.timestamp_ms valid.timestamp_fits i;
    analog = channels_back i;
    digital_bits = join-put_u16 s.digital_bits valid.digital_fits i;
    speed_rpm = join-put_u32 s.speed_rpm valid.speed_fits i;
    flags = join-put_u16 s.flags valid.flags_fit i;
  }

  bad_header-encode : bad_header (encode s) ≡ false
  unfolding bad_header encode frame_body read_u16_le join_u16
  bad_header-encode = refl

  length-frame_body : length (frame_body s) ≡ 61
  unfolding frame_body
  length-frame_body = refl

  pub length-encode : length (encode s) ≡ 63
  unfolding encode frame_body
  length-encode = refl

  pub crc_of_frame : crc16_modbus (some (encode s)) 61 ≡ read_u16_le (encode s) 61
  crc_of_frame = front ∙ sym back
    where
      crc : ℕ
      crc = crc16_modbus (some (frame_body s)) 61

      front : crc16_modbus (some (encode s)) 61 ≡ crc
      front = unfold encode in crc16_prefix (frame_body s) (put_u16_le crc) 61 length-frame_body

      back : read_u16_le (encode s) 61 ≡ crc
      back =
          unfold encode frame_body read_u16_le in
          join-put_u16 (crc16_modbus (some (frame_body s)) 61) (crc16-lt (frame_body s) 61)

  -- The A53 cores accept what the M4 core publishes for a sample and get that sample back, all of
  -- its fields included.
  pub decode-encode : decode (some (encode s)) true ≡ ok s
  unfolding decode
  decode-encode =
      rw (bad_header-encode, crc_of_frame)
        (ground (arith, ==_iff (read_u16_le (encode s) 61) (read_u16_le (encode s) 61))
          ∙ ap ok decode_fields-encode)
