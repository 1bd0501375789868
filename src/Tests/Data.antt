-- ===== src/Tests/Data.antt =====
-- A sample that the other tests share.
use okmx8mm.Base.{[], ◌∷◌, arith}
use okmx8mm.Sample.{Sample, IsSample}

-- Ten analog values, the last of them -1 and the one before it -2 ^ 31.
abbrev pub reading : Sample
reading = record {
  sequence = 7;
  timestamp_ms = 1234;
  analog = 100 ∷ 200 ∷ 300 ∷ 400 ∷ 500 ∷ 600 ∷ 700 ∷ 65536 ∷ 0x8000_0000 ∷ 0xFFFF_FFFF ∷ [];
  digital_bits = 3;
  speed_rpm = 1500;
  flags = 1;
}

pub reading-IsSample : IsSample reading
reading-IsSample = omega arith
