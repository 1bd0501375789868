-- ===== src/Tests/Rpmsg.antt =====
-- Tests of the RPMsg frame and its bridge.
use okmx8mm.Base.{ℕ, ◌≡◌, refl, arith, List, [], ◌∷◌, ◌++◌, some, true, take}
use okmx8mm.Base.{ok, pos, drop, All, IsByte}
use okmx8mm.Sample.{Sample}
use okmx8mm.Rpmsg.{encode, decode, frame_body}
use okmx8mm.Rpmsg.RoundTrip.{decode-encode}
use okmx8mm.Rpmsg.Corruption.{decode_finds_burst}
use okmx8mm.Rpmsg.Bridge.{Sink, Read, reader_step}
use okmx8mm.Rpmsg.Bridge.Delivery.{Delivered, reader_step-Delivered, reader_step-encode}
use okmx8mm.Tests.Data.{reading, reading-IsSample}

decode-encode_example : decode (some (encode reading)) true ≡ ok reading
decode-encode_example = decode-encode reading reading-IsSample

-- A sink that keeps what it is given.
abbrev keep : Sink (List Sample)
keep kept s = (pos 0, s ∷ kept)

-- A device that holds one frame.
abbrev one_frame : Read (List ℕ)
one_frame held size = (pos size, held, [])

reader_step-Delivered_example : Delivered [] keep (take 63 (encode reading)) (
    let step = reader_step true (some one_frame) (encode reading) [] (some keep) in
    (step.0, step.2))
reader_step-Delivered_example = reader_step-Delivered [] keep one_frame (encode reading)

reader_step-encode_example :
    reader_step true (some one_frame) (encode reading ++ []) [] (some keep)
    ≡ (pos 0, [], reading ∷ [])
reader_step-encode_example =
    reader_step-encode [] keep one_frame (encode reading ++ []) [] reading [] reading-IsSample refl

-- The parts of the frame round the lowest bytes of the third analog value.
abbrev front : List ℕ
front = take 21 (encode reading)

abbrev back : List ℕ
back = drop 23 (encode reading)

front-IsByte : All IsByte front
unfolding encode frame_body
front-IsByte = omega arith

back-IsByte : All IsByte back
unfolding encode frame_body
back-IsByte = omega arith

whole : decode (some (front ++ (44 ∷ 1 ∷ back))) true ≡ ok reading
unfolding encode frame_body
whole = decode-encode reading reading-IsSample

decode_finds_burst_example : ◌≡◌ {A = ℕ} 44 44 × ◌≡◌ {A = ℕ} 1 1
decode_finds_burst_example =
    decode_finds_burst front back 44 1 44 1 reading reading front-IsByte back-IsByte (omega arith)
      (omega arith) (omega arith) (omega arith) whole whole
