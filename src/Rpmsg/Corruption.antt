-- ===== src/Rpmsg/Corruption.antt =====
-- The A53 cores find a corrupted frame.
use okmx8mm.Base.{ℕ, ◌≡◌, sym, ◌∙◌, arith, List, ◌∷◌, ◌++◌, length, All}
use okmx8mm.Base.{All-append, IsByte, some, true, ok}
use okmx8mm.Crc.{crc16_modbus}
use okmx8mm.Crc.Detect.{crc16_burst}
use okmx8mm.Wire.{read_u16_le}
use okmx8mm.Wire.Residue.{residue_of_match}
use okmx8mm.Sample.{Sample}
use okmx8mm.Rpmsg.{bad_header, decode, decode_fields}

-- What acceptance says of a frame.
pub decode-accepts :
    (frame : List ℕ) (s : Sample)
    → decode (some frame) true ≡ ok s
    → (length frame ≡ 63)
      × (crc16_modbus (some frame) 61 ≡ read_u16_le frame 61)
      × (decode_fields frame ≡ s)
unfolding decode bad_header
decode-accepts frame s e = ground arith

accepted_residue :
    (frame : List ℕ) (s : Sample)
    → All IsByte frame
    → decode (some frame) true ≡ ok s
    → crc16_modbus (some frame) (length frame) ≡ 0
unfolding read_u16_le
accepted_residue frame s bytes e =
    let facts = decode-accepts frame s e in residue_of_match frame 61 facts.0 bytes facts.1

-- No two different frames of bytes that are both accepted differ in at most two neighbouring
-- bytes: damage within two bytes of an accepted frame, wherever it falls, is always refused.
pub decode_finds_burst :
    (before after : List ℕ) (a b c d : ℕ) (s t : Sample)
    → All IsByte before
    → All IsByte after
    → IsByte a
    → IsByte b
    → IsByte c
    → IsByte d
    → decode (some (before ++ (a ∷ b ∷ after))) true ≡ ok s
    → decode (some (before ++ (c ∷ d ∷ after))) true ≡ ok t
    → (a ≡ c) × (b ≡ d)
decode_finds_burst before after a b c d s t hx hy ha hb hc hd first second =
    crc16_burst before after a b c d hy ha hb hc hd (
      accepted_residue (before ++ (a ∷ b ∷ after)) s
        (All-append IsByte before (a ∷ b ∷ after) hx (ha, (hb, hy))) first
      ∙ sym (
          accepted_residue (before ++ (c ∷ d ∷ after)) t
            (All-append IsByte before (c ∷ d ∷ after) hx (hc, (hd, hy))) second))
