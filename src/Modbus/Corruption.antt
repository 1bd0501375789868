-- ===== src/Modbus/Corruption.antt =====
-- The M4 core finds a corrupted response.
use okmx8mm.Base.{ℕ, ◌≡◌, sym, ◌∙◌, arith, List, ◌∷◌, ◌++◌, length, All}
use okmx8mm.Base.{All-append, IsByte, some, ok}
use okmx8mm.Crc.{crc16_modbus}
use okmx8mm.Crc.Detect.{crc16_burst}
use okmx8mm.Wire.{read_u16_le}
use okmx8mm.Wire.Residue.{residue_of_match}
use okmx8mm.Sample.{Sample}
use okmx8mm.Modbus.{parse_response}

parse-accepts :
    (slave : ℕ) (response : List ℕ) (s : Sample)
    → parse_response slave response ≡ ok s
    → (length response ≡ 57) × (crc16_modbus (some response) 55 ≡ read_u16_le response 55)
unfolding parse_response
parse-accepts slave response s e = ground arith

response_residue :
    (slave : ℕ) (response : List ℕ) (s : Sample)
    → All IsByte response
    → parse_response slave response ≡ ok s
    → crc16_modbus (some response) (length response) ≡ 0
unfolding read_u16_le
response_residue slave response s bytes e =
    let facts = parse-accepts slave response s e in
    residue_of_match response 55 facts.0 bytes facts.1

-- Damage within two neighbouring bytes of a response that the master would accept is refused:
-- two accepted responses of bytes that differ nowhere else are equal.
pub parse_finds_burst :
    (slave : ℕ) (before after : List ℕ) (a b c d : ℕ) (s t : Sample)
    → All IsByte before
    → All IsByte after
    → IsByte a
    → IsByte b
    → IsByte c
    → IsByte d
    → parse_response slave (before ++ (a ∷ b ∷ after)) ≡ ok s
    → parse_response slave (before ++ (c ∷ d ∷ after)) ≡ ok t
    → (a ≡ c) × (b ≡ d)
parse_finds_burst slave before after a b c d s t hx hy ha hb hc hd first second =
    crc16_burst before after a b c d hy ha hb hc hd (
      response_residue slave (before ++ (a ∷ b ∷ after)) s
        (All-append IsByte before (a ∷ b ∷ after) hx (ha, (hb, hy))) first
      ∙ sym (
          response_residue slave (before ++ (c ∷ d ∷ after)) t
            (All-append IsByte before (c ∷ d ∷ after) hx (hc, (hd, hy))) second))
