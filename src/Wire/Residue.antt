-- ===== src/Wire/Residue.antt =====
-- Frames that end with their CRC, low byte first.
use okmx8mm.Base.{ℕ, suc, ◌+◌, ◌*◌, ◌/◌, ◌%◌, ◌^◌, ◌≡◌, sym, ap, ◌∙◌, arith}
use okmx8mm.Base.{List, [], ◌∷◌, ◌++◌, some, length, length-take, get_or, take, take-append_last}
use okmx8mm.Base.{All, All-get_or, IsByte}
use okmx8mm.Crc.{crc16_modbus}
use okmx8mm.Crc.Detect.{crc16_prefix, crc16_residue}
use okmx8mm.Wire.{join_u16}
use okmx8mm.Wire.Join.{join_u16_lem}

module _ (frame : List ℕ) (n : ℕ) (len : length frame ≡ suc (suc n))
    (bytes : All IsByte frame) where
  low_in : IsByte (get_or frame n 0)
  low_in = All-get_or IsByte frame n 0 bytes (omega arith)

  high_in : IsByte (get_or frame (suc n) 0)
  high_in = All-get_or IsByte frame (suc n) 0 bytes (omega arith)

  abbrev front : List ℕ
  front = take n frame

  length-front : length front ≡ n
  length-front = length-take n frame (omega arith)

  parts : front ++ (get_or frame n 0 ∷ get_or frame (suc n) 0 ∷ []) ≡ frame
  parts = take-append_last 0 n frame len

  crc_of_front : crc16_modbus (some frame) n ≡ crc16_modbus (some front) (length front)
  crc_of_front =
      ap (λ t. crc16_modbus (some t) n) (sym parts)
      ∙ crc16_prefix front (get_or frame n 0 ∷ get_or frame (suc n) 0 ∷ []) n length-front
      ∙ ap (crc16_modbus (some front)) (sym length-front)

  -- A frame whose last two bytes are the CRC of the others has CRC 0 as a whole.
  pub residue_of_match :
      crc16_modbus (some frame) n ≡ join_u16 (get_or frame n 0) (get_or frame (suc n) 0)
      → crc16_modbus (some frame) (length frame) ≡ 0
  residue_of_match e = ap (λ t. crc16_modbus (some t) (length t)) (sym whole) ∙ crc16_residue front
    where
      crc : ℕ
      crc = crc16_modbus (some front) (length front)

      value : crc ≡ get_or frame (suc n) 0 * 256 + get_or frame n 0
      value =
          sym crc_of_front
          ∙ e
          ∙ join_u16_lem (get_or frame n 0) (get_or frame (suc n) 0) low_in high_in

      low_lem : crc % 2 ^ 8 ≡ get_or frame n 0
      low_lem = omega (arith, value, low_in)

      high_lem : crc / 2 ^ 8 ≡ get_or frame (suc n) 0
      high_lem = omega (arith, value, low_in)

      whole : front ++ (crc % 2 ^ 8 ∷ crc / 2 ^ 8 ∷ []) ≡ frame
      whole =
          ap (λ t. front ++ (t ∷ crc / 2 ^ 8 ∷ [])) low_lem
          ∙ ap (λ t. front ++ (get_or frame n 0 ∷ t ∷ [])) high_lem
          ∙ parts
