-- ===== src/Tests/Crc.antt =====
-- Tests of the CRC.
use okmx8mm.Base.{ℕ, ◌≡◌, arith, List, [], ◌∷◌, some, none, true, false}
use okmx8mm.Crc.{crc16_modbus}
use okmx8mm.Crc.Table.{crc16_digest, digest-eq-crc16, digest_signed_faults}

-- The request for 26 registers of slave 1.
abbrev request : List ℕ
request = 0x01 ∷ 0x03 ∷ 0x00 ∷ 0x00 ∷ 0x00 ∷ 0x1A ∷ []

digest-eq-crc16_example : crc16_digest false request ≡ some (crc16_modbus (some request) 6)
digest-eq-crc16_example = digest-eq-crc16 request (omega arith)

digest_signed_faults_example : crc16_digest true request ≡ none
digest_signed_faults_example =
    digest_signed_faults 0x01 (0x03 ∷ 0x00 ∷ 0x00 ∷ 0x00 ∷ 0x1A ∷ []) (omega arith)
