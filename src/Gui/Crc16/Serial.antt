-- ===== src/Gui/Crc16/Serial.antt =====
-- The checksum of Crc16.antt is that of a shift register which takes one bit after the other.
use ps2esdl.Prelude.{ℕ, ◌<◌, ◌≡◌, ◌∙◌, refl, ap, arith, List, [], ◌∷◌}
use ps2esdl.Gui.Crc16.{init_crc16_table, checksum_byte, calculate_crc16}
use ps2esdl.Gui.Crc16.Bits.{take_bits}
use ps2esdl.Gui.Crc16.Bytes.{checksum_byte-take_bits}

abbrev pub take_bytes : List ℕ → ℕ → ℕ
take_bytes [] register = register
take_bytes (byte ∷ buffer) register = take_bytes buffer (take_bits 8 register byte)

abbrev pub AreBytes : List ℕ → Type 0
AreBytes [] = Unit {0}
AreBytes (byte ∷ buffer) = (byte < 256) × AreBytes buffer

checksum_byte-below : (crc byte : ℕ) → checksum_byte init_crc16_table crc byte < 0x1_0000
unfolding checksum_byte
checksum_byte-below crc byte = omega arith

-- CalculateCRC16, with the table of InitCRC16Table, is what the register of the division by the
-- polynomial 0x8005 becomes when it takes the bits of the bytes one after the other, the lowest first.
pub calculate_crc16-take_bytes :
    (buffer : List ℕ) (checksum : ℕ)
    → AreBytes buffer
    → checksum < 0x1_0000
    → calculate_crc16 init_crc16_table buffer checksum ≡ take_bytes buffer checksum
unfolding calculate_crc16
calculate_crc16-take_bytes [] checksum all p = refl
calculate_crc16-take_bytes (byte ∷ buffer) checksum (q, all) p =
    calculate_crc16-take_bytes buffer (checksum_byte init_crc16_table checksum byte) all
      (checksum_byte-below checksum byte)
    ∙ ap (take_bytes buffer) (checksum_byte-take_bits checksum byte p q)
