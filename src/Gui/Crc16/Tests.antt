-- ===== src/Gui/Crc16/Tests.antt =====
-- Runs of the checksum of Crc16.antt.
use ps2esdl.Prelude.{ℕ, ◌≡◌, refl, arith, List, [], ◌∷◌, some}
use ps2esdl.Gui.Crc16.{
  init_crc16_table, calculate_crc16, checksum_byte, element, reflect, reflect_loop, table_bits,
  table_bit, reflect_and_xor_crc16, logo_checksum,
}
use ps2esdl.Gui.Crc16.Serial.{take_bytes, calculate_crc16-take_bytes}

-- 123456789
abbrev nine_digits : List ℕ
nine_digits = 0x31 ∷ 0x32 ∷ 0x33 ∷ 0x34 ∷ 0x35 ∷ 0x36 ∷ 0x37 ∷ 0x38 ∷ 0x39 ∷ []

-- The known value of this checksum for the nine digits
known_value : reflect_and_xor_crc16 (calculate_crc16 init_crc16_table nine_digits 0) ≡ 0xbb3d
unfolding reflect_and_xor_crc16 calculate_crc16 checksum_byte element init_crc16_table reflect
    reflect_loop table_bits table_bit
known_value = refl

european : logo_checksum 0x45 ≡ some 0x4702
unfolding logo_checksum
european = refl

calculate_crc16-take_bytes_example :
    calculate_crc16 init_crc16_table (0x31 ∷ 0xff ∷ []) 0x1234
    ≡ take_bytes (0x31 ∷ 0xff ∷ []) 0x1234
calculate_crc16-take_bytes_example =
    calculate_crc16-take_bytes (0x31 ∷ 0xff ∷ []) 0x1234 (omega arith, (omega arith, tt))
      (omega arith)
