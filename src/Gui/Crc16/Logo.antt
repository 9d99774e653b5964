-- ===== src/Gui/Crc16/Logo.antt =====
-- system.c: when HasValidPS2Logo takes the logo as valid.
use ps2esdl.Prelude.{ℕ, ◌*◌, ◌≡◌, ◌∙◌, ◌↔◌, ap, arith, Option, none, some, List, ==_iff}
use ps2esdl.Gui.Crc16.{
  init_crc16_table, calculate_crc16, reflect, reflect_and_xor_crc16, has_read, logo_checksum,
  logo_result, has_valid_ps2_logo,
}
use ps2esdl.Gui.Crc16.Serial.{AreBytes, take_bytes, calculate_crc16-take_bytes}
use ps2esdl.Gui.Crc16.Xor.{xor-zero}

-- The register after the logo's bits, mirrored
abbrev pub register_of : List ℕ → ℕ
register_of logo_buffer = reflect (take_bytes logo_buffer 0) 16

is_expected :
    (checksum : ℕ) (o : Option ℕ) → (some (logo_result checksum o) ≡ some 1) ↔ (o ≡ some checksum)
unfolding logo_result
is_expected checksum none = ground arith
is_expected checksum (some expected) = ground (arith, ==_iff checksum expected)

checksum-register :
    (logo_buffer : List ℕ)
    → AreBytes logo_buffer
    → reflect_and_xor_crc16 (calculate_crc16 init_crc16_table logo_buffer 0)
      ≡ register_of logo_buffer
unfolding reflect_and_xor_crc16
checksum-register logo_buffer all =
    xor-zero (reflect (calculate_crc16 init_crc16_table logo_buffer 0) 16)
    ∙ ap (λ x. reflect x 16) (calculate_crc16-take_bytes logo_buffer 0 all (omega arith))

-- When all of the logo could be read, HasValidPS2Logo takes it as valid exactly when the register of
-- the division by the polynomial, after the bits of the logo, is, mirrored, the checksum of the region.
pub has_valid_ps2_logo_iff :
    (region_code : ℕ) (logo_buffer : List ℕ)
    → AreBytes logo_buffer
    → (has_valid_ps2_logo region_code (has_read (12 * 2048) logo_buffer) ≡ some 1)
      ↔ (logo_checksum region_code ≡ some (register_of logo_buffer))
unfolding has_valid_ps2_logo
has_valid_ps2_logo_iff region_code logo_buffer all =
    rw (checksum-register logo_buffer all)
      (is_expected (register_of logo_buffer) (logo_checksum region_code))
