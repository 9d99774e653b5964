-- ===== src/Gui/Crc16.antt =====
-- gui/crc16.c: the checksum of the logo of a disc, with its table.
mod Xor
mod Register
mod Bits
mod Bytes
pub mod Serial
pub mod Logo
mod Tests
use Prim.Native.Nat.{bit_and, bit_or, bit_xor}
use ps2esdl.Prelude.{
  ℕ, zero, suc, ◌+◌, ◌*◌, ◌/◌, ◌%◌, ◌^◌, ◌||◌, List, [], ◌∷◌, ◌==◌, if◌then◌else◌, table, get_elem?,
  Option, none, some, u16_mod,
}

abbrev pub crc16_polynomial : ℕ
crc16_polynomial = 0x8005

-- One round of the inner loop of `InitCRC16Table`
unfoldable pub table_bit : ℕ → ℕ
table_bit crc = bit_xor (2 * crc) (if crc / 0x8000 % 2 == 1 then crc16_polynomial else 0) % u16_mod

unfoldable pub table_bits : ℕ → ℕ → ℕ
table_bits zero crc = crc
table_bits (suc n) crc = table_bits n (table_bit crc)

-- `InitCRC16Table`: the table
unfoldable pub init_crc16_table : List ℕ
init_crc16_table = table (λ i. table_bits 8 (i * 256)) 0 256

-- An element of the table; its index is always below its length.
unfoldable pub element : List ℕ → ℕ → ℕ
element xs i = elim (get_elem? xs i) [ none ↦ 0 | some x ↦ x ]

-- The loop of `reflect`, with `n` bits to go
unfoldable pub reflect_loop : ℕ → ℕ → ℕ → ℕ
reflect_loop zero word reflection = reflection
reflect_loop (suc n) word reflection =
    reflect_loop n (word / 2) (if word % 2 == 1 then bit_or reflection (2 ^ n) else reflection)

unfoldable pub reflect : ℕ → ℕ → ℕ
reflect word bits = reflect_loop bits word 0

-- One round of `CalculateCRC16`
unfoldable pub checksum_byte : List ℕ → ℕ → ℕ → ℕ
checksum_byte crc16_table checksum byte =
    bit_xor (element crc16_table (bit_and (bit_xor (checksum / 256) (reflect byte 8 % 256)) 0xff))
      (checksum * 256)
    % u16_mod

unfoldable pub calculate_crc16 : List ℕ → List ℕ → ℕ → ℕ
calculate_crc16 crc16_table [] checksum = checksum
calculate_crc16 crc16_table (byte ∷ buffer) checksum =
    calculate_crc16 crc16_table buffer (checksum_byte crc16_table checksum byte)

-- `ReflectAndXORCRC16`
unfoldable pub reflect_and_xor_crc16 : ℕ → ℕ
reflect_and_xor_crc16 crc = bit_xor (reflect crc 16) 0

-- What comes of the reading of the logo: a negative result, or the number of bytes and the buffer
pub data LogoRead : Type 0 where
  unread : LogoRead
  has_read : ℕ → List ℕ → LogoRead

-- The checksum of the console's region, J A C H M or E R O
unfoldable pub logo_checksum : ℕ → Option ℕ
logo_checksum region_code =
    if region_code == 0x4a
      || region_code == 0x41
      || region_code == 0x43
      || region_code == 0x48
      || region_code == 0x4d
    then some 0xd2bc
    else (if region_code == 0x45 || region_code == 0x52 || region_code == 0x4f
        then some 0x4702
        else none)

-- The comparison with it
unfoldable pub logo_result : ℕ → Option ℕ → ℕ
logo_result checksum none = 0
logo_result checksum (some expected) = if checksum == expected then 1 else 0

-- `HasValidPS2Logo`: its result, `none` for a negative one
unfoldable pub has_valid_ps2_logo : ℕ → LogoRead → Option ℕ
has_valid_ps2_logo region_code unread = none
has_valid_ps2_logo region_code (has_read size logo_buffer) =
    let checksum = reflect_and_xor_crc16 (calculate_crc16 init_crc16_table logo_buffer 0) in
    let valid = logo_result checksum (logo_checksum region_code) in
    if size == 12 * 2048 then some valid else some size
