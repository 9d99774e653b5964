-- ===== src/Udnl/Relocation.antt =====
-- modules/udnl/udnl.c: the relocations of LoadIRXModule. Words and halfwords are numbers below
-- 2^32 and 2^16; memory is little-endian, so the halfword at a word's address is its lower half.
use ps2esdl.Prelude.{
  ℕ, ◌+◌, ◌*◌, ◌/◌, ◌%◌, ◌<◌, ◌≡◌, ◌∙◌, refl, ap, ltb, if◌then◌else◌, u16_mod, u32_mod, add32,
  mul32, arith,
}

-- `*(short int *)`, as the word that sign extension makes of it
abbrev pub sign_extend : ℕ → ℕ
sign_extend h = if ltb h 0x8000 then h else h + 0xffff_0000

-- `*p & 0xFFFF0000 | v`, for a `v` of 16 bits
abbrev pub set_low : ℕ → ℕ → ℕ
set_low w v = w / u16_mod * u16_mod + v

-- R_MIPS_16, on the word at the offset
unfoldable pub relocate_16 : ℕ → ℕ → ℕ
relocate_16 base w = set_low w (add32 base (sign_extend (w % u16_mod)) % u16_mod)

-- R_MIPS_32
unfoldable pub relocate_32 : ℕ → ℕ → ℕ
relocate_32 base w = add32 w base

-- R_MIPS_26, on the word at address `addr`
unfoldable pub relocate_26 : ℕ → ℕ → ℕ → ℕ
relocate_26 base addr w =
    let target = add32 base (mul32 (w % 0x400_0000) 4 + addr / 0x1000_0000 * 0x1000_0000) in
    mul32 target 16 / 64 + w / 0x400_0000 * 0x400_0000

-- R_MIPS_HI16, on the words that it and the entry after it point to
unfoldable pub hi16_value : ℕ → ℕ → ℕ → ℕ
hi16_value base hi lo =
    add32 (add32 (mul32 (hi % u16_mod) u16_mod) (sign_extend (lo % u16_mod))) base

unfoldable pub relocate_hi16 : ℕ → ℕ → ℕ → ℕ × ℕ
unfolding hi16_value
relocate_hi16 base hi lo =
    let temp = hi16_value base hi lo in
    (set_low hi ((temp / 0x8000 + 1) / 2 % u16_mod), set_low lo (temp % u16_mod))

-- What a `lui` and an instruction with a signed offset make of their two halfwords.
abbrev pub address_of : ℕ → ℕ → ℕ
address_of hi lo = add32 (mul32 (hi % u16_mod) u16_mod) (sign_extend (lo % u16_mod))

set_low_high : (w v : ℕ) → v < u16_mod → set_low w v / u16_mod ≡ w / u16_mod
set_low_high w v h = omega arith

set_low_low : (w v : ℕ) → v < u16_mod → set_low w v % u16_mod ≡ v
set_low_low w v h = omega arith

value_eq : (base hi lo : ℕ) → hi16_value base hi lo ≡ add32 (address_of hi lo) base
unfolding hi16_value
value_eq base hi lo = refl

value_u32 : (base hi lo : ℕ) → hi16_value base hi lo < u32_mod
unfolding hi16_value
value_u32 base hi lo = omega arith

-- The two halves that are written address `temp`.
rounded :
    (temp : ℕ)
    → temp < u32_mod
    → add32 (mul32 ((temp / 0x8000 + 1) / 2 % u16_mod) u16_mod) (sign_extend (temp % u16_mod))
      ≡ temp
rounded temp h = ground arith

halves :
    (temp hi lo : ℕ)
    → temp < u32_mod
    → address_of (set_low hi ((temp / 0x8000 + 1) / 2 % u16_mod)) (set_low lo (temp % u16_mod))
      ≡ temp
halves temp hi lo h =
    rw
      (
        set_low_low hi ((temp / 0x8000 + 1) / 2 % u16_mod) (omega arith),
        set_low_low lo (temp % u16_mod) (omega arith),
      )
      (rounded temp h)

-- A relocated pair addresses what it addressed before, moved by the base, and keeps both opcodes:
-- the upper half is rounded so that the sign of the lower one is made up for.
pub relocate_hi16_lem :
    (base hi lo : ℕ)
    → let (hi', lo') = relocate_hi16 base hi lo in
      (address_of hi' lo' ≡ add32 (address_of hi lo) base)
      × (hi' / u16_mod ≡ hi / u16_mod)
      × (lo' / u16_mod ≡ lo / u16_mod)
unfolding relocate_hi16
relocate_hi16_lem base hi lo =
    let temp = hi16_value base hi lo in
    (
      halves temp hi lo (value_u32 base hi lo) ∙ value_eq base hi lo,
      set_low_high hi ((temp / 0x8000 + 1) / 2 % u16_mod) (omega arith),
      set_low_high lo (temp % u16_mod) (omega arith),
    )

-- Writing the lower half alone makes the same word.
pub relocate_hi16-set_low :
    (base hi lo : ℕ)
    → set_low lo ((relocate_hi16 base hi lo).1 % u16_mod) ≡ (relocate_hi16 base hi lo).1
unfolding relocate_hi16
relocate_hi16-set_low base hi lo =
    ap (set_low lo) (set_low_low lo (hi16_value base hi lo % u16_mod) (omega arith))

-- A jump at `addr`, relocated by a multiple of 4, keeps its opcode, and within a region of 256 MB,
-- which the jump cannot leave, its target is the old one moved by the base.
relocate_26_lem :
    (base addr w : ℕ)
    → base % 4 ≡ 0
    → w < u32_mod
    → let target = mul32 (w % 0x400_0000) 4 + addr / 0x1000_0000 * 0x1000_0000 in
      addr < u32_mod
      → (relocate_26 base addr w / 0x400_0000 ≡ w / 0x400_0000)
        × (relocate_26 base addr w % 0x400_0000 * 4 ≡ add32 base target % 0x1000_0000)
unfolding relocate_26
relocate_26_lem base addr w aligned word in_memory = (omega arith, omega arith)
