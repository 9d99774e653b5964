-- ===== src/Gui/Crc16/Register.antt =====
-- The rounds of InitCRC16Table as a shift register, and its response to a sum.
use Prim.Native.Nat.{bit_xor}
use ps2esdl.Prelude.{
  ℕ, zero, suc, ◌+◌, ◌*◌, ◌/◌, ◌%◌, ◌<◌, ◌≡◌, ◌∙◌, refl, sym, ap, ap₂, arith, ◌==◌, if◌then◌else◌,
}
use ps2esdl.Gui.Crc16.{crc16_polynomial, table_bit, table_bits}
use ps2esdl.Gui.Crc16.Xor.{
  xor-zero, xor_interchange, two-IsPlace, double-xor, top-IsPlace, word-IsPlace,
}

abbrev pub feedback : ℕ → ℕ
feedback top = if top == 1 then crc16_polynomial else 0

feedback-xor :
    (g h : ℕ) → g < 2 → h < 2 → feedback (bit_xor g h) ≡ bit_xor (feedback g) (feedback h)
feedback-xor zero zero p q = refl
feedback-xor zero (suc zero) p q = refl
feedback-xor (suc zero) zero p q = refl
feedback-xor (suc zero) (suc zero) p q = refl
feedback-xor zero (suc (suc h)) p q = absurd (omega arith)
feedback-xor (suc zero) (suc (suc h)) p q = absurd (omega arith)
feedback-xor (suc (suc g)) h p q = absurd (omega arith)

feedback-below : (h : ℕ) → h < 2 → feedback h < 0x1_0000
feedback-below zero p = omega arith
feedback-below (suc zero) p = omega arith
feedback-below (suc (suc h)) p = absurd (omega arith)

-- A round, by the top bit and the others
pub table_bit-join :
    (h l : ℕ) → h < 2 → l < 0x8000 → table_bit (h * 0x8000 + l) ≡ bit_xor (2 * l) (feedback h)
unfolding table_bit
table_bit-join h l p q =
    let top : (h * 0x8000 + l) / 0x8000 % 2 ≡ h = omega arith in
    let shifted : 2 * (h * 0x8000 + l) ≡ h * 0x1_0000 + 2 * l = omega arith in
    let padded : feedback h ≡ 0 * 0x1_0000 + feedback h = omega arith in
    let none_above : bit_xor h 0 ≡ h = xor-zero h in
    let (join, below) = word-IsPlace h 0 (2 * l) (feedback h) (omega arith) (feedback-below h p) in
    let whole : bit_xor (2 * (h * 0x8000 + l)) (feedback ((h * 0x8000 + l) / 0x8000 % 2))
        ≡ bit_xor (h * 0x1_0000 + 2 * l) (0 * 0x1_0000 + feedback h) =
      ap₂ bit_xor shifted (ap feedback top ∙ padded) in
    omega (arith, whole, join, below)

pub table_bit-below : (crc : ℕ) → table_bit crc < 0x1_0000
unfolding table_bit
table_bit-below crc = omega arith

abbrev top_of : ℕ → ℕ
top_of crc = crc / 0x8000

abbrev rest_of : ℕ → ℕ
rest_of crc = crc % 0x8000

table_bit-split :
    (crc : ℕ) → crc < 0x1_0000 → table_bit crc ≡ bit_xor (2 * rest_of crc) (feedback (top_of crc))
table_bit-split crc p =
    let split : crc ≡ top_of crc * 0x8000 + rest_of crc = omega arith in
    ap table_bit split ∙ table_bit-join (top_of crc) (rest_of crc) (omega arith) (omega arith)

pub table_bit-xor :
    (a b : ℕ)
    → a < 0x1_0000
    → b < 0x1_0000
    → table_bit (bit_xor a b) ≡ bit_xor (table_bit a) (table_bit b)
table_bit-xor a b p q =
    let ha : ℕ = top_of a in
    let hb : ℕ = top_of b in
    let la : ℕ = rest_of a in
    let lb : ℕ = rest_of b in
    let (join, below) = top-IsPlace ha hb la lb (omega arith) (omega arith) in
    let split_a : a ≡ ha * 0x8000 + la = omega arith in
    let split_b : b ≡ hb * 0x8000 + lb = omega arith in
    ap table_bit (ap₂ bit_xor split_a split_b ∙ join)
    ∙ table_bit-join (bit_xor ha hb) (bit_xor la lb)
        (two-IsPlace 0 0 ha hb (omega arith) (omega arith)).1 below
    ∙ ap₂ bit_xor (double-xor la lb) (feedback-xor ha hb (omega arith) (omega arith))
    ∙ xor_interchange (2 * la) (2 * lb) (feedback ha) (feedback hb)
    ∙ sym (ap₂ bit_xor (table_bit-split a p) (table_bit-split b q))

pub table_bits-xor :
    (n a b : ℕ)
    → a < 0x1_0000
    → b < 0x1_0000
    → table_bits n (bit_xor a b) ≡ bit_xor (table_bits n a) (table_bits n b)
unfolding table_bits
table_bits-xor zero a b p q = refl
table_bits-xor (suc n) a b p q =
    ap (table_bits n) (table_bit-xor a b p q)
    ∙ table_bits-xor n (table_bit a) (table_bit b) (table_bit-below a) (table_bit-below b)

pub table_bits-below : (n crc : ℕ) → crc < 0x1_0000 → table_bits n crc < 0x1_0000
unfolding table_bits
table_bits-below zero crc p = p
table_bits-below (suc n) crc p = table_bits-below n (table_bit crc) (table_bit-below crc)
