-- ===== src/Gui/Crc16/Bits.antt =====
-- A shift register that takes one bit after the other, for the checksum of Crc16.antt.
use Prim.Native.Nat.{bit_xor}
use ps2esdl.Prelude.{
  ℕ, zero, suc, ◌+◌, ◌*◌, ◌/◌, ◌%◌, ◌<◌, ◌≡◌, ◌∙◌, refl, sym, ap, ap₂, arith, ◌==◌, if◌then◌else◌,
}
use ps2esdl.Gui.Crc16.{crc16_polynomial, table_bit, table_bits}
use ps2esdl.Gui.Crc16.Xor.{zero-xor, xor-zero, xor_assoc, two-IsPlace, top-IsPlace}
use ps2esdl.Gui.Crc16.Register.{
  feedback, table_bit-below, table_bit-join, table_bit-xor, table_bits-xor,
}

-- The register of the division by the polynomial, which takes one bit
abbrev pub take_bit : ℕ → ℕ → ℕ
take_bit register bit =
    let shifted : ℕ = 2 * (register % 0x8000) in
    if (register / 0x8000 + bit) % 2 == 1 then bit_xor shifted crc16_polynomial else shifted

-- The lowest `n` bits of a number, the lowest first
abbrev pub take_bits : ℕ → ℕ → ℕ → ℕ
take_bits zero register byte = register
take_bits (suc n) register byte = take_bits n (take_bit register (byte % 2)) (byte / 2)

take_cases :
    (h b l : ℕ)
    → h < 2
    → b < 2
    → (if (h + b) % 2 == 1 then bit_xor l crc16_polynomial else l)
      ≡ bit_xor l (feedback (bit_xor h b))
take_cases zero zero l p q = sym (xor-zero l)
take_cases zero (suc zero) l p q = refl
take_cases (suc zero) zero l p q = refl
take_cases (suc zero) (suc zero) l p q = sym (xor-zero l)
take_cases zero (suc (suc b)) l p q = absurd (omega arith)
take_cases (suc zero) (suc (suc b)) l p q = absurd (omega arith)
take_cases (suc (suc h)) b l p q = absurd (omega arith)

-- To take a bit is to add it at the top, and to go one round.
take_bit-round :
    (crc b : ℕ) → crc < 0x1_0000 → b < 2 → take_bit crc b ≡ table_bit (bit_xor crc (b * 0x8000))
take_bit-round crc b p q =
    let h : ℕ = crc / 0x8000 in
    let l : ℕ = crc % 0x8000 in
    let (join, below) = top-IsPlace h b l 0 (omega arith) (omega arith) in
    let (bits, top) = two-IsPlace 0 0 h b (omega arith) q in
    let split : crc ≡ h * 0x8000 + l = omega arith in
    let bit : b * 0x8000 ≡ b * 0x8000 + 0 = omega arith in
    take_cases h b (2 * l) (omega arith) q
    ∙ ap (λ x. bit_xor (2 * x) (feedback (bit_xor h b))) (sym (xor-zero l))
    ∙ sym (table_bit-join (bit_xor h b) (bit_xor l 0) top below)
    ∙ ap table_bit (sym (ap₂ bit_xor split bit ∙ join))

take_bit-below : (crc b : ℕ) → crc < 0x1_0000 → b < 2 → take_bit crc b < 0x1_0000
take_bit-below crc b p q =
    omega (arith, take_bit-round crc b p q, table_bit-below (bit_xor crc (b * 0x8000)))

take_bit-xor :
    (crc b : ℕ) → crc < 0x1_0000 → b < 2 → take_bit crc b ≡ bit_xor (table_bit crc) (take_bit 0 b)
take_bit-xor crc b p q =
    take_bit-round crc b p q
    ∙ table_bit-xor crc (b * 0x8000) p (omega arith)
    ∙ ap (bit_xor (table_bit crc))
        (ap table_bit (sym (zero-xor (b * 0x8000))) ∙ sym (take_bit-round 0 b (omega arith) q))

-- What the register becomes is the sum of the rounds and of what the bits alone make of 0.
pub take_bits-xor :
    (n crc byte : ℕ)
    → crc < 0x1_0000
    → take_bits n crc byte ≡ bit_xor (table_bits n crc) (take_bits n 0 byte)
unfolding table_bits
take_bits-xor zero crc byte p = sym (xor-zero crc)
take_bits-xor (suc n) crc byte p =
    let b : ℕ = byte % 2 in
    let rest : ℕ = byte / 2 in
    let below : b < 2 = omega arith in
    take_bits-xor n (take_bit crc b) rest (take_bit-below crc b p below)
    ∙ ap (λ x. bit_xor x (take_bits n 0 rest))
        (ap (table_bits n) (take_bit-xor crc b p below)
          ∙ table_bits-xor n (table_bit crc) (take_bit 0 b) (table_bit-below crc)
              (take_bit-below 0 b (omega arith) below))
    ∙ xor_assoc (table_bits n (table_bit crc)) (table_bits n (take_bit 0 b)) (take_bits n 0 rest)
    ∙ ap (bit_xor (table_bits n (table_bit crc)))
        (sym (take_bits-xor n (take_bit 0 b) rest (take_bit-below 0 b (omega arith) below)))
