-- ===== src/Gui/Crc16/Bytes.antt =====
-- A round of CalculateCRC16 takes the eight bits of a byte.
use Prim.Native.Nat.{bit_and, bit_xor}
use ps2esdl.Prelude.{
  ℕ, zero, suc, ◌+◌, ◌*◌, ◌/◌, ◌%◌, ◌<◌, ◌≡◌, ◌∙◌, refl, sym, ap, ap₂, arith, Bool, true, ◌==◌,
  ◌&&◌, ==_iff,
}
use ps2esdl.Gui.Crc16.{
  table_bit, table_bits, init_crc16_table, element, reflect_loop, reflect, checksum_byte,
}
use ps2esdl.Gui.Crc16.Xor.{zero-xor, xor-zero, xor_assoc, xor_comm, byte-IsPlace, word-IsPlace}
use ps2esdl.Gui.Crc16.Register.{table_bits-below, table_bits-xor}
use ps2esdl.Gui.Crc16.Bits.{take_bits, take_bits-xor}

-- Every number below `n` passes the test.
unfoldable all_pass : ℕ → (ℕ → Bool) → Bool
all_pass zero test = true
all_pass (suc n) test = all_pass n test && test n

passes : (n : ℕ) (test : ℕ → Bool) → all_pass n test ≡ true → (x : ℕ) → x < n → test x ≡ true
unfolding all_pass
passes zero test all x p = absurd (omega arith)
passes (suc n) test all x p = ground (arith, passes n test (ground arith) x)

shifts_out : all_pass 256 (λ l. table_bits 8 l == l * 256) ≡ true
unfolding all_pass table_bits table_bit
shifts_out = refl

reads_reflected : all_pass 256 (λ d. take_bits 8 0 d == table_bits 8 (reflect d 8 * 256)) ≡ true
unfolding all_pass table_bits table_bit reflect reflect_loop
reads_reflected = refl

is_byte : all_pass 256 (λ x. bit_and x 0xff == x) ≡ true
unfolding all_pass
is_byte = refl

is_reflected : all_pass 256 (λ d. reflect d 8 / 256 == 0) ≡ true
unfolding all_pass reflect reflect_loop
is_reflected = refl

in_table : all_pass 256 (λ i. element init_crc16_table i == table_bits 8 (i * 256)) ≡ true
unfolding all_pass init_crc16_table element table_bits table_bit
in_table = refl

-- A test of a byte, as an equation
byte_table : (f g : ℕ → ℕ) (x : ℕ) → all_pass 256 (λ y. f y == g y) ≡ true → x < 256 → f x ≡ g x
byte_table f g x all p = (==_iff (f x) (g x)).0 (passes 256 (λ y. f y == g y) all x p)

reflect-below : (d : ℕ) → d < 256 → reflect d 8 < 256
reflect-below d p =
    let high : reflect d 8 / 256 ≡ 0 =
      byte_table (λ x. reflect x 8 / 256) (λ x. 0) d is_reflected p in
    omega arith

-- The rounds of a word, by its two bytes
table_bits-bytes :
    (h l : ℕ)
    → h < 256
    → l < 256
    → table_bits 8 (h * 256 + l) ≡ bit_xor (table_bits 8 (h * 256)) (l * 256)
table_bits-bytes h l p q =
    let (join, below) = byte-IsPlace h 0 0 l (omega arith) q in
    let high : h * 256 + 0 ≡ h * 256 = omega arith in
    let low : 0 * 256 + l ≡ l = omega arith in
    let word : h * 256 + l ≡ bit_xor (h * 256) l =
      omega (arith, xor-zero h, zero-xor l, join, ap₂ bit_xor high low) in
    ap (table_bits 8) word
    ∙ table_bits-xor 8 (h * 256) l (omega arith) (omega arith)
    ∙ ap (bit_xor (table_bits 8 (h * 256)))
        (byte_table (table_bits 8) (λ x. x * 256) l shifts_out q)

-- A sum of two bytes, shifted
high-xor : (h r : ℕ) → bit_xor (h * 256) (r * 256) ≡ bit_xor h r * 256
high-xor h r =
    let (join, below) = byte-IsPlace h r 0 0 (omega arith) (omega arith) in
    let first : h * 256 + 0 ≡ h * 256 = omega arith in
    let second : r * 256 + 0 ≡ r * 256 = omega arith in
    omega (arith, join, ap₂ bit_xor first second, zero-xor 0)

-- The high byte of a shifted word is dropped.
low-xor :
    (t h l : ℕ)
    → t < 0x1_0000
    → l < 256
    → bit_xor t (h * 0x1_0000 + l * 256) % 0x1_0000 ≡ bit_xor t (l * 256)
low-xor t h l p q =
    let (join, below) = word-IsPlace 0 h t (l * 256) p (omega arith) in
    let first : 0 * 0x1_0000 + t ≡ t = omega arith in
    omega (arith, join, below, ap (λ x. bit_xor x (h * 0x1_0000 + l * 256)) first)

entry : (i : ℕ) → i < 256 → element init_crc16_table i ≡ table_bits 8 (i * 256)
entry i p = byte_table (element init_crc16_table) (λ x. table_bits 8 (x * 256)) i in_table p

checksum_byte-round :
    (h l r byte : ℕ)
    → h < 256
    → l < 256
    → reflect byte 8 ≡ r
    → r < 256
    → checksum_byte init_crc16_table (h * 256 + l) byte
      ≡ bit_xor (table_bits 8 (bit_xor h r * 256)) (l * 256)
unfolding checksum_byte
checksum_byte-round h l r byte p q e below =
    let (join, index_below) = byte-IsPlace 0 0 h r p below in
    let index : ℕ = bit_xor h r in
    let high : (h * 256 + l) / 256 ≡ h = omega arith in
    let reflected : reflect byte 8 % 256 ≡ r = omega arith in
    let masked : bit_and index 0xff ≡ index =
      byte_table (λ x. bit_and x 0xff) (λ x. x) index is_byte index_below in
    let shifted : (h * 256 + l) * 256 ≡ h * 0x1_0000 + l * 256 = omega arith in
    let found =
      ap (element init_crc16_table) (ap (λ x. bit_and x 0xff) (ap₂ bit_xor high reflected) ∙ masked)
      ∙ entry index index_below in
    ap (λ x. x % 0x1_0000) (ap₂ bit_xor found shifted)
    ∙ low-xor (table_bits 8 (index * 256)) h l (table_bits-below 8 (index * 256) (omega arith)) q

pub checksum_byte-take_bits :
    (crc byte : ℕ)
    → crc < 0x1_0000
    → byte < 256
    → checksum_byte init_crc16_table crc byte ≡ take_bits 8 crc byte
checksum_byte-take_bits crc byte p q =
    let h : ℕ = crc / 256 in
    let l : ℕ = crc % 256 in
    let r : ℕ = reflect byte 8 in
    let below : r < 256 = reflect-below byte q in
    let split : crc ≡ h * 256 + l = omega arith in
    let rounds : ℕ → ℕ = λ x. table_bits 8 (x * 256) in
    ap (λ x. checksum_byte init_crc16_table x byte) split
    ∙ checksum_byte-round h l r byte (omega arith) (omega arith) refl below
    ∙ ap (λ x. bit_xor x (l * 256))
        (ap (table_bits 8) (sym (high-xor h r))
          ∙ table_bits-xor 8 (h * 256) (r * 256) (omega arith) (omega arith))
    ∙ xor_assoc (rounds h) (rounds r) (l * 256)
    ∙ ap (bit_xor (rounds h)) (xor_comm (rounds r) (l * 256))
    ∙ sym (xor_assoc (rounds h) (l * 256) (rounds r))
    ∙ ap₂ bit_xor (sym (ap (table_bits 8) split ∙ table_bits-bytes h l (omega arith) (omega arith)))
        (sym (
          byte_table (take_bits 8 0) (λ d. table_bits 8 (reflect d 8 * 256)) byte reads_reflected
            q))
    ∙ sym (take_bits-xor 8 crc byte p)
