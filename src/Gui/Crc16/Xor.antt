-- ===== src/Gui/Crc16/Xor.antt =====
-- The exclusive or of numbers by their digits, for the checksum of Crc16.antt.
use Prim.Native.Nat.{bit_xor, differ, digits, bit_xor-bitwise}
use ps2esdl.Prelude.{
  ℕ, zero, suc, ◌+◌, ◌*◌, ◌/◌, ◌%◌, ◌<◌, ◌≤◌, ◌≡◌, ◌∙◌, refl, sym, ap, ap₂, arith,
}

differ_lem : (x y : ℕ) → x < 2 → y < 2 → differ x y ≡ (x + y) % 2
differ_lem zero y hx hy = omega arith
differ_lem (suc zero) zero hx hy = refl
differ_lem (suc zero) (suc zero) hx hy = refl
differ_lem (suc zero) (suc (suc y)) hx hy = absurd (omega arith)
differ_lem (suc (suc x)) y hx hy = absurd (omega arith)

abbrev xor_digits : ℕ → ℕ → ℕ → ℕ
xor_digits n a b = digits (λ b. b) differ n a b

-- The count of digits does not matter when it reaches the first number.
enough : (n k a b : ℕ) → a ≤ n → a ≤ k → xor_digits n a b ≡ xor_digits k a b
enough zero zero a b p q = refl
enough zero (suc k) zero b p q = refl
enough zero (suc k) (suc a) b p q = absurd (omega arith)
enough (suc n) zero zero b p q = refl
enough (suc n) zero (suc a) b p q = absurd (omega arith)
enough (suc n) (suc k) zero b p q = refl
enough (suc n) (suc k) (suc a) b p q =
    ap (λ x. x * 2 + differ (suc a % 2) (b % 2))
      (enough n k (suc a / 2) (b / 2) (omega arith) (omega arith))

pub zero-xor : (b : ℕ) → bit_xor 0 b ≡ b
zero-xor b = bit_xor-bitwise 0 b

pub xor_step : (a b : ℕ) → bit_xor a b ≡ bit_xor (a / 2) (b / 2) * 2 + (a + b) % 2
xor_step zero b = omega (arith, zero-xor b, zero-xor (b / 2))
xor_step (suc a) b = omega (
  arith,
  bit_xor-bitwise (suc a) b,
  bit_xor-bitwise (suc a / 2) (b / 2),
  enough a (suc a / 2) (suc a / 2) (b / 2) (omega arith) (omega arith),
  differ_lem (suc a % 2) (b % 2) (omega arith) (omega arith),
)

xor-zero_fuel : (n a : ℕ) → a ≤ n → bit_xor a 0 ≡ a
xor-zero_fuel n zero h = refl
xor-zero_fuel zero (suc a) h = absurd (omega arith)
xor-zero_fuel (suc n) (suc a) h =
    omega (arith, xor_step (suc a) 0, xor-zero_fuel n (suc a / 2) (omega arith))

pub xor-zero : (a : ℕ) → bit_xor a 0 ≡ a
xor-zero a = xor-zero_fuel a a (omega arith)

xor-half : (a b : ℕ) → bit_xor a b / 2 ≡ bit_xor (a / 2) (b / 2)
xor-half a b = omega (arith, xor_step a b)

xor-parity : (a b : ℕ) → bit_xor a b % 2 ≡ (a + b) % 2
xor-parity a b = omega (arith, xor_step a b)

xor_comm_fuel : (n a b : ℕ) → a ≤ n → b ≤ n → bit_xor a b ≡ bit_xor b a
xor_comm_fuel zero a b p q = ap₂ bit_xor (omega arith) (omega arith)
xor_comm_fuel (suc n) a b p q =
    omega (
      arith,
      xor_step a b,
      xor_step b a,
      xor_comm_fuel n (a / 2) (b / 2) (omega arith) (omega arith),
    )

pub xor_comm : (a b : ℕ) → bit_xor a b ≡ bit_xor b a
xor_comm a b = xor_comm_fuel (a + b) a b (omega arith) (omega arith)

xor_assoc_fuel :
    (n a b c : ℕ) → a ≤ n → b ≤ n → c ≤ n → bit_xor (bit_xor a b) c ≡ bit_xor a (bit_xor b c)
xor_assoc_fuel zero a b c p q r =
    let za : a ≡ 0 = omega arith in
    let zb : b ≡ 0 = omega arith in
    let zc : c ≡ 0 = omega arith in
    ap₂ bit_xor (ap₂ bit_xor za zb) zc ∙ sym (ap₂ bit_xor za (ap₂ bit_xor zb zc))
xor_assoc_fuel (suc n) a b c p q r = omega (
  arith,
  xor_step (bit_xor a b) c,
  xor_step a (bit_xor b c),
  xor-parity a b,
  xor-parity b c,
  ap (λ x. bit_xor x (c / 2)) (xor-half a b),
  ap (bit_xor (a / 2)) (xor-half b c),
  xor_assoc_fuel n (a / 2) (b / 2) (c / 2) (omega arith) (omega arith) (omega arith),
)

pub xor_assoc : (a b c : ℕ) → bit_xor (bit_xor a b) c ≡ bit_xor a (bit_xor b c)
xor_assoc a b c = xor_assoc_fuel (a + b + c) a b c (omega arith) (omega arith) (omega arith)

pub xor_interchange :
    (a b c d : ℕ) → bit_xor (bit_xor a b) (bit_xor c d) ≡ bit_xor (bit_xor a c) (bit_xor b d)
xor_interchange a b c d =
    xor_assoc a b (bit_xor c d)
    ∙ ap (bit_xor a)
        (sym (xor_assoc b c d) ∙ ap (λ x. bit_xor x d) (xor_comm b c) ∙ xor_assoc c b d)
    ∙ sym (xor_assoc a c (bit_xor b d))

-- The digits below the place `m` and those from there on do not mix.
abbrev pub IsPlace : ℕ → Type 0
IsPlace m =
    (a b c d : ℕ)
    → c < m
    → d < m
    → (bit_xor (a * m + c) (b * m + d) ≡ bit_xor a b * m + bit_xor c d) × (bit_xor c d < m)

one-IsPlace : IsPlace 1
one-IsPlace a b zero zero p q =
    let same_a : a * 1 + 0 ≡ a = omega arith in
    let same_b : b * 1 + 0 ≡ b = omega arith in
    (omega (arith, ap₂ bit_xor same_a same_b, zero-xor 0), omega (arith, zero-xor 0))
one-IsPlace a b zero (suc d) p q = absurd (omega arith)
one-IsPlace a b (suc c) d p q = absurd (omega arith)

half_of : (a m c : ℕ) → (a * (2 * m) + c) / 2 ≡ a * m + c / 2
half_of a m c = omega arith

double-IsPlace : (m : ℕ) → IsPlace m → IsPlace (2 * m)
double-IsPlace m place a b c d p q =
    let (join, below) = place a b (c / 2) (d / 2) (omega arith) (omega arith) in
    (
      omega (
        arith,
        xor_step (a * (2 * m) + c) (b * (2 * m) + d),
        xor_step c d,
        ap₂ bit_xor (half_of a m c) (half_of b m d),
        join,
      ),
      omega (arith, xor_step c d, below),
    )

pub two-IsPlace : IsPlace 2
two-IsPlace = double-IsPlace 1 one-IsPlace

pub double-xor : (a b : ℕ) → 2 * bit_xor a b ≡ bit_xor (2 * a) (2 * b)
double-xor a b =
    let half_a : 2 * a / 2 ≡ a = omega arith in
    let half_b : 2 * b / 2 ≡ b = omega arith in
    omega (arith, xor_step (2 * a) (2 * b), ap₂ bit_xor half_a half_b)

pub byte-IsPlace : IsPlace 0x100
byte-IsPlace = double-IsPlace 0x80 (
    double-IsPlace 0x40 (
      double-IsPlace 0x20
        (double-IsPlace 0x10 (double-IsPlace 8 (double-IsPlace 4 (double-IsPlace 2 two-IsPlace))))))

pub top-IsPlace : IsPlace 0x8000
top-IsPlace = double-IsPlace 0x4000 (
    double-IsPlace 0x2000 (
      double-IsPlace 0x1000 (
        double-IsPlace 0x800
          (double-IsPlace 0x400 (double-IsPlace 0x200 (double-IsPlace 0x100 byte-IsPlace))))))

pub word-IsPlace : IsPlace 0x1_0000
word-IsPlace = double-IsPlace 0x8000 top-IsPlace
