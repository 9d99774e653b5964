-- ===== src/Udnl/Address.antt =====
-- modules/udnl/udnl.c: ParseStartAddress, a hexadecimal number in a line of the boot configuration.
use ps2esdl.Prelude.{
  ℕ, ◌+◌, ◌-◌, ◌*◌, ◌%◌, ◌<◌, ◌≡◌, ◌∙◌, refl, ap, ap₂, Bool, true, false, ◌&&◌, List, [], ◌∷◌, ◌++◌,
  map, ltb, leb, if◌then◌else◌, add32, mul32, u8_mod, u32_mod, arith,
}

-- `*ptr>=0x30` for a `char`
abbrev pub continues : ℕ → Bool
continues c = leb 0x30 c && ltb c 0x80

-- `character`, an `unsigned char`, after its subtraction
unfoldable pub digit_value : ℕ → ℕ
digit_value c =
    if ltb c 0x3a
    then (c + u8_mod - 0x30) % u8_mod
    else (if ltb c 0x61 then (c + u8_mod - 0x4b) % u8_mod else (c + u8_mod - 0x6b) % u8_mod)

-- The loop, with the address so far: the address and what is left of the line. The end of the list is a
-- NUL.
unfoldable pub parse_digits : ℕ → List ℕ → ℕ × List ℕ
parse_digits address [] = (address, [])
parse_digits address (c ∷ cs) =
    let rest = parse_digits (add32 (mul32 address 16) (digit_value c)) cs in
    if continues c then rest else (address, c ∷ cs)

-- `ParseStartAddress`
unfoldable pub parse_start_address : List ℕ → ℕ × List ℕ
parse_start_address line = parse_digits 0 line

-- The character of a hexadecimal digit, in capitals and not
abbrev pub upper : ℕ → ℕ
upper d = if ltb d 10 then d + 0x30 else d + 0x37

abbrev pub lower : ℕ → ℕ
lower d = if ltb d 10 then d + 0x30 else d + 0x57

-- What the code takes the digit for.
abbrev pub taken_for : ℕ → ℕ
taken_for d = if ltb d 10 then d else d + 236

abbrev pub hex_value : ℕ → List ℕ → ℕ
hex_value n [] = n
hex_value n (d ∷ ds) = hex_value (16 * n + d) ds

abbrev pub AllBelow : ℕ → List ℕ → Type 0
AllBelow n [] = Unit {0}
AllBelow n (d ∷ ds) = (d < n) × AllBelow n ds

-- The line goes on with a character that ends the number.
abbrev pub Stops : List ℕ → Type 0
Stops [] = Unit {0}
Stops (c ∷ cs) = continues c ≡ false

digit_value-upper : (d : ℕ) → d < 16 → digit_value (upper d) ≡ taken_for d
unfolding digit_value
digit_value-upper d h = ground arith

continues-upper : (d : ℕ) → d < 16 → continues (upper d) ≡ true
continues-upper d h = ground arith

digit_value-lower : (d : ℕ) → d < 16 → digit_value (lower d) ≡ taken_for d
unfolding digit_value
digit_value-lower d h = ground arith

continues-lower : (d : ℕ) → d < 16 → continues (lower d) ≡ true
continues-lower d h = ground arith

parse_digits-stop : (n : ℕ) (rest : List ℕ) → Stops rest → parse_digits n rest ≡ (n, rest)
unfolding parse_digits
parse_digits-stop n [] h = refl
parse_digits-stop n (c ∷ cs) h = rw h

parse_digits-cons :
    (n c d : ℕ) (cs : List ℕ)
    → continues c ≡ true
    → digit_value c ≡ d
    → parse_digits n (c ∷ cs) ≡ parse_digits (add32 (mul32 n 16) d) cs
unfolding parse_digits
parse_digits-cons n c d cs go e = rw (go, e)

hex_value_wrap :
    (m n : ℕ) (ds : List ℕ)
    → m % u32_mod ≡ n % u32_mod
    → hex_value m ds % u32_mod ≡ hex_value n ds % u32_mod
hex_value_wrap m n [] e = e
hex_value_wrap m n (d ∷ ds) e = hex_value_wrap (16 * m + d) (16 * n + d) ds (omega arith)

-- Of a character for each digit that the code reads so.
parse_digits-lem :
    (char : ℕ → ℕ)
    → ((d : ℕ) → d < 16 → digit_value (char d) ≡ taken_for d)
    → ((d : ℕ) → d < 16 → continues (char d) ≡ true)
    → (n : ℕ) (ds rest : List ℕ) → n < u32_mod
    → AllBelow 16 ds
    → Stops rest
    → parse_digits n (map char ds ++ rest) ≡ (hex_value n (map taken_for ds) % u32_mod, rest)
parse_digits-lem char value go n [] rest small all stops =
    parse_digits-stop n rest stops ∙ ap (λ k. (k, rest)) (omega arith)
parse_digits-lem char value go n (d ∷ ds) rest small (h, all) stops =
    parse_digits-cons n (char d) (taken_for d) (map char ds ++ rest) (go d h) (value d h)
    ∙ parse_digits-lem char value go (add32 (mul32 n 16) (taken_for d)) ds rest (omega arith) all
        stops
    ∙ ap (λ k. (k, rest)) (hex_value_wrap _ _ (map taken_for ds) (omega arith))

-- ParseStartAddress of hexadecimal digits, capital or small letters, and a line that is over or goes on
-- with a character below '0' or from 0x80 on: it reads the digits and stops there, and each letter
-- counts 236 more than it stands for.
pub parse_start_address_lem :
    (ds rest : List ℕ)
    → AllBelow 16 ds
    → Stops rest
    → (parse_start_address (map upper ds ++ rest)
        ≡ (hex_value 0 (map taken_for ds) % u32_mod, rest))
      × (parse_start_address (map lower ds ++ rest)
          ≡ (hex_value 0 (map taken_for ds) % u32_mod, rest))
unfolding parse_start_address
parse_start_address_lem ds rest all stops = (
  parse_digits-lem upper digit_value-upper continues-upper 0 ds rest (omega arith) all stops,
  parse_digits-lem lower digit_value-lower continues-lower 0 ds rest (omega arith) all stops,
)

decimal_chars : (ds : List ℕ) → AllBelow 10 ds → (AllBelow 16 ds) × (map taken_for ds ≡ ds)
decimal_chars [] all = (tt, refl)
decimal_chars (d ∷ ds) (h, all) =
    let (below, same) = decimal_chars ds all in
    ((omega arith, below), ap₂ (λ x xs. x ∷ xs) (ground arith) same)

-- ParseStartAddress of decimal digits is the hexadecimal number that they write, modulo 2^32.
parse_start_address-decimal :
    (ds rest : List ℕ)
    → AllBelow 10 ds
    → Stops rest
    → parse_start_address (map upper ds ++ rest) ≡ (hex_value 0 ds % u32_mod, rest)
parse_start_address-decimal ds rest all stops =
    let (below, same) = decimal_chars ds all in
    (parse_start_address_lem ds rest below stops).0
    ∙ ap (λ xs. (hex_value 0 xs % u32_mod, rest)) same
