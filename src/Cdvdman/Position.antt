-- ===== src/Cdvdman/Position.antt =====
-- modules/cdvdman/cdvdman_main.c: sceCdIntToPos and sceCdPosToInt, between sector numbers and
-- positions in minutes, seconds and sectors, each a byte of two decimal digits.
use ps2esdl.Prelude.{ℕ, ◌+◌, ◌-◌, ◌*◌, ◌/◌, ◌%◌, ◌<◌, ◌≡◌, ◌↔◌, arith, add32, sub32, mul32, u8_mod}

-- `cd_location_t`
pub record CdLocation : Type 0 where
  pub minute : ℕ
  pub second : ℕ
  pub sector : ℕ
  pub track : ℕ

-- `sceCdIntToPos`, for a sector number: the division of a negative `int` does not come up.
unfoldable pub cd_int_to_pos : ℕ → CdLocation → CdLocation
cd_int_to_pos i0 p =
    let i = i0 + 150 in
    let se0 = i / 75 in
    let sc = i - se0 * 75 in
    let mi = se0 / 60 in
    let se = se0 - mi * 60 in
    record p {
      sector = (sc - sc / 10 * 10 + sc / 10 * 16) % u8_mod;
      second = (se / 10 * 16 + se - se / 10 * 10) % u8_mod;
      minute = (mi / 10 * 16 + mi - mi / 10 * 10) % u8_mod;
    }

-- `sceCdPosToInt`: the bit pattern of the `int`. The fields are bytes, and each is shifted by 16.
unfoldable pub cd_pos_to_int : CdLocation → ℕ
cd_pos_to_int p =
    let minutes = add32 (mul32 (p.minute / 0x1_0000) 10) (p.minute % 16) in
    let seconds = add32 (mul32 (p.second / 0x1_0000) 10) (p.second % 16) in
    let sectors = add32 (mul32 (p.sector / 0x1_0000) 10) (p.sector % 16) in
    sub32 (add32 (mul32 (add32 (mul32 minutes 60) seconds) 75) sectors) 150

-- What a byte of two decimal digits stands for.
abbrev pub decimal : ℕ → ℕ
decimal b = b / 16 * 10 + b % 16

-- Below 100 minutes sceCdIntToPos writes the sector number plus 150, the two seconds of lead-in, as
-- minutes, seconds below 60 and sectors below 75, two decimal digits each, and leaves the track.
cd_int_to_pos_lem :
    (i : ℕ) (p : CdLocation)
    → i + 150 < 450_000
    → let q = cd_int_to_pos i p in
      ((decimal q.minute * 60 + decimal q.second) * 75 + decimal q.sector ≡ i + 150)
      × (decimal q.second < 60)
      × (decimal q.sector < 75)
      × (q.minute % 16 < 10)
      × (q.second % 16 < 10)
      × (q.sector % 16 < 10)
      × (q.track ≡ p.track)
unfolding cd_int_to_pos
cd_int_to_pos_lem i p small = omega arith

-- The fields are bytes, so only their low digits count.
cd_pos_to_int-digits :
    (q : CdLocation)
    → q.minute < 256
    → q.second < 256
    → q.sector < 256
    → cd_pos_to_int q ≡ sub32 ((q.minute % 16 * 60 + q.second % 16) * 75 + q.sector % 16) 150
unfolding cd_pos_to_int
cd_pos_to_int-digits q hm hs hc = omega arith

cd_int_to_pos-digits :
    (i : ℕ) (p : CdLocation)
    → i + 150 < 450_000
    → let q = cd_int_to_pos i p in
      ((q.minute < 256) × (q.second < 256) × (q.sector < 256))
      × (q.minute % 16 ≡ (i + 150) / 4500 % 10)
      × (q.second % 16 ≡ (i + 150) / 75 % 60 % 10)
      × (q.sector % 16 ≡ (i + 150) % 75 % 10)
unfolding cd_int_to_pos
cd_int_to_pos-digits i p small = (omega arith, omega arith, omega arith, omega arith)

-- Below 100 minutes sceCdPosToInt takes back what sceCdIntToPos wrote exactly when the minute, the
-- second and the sector all are a single digit: the shift by 16 loses every tens digit.
pub cd_pos_to_int-cd_int_to_pos :
    (i : ℕ) (p : CdLocation)
    → i + 150 < 450_000
    → (cd_pos_to_int (cd_int_to_pos i p) ≡ i)
      ↔ (((i + 150) / 4500 < 10) × ((i + 150) / 75 % 60 < 10) × ((i + 150) % 75 < 10))
cd_pos_to_int-cd_int_to_pos i p small =
    let (bytes, m, s, c) = cd_int_to_pos-digits i p small in
    let value = cd_pos_to_int-digits (cd_int_to_pos i p) bytes.0 bytes.1 bytes.2 in
    (λ e. omega arith, λ d. omega arith)
