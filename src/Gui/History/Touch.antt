-- ===== src/Gui/History/Touch.antt =====
-- One record of the play history when its game is started: the draw of a free bit ends, and the record
-- keeps its bounds.
use ps2esdl.Prelude.{
  ℕ, zero, suc, ◌+◌, ◌-◌, ◌/◌, ◌%◌, ◌^◌, ◌≤◌, ◌<◌, ◌≡◌, ◌≢◌, ◌∙◌, refl, ap, subst, ◌⊎◌, inl, inr,
  Bool, true, false, not, ◌&&◌, some, ltb, leb, ◌==◌, if◌then◌else◌, u8_mod, arith, Bool-cases,
  ==_iff, length, dec_lt, lt→ltb, le→ltb,
}
use ps2esdl.Gui.History.{HistoryEntry, bit, draw, mark, counted, touch}

-- Every value comes up among any `wait` results of rand() in a row.
abbrev pub IsFair : (ℕ → ℕ) → ℕ → Type 0
IsFair rand wait = (k v : ℕ) → v < 6 → (j : ℕ) × (j < wait) × (rand (k + j) % 6 ≡ v)

-- Six bits that are not all set
abbrev pub IsFree : ℕ → ℕ → Type 0
IsFree mask v = (v < 6) × (bit mask v ≡ false)

bit_value : (mask v : ℕ) → bit mask v ≡ true → mask / 2 ^ v % 2 ≡ 1
bit_value mask v h = (==_iff (mask / 2 ^ v % 2) 1).0 h

bit_clear : (mask v : ℕ) → bit mask v ≡ false → mask / 2 ^ v % 2 ≡ 0
bit_clear mask v h = ground arith

free_or_set :
    (mask n : ℕ)
    → ((v : ℕ) × (v < n) × (bit mask v ≡ false)) ⊎ ((v : ℕ) → v < n → bit mask v ≡ true)
free_or_set mask zero = inr (λ v h. absurd (omega arith))
free_or_set mask (suc n) = elim (Bool-cases (bit mask n)) [
  | inr f ↦ inl (n, omega arith, f)
  | inl e ↦ elim (free_or_set mask n) [
    | inl (v, h, f) ↦ inl (v, omega arith, f)
    | inr all ↦ inr (λ v h. elim (dec_lt v n) [
      | yes l ↦ all v l
      | no g ↦ subst (λ w. bit mask w ≡ true) (omega arith) e
    ])
  ]
]

open_bit-IsFree : (mask : ℕ) → mask % 64 ≢ 63 → (v : ℕ) × IsFree mask v
open_bit-IsFree mask h = elim (free_or_set mask 6) [
  | inl (v, l, f) ↦ (v, (l, f))
  | inr all ↦ absurd (
      h (
        omega (
          arith,
          bit_value mask 0 (all 0 (omega arith)),
          bit_value mask 1 (all 1 (omega arith)),
          bit_value mask 2 (all 2 (omega arith)),
          bit_value mask 3 (all 3 (omega arith)),
          bit_value mask 4 (all 4 (omega arith)),
          bit_value mask 5 (all 5 (omega arith)),
        )))
]

module _ (rand : ℕ → ℕ) where
  draw-again :
      (fuel mask k : ℕ)
      → bit mask (rand k % 6) ≡ true
      → draw rand (suc fuel) mask k ≡ draw rand fuel mask (k + 1)
  unfolding draw
  draw-again fuel mask k h = rw h

  draw-done :
      (fuel mask k : ℕ)
      → bit mask (rand k % 6) ≡ false
      → draw rand (suc fuel) mask k ≡ some (rand k % 6, k + 1)
  unfolding draw
  draw-done fuel mask k h = rw h

  -- A free bit that comes up within the fuel ends the draw, with a free bit.
  draw_ends :
      (fuel mask k j v : ℕ)
      → j < fuel
      → rand (k + j) % 6 ≡ v
      → bit mask v ≡ false
      → (w k' : ℕ) × (draw rand fuel mask k ≡ some (w, k')) × IsFree mask w
  draw_ends zero mask k j v h e free = absurd (omega arith)
  draw_ends (suc fuel) mask k j v h e free = elim (Bool-cases (bit mask (rand k % 6))) [
    | inr now ↦ (rand k % 6, k + 1, draw-done fuel mask k now, (omega arith, now))
    | inl taken ↦ elim (dec_lt 0 j) [
      | no first ↦ absurd (cc (taken, free, e, ap (λ i. rand i) (start first)))
      | yes later ↦
          let (w, k', eq, ok) =
            draw_ends fuel mask (k + 1) (j - 1) v (omega arith)
              (ap (λ i. rand i % 6) (shift later) ∙ e) free in
          (w, k', draw-again fuel mask k taken ∙ eq, ok)
    ]
  ]
    where
      start : ¬ (0 < j) → k + j ≡ k
      start l = omega arith

      shift : 0 < j → k + 1 + (j - 1) ≡ k + j
      shift l = omega arith

-- What becomes of the record of a game that is started again: the counter goes on to 127 and stays
-- there or, when all six bits are set, goes back to 63 from 64 on, with 7 as the shift. While a bit is
-- free, one is drawn and set at a count above 14 whose last digit is not 4, and the shift is its
-- number; at any other count bits and shift stay.
pub record IsPlayed (e e' : HistoryEntry) : Type 0 where
  pub name : e'.name ≡ e.name
  pub date_stamp : e'.date_stamp ≡ e.date_stamp
  pub launch_count : e'.launch_count ≡ (
      if e.bitmask % 64 == 63
      then (if ltb e.launch_count 64 then e.launch_count + 1 else 63)
      else (if ltb e.launch_count 127 then e.launch_count + 1 else 127))
  pub bitmask :
      (e'.bitmask ≡ e.bitmask)
      ⊎ ((v : ℕ) × IsFree e.bitmask v
          × (e'.bitmask ≡ e.bitmask + 2 ^ v)
          × (e'.shift_amount ≡ v)
          × (14 < e'.launch_count))
  pub full :
      e.bitmask % 64 ≡ 63
      → (e'.bitmask ≡ e.bitmask)
        × (e'.shift_amount ≡ (if ltb e.launch_count 64 then e.shift_amount else 7))
  pub drawn :
      e.bitmask % 64 ≢ 63
      → 14 < e'.launch_count
      → e'.launch_count % 10 ≢ 4
      → (v : ℕ) × IsFree e.bitmask v × (e'.bitmask ≡ e.bitmask + 2 ^ v) × (e'.shift_amount ≡ v)
  pub still :
      e.bitmask % 64 ≢ 63
      → (e'.launch_count ≤ 14) ⊎ (e'.launch_count % 10 ≡ 4)
      → (e'.bitmask ≡ e.bitmask) × (e'.shift_amount ≡ e.shift_amount)

-- A record as AddHistoryRecord keeps it
pub record IsValid (e : HistoryEntry) : Type 0 where
  pub name : length e.name ≡ 16
  pub launch_count : e.launch_count < 128
  pub bitmask : e.bitmask < 64

counted-eq : (n : ℕ) → n < 255 → counted n ≡ (if ltb n 127 then n + 1 else 127)
counted-eq n h = ground arith

-- The counts at which a bit is drawn
abbrev pub draws : ℕ → Bool
draws n = leb 14 n && not ((n - 14) % 10 == 0)

draws-after : (n : ℕ) → draws n ≡ true → 14 < n
draws-after n h = ground arith

not_drawn : (n : ℕ) → draws n ≡ false → 14 < n → n % 10 ≢ 4 → ⊥
not_drawn n h = ground arith

drawn_not_still : (n : ℕ) → draws n ≡ true → (n ≤ 14) ⊎ (n % 10 ≡ 4) → ⊥
drawn_not_still n h (inl l) = ground arith
drawn_not_still n h (inr l) = ground arith

some_free : (mask : ℕ) → (mask % 64 == 63) ≡ false → mask % 64 ≢ 63
some_free mask h = ground arith

full-IsPlayed :
    (e : HistoryEntry) (count shift : ℕ)
    → (e.bitmask % 64 == 63) ≡ true
    → count ≡ (if ltb e.launch_count 64 then e.launch_count + 1 else 63)
    → shift ≡ (if ltb e.launch_count 64 then e.shift_amount else 7)
    → IsPlayed e (record e { launch_count = count; shift_amount = shift })
full-IsPlayed e count shift all_set c t = record {
  name = refl;
  date_stamp = refl;
  launch_count = rw all_set c;
  bitmask = inl refl;
  full = λ h. (refl, t);
  drawn = λ h. absurd (h ((==_iff (e.bitmask % 64) 63).0 all_set));
  still = λ h. absurd (h ((==_iff (e.bitmask % 64) 63).0 all_set));
}

free-IsPlayed :
    (e : HistoryEntry)
    → e.launch_count < 255
    → (e.bitmask % 64 == 63) ≡ false
    → draws (counted e.launch_count) ≡ false
    → IsPlayed e (record e { launch_count = counted e.launch_count })
free-IsPlayed e small free quiet = record {
  name = refl;
  date_stamp = refl;
  launch_count = rw free (counted-eq e.launch_count small);
  bitmask = inl refl;
  full = λ h. absurd (some_free e.bitmask free h);
  drawn = λ h above other. absurd (not_drawn (counted e.launch_count) quiet above other);
  still = λ h which. (refl, refl);
}

mark-IsPlayed :
    (e : HistoryEntry) (v : ℕ)
    → e.launch_count < 255
    → (e.bitmask % 64 == 63) ≡ false
    → draws (counted e.launch_count) ≡ true
    → IsFree e.bitmask v
    → IsPlayed e (mark (record e { launch_count = counted e.launch_count }) v)
unfolding mark
mark-IsPlayed e v small free later bit = record {
  name = refl;
  date_stamp = refl;
  launch_count = rw free (counted-eq e.launch_count small);
  bitmask = inr (v, bit, refl, refl, draws-after _ later);
  full = λ h. absurd (some_free e.bitmask free h);
  drawn = λ h above other. (v, bit, refl, refl);
  still = λ h which. absurd (drawn_not_still (counted e.launch_count) later which);
}

module _ (rand : ℕ → ℕ) (wait : ℕ) where
  touch-low :
      (e : HistoryEntry) (k : ℕ)
      → (e.bitmask % 64 == 63) ≡ true
      → e.launch_count < 64
      → touch rand wait e k ≡ some (record e { launch_count = (e.launch_count + 1) % u8_mod }, k)
  unfolding touch
  touch-low e k full h = rw (full, lt→ltb e.launch_count 64 h)

  touch-high :
      (e : HistoryEntry) (k : ℕ)
      → (e.bitmask % 64 == 63) ≡ true
      → 64 ≤ e.launch_count
      → touch rand wait e k ≡ some (record e { launch_count = e.bitmask % 64; shift_amount = 7 }, k)
  unfolding touch
  touch-high e k full h = rw (full, le→ltb e.launch_count 64 h)

  touch-quiet :
      (e : HistoryEntry) (k : ℕ)
      → (e.bitmask % 64 == 63) ≡ false
      → draws (counted e.launch_count) ≡ false
      → touch rand wait e k ≡ some (record e { launch_count = counted e.launch_count }, k)
  unfolding touch
  touch-quiet e k free h = rw (free, h)

  touch-draw :
      (e : HistoryEntry) (k v k' : ℕ)
      → (e.bitmask % 64 == 63) ≡ false
      → draws (counted e.launch_count) ≡ true
      → draw rand wait e.bitmask k ≡ some (v, k')
      → touch rand wait e k ≡ some (mark (record e { launch_count = counted e.launch_count }) v, k')
  unfolding touch
  touch-draw e k v k' free h d = rw (free, h, d)

  -- The record of a game is updated, whatever the random numbers are.
  pub touch-IsPlayed :
      IsFair rand wait
      → (e : HistoryEntry) (k : ℕ) → e.launch_count < 255
      → (e' : HistoryEntry) × (k' : ℕ) × (touch rand wait e k ≡ some (e', k')) × IsPlayed e e'
  touch-IsPlayed fair e k small = elim (Bool-cases (e.bitmask % 64 == 63)) [
    | inl full ↦ elim (dec_lt e.launch_count 64) [
      | yes l ↦ (
        _,
        k,
        touch-low e k full l,
        full-IsPlayed e _ e.shift_amount full (ground arith) (ground arith),
      )
      | no g ↦ (
        _,
        k,
        touch-high e k full (omega arith),
        full-IsPlayed e _ 7 full (ground arith) (ground arith),
      )
    ]
    | inr free ↦ elim (Bool-cases (draws (counted e.launch_count))) [
      | inr quiet ↦ (_, k, touch-quiet e k free quiet, free-IsPlayed e small free quiet)
      | inl draws_now ↦
          let (v, open_bit) = open_bit-IsFree e.bitmask (λ h. ground arith) in
          let (j, l, hit) = fair k v open_bit.0 in
          let (w, k', drawn, ok) = draw_ends rand wait e.bitmask k j v l hit open_bit.1 in
          (
            _,
            k',
            touch-draw e k w k' free draws_now drawn,
            mark-IsPlayed e w small free draws_now ok,
          )
    ]
  ]
