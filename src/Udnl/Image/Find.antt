-- ===== src/Udnl/Image/Find.antt =====
-- GetIOPRPStat of Image.antt finds the first record that is RESET, or says that there is none.
use ps2esdl.Prelude.{
  ℕ, zero, suc, ◌+◌, ◌-◌, ◌*◌, ◌/◌, ◌≤◌, ◌<◌, ◌≡◌, ◌⊎◌, inl, inr, Bool, true, false, Option, none,
  some, add32, u32_mod, arith, dec_lt, lt→ltb, le→ltb, Bool-cases, subst,
}
use ps2esdl.Udnl.Loader.{Mem}
use ps2esdl.Udnl.Image.{RomImgStat, is_reset, find_reset, ioprp_stat, get_ioprp_stat}

module _ (m : Mem) (start end : ℕ) where
  -- Record `n` of the image, 16 bytes each, begins its directory.
  abbrev pub starts_at : ℕ → Bool
  starts_at n = is_reset m (start + 16 * n) (16 * n)

  -- The first record from `i` on that begins the directory
  pub record IsFirst (i n : ℕ) : Type 0 where
    pub from : i ≤ n
    pub inside : start + 16 * n < end
    pub starts : starts_at n ≡ true
    pub first : (j : ℕ) → i ≤ j → j < n → starts_at j ≡ false

  -- The result of a search from record `i` on
  abbrev pub Finds : ℕ → Option (Option ℕ) → Type 0
  Finds i o =
      ((n : ℕ) × IsFirst i n × (o ≡ some (some (start + 16 * n))))
      ⊎ (((j : ℕ) → i ≤ j → start + 16 * j < end → starts_at j ≡ false) × (o ≡ some none))

  find_reset-past : (k : ℕ) (ptr offset : ℕ) → end ≤ ptr → find_reset k m end ptr offset ≡ some none
  unfolding find_reset
  find_reset-past zero ptr offset h = rw (le→ltb ptr end h)
  find_reset-past (suc k) ptr offset h = rw (le→ltb ptr end h)

  find_reset-hit :
      (k : ℕ) (ptr offset : ℕ)
      → ptr < end
      → is_reset m ptr offset ≡ true
      → find_reset (suc k) m end ptr offset ≡ some (some ptr)
  unfolding find_reset
  find_reset-hit k ptr offset h e = rw (lt→ltb ptr end h, e)

  find_reset-next :
      (k : ℕ) (ptr offset : ℕ)
      → ptr < end
      → is_reset m ptr offset ≡ false
      → find_reset (suc k) m end ptr offset ≡ find_reset k m end (add32 ptr 16) (add32 offset 16)
  unfolding find_reset
  find_reset-next k ptr offset h e = rw (lt→ltb ptr end h, e)

  Finds-here :
      (i : ℕ) (o : Option (Option ℕ))
      → start + 16 * i < end
      → starts_at i ≡ true
      → o ≡ some (some (start + 16 * i))
      → Finds i o
  Finds-here i o h e eq = inl (
    i,
    record { from = omega arith; inside = h; starts = e; first = λ j a b. absurd (omega arith) },
    eq,
  )

  at_least :
      (i j : ℕ)
      → starts_at i ≡ false
      → i ≤ j
      → (suc i ≤ j → starts_at j ≡ false)
      → starts_at j ≡ false
  at_least i j e a later = elim (dec_lt i j) [
    | yes l ↦ later (omega arith)
    | no g ↦ subst (λ k. starts_at k ≡ false) (omega arith) e
  ]

  Finds-later : (i : ℕ) (o : Option (Option ℕ)) → starts_at i ≡ false → Finds (suc i) o → Finds i o
  Finds-later i o e (inl (n, f, eq)) = inl (
    n,
    record {
      from = omega (arith, f.from);
      inside = f.inside;
      starts = f.starts;
      first = λ j a b. at_least i j e a (λ c. f.first j c b);
    },
    eq,
  )
  Finds-later i o e (inr (nowhere, eq)) = inr (λ j a b. at_least i j e a (λ c. nowhere j c b), eq)

  -- The loop from record `i` on, with fuel for the records that are left.
  find_reset-Finds :
      (k i : ℕ)
      → end + 16 < u32_mod
      → end ≤ start + 16 * (i + k)
      → Finds i (find_reset k m end (start + 16 * i) (16 * i))
  find_reset-Finds zero i small enough =
      inr (λ j a b. absurd (omega arith), find_reset-past 0 _ _ (omega arith))
  find_reset-Finds (suc k) i small enough = elim (dec_lt (start + 16 * i) end) [
    | no past ↦ inr (λ j a b. absurd (omega arith), find_reset-past (suc k) _ _ (omega arith))
    | yes inside ↦ elim (Bool-cases (starts_at i)) [
      | inl e ↦ Finds-here i _ inside e (find_reset-hit k _ _ inside e)
      | inr e ↦
          let e1 : add32 (start + 16 * i) 16 ≡ start + 16 * suc i = omega arith in
          let e2 : add32 (16 * i) 16 ≡ 16 * suc i = omega arith in
          Finds-later i _ e (
            rw (find_reset-next k (start + 16 * i) (16 * i) inside e, e1, e2)
              (find_reset-Finds k (suc i) small (omega arith)))
    ]
  ]

-- GetIOPRPStat of a range that ends 16 bytes or more below the end of memory ends, and either finds the
-- first record that begins the directory, with the directory behind it of the size that its second
-- record tells, or there is none in the range and the start of the image is set to 0.
pub get_ioprp_stat-IsFirst :
    (m : Mem) (start end : ℕ) (before : RomImgStat)
    → end + 16 < u32_mod
    → start ≤ end
    → ((n : ℕ) × IsFirst m start end 0 n
        × (get_ioprp_stat m start end before
            ≡ some (
              record {
                image_start = start;
                romdir_start = start + 16 * n;
                romdir_end = add32 (start + 16 * n) (m (add32 (start + 16 * n) 28));
              },
              true,
            )))
      ⊎ (((j : ℕ) → start + 16 * j < end → starts_at m start end j ≡ false)
          × (get_ioprp_stat m start end before ≡ some (record before { image_start = 0 }, false)))
unfolding get_ioprp_stat ioprp_stat
get_ioprp_stat-IsFirst m start end before small le =
    let scanned = find_reset-Finds m start end ((end - start) / 16 + 1) 0 small (omega arith) in
    elim (subst (λ p. Finds m start end 0 (find_reset ((end - start) / 16 + 1) m end p 0)) zeroth
      scanned) [
        | inl (n, first, e) ↦ inl (n, first, rw e)
        | inr (nowhere, e) ↦ inr (λ j h. nowhere j (omega arith) h, rw e)
      ]
  where
    zeroth : start + 16 * 0 ≡ start
    zeroth = omega arith
