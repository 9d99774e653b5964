-- ===== src/Cdvdman/File/Parts.antt =====
-- The three parts of `cdrom_read` of File.antt.
use ps2esdl.Prelude.{
  pos→nonzero, ℕ, zero, suc, ◌+◌, ◌-◌, ◌*◌, ◌/◌, ◌≤◌, ◌<◌, ◌≡◌, refl, subst, u32_mod, arith, dec_lt,
  lt→ltb, le→ltb, add32, sub32, mul32,
}
use ps2esdl.Cdvdman.Drive.{Medium}
use ps2esdl.Cdvdman.File.{
  Cursor, copy_bytes, whole_sectors, read_wait, read_first, read_middle, read_remaining,
}
use ps2esdl.Cdvdman.File.Filled.{
  IsClear, IsClear-part, IsWhole, IsFilled, IsFilled-none, IsFilled-eq, direct-IsFilled,
  copied-IsFilled,
}

module _ (medium : Medium) (sector_count : ℕ) (sectorbuf : ℕ) where
  -- What is left lies on the disc from `offset` in the cursor's sector on, and nothing wraps.
  pub record IsGood (c : Cursor) (offset : ℕ) : Type 0 where
    pub in_sector : offset < 2048
    pub left_int : c.left < 0x8000_0000
    pub room :
        0 < offset + c.left
        → (c.buffer + c.left < u32_mod)
          × (2048 * c.sector + offset + c.left ≤ 2048 * (sector_count + 1))
          × (medium.first ≤ c.sector)
          × (2048 * c.sector + offset + c.left ≤ 2048 * medium.last)
          × IsClear medium c.buffer c.left
    pub static_u32 : sectorbuf + 2048 < u32_mod
    pub static_clear : IsClear medium sectorbuf 2048
    pub disc_u32 : sector_count + 1 < u32_mod

  -- The cursor's sector can be read, into the static buffer.
  next_sector :
      (c : Cursor) (offset : ℕ)
      → IsGood c offset
      → 0 < offset + c.left
      → IsWhole medium sector_count c.sector 1 sectorbuf
  next_sector c offset good more =
      let (memory, disc, first, last, clear) = good.room more in
      (omega arith, first, omega arith, omega (arith, good.static_u32))

  -- A part of a read took `m` bytes.
  pub record IsPart (c c' : Cursor) (offset m : ℕ) : Type 0 where
    pub left : c'.left + m ≡ c.left
    pub filled :
        IsFilled medium sector_count sectorbuf c.drive c'.drive c.buffer m
          (2048 * c.sector + offset)
    pub sector : 0 < c'.left → 2048 * c'.sector ≡ 2048 * c.sector + offset + m
    pub buffer : 0 < c'.left → c'.buffer ≡ c.buffer + m

  -- The cursor after the first sector, when more follows, and when not.
  after_first : Cursor → ℕ → Cursor
  after_first c offset = record {
    sector = c.sector + 1;
    buffer = c.buffer + (2048 - offset);
    left = c.left - (2048 - offset);
    drive =
        copy_bytes c.buffer (sectorbuf + offset) (2048 - offset)
          (read_wait medium sector_count sectorbuf c.sector 1 sectorbuf c.drive);
  }

  end_first : Cursor → ℕ → Cursor
  end_first c offset = record c {
    left = 0;
    drive =
        copy_bytes c.buffer (sectorbuf + offset) c.left
          (read_wait medium sector_count sectorbuf c.sector 1 sectorbuf c.drive);
  }

  read_first-zero : (c : Cursor) → read_first medium sector_count sectorbuf 0 c ≡ c
  unfolding read_first
  read_first-zero c = refl

  read_first-more :
      (c : Cursor) (offset : ℕ)
      → IsGood c offset
      → 0 < offset
      → 2048 < offset + c.left
      → read_first medium sector_count sectorbuf offset c ≡ after_first c offset
  unfolding read_first after_first
  read_first-more c offset good some_offset long = rw (
    lt→ltb 0 offset some_offset,
    lt→ltb 2048 (add32 offset c.left) (omega (arith, good.left_int, good.in_sector)),
    e1,
    e2,
    e3,
  )
    where
      e1 : add32 c.sector 1 ≡ c.sector + 1
      e1 = omega (arith, (good.room (omega (arith, good.in_sector))).1, good.disc_u32)

      e2 : add32 c.buffer (2048 - offset) ≡ c.buffer + (2048 - offset)
      e2 = omega (arith, (good.room (omega (arith, good.in_sector))).0)

      e3 : sub32 c.left (2048 - offset) ≡ c.left - (2048 - offset)
      e3 = omega (arith, good.left_int)

  read_first-end :
      (c : Cursor) (offset : ℕ)
      → IsGood c offset
      → 0 < offset
      → offset + c.left ≤ 2048
      → read_first medium sector_count sectorbuf offset c ≡ end_first c offset
  unfolding read_first end_first
  read_first-end c offset good some_offset short = rw (
    lt→ltb 0 offset some_offset,
    le→ltb 2048 (add32 offset c.left) (omega (arith, good.left_int, good.in_sector)),
  )

  pub read_first-IsPart :
      (c : Cursor) (offset : ℕ)
      → IsGood c offset
      → (m : ℕ) × IsPart c (read_first medium sector_count sectorbuf offset c) offset m
  unfolding after_first end_first
  read_first-IsPart c zero good = rw (read_first-zero c) (
    0,
    record {
      left = omega arith;
      filled = IsFilled-none medium sector_count sectorbuf c.drive c.buffer _;
      sector = λ more. omega arith;
      buffer = λ more. omega arith;
    },
  )
  read_first-IsPart c (suc o) good = elim (dec_lt 2048 (suc o + c.left)) [
    | yes k ↦ rw (read_first-more c (suc o) good (omega arith) k) (
      2048 - suc o,
      record {
        left = omega arith;
        filled =
            copied-IsFilled medium sector_count sectorbuf c.sector (suc o) (2048 - suc o) c.buffer
              c.drive (next_sector c (suc o) good (omega arith)) good.static_clear
              (omega (arith, good.in_sector));
        sector = λ more. omega (arith, good.in_sector);
        buffer = λ more. refl;
      },
    )
    | no k ↦ rw (read_first-end c (suc o) good (omega arith) (omega arith)) (
      c.left,
      record {
        left = omega arith;
        filled =
            copied-IsFilled medium sector_count sectorbuf c.sector (suc o) c.left c.buffer c.drive
              (next_sector c (suc o) good (omega arith)) good.static_clear (omega arith);
        sector = λ more. absurd (omega arith);
        buffer = λ more. absurd (omega arith);
      },
    )
  ]

  after_middle : Cursor → Cursor
  after_middle c = record {
    sector = c.sector + c.left / 2048;
    buffer = c.buffer + c.left / 2048 * 2048;
    left = c.left - c.left / 2048 * 2048;
    drive = read_wait medium sector_count sectorbuf c.sector (c.left / 2048) c.buffer c.drive;
  }

  whole_sectors-positive : (n : ℕ) → n < 0x8000_0000 → whole_sectors n ≡ n / 2048
  unfolding whole_sectors
  whole_sectors-positive n h = rw (lt→ltb n 0x8000_0000 h)

  read_middle-none :
      (c : Cursor)
      → IsGood c 0
      → c.left / 2048 ≡ 0
      → read_middle medium sector_count sectorbuf c ≡ c
  unfolding read_middle
  read_middle-none c good e = rw (whole_sectors-positive c.left good.left_int, e)

  read_middle-some :
      (c : Cursor)
      → IsGood c 0
      → 0 < c.left / 2048
      → read_middle medium sector_count sectorbuf c ≡ after_middle c
  unfolding read_middle after_middle
  read_middle-some c good some_whole = rw (
    whole_sectors-positive c.left good.left_int,
    pos→nonzero (c.left / 2048) some_whole,
    e,
    e1,
    e2,
    e3,
  )
    where
      e : mul32 (c.left / 2048) 2048 ≡ c.left / 2048 * 2048
      e = omega (arith, good.left_int)

      e1 : add32 c.sector (c.left / 2048) ≡ c.sector + c.left / 2048
      e1 = omega (arith, (good.room (omega (arith, good.in_sector))).1, good.disc_u32)

      e2 : add32 c.buffer (c.left / 2048 * 2048) ≡ c.buffer + c.left / 2048 * 2048
      e2 = omega (arith, (good.room (omega (arith, good.in_sector))).0)

      e3 : sub32 c.left (c.left / 2048 * 2048) ≡ c.left - c.left / 2048 * 2048
      e3 = omega (arith, good.left_int)

  next_middle :
      (c : Cursor)
      → IsGood c 0
      → 0 < c.left / 2048
      → IsWhole medium sector_count c.sector (c.left / 2048) c.buffer
  next_middle c good some_whole =
      let (memory, disc, first, last, clear) = good.room (omega arith) in
      (omega arith, first, omega arith, omega arith)

  outside_middle :
      (c : Cursor)
      → IsGood c 0
      → 0 < c.left / 2048
      → IsClear medium c.buffer (2048 * (c.left / 2048))
  outside_middle c good some_whole =
      let (memory, disc, first, last, clear) = good.room (omega arith) in
      subst (λ b. IsClear medium b (2048 * (c.left / 2048))) (omega arith)
        (IsClear-part medium c.buffer c.left 0 (2048 * (c.left / 2048)) clear (omega arith))

  pub read_middle-IsPart :
      (c : Cursor)
      → IsGood c 0
      → let c' = read_middle medium sector_count sectorbuf c in
        (m : ℕ) × IsPart c c' 0 m × (c'.left < 2048) × (m ≡ 0 → c'.drive.pending ≡ c.drive.pending)
  unfolding after_middle
  read_middle-IsPart c good = elim (dec_lt 0 (c.left / 2048)) [
    | no h ↦ rw (read_middle-none c good (omega arith)) (
      0,
      record {
        left = omega arith;
        filled = IsFilled-none medium sector_count sectorbuf c.drive c.buffer _;
        sector = λ more. omega arith;
        buffer = λ more. omega arith;
      },
      omega arith,
      λ e. refl,
    )
    | yes h ↦ rw (read_middle-some c good h) (
      c.left / 2048 * 2048,
      record {
        left = omega arith;
        filled = IsFilled-eq medium sector_count sectorbuf c.buffer (omega arith) (omega arith) (
            direct-IsFilled medium sector_count sectorbuf c.sector (c.left / 2048) c.buffer c.drive
              (next_middle c good h) (outside_middle c good h));
        sector = λ more. omega arith;
        buffer = λ more. refl;
      },
      omega arith,
      λ e. absurd (omega arith),
    )
  ]

  read_remaining-some :
      (c : Cursor)
      → 0 < c.left
      → c.left < 0x8000_0000
      → read_remaining medium sector_count sectorbuf c
        ≡ copy_bytes c.buffer
            (sectorbuf + 0)
            c.left
            (read_wait medium sector_count sectorbuf c.sector 1 sectorbuf c.drive)
  unfolding read_remaining
  read_remaining-some c more int =
      rw (pos→nonzero c.left more, lt→ltb c.left 0x8000_0000 int, add_zero sectorbuf)
    where
      add_zero : (n : ℕ) → n + 0 ≡ n
      add_zero n = omega arith

  read_remaining-none :
      (c : Cursor) → c.left ≡ 0 → read_remaining medium sector_count sectorbuf c ≡ c.drive
  unfolding read_remaining
  read_remaining-none c e = rw e

  pub read_remaining-IsFilled :
      (c : Cursor)
      → IsGood c 0
      → c.left < 2048
      → let d = read_remaining medium sector_count sectorbuf c in
        IsFilled medium sector_count sectorbuf c.drive d c.buffer c.left (2048 * c.sector)
        × (c.left ≡ 0 → d.pending ≡ c.drive.pending)
  read_remaining-IsFilled c good short = elim (dec_lt 0 c.left) [
    | no h ↦
        let e : c.left ≡ 0 = omega arith in
        rw (read_remaining-none c e, e)
          (IsFilled-none medium sector_count sectorbuf c.drive c.buffer _, λ e. refl)
    | yes h ↦ rw (read_remaining-some c h good.left_int) (
      IsFilled-eq medium sector_count sectorbuf c.buffer refl (omega arith) (
          copied-IsFilled medium sector_count sectorbuf c.sector 0 c.left c.buffer c.drive
            (next_sector c 0 good (omega arith)) good.static_clear (omega arith)),
      λ e. absurd (omega arith),
    )
  ]
