-- ===== src/Cdvdman/File/Read.antt =====
-- `cdrom_read` of File.antt as a whole.
use ps2esdl.Prelude.{
  ℕ, zero, suc, ◌+◌, ◌-◌, ◌*◌, ◌/◌, ◌%◌, ◌≤◌, ◌<◌, ◌≡◌, ◌≢◌, refl, ap, sym, subst, inl, inr, false,
  ◌==◌, u32_mod, arith, add32, min,
}
use mathlib.Core.Path.{subst₂}
use ps2esdl.Cdvdman.Drive.{Medium, Drive}
use ps2esdl.Cdvdman.AsyncRead.Usb.{Usb, usb_medium}
use ps2esdl.Cdvdman.File.{
  FileHandle, Cursor, file_mod_banned, clip, read_first, read_middle, read_remaining, cdrom_read,
}
use ps2esdl.Cdvdman.File.Filled.{
  IsClear, IsClear-part, IsFilled, IsFilled-empty, IsFilled-eq, IsFilled-append, IsApart,
  IsApart-le,
}
use ps2esdl.Cdvdman.File.Parts.{
  IsGood, IsPart, read_first-IsPart, read_middle-IsPart, read_remaining-IsFilled,
}

abbrev at_offset : FileHandle → ℕ → FileHandle
at_offset h o = record h { offset = o }

IsClear-le :
    (medium : Medium) (m n buffer : ℕ) → IsClear medium buffer n → m ≤ n → IsClear medium buffer m
IsClear-le medium m n buffer (inl h) le = inl (omega arith)
IsClear-le medium m n buffer (inr h) le = inr h

module _ (medium : Medium) (sector_count : ℕ) (sectorbuf : ℕ) where
  -- What is filled next is filled from where the parts before it ended.
  moved :
      {d1 d2 : Drive} (m : ℕ) {buffer buffer' pos pos' : ℕ}
      → (0 < m → buffer ≡ buffer')
      → (0 < m → pos ≡ pos')
      → IsFilled medium sector_count sectorbuf d1 d2 buffer m pos
      → IsFilled medium sector_count sectorbuf d1 d2 buffer' m pos'
  moved zero eb ep f = IsFilled-empty medium sector_count sectorbuf f
  moved {d1} {d2} (suc k) eb ep f =
      subst₂ (λ b p. IsFilled medium sector_count sectorbuf d1 d2 b (suc k) p) (eb (omega arith))
        (ep (omega arith)) f

  IsPart-IsGood :
      {c c1 : Cursor} {offset m : ℕ}
      → IsPart medium sector_count sectorbuf c c1 offset m
      → IsGood medium sector_count sectorbuf c offset
      → IsGood medium sector_count sectorbuf c1 0
  IsPart-IsGood {c} {c1} {offset} {m} part good = record {
    in_sector = omega arith;
    left_int = omega (arith, part.left, good.left_int);
    room = λ more.
        let some_left : 0 < c1.left = omega arith in
        let (memory, disc, first, last, clear) = good.room (omega (arith, part.left)) in
        (
          omega (arith, part.left, part.buffer some_left),
          omega (arith, part.left, part.sector some_left),
          omega (arith, part.left, part.sector some_left, good.in_sector),
          omega (arith, part.left, part.sector some_left),
          subst (λ b. IsClear medium b c1.left) (sym (part.buffer some_left))
              (IsClear-part medium c.buffer c.left m c1.left clear (omega (arith, part.left))),
        );
    static_u32 = good.static_u32;
    static_clear = good.static_clear;
    disc_u32 = good.disc_u32;
  }

  -- The three parts together take all that was left.
  parts-IsFilled :
      (c : Cursor) (offset : ℕ)
      → IsGood medium sector_count sectorbuf c offset
      → IsApart sectorbuf c.buffer c.left
      → IsClear medium c.buffer c.left
      → IsFilled medium sector_count sectorbuf c.drive
          (read_remaining medium sector_count sectorbuf (
            read_middle medium sector_count sectorbuf
              (read_first medium sector_count sectorbuf offset c)))
          c.buffer
          c.left
          (2048 * c.sector + offset)
  parts-IsFilled c offset good apart clear =
      let c1 : Cursor = read_first medium sector_count sectorbuf offset c in
      let (m1, part1) = read_first-IsPart medium sector_count sectorbuf c offset good in
      let good1 = IsPart-IsGood part1 good in
      let c2 : Cursor = read_middle medium sector_count sectorbuf c1 in
      let (m2, part2, short, same2) = read_middle-IsPart medium sector_count sectorbuf c1 good1 in
      let good2 = IsPart-IsGood part2 good1 in
      let (rest, same3) = read_remaining-IsFilled medium sector_count sectorbuf c2 good2 short in
      let d3 : Drive = read_remaining medium sector_count sectorbuf c2 in
      let first_two =
        IsFilled-append medium sector_count sectorbuf c.buffer m1 m2 (2048 * c.sector + offset)
          (IsApart-le m1 c.left c.buffer apart (omega (arith, part1.left)))
          (IsClear-le medium m1 c.left c.buffer clear (omega (arith, part1.left))) same2
          part1.filled
          (moved m2 {buffer' = c.buffer + m1} {pos' = 2048 * c.sector + offset + m1}
            (λ more. part1.buffer (omega (arith, part2.left)))
            (λ more. omega (arith, part1.sector (omega (arith, part2.left)))) part2.filled) in
      IsFilled-eq medium sector_count sectorbuf c.buffer {n = m1 + m2 + c2.left}
        (omega (arith, part1.left, part2.left)) refl
        (IsFilled-append medium sector_count sectorbuf c.buffer (m1 + m2) c2.left
          (2048 * c.sector + offset)
          (IsApart-le (m1 + m2) c.left c.buffer apart (omega (arith, part1.left, part2.left)))
          (IsClear-le medium (m1 + m2) c.left c.buffer clear
            (omega (arith, part1.left, part2.left)))
          same3 first_two
          (moved c2.left {buffer' = c.buffer + (m1 + m2)}
            {pos' = 2048 * c.sector + offset + (m1 + m2)}
            (λ more. omega (arith, part2.buffer more, part1.buffer (omega (arith, part2.left))))
            (λ more. omega (arith, part2.sector more, part1.sector (omega (arith, part2.left))))
            rest))

  clip_lem :
      (h : FileHandle) (nbyte : ℕ)
      → h.offset ≤ h.size
      → h.size < u32_mod
      → h.offset + nbyte < u32_mod
      → clip h nbyte ≡ min nbyte (h.size - h.offset)
  unfolding clip
  clip_lem h nbyte le size small = ground arith

  -- What cdrom_read needs of a read for `nbyte` bytes to `buffer`
  pub record IsReadable (h : FileHandle) (buffer nbyte : ℕ) : Type 0 where
    pub not_banned : h.flags ≢ file_mod_banned
    pub offset_in : h.offset ≤ h.size
    pub size_u32 : h.size < u32_mod
    pub end_u32 : h.offset + nbyte < u32_mod
    pub int : nbyte < 0x8000_0000
    pub on_disc : 2048 * h.lsn + h.size ≤ 2048 * (sector_count + 1)
    pub disc_u32 : sector_count + 1 < u32_mod
    pub above : medium.first ≤ h.lsn
    pub below : 2048 * h.lsn + h.size ≤ 2048 * medium.last
    pub in_memory : buffer + nbyte < u32_mod
    pub apart : IsApart sectorbuf buffer nbyte
    pub clear : IsClear medium buffer nbyte
    pub static_u32 : sectorbuf + 2048 < u32_mod
    pub static_clear : IsClear medium sectorbuf 2048

  medium_read-IsFilled :
      (h : FileHandle) (buffer nbyte : ℕ) (d : Drive)
      → IsReadable h buffer nbyte
      → let (n, h', d') = cdrom_read medium sector_count sectorbuf h buffer nbyte d in
        (n ≡ min nbyte (h.size - h.offset))
        × (h' ≡ record h { offset = h.offset + n })
        × IsFilled medium sector_count sectorbuf d d' buffer n (2048 * h.lsn + h.offset)
  unfolding cdrom_read
  medium_read-IsFilled h buffer nbyte d r =
      let e = clip_lem h nbyte r.offset_in r.size_u32 r.end_u32 in
      let n : ℕ = min nbyte (h.size - h.offset) in
      let start : Cursor = record {
        sector = add32 h.lsn (h.offset / 2048);
        buffer = buffer;
        left = n;
        drive = d;
      } in
      let at : start.sector ≡ h.lsn + h.offset / 2048 =
        omega (arith, r.offset_in, r.on_disc, r.disc_u32) in
      let clear : IsClear medium buffer n =
        IsClear-le medium n nbyte buffer r.clear (omega arith) in
      let filled =
        parts-IsFilled start (h.offset % 2048)
          (record {
            in_sector = omega arith;
            left_int = omega (arith, r.int);
            room = λ more. (
              omega (arith, r.in_memory),
              omega (arith, at, r.offset_in, r.on_disc),
              omega (arith, at, r.above),
              omega (arith, at, r.offset_in, r.below),
              clear,
            );
            static_u32 = r.static_u32;
            static_clear = r.static_clear;
            disc_u32 = r.disc_u32;
          })
          (IsApart-le n nbyte buffer r.apart (omega arith)) clear in
      rw (other h.flags r.not_banned, e)
        (
          refl,
          ap (at_offset h) (omega (arith, r.offset_in, r.size_u32)),
          IsFilled-eq medium sector_count sectorbuf buffer refl (omega (arith, at)) filled,
        )
    where
      other : (n : ℕ) → n ≢ file_mod_banned → (n == file_mod_banned) ≡ false
      other n h = ground arith

-- cdrom_read of a file that lies in one slice of the disc, from an offset inside it, for `nbyte` bytes,
-- an `int` that is not negative, to a buffer inside the address space and apart from the static one and
-- from the driver's cache: it returns the bytes up to the end of the file, no more than asked for,
-- moves the offset on by as many, and these bytes of the disc are at the buffer. Nothing else changes
-- but the static buffer and the cache, and no read is in flight when some were asked for. The static
-- buffer is apart from the cache.
pub cdrom_read-IsFilled :
    (usb : Usb) (sector_count sectorbuf : ℕ) (h : FileHandle) (buffer nbyte : ℕ) (d : Drive)
    → IsReadable (usb_medium usb) sector_count sectorbuf h buffer nbyte
    → let (n, h', d') = cdrom_read (usb_medium usb) sector_count sectorbuf h buffer nbyte d in
      (n ≡ min nbyte (h.size - h.offset))
      × (h' ≡ record h { offset = h.offset + n })
      × IsFilled (usb_medium usb) sector_count sectorbuf d d' buffer n (2048 * h.lsn + h.offset)
cdrom_read-IsFilled usb sector_count sectorbuf h buffer nbyte d r =
    medium_read-IsFilled (usb_medium usb) sector_count sectorbuf h buffer nbyte d r
