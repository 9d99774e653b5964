-- ===== src/Cdvdman/File/Seek.antt =====
-- `cdrom_lseek` of File.antt: where the offset ends up, and what a read finds there.
use ps2esdl.Prelude.{ℕ, ◌+◌, ◌-◌, ◌*◌, ◌≤◌, ◌<◌, ◌≡◌, ◌↔◌, min, refl, arith}
use ps2esdl.Cdvdman.Drive.{Medium, Drive}
use ps2esdl.Cdvdman.AsyncRead.Usb.{Usb, usb_medium}
use ps2esdl.Cdvdman.File.{
  FileHandle, Whence, seek_set, seek_cur, seek_end, seek_other, cdrom_lseek, cdrom_read,
}
use ps2esdl.Cdvdman.File.Filled.{IsFilled}
use ps2esdl.Cdvdman.File.Read.{IsReadable, cdrom_read-IsFilled}

module _ (h : FileHandle) (offset : ℕ) where
  -- In a file below 2 GB whose offset is inside it, cdrom_lseek returns the offset that it stores, and
  -- changes nothing else of the handle. From the start and from the end it counts at most the size of
  -- the file, and stays inside; an unknown whence keeps the offset; from the current offset it goes on
  -- by the distance, cut to the size of the file, and so stays inside exactly when that does not lead
  -- past the end.
  pub cdrom_lseek_lem :
      h.offset ≤ h.size
      → h.size < 0x8000_0000
      → ((pos : Whence)
          → (cdrom_lseek h offset pos).1 ≡ record h { offset = (cdrom_lseek h offset pos).0 })
        × ((cdrom_lseek h offset seek_set).0 ≡ min offset h.size)
        × ((cdrom_lseek h offset seek_cur).0 ≡ h.offset + min offset h.size)
        × ((cdrom_lseek h offset seek_end).0 ≡ h.size - min offset h.size)
        × ((cdrom_lseek h offset seek_other).0 ≡ h.offset)
        × (((cdrom_lseek h offset seek_cur).0 ≤ h.size) ↔ (h.offset + min offset h.size ≤ h.size))
  unfolding cdrom_lseek
  cdrom_lseek_lem inside size = (
    λ pos. refl,
    ground arith,
    ground arith,
    ground arith,
    refl,
    (λ e. ground arith, λ e. ground arith),
  )

-- The offset that is sought: from the current one it may lie past the end of the file.
abbrev pub sought : FileHandle → ℕ → Whence → ℕ
sought h offset seek_set = min offset h.size
sought h offset seek_cur = h.offset + min offset h.size
sought h offset seek_end = h.size - min offset h.size
sought h offset seek_other = h.offset

cdrom_lseek-sought :
    (h : FileHandle) (offset : ℕ) (pos : Whence)
    → h.offset ≤ h.size
    → h.size < 0x8000_0000
    → cdrom_lseek h offset pos ≡ (sought h offset pos, record h { offset = sought h offset pos })
unfolding cdrom_lseek
cdrom_lseek-sought h offset seek_set inside size = cc (cdrom_lseek_lem h offset inside size).1
cdrom_lseek-sought h offset seek_cur inside size = cc (cdrom_lseek_lem h offset inside size).2
cdrom_lseek-sought h offset seek_end inside size = cc (cdrom_lseek_lem h offset inside size).3
cdrom_lseek-sought h offset seek_other inside size = refl

module _ (m : Medium) (sector_count sectorbuf : ℕ) where
  -- A handle is as readable at another offset inside the file.
  IsReadable-offset :
      (h : FileHandle) (buffer nbyte offset : ℕ)
      → IsReadable m sector_count sectorbuf h buffer nbyte
      → h.size < 0x8000_0000
      → offset ≤ h.size
      → IsReadable m sector_count sectorbuf (record h { offset = offset }) buffer nbyte
  IsReadable-offset h buffer nbyte offset r size inside = record {
    not_banned = r.not_banned;
    offset_in = inside;
    size_u32 = r.size_u32;
    end_u32 = omega (arith, r.int);
    int = r.int;
    on_disc = r.on_disc;
    disc_u32 = r.disc_u32;
    above = r.above;
    below = r.below;
    in_memory = r.in_memory;
    apart = r.apart;
    clear = r.clear;
    static_u32 = r.static_u32;
    static_clear = r.static_clear;
  }

-- cdrom_lseek and then cdrom_read, of a file below 2 GB as cdrom_read-IsFilled has it: when the offset
-- that is sought is inside the file, the read returns the bytes from there up to the end of the file,
-- no more than asked for, they are at the buffer, and the offset is behind them.
pub cdrom_read-cdrom_lseek :
    (usb : Usb) (sector_count sectorbuf : ℕ) (h : FileHandle) (offset : ℕ) (pos : Whence)
    (buffer nbyte : ℕ) (d : Drive)
    → IsReadable (usb_medium usb) sector_count sectorbuf h buffer nbyte
    → h.size < 0x8000_0000
    → sought h offset pos ≤ h.size
    → let (now, h1) = cdrom_lseek h offset pos in
      let (n, h2, d') = cdrom_read (usb_medium usb) sector_count sectorbuf h1 buffer nbyte d in
      (now ≡ sought h offset pos)
      × (n ≡ min nbyte (h.size - sought h offset pos))
      × (h2 ≡ record h { offset = sought h offset pos + n })
      × IsFilled
          (usb_medium usb)
          sector_count
          sectorbuf
          d
          d'
          buffer
          n
          (2048 * h.lsn + sought h offset pos)
cdrom_read-cdrom_lseek usb sector_count sectorbuf h offset pos buffer nbyte d r size inside =
    let (count, moved, filled) =
      cdrom_read-IsFilled usb sector_count sectorbuf (record h { offset = sought h offset pos })
        buffer nbyte d
        (IsReadable-offset (usb_medium usb) sector_count sectorbuf h buffer nbyte
          (sought h offset pos) r size inside) in
    rw (cdrom_lseek-sought h offset pos r.offset_in size) (refl, count, moved, filled)
