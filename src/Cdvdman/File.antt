-- ===== src/Cdvdman/File.antt =====
-- modules/cdvdman/device.c: reading and seeking in a file of the disc, cdrom_read and cdrom_lseek.
pub mod Filled
pub mod Parts
pub mod Read
pub mod Seek
use ps2esdl.Prelude.{
  ℕ, suc, ◌+◌, ◌-◌, ◌*◌, ◌/◌, ◌%◌, ◌&&◌, Bool, ltb, leb, ◌==◌, if◌then◌else◌, u32_mod, add32, sub32,
  mul32,
}
use ps2esdl.Cdvdman.Drive.{Medium, Drive, cd_sync, read_no_cb}

-- `struct cdvdman_fhandle`
pub record FileHandle : Type 0 where
  pub lsn : ℕ
  pub size : ℕ
  pub offset : ℕ
  pub flags : ℕ

-- FILE_MOD_BANNED, -1 as an `unsigned int`
abbrev pub file_mod_banned : ℕ
file_mod_banned = 0xffff_ffff

-- `memcpy`, on memory that is not the destination.
unfoldable pub copy_bytes : ℕ → ℕ → ℕ → Drive → Drive
copy_bytes dest src n d = record d {
  mem = λ a. if leb dest a && ltb a (dest + n) then d.mem (src + (a - dest)) else d.mem a;
}

-- The request, cut at the end of the file.
unfoldable pub clip : FileHandle → ℕ → ℕ
clip h nbyte = if ltb h.size (add32 h.offset nbyte) then sub32 h.size h.offset else nbyte

-- `(nbyte-(nbyte%2048))>>11`, on the bit pattern of an `int`
unfoldable pub whole_sectors : ℕ → ℕ
whole_sectors nbyte =
    let negative = add32 nbyte ((u32_mod - nbyte) % 2048) in
    if ltb nbyte 0x8000_0000
    then nbyte / 2048
    else (if negative == 0 then 0 else negative / 2048 + 0xffe0_0000)

-- Where a read has got to: the next sector, the destination, and the bytes left.
pub record Cursor : Type 0 where
  pub sector : ℕ
  pub buffer : ℕ
  pub left : ℕ
  pub drive : Drive

-- `sectorbuf` is the address of the static buffer of one sector.
module _ (m : Medium) (sector_count : ℕ) (sectorbuf : ℕ) where
  -- `cdvdman_read_noCB` with mode 1, which waits for the data.
  unfoldable pub read_wait : ℕ → ℕ → ℕ → Drive → Drive
  read_wait lsn sectors buffer d =
      cd_sync m sector_count (read_no_cb m sector_count lsn sectors buffer d)

  -- The bytes of the first sector, when the offset is not at its start; nothing is left for the other
  -- parts when they were the last ones.
  unfoldable pub read_first : ℕ → Cursor → Cursor
  read_first offset c =
      let d = read_wait c.sector 1 sectorbuf c.drive in
      let n = 2048 - offset in
      if ltb 0 offset
      then (if ltb 2048 (add32 offset c.left)
          then record {
            sector = add32 c.sector 1;
            buffer = add32 c.buffer n;
            left = sub32 c.left n;
            drive = copy_bytes c.buffer (sectorbuf + offset) n d;
          }
          else record c { left = 0; drive = copy_bytes c.buffer (sectorbuf + offset) c.left d })
      else c

  -- The whole sectors, straight to the destination.
  unfoldable pub read_middle : Cursor → Cursor
  read_middle c =
      let sectors = whole_sectors c.left in
      let n = mul32 sectors 2048 in
      if sectors == 0 then c else record {
        sector = add32 c.sector sectors;
        buffer = add32 c.buffer n;
        left = sub32 c.left n;
        drive = read_wait c.sector sectors c.buffer c.drive;
      }

  -- The bytes of the last sector; an `int` below 1 leaves them out.
  unfoldable pub read_remaining : Cursor → Drive
  read_remaining c =
      if c.left == 0
      then c.drive
      else (if ltb c.left 0x8000_0000
          then copy_bytes c.buffer sectorbuf c.left (read_wait c.sector 1 sectorbuf c.drive)
          else c.drive)

  -- `cdrom_read`: the bytes read, the handle, and the drive. The handle of a replaced module holds the
  -- address of the replacement.
  unfoldable pub cdrom_read : FileHandle → ℕ → ℕ → Drive → ℕ × FileHandle × Drive
  cdrom_read h buffer nbyte d =
      let n = clip h nbyte in
      let start : Cursor = record {
        sector = add32 h.lsn (h.offset / 2048);
        buffer = buffer;
        left = n;
        drive = d;
      } in
      if h.flags == file_mod_banned then (nbyte, h, copy_bytes buffer h.lsn nbyte d) else (
        n,
        record h { offset = add32 h.offset n },
        read_remaining (read_middle (read_first (h.offset % 2048) start)),
      )

-- The third argument of lseek
pub data Whence : Type 0 where
  seek_set : Whence
  seek_cur : Whence
  seek_end : Whence
  seek_other : Whence

-- `cdrom_lseek`: the test for an offset below 0 is on an `unsigned long`.
unfoldable pub cdrom_lseek : FileHandle → ℕ → Whence → ℕ × FileHandle
cdrom_lseek h offset0 pos =
    let offset = if ltb h.size offset0 then h.size else offset0 in
    let now : ℕ = elim pos [
      | seek_set ↦ offset
      | seek_cur ↦ add32 h.offset offset
      | seek_end ↦ sub32 h.size offset
      | seek_other ↦ h.offset
    ] in
    (now, record h { offset = now })
