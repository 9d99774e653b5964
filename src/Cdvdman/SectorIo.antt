-- ===== src/Cdvdman/SectorIo.antt =====
-- modules/cdvdman/sector_io.c: disc sectors of 2048 bytes from the slices of the image on an USB
-- device. The device's contents and the transfer `cbw_scsi_read_sector` are parameters.
pub mod Round
pub mod Read
pub mod Crossing
use ps2esdl.Prelude.{
  ℕ, zero, suc, ◌+◌, ◌-◌, ◌*◌, ◌/◌, ◌%◌, ◌&&◌, ◌||◌, Option, none, some, List, ltb, leb, ◌==◌,
  if◌then◌else◌, get_elem?, u8_mod, add32, sub32, mul32,
}

-- `struct ext_dev_conf`
pub record ExtDevConf : Type 0 where
  pub part_lba : List ℕ
  pub sector_sz : ℕ
  pub xfer_blk_sz : ℕ
  pub sectors_per_slice : ℕ

-- IOP memory, the block that `PartialReadBuffer` points to, and `*bufferOffset_out`
pub record Io : Type 0 where
  pub mem : ℕ → ℕ
  pub partial_read_buffer : ℕ → ℕ
  pub buffer_offset : Option ℕ

-- Bytes stored from `dest` on.
unfoldable pub store_bytes : ℕ → ℕ → (ℕ → ℕ) → (ℕ → ℕ) → ℕ → ℕ
store_bytes dest n bytes mem a = if leb dest a && ltb a (dest + n) then bytes (a - dest) else mem a

module _ (conf : ExtDevConf) where
  -- `bytesToRead` of a round
  unfoldable pub bytes_to_read : ℕ → ℕ
  bytes_to_read left =
      if ltb conf.xfer_blk_sz (mul32 left 2048) then conf.xfer_blk_sz else mul32 left 2048

  -- `SectorsToRead` and `slice`, both an `u8`
  unfoldable pub sectors_to_read : ℕ → ℕ
  sectors_to_read left = (bytes_to_read left / 2048) % u8_mod

  unfoldable pub slice_of : ℕ → ℕ
  slice_of lbn = (lbn / conf.sectors_per_slice) % u8_mod

  -- `DiskSectorsToRead`, an `u8`, when the transfer goes straight to the destination: device sectors,
  -- from which the disc sectors past the end of the slice are taken off.
  unfoldable pub disk_sectors : ℕ → ℕ → ℕ
  disk_sectors lbn left =
      let n = (bytes_to_read left / conf.sector_sz) % u8_mod in
      let end = lbn % conf.sectors_per_slice + sectors_to_read left in
      if ltb conf.sectors_per_slice end
      then (n + u8_mod - (end - conf.sectors_per_slice) % u8_mod) % u8_mod
      else n

  -- The device's sector of disc sector `lbn`, in the slice that begins at `part`.
  unfoldable pub disk_lba : ℕ → ℕ → ℕ
  disk_lba lbn part =
      add32 part
        (mul32 (sub32 lbn (mul32 (slice_of lbn) conf.sectors_per_slice)) 2048 / conf.sector_sz)

module _ (device : ℕ → ℕ) (conf : ExtDevConf) where
  -- The bytes of the device from its sector `lba` on.
  abbrev pub device_bytes : ℕ → ℕ → ℕ
  device_bytes lba i = device (lba * conf.sector_sz + i)

  -- One round: the transfer, and the copy out of the partial buffer where the device's sectors are
  -- larger than what is left.
  unfoldable pub transfer : ℕ → ℕ → ℕ → ℕ → Io → Io
  unfolding store_bytes
  transfer lbn left buffer part io =
      let bytes = bytes_to_read conf left in
      let lba = disk_lba conf lbn part in
      let read =
        (if ltb bytes conf.sector_sz
          then (let filled =
                store_bytes 0 conf.sector_sz (device_bytes lba) io.partial_read_buffer in
              record io {
                mem = store_bytes buffer bytes filled io.mem;
                partial_read_buffer = filled;
              })
          else record io {
            mem =
                store_bytes buffer (disk_sectors conf lbn left * conf.sector_sz) (device_bytes lba)
                  io.mem;
          }) in
      record read {
        buffer_offset = elim read.buffer_offset [ none ↦ none | some n ↦ some (add32 n bytes) ];
      }

  -- The loop of `read_sector`; `none` for a division by zero, a slice without a place on the device,
  -- or when the fuel runs out.
  unfoldable pub sector_loop : ℕ → ℕ → ℕ → ℕ → Io → Option Io
  sector_loop zero lbn left buffer io = if left == 0 then some io else none
  sector_loop (suc k) lbn left buffer io =
      let n = sectors_to_read conf left in
      let bytes = bytes_to_read conf left in
      let rest = λ (part : ℕ).
        sector_loop k (add32 lbn n) (sub32 left n) (add32 buffer bytes)
          (transfer lbn left buffer part io) in
      let found : Option Io = elim (get_elem? conf.part_lba (slice_of conf lbn)) [
        | none ↦ none
        | some part ↦ rest part
      ] in
      if left == 0
      then some io
      else (if conf.sector_sz == 0 || conf.sectors_per_slice == 0 then none else found)

  -- `read_sector`. A round reads a sector or more, so `sectors` rounds are enough.
  unfoldable pub read_sector : ℕ → ℕ → ℕ → Io → Option Io
  unfolding sector_loop
  read_sector lbn sectors buffer io = sector_loop sectors lbn sectors buffer io
