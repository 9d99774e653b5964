-- ===== src/Cdvdman/SectorIo/Crossing.antt =====
-- `read_sector` of SectorIo.antt across the end of a slice: what is cut off the transfer is not read
-- from the next slice.
use ps2esdl.Prelude.{
  ℕ, ◌+◌, ◌-◌, ◌*◌, ◌/◌, ◌%◌, ◌≤◌, ◌<◌, ◌≡◌, inl, inr, ◌∙◌, true, false, some, ltb, u32_mod, arith,
  get_elem?,
}
use ps2esdl.Cdvdman.SectorIo.{
  ExtDevConf, Io, bytes_to_read, sectors_to_read, disk_sectors, transfer, read_sector,
}
use ps2esdl.Cdvdman.SectorIo.Round.{IsUsable, InSlice, DividesSector, slice_of-eq, within}
use ps2esdl.Cdvdman.SectorIo.Read.{size_bounds, sector_loop-zero, sector_loop-suc}

cut : (size : ℕ) → DividesSector size → ((4096 / size) % 256 + 256 - 1) % 256 * size ≡ 4096 - size
cut size (inl e) = rw e
cut size (inr (inl e)) = rw e
cut size (inr (inr e)) = rw e

module _ (device : ℕ → ℕ) {conf : ExtDevConf} {block : ℕ} (usable : IsUsable conf block)
    {k r part lbn : ℕ} (place : InSlice conf k r part lbn 1) (last : r + 1 ≡ conf.sectors_per_slice)
    (two : 2 ≤ block) (room : lbn + 2 < u32_mod) where
  sectors_to_read-two : sectors_to_read conf 2 ≡ 2
  unfolding sectors_to_read bytes_to_read
  sectors_to_read-two = ground (arith, usable.transfer_size)

  bytes_to_read-two : bytes_to_read conf 2 ≡ 4096
  unfolding bytes_to_read
  bytes_to_read-two = ground (arith, usable.transfer_size)

  disk_sectors-two : disk_sectors conf lbn 2 * conf.sector_sz ≡ 4096 - conf.sector_sz
  unfolding disk_sectors
  disk_sectors-two =
      rw
        (
          within usable place (omega arith),
          sectors_to_read-two,
          bytes_to_read-two,
          ← last,
          past r,
          one r,
        )
        (cut conf.sector_sz usable.sector_size)
    where
      past : (n : ℕ) → ltb (n + 1) (n + 2) ≡ true
      past n = ground arith

      one : (n : ℕ) → n + 2 - (n + 1) ≡ 1
      one n = omega arith

  untouched :
      (buffer : ℕ) (io : Io) (a : ℕ)
      → buffer + 4096 - conf.sector_sz ≤ a
      → a < buffer + 4096
      → (transfer device conf lbn 2 buffer part io).mem a ≡ io.mem a
  unfolding transfer
  untouched buffer io a p q =
      rw (bytes_to_read-two, whole, disk_sectors-two) (ground (arith, size_bounds device usable))
    where
      whole : ltb 4096 conf.sector_sz ≡ false
      whole = ground (arith, size_bounds device usable)

  -- A request for the last sector of a slice and the one after it, in one transfer: read_sector ends,
  -- and the last `sector_sz` bytes of the buffer are as they were, whatever the device holds.
  pub read_sector_crossing :
      (buffer : ℕ) (io : Io)
      → get_elem? conf.part_lba k ≡ some part
      → buffer + 4096 < u32_mod
      → (io' : Io) × (read_sector device conf lbn 2 buffer io ≡ some io')
        × ((a : ℕ) → buffer + 4096 - conf.sector_sz ≤ a → a < buffer + 4096 → io'.mem a ≡ io.mem a)
  unfolding read_sector
  read_sector_crossing buffer io at_part fits = (
    transfer device conf lbn 2 buffer part io,
    sector_loop-suc device conf 1 lbn 2 buffer part io {lbn' = lbn + 2} {left' = 0}
          {buffer' = buffer + 4096} (omega arith) (size_bounds device usable).0
          (omega (arith, last)) (rw (slice_of-eq usable place (omega arith)) at_part)
          (rw sectors_to_read-two (omega arith)) (rw sectors_to_read-two)
          (rw bytes_to_read-two (omega arith))
        ∙ sector_loop-zero device conf 1 (lbn + 2) (buffer + 4096) _,
    untouched buffer io,
  )
