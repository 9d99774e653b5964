-- ===== src/Cdvdman/SectorIo/Round.antt =====
-- One round of `read_sector` of SectorIo.antt, inside a slice and on a device whose sectors divide
-- those of the disc.
use ps2esdl.Prelude.{
  ℕ, ◌+◌, ◌*◌, ◌/◌, ◌%◌, ◌≤◌, ◌<◌, ◌≡◌, ◌⊎◌, inl, inr, false, ltb, u32_mod, sub32, mul32, add32,
  arith,
}
use native.Mathlib.Nat.{mul-add-div_right, mul-add-mod_self_right, mod-eq_of_lt, div-eq_of_lt}
use ps2esdl.Cdvdman.SectorIo.{
  ExtDevConf, bytes_to_read, sectors_to_read, slice_of, disk_sectors, disk_lba,
}

-- Sectors of the device that divide a disc sector, and transfers of 1 to 31 disc sectors.
pub record IsUsable (conf : ExtDevConf) (block : ℕ) : Type 0 where
  pub sector_size : (conf.sector_sz ≡ 512) ⊎ (conf.sector_sz ≡ 1024) ⊎ (conf.sector_sz ≡ 2048)
  pub transfer_size : conf.xfer_blk_sz ≡ 2048 * block
  pub block_pos : 0 < block
  pub block_u8 : block < 32

-- Disc sector `lbn` is sector `r` of slice `k`, `left` sectors fit into the slice, and nothing that
-- the round computes leaves its word.
pub record InSlice (conf : ExtDevConf) (k r part lbn left : ℕ) : Type 0 where
  pub place : lbn ≡ k * conf.sectors_per_slice + r
  pub fits : r + left ≤ conf.sectors_per_slice
  pub slice_u8 : k < 256
  pub lbn_u32 : lbn + left < u32_mod
  pub left_u32 : 2048 * (r + left) < u32_mod
  pub lba_u32 : part + 2048 * (r + left) < u32_mod

abbrev pub DividesSector : ℕ → Type 0
DividesSector size = (size ≡ 512) ⊎ (size ≡ 1024) ⊎ (size ≡ 2048)

whole_sectors :
    (size n : ℕ) → DividesSector size → n < 32 → (2048 * n / size) % 256 * size ≡ 2048 * n
whole_sectors size n (inl e) h = rw e (omega arith)
whole_sectors size n (inr (inl e)) h = rw e (omega arith)
whole_sectors size n (inr (inr e)) h = rw e (omega arith)

scaled :
    (size part r : ℕ)
    → DividesSector size
    → 2048 * r < u32_mod
    → part + 2048 * r < u32_mod
    → add32 part (mul32 r 2048 / size) * size ≡ part * size + 2048 * r
scaled size part r (inl e) h k = rw e (omega arith)
scaled size part r (inr (inl e)) h k = rw e (omega arith)
scaled size part r (inr (inr e)) h k = rw e (omega arith)

inside : (end slice : ℕ) → end ≤ slice → ltb slice end ≡ false
inside end slice h = ground arith

module _ {conf : ExtDevConf} {block : ℕ} (usable : IsUsable conf block) where
  -- A round asks for some of the sectors that are left, and for whole ones.
  pub sectors_to_read_bounds :
      (left : ℕ)
      → 0 < left
      → 2048 * left < u32_mod
      → let n = sectors_to_read conf left in
        (0 < n) × (n ≤ left) × (n < 32) × (bytes_to_read conf left ≡ 2048 * n)
  unfolding sectors_to_read bytes_to_read
  sectors_to_read_bounds left more small =
      ground (arith, usable.transfer_size, usable.block_pos, usable.block_u8)

  module _ {k r part lbn left : ℕ} (place : InSlice conf k r part lbn left) (more : 0 < left) where
    pub sps_pos : r < conf.sectors_per_slice
    sps_pos = omega (arith, place.fits)

    pub slice_of-eq : slice_of conf lbn ≡ k
    unfolding slice_of
    slice_of-eq =
        rw
          (
            place.place,
            mul-add-div_right {m = conf.sectors_per_slice} (omega (arith, sps_pos)) k r,
            div-eq_of_lt sps_pos,
          )
          (omega (arith, place.slice_u8))

    pub within : lbn % conf.sectors_per_slice ≡ r
    within =
        rw (place.place, mul-add-mod_self_right k conf.sectors_per_slice r, mod-eq_of_lt sps_pos)

    -- The transfer is as long as the disc sectors of the round.
    pub disk_sectors-eq :
        disk_sectors conf lbn left * conf.sector_sz ≡ 2048 * sectors_to_read conf left
    unfolding disk_sectors
    disk_sectors-eq =
        let (_, le, small, bytes) =
          sectors_to_read_bounds left more (omega (arith, place.left_u32)) in
        rw
          (
            within,
            inside (r + sectors_to_read conf left) conf.sectors_per_slice
                (omega (arith, place.fits)),
            bytes,
          )
          (whole_sectors conf.sector_sz (sectors_to_read conf left) usable.sector_size small)

    -- The transfer begins where the slice holds the disc sector.
    pub disk_lba-eq : disk_lba conf lbn part * conf.sector_sz ≡ part * conf.sector_sz + 2048 * r
    unfolding disk_lba
    disk_lba-eq =
        rw (slice_of-eq, offset)
          (scaled conf.sector_sz part r usable.sector_size (omega (arith, place.left_u32))
            (omega (arith, place.lba_u32)))
      where
        offset : sub32 lbn (mul32 k conf.sectors_per_slice) ≡ r
        offset = omega (arith, place.place, place.lbn_u32)
