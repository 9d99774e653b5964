-- ===== src/Cdvdman/AsyncRead.antt =====
-- modules/cdvdman/cdvdman_internal.c: async_read, for a destination in the memory of the I/O processor,
-- with the calls of read_sector of SectorIo.antt.
pub mod Deliver
pub mod Usb
use mathlib.Core.Option
use ps2esdl.Prelude.{
  ℕ, zero, suc, ◌+◌, ◌*◌, ◌%◌, Option, none, some, ltb, leb, ◌==◌, if◌then◌else◌, add32, sub32,
  mul32,
}
use ps2esdl.Cdvdman.SectorIo.{ExtDevConf, Io, store_bytes, read_sector}

-- `cdvdman_fsvrbuf` is the address of the cache, `read_buffer_sz` its size in sectors.
module _ (device : ℕ → ℕ) (conf : ExtDevConf) (cdvdman_fsvrbuf read_buffer_sz : ℕ) where
  -- `sectorsToRead` of a round through the cache
  unfoldable pub cached_sectors : ℕ → ℕ
  cached_sectors sectors = if leb read_buffer_sz sectors then read_buffer_sz else sectors

  -- The `memcpy` of `n` sectors out of the cache
  unfoldable pub from_cache : ℕ → ℕ → Io → Io
  from_cache n dest io = record io {
    mem = store_bytes dest (2048 * n) (λ i. io.mem (cdvdman_fsvrbuf + i)) io.mem;
  }

  -- A round of the loop: into the cache, and from there to the destination.
  unfoldable pub cached_round : ℕ → ℕ → ℕ → Io → Option Io
  cached_round lsn n dest io =
      Option.map (from_cache n dest) (read_sector device conf lsn n cdvdman_fsvrbuf io)

  -- The loop for a destination that is not aligned: sector, sectors left, and `rbuffoffset`; `none`
  -- when a round has no result, or when the fuel runs out.
  unfoldable pub cached_loop : ℕ → ℕ → ℕ → ℕ → ℕ → Io → Option Io
  cached_loop zero lsn sectors destination rbuffoffset io = if sectors == 0 then some io else none
  cached_loop (suc k) lsn sectors destination rbuffoffset io =
      let n = cached_sectors sectors in
      let rest : Option Io = elim (cached_round lsn n (add32 destination rbuffoffset) io) [
        | none ↦ none
        | some io1 ↦
            cached_loop k (add32 lsn n) (sub32 sectors n) destination
              (add32 rbuffoffset (mul32 n 2048)) io1
      ] in
      if sectors == 0 then some io else rest

  -- The transfer of `async_read` when nothing aborts it, from an `rbuffoffset` of 0: an aligned
  -- destination takes all the sectors at once, and has `rbuffoffset` counted by `read_sector`. A round
  -- through the cache reads a sector or more. `bytesremaining` is 2048 for each sector left, as of fewer
  -- than 2 ^ 21 sectors, which is all that the address space has room for.
  unfoldable pub transfer_iop : ℕ → ℕ → ℕ → Io → Option Io
  transfer_iop lsn sectors destination io =
      let direct =
        read_sector device conf lsn sectors destination (record io { buffer_offset = some 0 }) in
      let through_cache =
        cached_loop sectors lsn sectors destination 0 (record io { buffer_offset = none }) in
      if destination % 4 == 0 then direct else through_cache
