-- ===== src/Cdvdman/AsyncRead/Usb.antt =====
-- The interface of Drive.antt, filled in by async_read on the USB device.
use ps2esdl.Prelude.{ℕ, ◌+◌, ◌*◌, ◌<◌, ◌∙◌, ap, Option, none, some, u32_mod}
use ps2esdl.Cdvdman.Drive.{ReadCommand, Medium}
use ps2esdl.Cdvdman.SectorIo.{ExtDevConf, Io}
use ps2esdl.Cdvdman.SectorIo.Round.{IsUsable}
use ps2esdl.Cdvdman.AsyncRead.{transfer_iop}
use ps2esdl.Cdvdman.AsyncRead.Deliver.{IsSlice, slice_image, transfer_iop-IsTransferred}

-- The memory that a transfer leaves
abbrev memory_after : Option Io → (ℕ → ℕ) → ℕ → ℕ
memory_after none mem = mem
memory_after (some io) mem = io.mem

-- What async_read does to memory, with what PartialReadBuffer holds before
abbrev pub async_read : (ℕ → ℕ) → ExtDevConf → ℕ → ℕ → (ℕ → ℕ) → ReadCommand → (ℕ → ℕ) → ℕ → ℕ
async_read device conf cache size partial r mem =
    let io : Io = record { mem = mem; partial_read_buffer = partial; buffer_offset = none } in
    memory_after (transfer_iop device conf cache size r.lsn r.sectors r.buffer io) mem

-- A device with the slices of a disc, of which slice `slice` is looked at, and the cache of the driver
pub record Usb : Type 0 where
  pub device : ℕ → ℕ
  pub conf : ExtDevConf
  pub block : ℕ
  pub usable : IsUsable conf block
  pub slice : ℕ
  pub part : ℕ
  pub is_slice : IsSlice conf slice part
  pub cache : ℕ
  pub cache_sectors : ℕ
  pub has_cache : 0 < cache_sectors
  pub cache_u32 : cache + 2048 * cache_sectors < u32_mod
  pub partial : ℕ → ℕ

-- The sectors of the slice, from the first one up to the one behind the last, and their bytes
abbrev pub first_of : Usb → ℕ
first_of u = u.slice * u.conf.sectors_per_slice

abbrev pub last_of : Usb → ℕ
last_of u = (u.slice + 1) * u.conf.sectors_per_slice

abbrev pub image_of : Usb → ℕ → ℕ
image_of u = slice_image u.device u.conf u.slice u.part

abbrev pub usb_medium : Usb → Medium
usb_medium u = record {
  bring = async_read u.device u.conf u.cache u.cache_sectors u.partial;
  image = image_of u;
  first = first_of u;
  last = last_of u;
  cache_lo = u.cache;
  cache_hi = u.cache + 2048 * u.cache_sectors;
  last_u32 = u.is_slice.last_u32;
  bring_in = λ r mem inside safe a lo hi.
      let (io, run, done) =
        transfer_iop-IsTransferred u.device u.usable u.is_slice u.cache u.cache_sectors r
          (record { mem = mem; partial_read_buffer = u.partial; buffer_offset = none }) u.has_cache
          u.cache_u32 inside.0 inside.1 inside.2 safe in
      ap (λ o. memory_after o mem a) run ∙ done.within a lo hi;
  bring_out = λ r mem inside safe a out spared.
      let (io, run, done) =
        transfer_iop-IsTransferred u.device u.usable u.is_slice u.cache u.cache_sectors r
          (record { mem = mem; partial_read_buffer = u.partial; buffer_offset = none }) u.has_cache
          u.cache_u32 inside.0 inside.1 inside.2 safe in
      ap (λ o. memory_after o mem a) run ∙ done.around a out spared;
}
