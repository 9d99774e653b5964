-- ===== src/Cdvdman/Stream.antt =====
-- modules/cdvdman/cdvdman_main.c and cdvdman_internal.c: streaming through a ring of banks,
-- sceCdStInit, sceCdStStart, sceCdStRead, sceCdStSeekF.
pub mod Window
pub mod Inv
pub mod Switch
pub mod Advance
pub mod Next
pub mod Round
pub mod Reads
pub mod Start
pub mod Session
use ps2esdl.Prelude.{
  ℕ, zero, suc, ◌+◌, ◌*◌, ◌/◌, ◌%◌, Bool, Option, none, some, List, [], ◌++◌, ltb, leb, ◌==◌,
  if◌then◌else◌, table, u8_mod, u16_mod, add32, sub32, mul32,
}
use ps2esdl.Cdvdman.Drive.{Medium, Drive, cd_sync, read_no_cb, view}

-- The streaming fields of `struct cdvdman_async`, and the drive that they work on. Pointers are
-- addresses in IOP memory.
pub record Stream : Type 0 where
  pub st_buf_max : ℕ
  pub st_bank_max : ℕ
  pub max_bank_sectors : ℕ
  pub bank_id : ℕ
  pub st_read_buffer : ℕ
  pub sectors_streamed : ℕ
  pub st_lsn : ℕ
  pub ringbuff_bank_sector_offset : ℕ
  pub ringbuff_bank_ptr : ℕ
  pub drive : Drive

-- `stInit`
unfoldable pub st_init : ℕ → Stream → Stream
st_init lsn s = record s {
  st_lsn = lsn;
  ringbuff_bank_sector_offset = 0;
  ringbuff_bank_ptr = s.st_read_buffer;
  bank_id = 0;
}

-- `sceCdStInit`. `none` is the trap of the division by zero. `max_bank_sectors` is an `u16`.
unfoldable pub cd_st_init : ℕ → ℕ → ℕ → Stream → Option Stream
unfolding st_init
cd_st_init bufmax bankmax iop_bufaddr s =
    if bankmax == 0
    then none
    else (let bank_sectors = (bufmax / bankmax) % u16_mod in
        some (
          st_init 0 (record s {
            sectors_streamed = bufmax;
            max_bank_sectors = bank_sectors;
            st_buf_max = mul32 bank_sectors bankmax;
            st_bank_max = bankmax;
            st_read_buffer = iop_bufaddr;
          })))

-- The bank counter, an `u8`, the next sector to ask for, and the pointer of the bank.
unfoldable pub switch_bank : ℕ → Stream → Stream
switch_bank sectors_to_refill s =
    let next = (s.bank_id + 1) % u8_mod in
    let bank = if leb s.st_bank_max next then 0 else next in
    record s {
      bank_id = bank;
      st_lsn = add32 s.st_lsn sectors_to_refill;
      ringbuff_bank_ptr = add32 s.st_read_buffer (mul32 bank (s.max_bank_sectors * 2048));
      ringbuff_bank_sector_offset = 0;
    }

-- `sectorstoread` of a round
unfoldable pub round_sectors : Stream → ℕ → ℕ
round_sectors s left =
    let room = sub32 s.max_bank_sectors s.ringbuff_bank_sector_offset in
    if ltb room left then room else left

module _ (m : Medium) (sector_count : ℕ) where
  -- `stReadRingBuffer`: a read that is not waited for.
  unfoldable pub st_read_ring_buffer : ℕ → ℕ → ℕ → Stream → Stream
  st_read_ring_buffer lsn sectors buffer s = record s {
    drive = read_no_cb m sector_count lsn sectors buffer s.drive;
  }

  -- `sceCdStStart`
  unfoldable pub cd_st_start : ℕ → Stream → Stream
  unfolding st_init st_read_ring_buffer
  cd_st_start lsn s =
      let s1 = st_init lsn s in
      let s2 = st_read_ring_buffer lsn s1.st_buf_max s1.st_read_buffer s1 in
      record s2 { st_lsn = add32 s2.st_lsn s2.st_buf_max; drive = cd_sync m sector_count s2.drive }

  -- `sceCdStSeekF`
  unfoldable pub cd_st_seek_f : ℕ → Stream → Stream
  cd_st_seek_f lsn s = cd_st_start lsn (st_init lsn s)

  -- The refill of the banks that have been read, and how many sectors it asks for.
  unfoldable pub refill : Stream → Stream × ℕ
  unfolding st_read_ring_buffer
  refill s =
      let bytes_per_bank = s.max_bank_sectors * 2048 in
      let two = mul32 s.max_bank_sectors 2 in
      if s.bank_id % 2 == 1
      then (st_read_ring_buffer s.st_lsn two (sub32 s.ringbuff_bank_ptr bytes_per_bank) s, two)
      else (if sub32 s.st_bank_max s.bank_id == 1
          then (
            st_read_ring_buffer s.st_lsn s.max_bank_sectors s.ringbuff_bank_ptr s,
            s.max_bank_sectors,
          )
          else (s, 0))

  -- The switch to the next bank, once the current one is empty, after the refill was sent.
  unfoldable pub next_bank : Stream → Stream
  unfolding refill switch_bank
  next_bank s = let (s1, sectors_to_refill) = refill s in switch_bank sectors_to_refill s1

  -- The wait of a round, for a ring of one bank.
  unfoldable pub round_sync : Stream → Stream
  round_sync s =
      if ltb s.st_bank_max 2 then record s { drive = cd_sync m sector_count s.drive } else s

  -- The bytes that a round copies out. `memcpy` and `EE_memcpy` move the same bytes.
  unfoldable pub round_bytes : (ℕ → Bool) → ℕ → Stream → List ℕ
  round_bytes arrived sectors s =
      table (view m sector_count arrived s.drive)
        (add32 s.ringbuff_bank_ptr (mul32 s.ringbuff_bank_sector_offset 2048)) (mul32 sectors 2048)

  -- The state after the copy of a round.
  unfoldable pub round_end : ℕ → Stream → Stream
  round_end sectors s =
      let s1 = record s {
        ringbuff_bank_sector_offset = add32 s.ringbuff_bank_sector_offset sectors;
      } in
      if leb s1.max_bank_sectors s1.ringbuff_bank_sector_offset then next_bank s1 else s1

  -- The loop of `sceCdStRead`: the bytes copied and the state after it; `none` when the fuel runs
  -- out. `sched k` says which bytes of the command in flight have arrived in the round with fuel `k`.
  unfoldable pub read_loop : (ℕ → ℕ → Bool) → ℕ → ℕ → Stream → Option (List ℕ × Stream)
  unfolding round_sectors round_sync round_bytes round_end
  read_loop sched zero left s = if left == 0 then some ([], s) else none
  read_loop sched (suc k) left s =
      let sectors = round_sectors s left in
      let s1 = round_sync s in
      let bytes = round_bytes (sched k) sectors s1 in
      let rest = read_loop sched k (sub32 left sectors) (round_end sectors s1) in
      if left == 0
      then some ([], s)
      else elim rest [ none ↦ none | some (more, s') ↦ some (bytes ++ more, s') ]

  -- `sceCdStRead`: `*err`, the bytes stored through `buf`, and the state. Each round of the loop
  -- reads a sector, so the rounds are no more than the sectors asked for.
  unfoldable pub cd_st_read : (ℕ → ℕ → Bool) → ℕ → Stream → Option (ℕ × List ℕ × Stream)
  unfolding read_loop
  cd_st_read sched sectors s = elim (read_loop sched sectors sectors s) [
    | none ↦ none
    | some (bytes, s') ↦ some (s.drive.cd_error, bytes, s')
  ]
