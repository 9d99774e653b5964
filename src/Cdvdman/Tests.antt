-- ===== src/Cdvdman/Tests.antt =====
-- Runs of the drive of Cdvdman.antt on a small disc.
use ps2esdl.Prelude.{
  ℕ, ◌+◌, ◌-◌, ◌*◌, ◌/◌, ◌%◌, ◌≤◌, ◌<◌, ◌≡◌, ◌↔◌, refl, inl, inr, List, Bool, true, false, none,
  some, [], ◌∷◌, arith, min,
}
use ps2esdl.Cdvdman.Drive.{ReadCommand}
use ps2esdl.Cdvdman.AsyncRead.{transfer_iop}
use ps2esdl.Cdvdman.AsyncRead.Deliver.{IsSlice, IsTransferred, transfer_iop-IsTransferred}
use ps2esdl.Cdvdman.AsyncRead.Usb.{Usb, image_of, usb_medium}
use ps2esdl.Cdvdman.Command.{
  Commands, asleep, status_complete, stat_pause, cmd_nop, cmd_read, is_supported, is_read,
  send_asynccmd, Internal, Runs,
}
use ps2esdl.Cdvdman.Command.Live.{IsLive, IsQuiet}
use ps2esdl.Cdvdman.Command.Settle.{
  IsAtRest, sync_ends, send_asynccmd-IsLive, send_asynccmd-unsupported,
}
use ps2esdl.Cdvdman.Stream.{Stream, cd_st_init, cd_st_start}
use ps2esdl.Cdvdman.Stream.Inv.{IsRing}
use ps2esdl.Cdvdman.Stream.Session.{Request, read, seek, expected, run_requests, stream_in_order}
use ps2esdl.Cdvdman.Position.{CdLocation, cd_int_to_pos, cd_pos_to_int, cd_pos_to_int-cd_int_to_pos}
use ps2esdl.Cdvdman.SectorIo.{ExtDevConf, Io, read_sector}
use ps2esdl.Cdvdman.SectorIo.Round.{IsUsable, InSlice}
use ps2esdl.Cdvdman.SectorIo.Read.{Delivered, read_sector-Delivered}
use ps2esdl.Cdvdman.File.{
  FileHandle, seek_set, seek_cur, seek_end, seek_other, Whence, cdrom_read, cdrom_lseek,
}
use ps2esdl.Cdvdman.File.Filled.{IsFilled}
use ps2esdl.Cdvdman.File.Read.{IsReadable, cdrom_read-IsFilled}
use ps2esdl.Cdvdman.File.Seek.{cdrom_lseek_lem, cdrom_read-cdrom_lseek}
use ps2esdl.Cdvdman.SectorIo.Crossing.{read_sector_crossing}

-- A disc whose byte at position `a` is `a % 251`.
abbrev disc : ℕ → ℕ
disc a = a % 251

-- A device with sectors of 512 bytes and slices of 1000 disc sectors, and a cache of two sectors at
-- 0x30000
abbrev long_stick : ExtDevConf
long_stick = record {
  part_lba = 64 ∷ 9000 ∷ [];
  sector_sz = 512;
  xfer_blk_sz = 4096;
  sectors_per_slice = 1000;
}

long_stick-IsUsable : IsUsable long_stick 2
long_stick-IsUsable = record {
  sector_size = inl refl;
  transfer_size = omega arith;
  block_pos = omega arith;
  block_u8 = omega arith;
}

first_slice : IsSlice long_stick 0 64
first_slice = record {
  at_part = refl;
  slice_u8 = omega arith;
  last_u32 = omega arith;
  bytes_u32 = omega arith;
}

abbrev key : Usb
key = record {
  device = disc;
  conf = long_stick;
  block = 2;
  usable = long_stick-IsUsable;
  slice = 0;
  part = 64;
  is_slice = first_slice;
  cache = 0x3_0000;
  cache_sectors = 2;
  has_cache = omega arith;
  cache_u32 = omega arith;
  partial = λ a. 0;
}

abbrev blank : Stream
blank = record {
  st_buf_max = 0;
  st_bank_max = 0;
  max_bank_sectors = 0;
  bank_id = 0;
  st_read_buffer = 0;
  sectors_streamed = 0;
  st_lsn = 0;
  ringbuff_bank_sector_offset = 0;
  ringbuff_bank_ptr = 0;
  drive = record { mem = λ _. 0; pending = none; cd_error = 0 };
}

abbrev never : ℕ → ℕ → ℕ → Bool
never i k a = false

-- A ring of three banks of two sectors at 0x10000.
three_banks-IsRing : IsRing (6 / 3) 3 0x1_0000
three_banks-IsRing = record {
  sectors_pos = omega arith;
  sectors_u16 = omega arith;
  banks_pos = omega arith;
  banks_u8 = omega arith;
  banks_ne_two = λ e. omega arith;
  aligned = refl;
  in_memory = omega arith;
}

abbrev reading_on : List Request
reading_on = read 3 ∷ seek 40 ∷ read 8 ∷ []

stream_in_order_example :
    (s : Stream) × (cd_st_init 6 3 0x1_0000 blank ≡ some s)
    × (s' : Stream) × (run_requests
          (usb_medium key)
          100
          never
          reading_on
          (cd_st_start (usb_medium key) 100 20 s)
        ≡ some (expected (image_of key) 20 reading_on, s'))
stream_in_order_example =
    stream_in_order key 100 6 3 0x1_0000 20 blank never reading_on three_banks-IsRing (
      omega arith,
      omega arith,
      omega arith,
      (
        omega arith,
        omega arith,
        (omega arith, omega arith, omega arith, (omega arith, omega arith, tt)),
      ),
    )

abbrev at_start : CdLocation
at_start = record { minute = 0; second = 0; sector = 0; track = 1 }

-- Sector 16 is at 00:02:16, which is not read back.
cd_pos_to_int_example :
    (cd_pos_to_int (cd_int_to_pos 16 at_start) ≡ 16)
    ↔ (((16 + 150) / 4500 < 10) × ((16 + 150) / 75 % 60 < 10) × ((16 + 150) % 75 < 10))
cd_pos_to_int_example = cd_pos_to_int-cd_int_to_pos 16 at_start (omega arith)

-- A device with sectors of 512 bytes and slices of 10 disc sectors.
abbrev stick : ExtDevConf
stick = record {
  part_lba = 1000 ∷ 5000 ∷ [];
  sector_sz = 512;
  xfer_blk_sz = 4096;
  sectors_per_slice = 10;
}

abbrev idle : Io
idle = record { mem = λ _. 0; partial_read_buffer = λ _. 0; buffer_offset = some 0 }

stick-IsUsable : IsUsable stick 2
stick-IsUsable = record {
  sector_size = inl refl;
  transfer_size = omega arith;
  block_pos = omega arith;
  block_u8 = omega arith;
}

second_slice : InSlice stick 1 2 5000 12 5
second_slice = record {
  place = omega arith;
  fits = omega arith;
  slice_u8 = omega arith;
  lbn_u32 = omega arith;
  left_u32 = omega arith;
  lba_u32 = omega arith;
}

read_sector_example :
    (io' : Io) × (read_sector disc stick 12 5 0x2_0000 idle ≡ some io')
    × Delivered disc idle io' 0x2_0000 (2048 * 5) (5000 * 512 + 2048 * 2)
read_sector_example =
    read_sector-Delivered disc stick-IsUsable 12 5 0x2_0000 idle second_slice refl (omega arith)
      (omega arith)

last_sector : InSlice stick 0 9 1000 9 1
last_sector = record {
  place = omega arith;
  fits = omega arith;
  slice_u8 = omega arith;
  lbn_u32 = omega arith;
  left_u32 = omega arith;
  lba_u32 = omega arith;
}

read_sector_crossing_example :
    (io' : Io) × (read_sector disc stick 9 2 0x2_0000 idle ≡ some io')
    × ((a : ℕ) → 0x2_0000 + 4096 - 512 ≤ a → a < 0x2_0000 + 4096 → io'.mem a ≡ idle.mem a)
read_sector_crossing_example =
    read_sector_crossing disc stick-IsUsable last_sector refl (omega arith) (omega arith) 0x2_0000
      idle refl (omega arith)

-- A file of 5000 bytes at sector 30, read up to byte 100.
abbrev opened : FileHandle
opened = record { lsn = 30; size = 5000; offset = 100; flags = 1 }

opened-IsReadable : IsReadable (usb_medium key) 100 0x1_0000 opened 0x2_0001 6000
opened-IsReadable = record {
  not_banned = λ e. omega arith;
  offset_in = omega arith;
  size_u32 = omega arith;
  end_u32 = omega arith;
  int = omega arith;
  on_disc = omega arith;
  disc_u32 = omega arith;
  above = omega arith;
  below = omega arith;
  in_memory = omega arith;
  apart = inr (omega arith);
  clear = inl (omega arith);
  static_u32 = omega arith;
  static_clear = inl (omega arith);
}

cdrom_read_example :
    let (n, h, d) = cdrom_read (usb_medium key) 100 0x1_0000 opened 0x2_0001 6000 blank.drive in
    (n ≡ min 6000 (5000 - 100))
    × (h ≡ record opened { offset = 100 + n })
    × IsFilled (usb_medium key) 100 0x1_0000 blank.drive d 0x2_0001 n (2048 * 30 + 100)
cdrom_read_example =
    cdrom_read-IsFilled key 100 0x1_0000 opened 0x2_0001 6000 blank.drive opened-IsReadable

cdrom_lseek_example :
    ((pos : Whence)
      → (cdrom_lseek opened 4950 pos).1
        ≡ record opened { offset = (cdrom_lseek opened 4950 pos).0 })
    × ((cdrom_lseek opened 4950 seek_set).0 ≡ min 4950 5000)
    × ((cdrom_lseek opened 4950 seek_cur).0 ≡ 100 + min 4950 5000)
    × ((cdrom_lseek opened 4950 seek_end).0 ≡ 5000 - min 4950 5000)
    × ((cdrom_lseek opened 4950 seek_other).0 ≡ 100)
    × (((cdrom_lseek opened 4950 seek_cur).0 ≤ 5000) ↔ (100 + min 4950 5000 ≤ 5000))
cdrom_lseek_example = cdrom_lseek_lem opened 4950 (omega arith) (omega arith)

-- From the current offset on by 2000
cdrom_read-cdrom_lseek_example :
    let (now, h1) = cdrom_lseek opened 2000 seek_cur in
    let (n, h2, d) = cdrom_read (usb_medium key) 100 0x1_0000 h1 0x2_0001 6000 blank.drive in
    (now ≡ 100 + min 2000 5000)
    × (n ≡ min 6000 (5000 - (100 + min 2000 5000)))
    × (h2 ≡ record opened { offset = 100 + min 2000 5000 + n })
    × IsFilled
        (usb_medium key)
        100
        0x1_0000
        blank.drive
        d
        0x2_0001
        n
        (2048 * 30 + (100 + min 2000 5000))
cdrom_read-cdrom_lseek_example =
    cdrom_read-cdrom_lseek key 100 0x1_0000 opened 2000 seek_cur 0x2_0001 6000 blank.drive
      opened-IsReadable (omega arith) (omega arith)

-- The drive with nothing to do, and a callback that does nothing.
abbrev ready : Commands
ready = record {
  cd_error = 0;
  waf = true;
  read_lsn = 0;
  rd_buf = 0;
  status = status_complete;
  drive_state = stat_pause;
  async_cmd = cmd_nop;
  flags = 0;
  command = record { lsn = 16; sectors = 1; buffer = 0x2_0000 };
  cmdfunc = 0;
  has_user_cb = true;
  intr_ef = true;
  ncmd_sema = 1;
  phase = asleep;
  wakeups = 0;
  alarm = false;
}

abbrev no_call : ℕ → Commands → Commands
no_call r s = s

no_call-IsQuiet : IsQuiet no_call
no_call-IsQuiet = record {
  waf = λ r s. refl;
  sema = λ r s. refl;
  phase = λ r s. refl;
  drive_state = λ r s. refl;
  wakeups = λ r s. refl;
  alarm = λ r s. refl;
}

ready-IsLive : IsLive ready
ready-IsLive = record {
  sema = refl;
  spinning = λ e f. omega arith;
  coming = λ e. absurd (ground arith);
}

-- The drive after a read was sent.
abbrev reading : Commands
reading = record ready {
  waf = false;
  wakeups = 1;
  async_cmd = cmd_read;
  cmdfunc = 1;
  intr_ef = false;
}

reading-IsLive : IsLive reading
reading-IsLive = record {
  sema = refl;
  spinning = λ e f. omega arith;
  coming = λ e. inr (inl (omega arith));
}

sync_ends_example :
    ((n : ℕ) × (s' : Commands) × Runs no_call 100 n reading s' × (s'.waf ≡ true))
    × ((n : ℕ) (s' : Commands)
        → Runs no_call 100 n reading s'
        → (n ≤ 3) × (IsAtRest no_call no_call-IsQuiet 100 s' → s'.waf ≡ true))
sync_ends_example = sync_ends no_call no_call-IsQuiet 100 reading reading-IsLive

send_asynccmd_example :
    (s' : Commands) × (send_asynccmd cmd_read ready.command 1 0x2_0000 ready ≡ some (true, s'))
    × (s'.waf ≡ false)
    × IsLive s'
unfolding is_supported is_read
send_asynccmd_example =
    send_asynccmd-IsLive cmd_read ready.command 1 0x2_0000 ready refl ready-IsLive

-- ASYNC_CMD_GETTOC
send_asynccmd_gettoc :
    (s' : Commands) × (send_asynccmd 9 ready.command 0 0 ready ≡ some (false, s'))
    × (s'.waf ≡ false)
    × ((s1 : Commands) → ¬ Internal no_call 100 s' s1)
    × ((ncmd1 cmdfunc1 buffer1 : ℕ) (command1 : ReadCommand)
        → send_asynccmd ncmd1 command1 cmdfunc1 buffer1 s' ≡ none)
unfolding is_supported is_read
send_asynccmd_gettoc =
    send_asynccmd-unsupported no_call 100 9 ready.command 0 0 ready refl refl refl refl refl

-- Five sectors to an address that is not aligned, through a cache of two sectors at 0x3_0000
abbrev unaligned : ReadCommand
unaligned = record { lsn = 16; sectors = 5; buffer = 0x2_0001 }

transfer_iop_example :
    (io' : Io) × (transfer_iop disc long_stick 0x3_0000 2 16 5 0x2_0001 idle ≡ some io')
    × IsTransferred disc long_stick-IsUsable first_slice 0x3_0000 2 unaligned idle.mem io'.mem
transfer_iop_example =
    transfer_iop-IsTransferred disc long_stick-IsUsable first_slice 0x3_0000 2 unaligned idle
      (omega arith) (omega arith) (omega arith) (omega arith) (omega arith)
      (inr (inl (omega arith)))
