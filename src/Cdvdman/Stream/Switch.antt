-- ===== src/Cdvdman/Stream/Switch.antt =====
-- `next_bank` of Stream.antt in plain numbers: on a ring that works no word wraps, so the switch is
-- one of three moves.
use ps2esdl.Prelude.{
  ℕ, ◌+◌, ◌-◌, ◌*◌, ◌%◌, ◌≤◌, ◌<◌, ◌≡◌, ◌==◌, leb, if◌then◌else◌, u32_mod, u8_mod, add32, sub32,
  mul32, arith, false,
}
use native.Mathlib.Nat.{mod-eq_of_lt}
use ps2esdl.Cdvdman.Drive.{Medium, Drive, read_no_cb}
use ps2esdl.Cdvdman.Stream.{Stream, refill, next_bank, switch_bank}
use ps2esdl.Cdvdman.Stream.Inv.{span, IsRing, IsSetUp}

pub span_mono : (a b m : ℕ) → a ≤ b → span a m ≤ span b m
span_mono a b m h = grind arith

pub span-suc : (a m : ℕ) → span (a + 1) m ≡ span a m + m * 2048
span-suc a m = omega arith

-- The bank after `bank` in a ring of `banks`.
abbrev pub succ_bank : ℕ → ℕ → ℕ
succ_bank banks bank = if bank + 1 == banks then 0 else bank + 1

succ_bank-eq :
    (banks bank : ℕ)
    → bank < banks
    → banks ≤ 256
    → (let next = (bank + 1) % u8_mod in if leb banks next then 0 else next) ≡ succ_bank banks bank
succ_bank-eq banks bank h k = ground arith

pub succ_bank-lt : (banks bank : ℕ) → bank < banks → succ_bank banks bank < banks
succ_bank-lt banks bank h = ground arith

module _ (m : Medium) (sector_count bank_sectors banks base : ℕ) where
  -- The state with another bank as the current one.
  abbrev pub moved : ℕ → ℕ → Drive → Stream → Stream
  moved bank lsn d s = record s {
    bank_id = bank;
    st_lsn = lsn;
    ringbuff_bank_ptr = base + span bank bank_sectors;
    ringbuff_bank_sector_offset = 0;
    drive = d;
  }

  -- The drive once the refill of two banks, or of one, has been sent.
  abbrev pub pair_refilled : Stream → Drive
  pair_refilled s =
      read_no_cb m sector_count s.st_lsn (2 * bank_sectors)
        (base + span (s.bank_id + 1) bank_sectors - 2 * bank_sectors * 2048) s.drive

  abbrev pub one_refilled : Stream → Drive
  one_refilled s =
      read_no_cb m sector_count s.st_lsn bank_sectors
        (base + span (s.bank_id + 1) bank_sectors - bank_sectors * 2048) s.drive

  module _ (ring : IsRing bank_sectors banks base) {s : Stream}
      (up : IsSetUp bank_sectors banks base s) where
    -- The pointer of the next bank does not wrap.
    ptr-eq :
        add32 s.st_read_buffer (mul32 (succ_bank banks s.bank_id) (s.max_bank_sectors * 2048))
        ≡ base + span (succ_bank banks s.bank_id) bank_sectors
    ptr-eq =
        rw (up.buffer, up.sectors)
          (omega (
            arith,
            span_mono (succ_bank banks s.bank_id) banks bank_sectors
                (omega (arith, succ_bank-lt banks s.bank_id up.bank_in)),
            ring.in_memory,
          ))

    switch_bank-eq :
        (k : ℕ)
        → s.st_lsn + k < u32_mod
        → switch_bank k s ≡ moved (succ_bank banks s.bank_id) (s.st_lsn + k) s.drive s
    unfolding switch_bank
    switch_bank-eq k small = rw (
      up.bank_max,
      succ_bank-eq banks s.bank_id up.bank_in ring.banks_u8,
      ptr-eq,
      mod-eq_of_lt small,
    )

    refill-odd :
        s.bank_id % 2 ≡ 1
        → refill m sector_count s ≡ (record s { drive = pair_refilled s }, 2 * bank_sectors)
    unfolding refill
    refill-odd odd = rw (odd, up.sectors, up.ptr, double, back)
      where
        double : mul32 bank_sectors 2 ≡ 2 * bank_sectors
        double = omega (arith, ring.sectors_u16)

        back :
            sub32 (base + span s.bank_id bank_sectors) (bank_sectors * 2048)
            ≡ base + span (s.bank_id + 1) bank_sectors - 2 * bank_sectors * 2048
        back = omega (
          arith,
          span_mono 1 s.bank_id bank_sectors (omega arith),
          span_mono s.bank_id banks bank_sectors (omega (arith, up.bank_in)),
          ring.in_memory,
        )

    refill-last :
        s.bank_id % 2 ≡ 0
        → s.bank_id + 1 ≡ banks
        → refill m sector_count s ≡ (record s { drive = one_refilled s }, bank_sectors)
    unfolding refill
    refill-last even last = rw (even, up.sectors, up.ptr, up.bank_max, one, start)
      where
        start :
            base + span s.bank_id bank_sectors
            ≡ base + span (s.bank_id + 1) bank_sectors - bank_sectors * 2048
        start = omega arith

        one : sub32 banks s.bank_id ≡ 1
        one = omega (arith, ring.banks_u8)

    refill-even : s.bank_id % 2 ≡ 0 → s.bank_id + 1 < banks → refill m sector_count s ≡ (s, 0)
    unfolding refill
    refill-even even inside = rw (even, more)
      where
        more : (sub32 s.st_bank_max s.bank_id == 1) ≡ false
        more = rw up.bank_max (ground (arith, ring.banks_u8))

  module _ (ring : IsRing bank_sectors banks base) {s : Stream}
      (up : IsSetUp bank_sectors banks base s) where
    -- The drive does not matter to the fields that were set up.
    with_drive : (d : Drive) → IsSetUp bank_sectors banks base (record s { drive = d })
    with_drive d = record {
      sectors = up.sectors;
      bank_max = up.bank_max;
      buffer = up.buffer;
      buf_max = up.buf_max;
      bank_in = up.bank_in;
      ptr = up.ptr;
    }

    -- An odd bank is refilled together with the one before it.
    pub next_bank-odd :
        s.bank_id % 2 ≡ 1
        → s.st_lsn + 2 * bank_sectors < u32_mod
        → next_bank m sector_count s
          ≡ moved (succ_bank banks s.bank_id) (s.st_lsn + 2 * bank_sectors) (pair_refilled s) s
    unfolding next_bank
    next_bank-odd odd small = rw (
      refill-odd ring up odd,
      switch_bank-eq ring (with_drive (pair_refilled s)) (2 * bank_sectors) small,
    )

    -- An even bank at the end of the ring is refilled alone.
    pub next_bank-last :
        s.bank_id % 2 ≡ 0
        → s.bank_id + 1 ≡ banks
        → s.st_lsn + bank_sectors < u32_mod
        → next_bank m sector_count s
          ≡ moved (succ_bank banks s.bank_id) (s.st_lsn + bank_sectors) (one_refilled s) s
    unfolding next_bank
    next_bank-last even last small = rw (
      refill-last ring up even last,
      switch_bank-eq ring (with_drive (one_refilled s)) bank_sectors small,
    )

    -- Any other even bank waits for the next one.
    pub next_bank-even :
        s.bank_id % 2 ≡ 0
        → s.bank_id + 1 < banks
        → s.st_lsn + 0 < u32_mod
        → next_bank m sector_count s ≡ moved (succ_bank banks s.bank_id) (s.st_lsn + 0) s.drive s
    unfolding next_bank
    next_bank-even even inside small =
        rw (refill-even ring up even inside, switch_bank-eq ring up 0 small)
