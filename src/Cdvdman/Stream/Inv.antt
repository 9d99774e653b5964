-- ===== src/Cdvdman/Stream/Inv.antt =====
-- The invariant of the stream of Stream.antt: where the banks and the pointers stand when the
-- current bank begins with sector `first`.
use ps2esdl.Prelude.{ℕ, ◌+◌, ◌-◌, ◌*◌, ◌%◌, ◌<◌, ◌≡◌, ◌≢◌, ◌==◌, if◌then◌else◌, u32_mod, arith, ◌≤◌}
use ps2esdl.Cdvdman.Drive.{Medium, Drive}
use ps2esdl.Cdvdman.Drive.Delivery.{settled}
use ps2esdl.Cdvdman.Stream.{Stream}
use ps2esdl.Cdvdman.Stream.Window.{Holds}

-- The bytes of `n` banks.
abbrev pub span : ℕ → ℕ → ℕ
span n bank_sectors = n * (bank_sectors * 2048)

-- The sectors that wait for the next bank before they are refilled.
pub lag : ℕ → ℕ → ℕ
lag bank bank_sectors = if bank % 2 == 1 then bank_sectors else 0

pub lag-odd : (bank bank_sectors : ℕ) → bank % 2 ≡ 1 → lag bank bank_sectors ≡ bank_sectors
unfolding lag
lag-odd bank bank_sectors odd = rw odd

pub lag-even : (bank bank_sectors : ℕ) → bank % 2 ≡ 0 → lag bank bank_sectors ≡ 0
unfolding lag
lag-even bank bank_sectors even = rw even

pub lag-le : (bank bank_sectors : ℕ) → lag bank bank_sectors ≤ bank_sectors
unfolding lag
lag-le bank bank_sectors = ground arith

-- Positions of the image below this one are on the disc.
abbrev pub limit : ℕ → ℕ
limit sector_count = 2048 * (sector_count + 1)

-- The rings that work: at most 256 banks, for the counter of 8 bits, an aligned buffer inside the
-- address space, and not two banks, where a refill overtakes the reader.
pub record IsRing (bank_sectors banks base : ℕ) : Type 0 where
  pub sectors_pos : 0 < bank_sectors
  pub sectors_u16 : bank_sectors < 0x1_0000
  pub banks_pos : 0 < banks
  pub banks_u8 : banks ≤ 256
  pub banks_ne_two : banks ≢ 2
  pub aligned : base % 4 ≡ 0
  pub in_memory : base + span banks bank_sectors < u32_mod

module _ (bank_sectors banks base : ℕ) where
  -- The fields that `sceCdStInit` sets and nothing changes, and the pointer of the bank.
  pub record IsSetUp (s : Stream) : Type 0 where
    pub sectors : s.max_bank_sectors ≡ bank_sectors
    pub bank_max : s.st_bank_max ≡ banks
    pub buffer : s.st_read_buffer ≡ base
    pub buf_max : s.st_buf_max ≡ banks * bank_sectors
    pub bank_in : s.bank_id < banks
    pub ptr : s.ringbuff_bank_ptr ≡ base + span s.bank_id bank_sectors

  module _ (m : Medium) (sector_count : ℕ) where
    -- What the drive holds when bank `bank` begins with sector `first`, and what comes next.
    pub record Ready (bank lsn first : ℕ) (d : Drive) : Type 0 where
      pub next : lsn + lag bank bank_sectors ≡ first + banks * bank_sectors
      pub ahead :
          Holds m.image
            (limit sector_count)
            (settled m sector_count d)
            (base + span bank bank_sectors)
            (base + span banks bank_sectors)
            (2048 * first)
      pub wrapped :
          Holds m.image
            (limit sector_count)
            (settled m sector_count d)
            base
            (base + (span bank bank_sectors - 2048 * lag bank bank_sectors))
            (2048 * first + (span banks bank_sectors - span bank bank_sectors))
      -- Nothing in flight lands in the current bank, nor in the one after an even one.
      pub quiet :
          banks ≢ 1
          → (a : ℕ) → base + span bank bank_sectors ≤ a
          → a + 2048 * lag bank bank_sectors < base + span bank bank_sectors + 4096 * bank_sectors
          → a < base + span banks bank_sectors
          → d.mem a ≡ settled m sector_count d a

    pub record Inv (s : Stream) (first : ℕ) : Type 0 where
      pub set_up : IsSetUp s
      pub ready : Ready s.bank_id s.st_lsn first s.drive
