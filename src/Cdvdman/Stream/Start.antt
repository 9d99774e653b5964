-- ===== src/Cdvdman/Stream/Start.antt =====
-- sceCdStInit, sceCdStStart and sceCdStSeekF of Stream.antt: the ring is set up, filled, and filled
-- again from another sector.
use ps2esdl.Prelude.{
  ℕ, ◌+◌, ◌*◌, ◌/◌, ◌≤◌, ◌<◌, ◌≡◌, ◌∙◌, refl, ap, sym, inl, ◌==◌, arith, false, some, mul32,
}
use native.Mathlib.Nat.{mod-eq_of_lt}
use ps2esdl.Cdvdman.Drive.{Medium, Drive, cd_sync, read_no_cb}
use ps2esdl.Cdvdman.Drive.Delivery.{complete_twice, sent_in}
use ps2esdl.Cdvdman.Stream.{Stream, st_init, cd_st_start, cd_st_init, cd_st_seek_f}
use ps2esdl.Cdvdman.Stream.Inv.{IsRing, lag-even}
use ps2esdl.Cdvdman.Stream.Round.{At}

-- What `sceCdStInit` leaves behind.
pub record IsInit (bank_sectors banks base : ℕ) (s : Stream) : Type 0 where
  pub sectors : s.max_bank_sectors ≡ bank_sectors
  pub bank_max : s.st_bank_max ≡ banks
  pub buffer : s.st_read_buffer ≡ base
  pub buf_max : s.st_buf_max ≡ banks * bank_sectors

-- `sceCdStInit` splits the buffer into `bankmax` banks of `bufmax / bankmax` sectors.
pub cd_st_init-IsInit :
    (bufmax bankmax base : ℕ) (s0 : Stream)
    → IsRing (bufmax / bankmax) bankmax base
    → (s : Stream) × (cd_st_init bufmax bankmax base s0 ≡ some s)
      × IsInit (bufmax / bankmax) bankmax base s
unfolding cd_st_init
cd_st_init-IsInit bufmax bankmax base s0 ring = rw (some_banks bankmax ring.banks_pos) (
  _,
  refl,
  record {
    sectors = mod-eq_of_lt ring.sectors_u16;
    bank_max = refl;
    buffer = refl;
    buf_max =
        rw (mod-eq_of_lt ring.sectors_u16)
          (product (bufmax / bankmax) bankmax ring.sectors_u16 ring.banks_u8);
  },
)
  where
    some_banks : (n : ℕ) → 0 < n → (n == 0) ≡ false
    some_banks n h = ground arith

    mul_bound : (a b : ℕ) → a < 0x1_0000 → a * b ≤ 0xffff * b
    mul_bound a b h = grind arith

    product : (a b : ℕ) → a < 0x1_0000 → b ≤ 256 → mul32 a b ≡ b * a
    product a b h k = omega (arith, mul_bound a b h)

module _ (bank_sectors banks base : ℕ) (m : Medium) (sector_count : ℕ)
    (ring : IsRing bank_sectors banks base) where
  -- The drive with the command of `sceCdStStart` in flight.
  abbrev filled : ℕ → Stream → Drive
  filled lsn s = read_no_cb m sector_count lsn s.st_buf_max s.st_read_buffer s.drive

  -- `sceCdStStart` fills the ring and puts the reader on sector `lsn`.
  pub cd_st_start-At :
      (lsn : ℕ) (s : Stream)
      → IsInit bank_sectors banks base s
      → lsn ≤ sector_count
      → m.first ≤ lsn
      → lsn + banks * bank_sectors ≤ m.last
      → At bank_sectors banks base m sector_count (cd_st_start m sector_count lsn s) lsn
  unfolding cd_st_start cd_sync
  cd_st_start-At lsn s init on_disc above room = record {
    first = lsn;
    inv = record {
      set_up = record {
        sectors = init.sectors;
        bank_max = init.bank_max;
        buffer = init.buffer;
        buf_max = init.buf_max;
        bank_in = ring.banks_pos;
        ptr = init.buffer ∙ omega arith;
      };
      ready = record {
        next = omega (arith, lag-even 0 bank_sectors refl, init.buf_max);
        ahead = λ a p q h.
            ap (λ (e : Drive). e.mem a) (complete_twice m sector_count (filled lsn s))
            ∙ sent_in m sector_count s.drive lsn s.st_buf_max s.st_read_buffer a on_disc
                (
                  above,
                  omega (arith, init.buf_max),
                  omega (arith, init.buffer, init.buf_max, ring.in_memory),
                )
                (inl (omega (arith, init.buffer, ring.aligned))) (omega (arith, init.buffer))
                (omega (arith, init.buffer, init.buf_max))
            ∙ ap m.image (omega (arith, init.buffer));
        wrapped = λ a p q h. absurd (omega (arith, lag-even 0 bank_sectors refl));
        quiet = λ more a p q h.
            sym (ap (λ (e : Drive). e.mem a) (complete_twice m sector_count (filled lsn s)));
      };
    };
    above = above;
    offset_in = ring.sectors_pos;
    position = omega arith;
  }

  -- `sceCdStSeekF` does the same from wherever the reader was.
  pub cd_st_seek_f-At :
      (lsn pos : ℕ) (s : Stream)
      → At bank_sectors banks base m sector_count s pos
      → lsn ≤ sector_count
      → m.first ≤ lsn
      → lsn + banks * bank_sectors ≤ m.last
      → At bank_sectors banks base m sector_count (cd_st_seek_f m sector_count lsn s) lsn
  unfolding cd_st_seek_f st_init
  cd_st_seek_f-At lsn pos s at on_disc above room =
      cd_st_start-At lsn (st_init lsn s)
        (record {
          sectors = at.inv.set_up.sectors;
          bank_max = at.inv.set_up.bank_max;
          buffer = at.inv.set_up.buffer;
          buf_max = at.inv.set_up.buf_max;
        })
        on_disc above room
