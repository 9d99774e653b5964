-- ===== src/Cdvdman/Stream/Round.antt =====
-- One round of the loop of sceCdStRead: the bytes that it copies are those of the disc, whatever of
-- the command in flight has arrived, and the reader moves on.
use ps2esdl.Prelude.{
  ℕ, ◌+◌, ◌*◌, ◌≤◌, ◌<◌, ◌≡◌, ◌≢◌, ◌∙◌, refl, ap, sym, arith, inl, inr, Bool, false, true,
  Bool-cases, table, table_congr, ltb, leb, add32, mul32,
}
use mathlib.Core.Path.{subst}
use ps2esdl.Cdvdman.Drive.{Medium, Drive, complete, cd_sync}
use ps2esdl.Cdvdman.Drive.Delivery.{settled, view_quiet, complete_twice}
use ps2esdl.Cdvdman.Stream.{Stream, next_bank, round_sectors, round_sync, round_bytes, round_end}
use ps2esdl.Cdvdman.Stream.Inv.{span, lag-le, IsRing, Ready, Inv}
use ps2esdl.Cdvdman.Stream.Switch.{span_mono}
use ps2esdl.Cdvdman.Stream.Next.{mul_mono, next_bank-Inv}

many_banks : (n : ℕ) → ltb n 2 ≡ false → n ≢ 1
many_banks n h = ground arith

leb→le : (a b : ℕ) → leb a b ≡ true → a ≤ b
leb→le a b h = ground arith

leb→lt : (a b : ℕ) → leb a b ≡ false → b < a
leb→lt a b h = ground arith

-- The state with another offset in the current bank.
abbrev at_offset : ℕ → Stream → Stream
at_offset offset s = record s { ringbuff_bank_sector_offset = offset }

next_bank-offset :
    (m : Medium) (sector_count : ℕ) (s : Stream)
    → (next_bank m sector_count s).ringbuff_bank_sector_offset ≡ 0
unfolding next_bank
next_bank-offset m sector_count s = refl

round_sync-offset :
    (m : Medium) (sector_count : ℕ) (s : Stream)
    → (round_sync m sector_count s).ringbuff_bank_sector_offset ≡ s.ringbuff_bank_sector_offset
unfolding round_sync
round_sync-offset m sector_count s = ground arith

round_sectors-le :
    (offset : ℕ) (s : Stream) (bank_sectors left : ℕ)
    → s.max_bank_sectors ≡ bank_sectors
    → s.ringbuff_bank_sector_offset < bank_sectors
    → bank_sectors < 0x1_0000
    → 0 < left
    → offset ≡ s.ringbuff_bank_sector_offset
    → (0 < round_sectors s left)
      × (round_sectors s left ≤ left)
      × (offset + round_sectors s left ≤ bank_sectors)
unfolding round_sectors
round_sectors-le offset s bank_sectors left e inside small more same = ground arith

module _ (bank_sectors banks base : ℕ) (m : Medium) (sector_count : ℕ) where
  -- The next sector that a read returns is `pos`.
  pub record At (s : Stream) (pos : ℕ) : Type 0 where
    pub first : ℕ
    pub inv : Inv bank_sectors banks base m sector_count s first
    pub above : m.first ≤ first
    pub offset_in : s.ringbuff_bank_sector_offset < bank_sectors
    pub position : pos ≡ first + s.ringbuff_bank_sector_offset

  -- The current bank is as it is when nothing is in flight.
  abbrev pub IsStill : Stream → Type 0
  IsStill s =
      (a : ℕ)
      → base + span s.bank_id bank_sectors ≤ a
      → a < base + span s.bank_id bank_sectors + 2048 * bank_sectors
      → s.drive.mem a ≡ settled m sector_count s.drive a

  module _ (ring : IsRing bank_sectors banks base) where
    synced-Ready :
        (bank lsn first : ℕ) (d : Drive)
        → Ready bank_sectors banks base m sector_count bank lsn first d
        → Ready bank_sectors banks base m sector_count bank lsn first (complete m sector_count d)
    synced-Ready bank lsn first d r = record {
      next = r.next;
      ahead = λ a p q h.
          ap (λ (e : Drive). e.mem a) (complete_twice m sector_count d) ∙ r.ahead a p q h;
      wrapped = λ a p q h.
          ap (λ (e : Drive). e.mem a) (complete_twice m sector_count d) ∙ r.wrapped a p q h;
      quiet = λ more a p q h. sym (ap (λ (e : Drive). e.mem a) (complete_twice m sector_count d));
    }

    sync-Inv :
        (s : Stream) (first : ℕ)
        → Inv bank_sectors banks base m sector_count s first
        → Inv bank_sectors banks base m sector_count (round_sync m sector_count s) first
          × IsStill (round_sync m sector_count s)
    unfolding round_sync cd_sync
    sync-Inv s first inv = elim (Bool-cases (ltb s.st_bank_max 2)) [
      | inl single ↦ rw single (
        record {
          set_up = record {
            sectors = inv.set_up.sectors;
            bank_max = inv.set_up.bank_max;
            buffer = inv.set_up.buffer;
            buf_max = inv.set_up.buf_max;
            bank_in = inv.set_up.bank_in;
            ptr = inv.set_up.ptr;
          };
          ready = synced-Ready s.bank_id s.st_lsn first s.drive inv.ready;
        },
        λ a p q. sym (ap (λ (e : Drive). e.mem a) (complete_twice m sector_count s.drive)),
      )
      | inr many ↦ rw many (
        inv,
        λ a p q.
            inv.ready.quiet (λ e. many_banks s.st_bank_max many (inv.set_up.bank_max ∙ e)) a p
              (omega (arith, lag-le s.bank_id bank_sectors))
              (omega (
                arith,
                span_mono (s.bank_id + 1) banks bank_sectors (omega (arith, inv.set_up.bank_in)),
              )),
      )
    ]

    offset-Inv :
        (s : Stream) (first offset : ℕ)
        → Inv bank_sectors banks base m sector_count s first
        → Inv bank_sectors banks base m sector_count (at_offset offset s) first
    offset-Inv s first offset inv = record {
      set_up = record {
        sectors = inv.set_up.sectors;
        bank_max = inv.set_up.bank_max;
        buffer = inv.set_up.buffer;
        buf_max = inv.set_up.buf_max;
        bank_in = inv.set_up.bank_in;
        ptr = inv.set_up.ptr;
      };
      ready = inv.ready;
    }

    -- A round that stays in the current bank copies the next sectors of the image.
    round_bytes-table :
        (arrived : ℕ → Bool) (s : Stream) (first sectors : ℕ)
        → Inv bank_sectors banks base m sector_count s first
        → IsStill s
        → s.ringbuff_bank_sector_offset + sectors ≤ bank_sectors
        → first + s.ringbuff_bank_sector_offset + sectors ≤ sector_count + 1
        → round_bytes m sector_count arrived sectors s
          ≡ table m.image (2048 * (first + s.ringbuff_bank_sector_offset)) (2048 * sectors)
    unfolding round_bytes
    round_bytes-table arrived s first sectors inv still fits on_disc =
        rw (inv.set_up.ptr, start, size)
          (table_congr _ m.image _ _ (2048 * sectors) λ k b.
            view_quiet m sector_count arrived s.drive _ (still _ (omega arith) (omega arith))
            ∙ inv.ready.ahead _ (omega arith) (omega (arith, bank_end)) (omega arith)
            ∙ ap m.image (omega arith))
      where
        bank_end : span (s.bank_id + 1) bank_sectors ≤ span banks bank_sectors
        bank_end = span_mono (s.bank_id + 1) banks bank_sectors (omega (arith, inv.set_up.bank_in))

        start :
            add32 (base + span s.bank_id bank_sectors) (mul32 s.ringbuff_bank_sector_offset 2048)
            ≡ base + span s.bank_id bank_sectors + 2048 * s.ringbuff_bank_sector_offset
        start = omega (arith, bank_end, ring.in_memory, ring.sectors_u16)

        size : mul32 sectors 2048 ≡ 2048 * sectors
        size = omega (arith, ring.sectors_u16)

    -- After the copy the reader stands behind the sectors copied.
    round_end-At :
        (s : Stream) (first sectors : ℕ)
        → Inv bank_sectors banks base m sector_count s first
        → s.ringbuff_bank_sector_offset + sectors ≤ bank_sectors
        → m.first ≤ first
        → first + bank_sectors + banks * bank_sectors ≤ m.last
        → At (round_end m sector_count sectors s) (first + s.ringbuff_bank_sector_offset + sectors)
    unfolding round_end
    round_end-At s first sectors inv fits above room =
        elim (Bool-cases (leb s.max_bank_sectors end)) [
          | inl full ↦ rw full (record {
            first = first + bank_sectors;
            inv =
                next_bank-Inv m sector_count bank_sectors banks base ring
                  (offset-Inv s first end inv) above room;
            above = omega arith;
            offset_in = rw (next_bank-offset m sector_count (at_offset end s)) ring.sectors_pos;
            position = omega (
              arith,
              leb→le _ _ full,
              no_wrap,
              inv.set_up.sectors,
              next_bank-offset m sector_count (at_offset end s),
            );
          })
          | inr more ↦ rw more (record {
            first = first;
            inv = offset-Inv s first end inv;
            above = above;
            offset_in = omega (arith, leb→lt _ _ more, inv.set_up.sectors);
            position = omega (arith, no_wrap);
          })
        ]
      where
        end : ℕ
        end = add32 s.ringbuff_bank_sector_offset sectors

        no_wrap : end ≡ s.ringbuff_bank_sector_offset + sectors
        no_wrap = omega (arith, ring.sectors_u16)

    -- A whole round, from a reader at `pos` with `left` sectors to go.
    pub round-At :
        (arrived : ℕ → Bool) (s : Stream) (pos left : ℕ)
        → At s pos
        → 0 < left
        → pos + left ≤ sector_count + 1
        → pos + 2 * (banks * bank_sectors) ≤ m.last
        → (0 < round_sectors s left)
          × (round_sectors s left ≤ left)
          × (round_bytes m sector_count arrived (round_sectors s left) (round_sync m sector_count s)
              ≡ table m.image (2048 * pos) (2048 * round_sectors s left))
          × At
              (round_end m sector_count (round_sectors s left) (round_sync m sector_count s))
              (pos + round_sectors s left)
    round-At arrived s pos left at more on_disc room = (
      steps.0,
      steps.1,
      bytes ∙ ap (λ p. table m.image (2048 * p) (2048 * round_sectors s left)) (sym here),
      subst (λ p. At (round_end m sector_count (round_sectors s left) s1) p) (omega (arith, here))
          (round_end-At s1 at.first (round_sectors s left) synced.0 steps.2 at.above
            (omega (arith, mul_mono 1 banks bank_sectors ring.banks_pos))),
    )
      where
        s1 : Stream
        s1 = round_sync m sector_count s

        synced : Inv bank_sectors banks base m sector_count s1 at.first × IsStill s1
        synced = sync-Inv s at.first at.inv

        same : s1.ringbuff_bank_sector_offset ≡ s.ringbuff_bank_sector_offset
        same = round_sync-offset m sector_count s

        here : pos ≡ at.first + s1.ringbuff_bank_sector_offset
        here = omega (arith, at.position, same)

        steps :
            (0 < round_sectors s left)
            × (round_sectors s left ≤ left)
            × (s1.ringbuff_bank_sector_offset + round_sectors s left ≤ bank_sectors)
        steps =
            round_sectors-le s1.ringbuff_bank_sector_offset s bank_sectors left
              at.inv.set_up.sectors at.offset_in ring.sectors_u16 more same

        bytes :
            round_bytes m sector_count arrived (round_sectors s left) s1
            ≡ table m.image
                (2048 * (at.first + s1.ringbuff_bank_sector_offset))
                (2048 * round_sectors s left)
        bytes =
            round_bytes-table arrived s1 at.first (round_sectors s left) synced.0 synced.1 steps.2
              (omega (arith, here, steps))
