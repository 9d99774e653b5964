-- ===== src/Cdvdman/Stream/Advance.antt =====
-- The switch to the next bank keeps the invariant of the stream.
use ps2esdl.Prelude.{
  ℕ, ◌+◌, ◌-◌, ◌*◌, ◌%◌, ◌≤◌, ◌<◌, ◌≡◌, ◌≢◌, ◌⊎◌, ◌∙◌, refl, ap, sym, u32_mod, arith, inl, inr,
}
use ps2esdl.Cdvdman.Drive.{Medium, Drive, read_no_cb}
use ps2esdl.Cdvdman.Drive.Delivery.{settled, sent_mem, sent_in, sent_out}
use ps2esdl.Cdvdman.Stream.Window.{
  Holds, Refills, Holds-refilled, Holds-kept, Holds-part, Holds-append,
}
use ps2esdl.Cdvdman.Stream.Inv.{IsRing, span, lag, limit, Ready, lag-odd, lag-even}
use ps2esdl.Cdvdman.Stream.Switch.{span_mono}

module _ (m : Medium) (sector_count : ℕ) where
  -- A command for `sectors` sectors is a refill of its buffer.
  sent-Refills :
      (d : Drive) (lsn sectors buffer : ℕ)
      → (m.first ≤ lsn) × (lsn + sectors ≤ m.last) × (buffer + 2048 * sectors < u32_mod)
      → buffer % 4 ≡ 0
      → Refills m.image
          (limit sector_count)
          (settled m sector_count d)
          (settled m sector_count (read_no_cb m sector_count lsn sectors buffer d))
          buffer
          (buffer + 2048 * sectors)
          (2048 * lsn)
  sent-Refills d lsn sectors buffer within aligned = record {
    inside = λ a p q h.
        sent_in m sector_count d lsn sectors buffer a (omega arith) within (inl aligned) p q;
    outside = λ a out.
        sent_out m sector_count d lsn sectors buffer a within (inl aligned) out (inl aligned);
  }

  -- The drive after a command for the `sectors` sectors that end at address `hi`.
  abbrev pub sent_up_to : Drive → ℕ → ℕ → ℕ → Drive
  sent_up_to d lsn sectors hi = read_no_cb m sector_count lsn sectors (hi - sectors * 2048) d

module _ (m : Medium) (sector_count bank_sectors banks base : ℕ)
    (ring : IsRing bank_sectors banks base) {bank lsn first : ℕ} {d : Drive}
    (ready : Ready bank_sectors banks base m sector_count bank lsn first d) where
  pub Ready-even :
      bank % 2 ≡ 0
      → bank + 1 < banks
      → Ready bank_sectors banks base m sector_count (bank + 1) (lsn + 0) (first + bank_sectors) d
  Ready-even even inside =
      let here : lag bank bank_sectors ≡ 0 = lag-even bank bank_sectors even in
      let there : lag (bank + 1) bank_sectors ≡ bank_sectors =
        lag-odd (bank + 1) bank_sectors (omega arith) in
      let ends : span (bank + 1) bank_sectors ≤ span banks bank_sectors =
        span_mono (bank + 1) banks bank_sectors (omega arith) in
      record {
        next = omega (arith, ready.next);
        ahead =
            Holds-part m.image (limit sector_count) _ _ _ _ _ _ _ ready.ahead (omega arith)
              (omega arith) (omega arith);
        wrapped =
            λ a p q h. ready.wrapped a p (omega arith) (omega arith) ∙ ap m.image (omega arith);
        quiet = λ more a p q h. ready.quiet more a (omega arith) (omega arith) h;
      }

  -- A refill of `sectors` sectors up to `hi` extends what the refilled banks hold.
  module _ (sectors hi : ℕ) (fits : sectors * 2048 ≤ hi)
      (before : hi - sectors * 2048
        ≡ base + (span bank bank_sectors - 2048 * lag bank bank_sectors))
      (within : (m.first ≤ lsn) × (lsn + sectors ≤ m.last) × (hi < u32_mod))
      (aligned : hi % 4 ≡ 0) where
    buffer_aligned : (hi - sectors * 2048) % 4 ≡ 0
    buffer_aligned = omega arith

    inside :
        (m.first ≤ lsn)
        × (lsn + sectors ≤ m.last)
        × (hi - sectors * 2048 + 2048 * sectors < u32_mod)
    inside = (within.0, within.1, omega arith)

    abbrev after : Drive
    after = sent_up_to m sector_count d lsn sectors hi

    refilled :
        Refills m.image
          (limit sector_count)
          (settled m sector_count d)
          (settled m sector_count after)
          (hi - sectors * 2048)
          (hi - sectors * 2048 + 2048 * sectors)
          (2048 * lsn)
    refilled = sent-Refills m sector_count d lsn sectors (hi - sectors * 2048) inside buffer_aligned

    front :
        span bank bank_sectors ≤ span banks bank_sectors
        → lag bank bank_sectors * 2048 ≤ span bank bank_sectors
        → Holds m.image
            (limit sector_count)
            (settled m sector_count after)
            base
            hi
            (2048 * first + (span banks bank_sectors - span bank bank_sectors))
    front le lagged =
        Holds-append m.image (limit sector_count) (settled m sector_count after) base
          (hi - sectors * 2048) hi
          (2048 * first + (span banks bank_sectors - span bank bank_sectors)) (2048 * lsn)
          (Holds-kept m.image (limit sector_count) _ _ refilled _ _ _ (inl (omega arith))
            (rw before ready.wrapped))
          (Holds-part m.image (limit sector_count) _ _ _ _ _ _ _
            (Holds-refilled m.image (limit sector_count) _ _ refilled) (omega arith) (omega arith)
            (omega arith))
          (omega arith) (omega (arith, ready.next))

    quiet_after :
        (a : ℕ)
        → (a < hi - sectors * 2048) ⊎ (hi ≤ a)
        → after.mem a ≡ settled m sector_count after a
    quiet_after a out =
        sent_mem m sector_count d lsn sectors (hi - sectors * 2048) a
        ∙ sym (
            sent_out m sector_count d lsn sectors (hi - sectors * 2048) a inside
              (inl buffer_aligned) (off out) (inl buffer_aligned))
      where
        off :
            (a < hi - sectors * 2048) ⊎ (hi ≤ a)
            → (a < hi - sectors * 2048) ⊎ (hi - sectors * 2048 + 2048 * sectors ≤ a)
        off (inl below) = inl below
        off (inr above) = inr (omega arith)

  -- An odd bank that is not the last one.
  pub Ready-odd :
      m.first ≤ lsn
      → lsn + 2 * bank_sectors ≤ m.last
      → bank % 2 ≡ 1
      → bank + 1 < banks
      → Ready bank_sectors banks base m sector_count
          (bank + 1)
          (lsn + 2 * bank_sectors)
          (first + bank_sectors)
          (sent_up_to m sector_count d lsn (2 * bank_sectors) (base + span (bank + 1) bank_sectors))
  Ready-odd above below odd inside =
      let here : lag bank bank_sectors ≡ bank_sectors = lag-odd bank bank_sectors odd in
      let there : lag (bank + 1) bank_sectors ≡ 0 =
        lag-even (bank + 1) bank_sectors (omega arith) in
      let ends : span (bank + 1) bank_sectors ≤ span banks bank_sectors =
        span_mono (bank + 1) banks bank_sectors (omega arith) in
      let one : span 1 bank_sectors ≤ span bank bank_sectors =
        span_mono 1 bank bank_sectors (omega arith) in
      let hi : ℕ = base + span (bank + 1) bank_sectors in
      let in_memory : hi < u32_mod = omega (arith, ring.in_memory) in
      let aligned : hi % 4 ≡ 0 = omega (arith, ring.aligned) in
      record {
        next = omega (arith, ready.next);
        ahead =
            Holds-kept m.image (limit sector_count) _ _
              (refilled (2 * bank_sectors) hi (omega arith) (omega arith) (above, below, in_memory)
                aligned)
              _ _ _ (inr (omega arith))
              (Holds-part m.image (limit sector_count) _ _ _ _ _ _ _ ready.ahead (omega arith)
                (omega arith) (omega arith));
        wrapped =
            Holds-part m.image (limit sector_count) _ _ _ _ _ _ _
              (front (2 * bank_sectors) hi (omega arith) (omega arith) (above, below, in_memory)
                aligned (omega arith) (omega arith))
              (omega arith) (omega arith) (omega arith);
        quiet = λ more a p q h.
            quiet_after (2 * bank_sectors) hi (omega arith) (omega arith) (above, below, in_memory)
              aligned a (inr (omega arith));
      }

  -- The last bank, with or without the bank before it.
  pub Ready-end :
      (sectors : ℕ)
      → m.first ≤ lsn
      → lsn + sectors ≤ m.last
      → bank + 1 ≡ banks
      → sectors ≡ bank_sectors + lag bank bank_sectors
      → lag bank bank_sectors * 2048 ≤ span bank bank_sectors
      → (banks ≢ 1 → 4096 * bank_sectors + sectors * 2048 ≤ span banks bank_sectors)
      → Ready bank_sectors banks base m sector_count 0
          (lsn + sectors)
          (first + bank_sectors)
          (sent_up_to m sector_count d lsn sectors (base + span (bank + 1) bank_sectors))
  Ready-end sectors above below last e lagged apart =
      let none_waits : lag 0 bank_sectors ≡ 0 = lag-even 0 bank_sectors refl in
      let ends : span (bank + 1) bank_sectors ≡ span banks bank_sectors =
        ap (λ (b : ℕ). span b bank_sectors) last in
      let hi : ℕ = base + span (bank + 1) bank_sectors in
      let in_memory : hi < u32_mod = omega (arith, ring.in_memory) in
      let aligned : hi % 4 ≡ 0 = omega (arith, ring.aligned) in
      record {
        next = omega (arith, ready.next);
        ahead =
            Holds-part m.image (limit sector_count) _ _ _ _ _ _ _
              (front sectors hi (omega arith) (omega arith) (above, below, in_memory) aligned
                (omega arith) (omega arith))
              (omega arith) (omega arith) (omega arith);
        wrapped = λ a p q h. absurd (omega arith);
        quiet = λ more a p q h.
            quiet_after sectors hi (omega arith) (omega arith) (above, below, in_memory) aligned a
              (inl (omega (arith, apart more)));
      }
