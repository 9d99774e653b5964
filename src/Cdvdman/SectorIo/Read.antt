-- ===== src/Cdvdman/SectorIo/Read.antt =====
-- `read_sector` of SectorIo.antt as a whole, for a request that stays in one slice.
use ps2esdl.Prelude.{
  pos→nonzero, ℕ, zero, suc, ◌+◌, ◌-◌, ◌*◌, ◌≤◌, ◌<◌, ◌≡◌, ◌⊎◌, inl, inr, ◌∙◌, refl, ap, false,
  none, some, ltb, u32_mod, sub32, add32, arith, Option, get_elem?, dec_lt,
}
use mathlib.Core.Path.{subst, subst₂}
use ps2esdl.Cdvdman.SectorIo.{
  ExtDevConf, Io, bytes_to_read, sectors_to_read, slice_of, transfer, sector_loop, read_sector,
}
use ps2esdl.Cdvdman.SectorIo.Round.{
  IsUsable, InSlice, sectors_to_read_bounds, slice_of-eq, disk_sectors-eq, disk_lba-eq,
}

abbrev pub advance : ℕ → Option ℕ → Option ℕ
advance n none = none
advance n (some m) = some (m + n)

abbrev pub Fits : ℕ → Option ℕ → Type 0
Fits n none = Unit {0}
Fits n (some m) = m + n < u32_mod

-- `n` bytes of the device from position `src` were stored at `buffer`, and nothing else.
pub record Delivered (device : ℕ → ℕ) (io io' : Io) (buffer n src : ℕ) : Type 0 where
  pub inside : (a : ℕ) → buffer ≤ a → a < buffer + n → io'.mem a ≡ device (src + (a - buffer))
  pub outside : (a : ℕ) → (a < buffer) ⊎ (buffer + n ≤ a) → io'.mem a ≡ io.mem a
  pub offset : io'.buffer_offset ≡ advance n io.buffer_offset

advance_zero : (o : Option ℕ) → o ≡ advance 0 o
advance_zero none = refl
advance_zero (some m) = ap some (omega arith)

advance_add : (n m : ℕ) (o : Option ℕ) → advance m (advance n o) ≡ advance (n + m) o
advance_add n m none = refl
advance_add n m (some k) = ap some (omega arith)

Fits-advance : (n m : ℕ) (o : Option ℕ) → Fits (n + m) o → Fits m (advance n o)
Fits-advance n m none h = tt
Fits-advance n m (some k) h = omega arith

added :
    (bytes n m : ℕ) (o : Option ℕ)
    → bytes ≡ n
    → Fits m o
    → n ≤ m
    → (elim o as (λ _. Option ℕ) [ none ↦ none | some k ↦ some (add32 k bytes) ]) ≡ advance n o
added bytes n m none e fits le = refl
added bytes n m (some k) e fits le = ap some (omega arith)

Delivered-none : (device : ℕ → ℕ) (io : Io) (buffer src : ℕ) → Delivered device io io buffer 0 src
Delivered-none device io buffer src = record {
  inside = λ a p q. absurd (omega arith);
  outside = λ a out. refl;
  offset = advance_zero io.buffer_offset;
}

Delivered-eq :
    (device : ℕ → ℕ) {io io' : Io} (buffer : ℕ) {n n' src src' : ℕ}
    → n ≡ n'
    → src ≡ src'
    → Delivered device io io' buffer n src
    → Delivered device io io' buffer n' src'
Delivered-eq device {io} {io'} buffer en es d =
    subst₂ (λ m s. Delivered device io io' buffer m s) en es d

Delivered-append :
    (device : ℕ → ℕ) {io io1 io2 : Io} (buffer n m src : ℕ)
    → Delivered device io io1 buffer n src
    → Delivered device io1 io2 (buffer + n) m (src + n)
    → Delivered device io io2 buffer (n + m) src
Delivered-append device {io} {io1} {io2} buffer n m src d e = record {
  inside = λ a p q. elim (dec_lt a (buffer + n)) [
    | yes h ↦ e.outside a (inl h) ∙ d.inside a p h
    | no h ↦ e.inside a (omega arith) (omega arith) ∙ ap device (omega arith)
  ];
  outside = λ a out. e.outside a (far a out) ∙ d.outside a (near a out);
  offset = e.offset ∙ ap (advance m) d.offset ∙ advance_add n m io.buffer_offset;
}
  where
    far : (a : ℕ) → (a < buffer) ⊎ (buffer + (n + m) ≤ a) → (a < buffer + n) ⊎ (buffer + n + m ≤ a)
    far a (inl h) = inl (omega arith)
    far a (inr h) = inr (omega arith)

    near : (a : ℕ) → (a < buffer) ⊎ (buffer + (n + m) ≤ a) → (a < buffer) ⊎ (buffer + n ≤ a)
    near a (inl h) = inl h
    near a (inr h) = inr (omega arith)

module _ (device : ℕ → ℕ) (conf : ExtDevConf) where
  pub sector_loop-zero :
      (fuel lbn buffer : ℕ) (io : Io) → sector_loop device conf fuel lbn 0 buffer io ≡ some io
  unfolding sector_loop
  sector_loop-zero zero lbn buffer io = refl
  sector_loop-zero (suc fuel) lbn buffer io = refl

  pub sector_loop-suc :
      (fuel lbn left buffer part : ℕ) (io : Io) {lbn' left' buffer' : ℕ}
      → 0 < left
      → 0 < conf.sector_sz
      → 0 < conf.sectors_per_slice
      → get_elem? conf.part_lba (slice_of conf lbn) ≡ some part
      → add32 lbn (sectors_to_read conf left) ≡ lbn'
      → sub32 left (sectors_to_read conf left) ≡ left'
      → add32 buffer (bytes_to_read conf left) ≡ buffer'
      → sector_loop device conf (suc fuel) lbn left buffer io
        ≡ sector_loop device conf fuel lbn' left' buffer'
            (transfer device conf lbn left buffer part io)
  unfolding sector_loop
  sector_loop-suc fuel lbn left buffer part io more size slices at_part e1 e2 e3 = rw (
    pos→nonzero left more,
    pos→nonzero conf.sector_sz size,
    pos→nonzero conf.sectors_per_slice slices,
    at_part,
    e1,
    e2,
    e3,
  )

module _ (device : ℕ → ℕ) {conf : ExtDevConf} {block : ℕ} (usable : IsUsable conf block) where
  pub size_bounds : (0 < conf.sector_sz) × (conf.sector_sz ≤ 2048)
  size_bounds = omega (arith, usable.sector_size)

  -- One round delivers the disc sectors that it asks for.
  transfer-Delivered :
      {k r part lbn left : ℕ} (buffer : ℕ) (io : Io)
      → InSlice conf k r part lbn left
      → 0 < left
      → Fits (2048 * left) io.buffer_offset
      → Delivered device io
          (transfer device conf lbn left buffer part io)
          buffer
          (2048 * sectors_to_read conf left)
          (part * conf.sector_sz + 2048 * r)
  unfolding transfer
  transfer-Delivered {k} {r} {part} {lbn} {left} buffer io place more fits =
      let (pos, le, small, bytes) =
        sectors_to_read_bounds usable left more (omega (arith, place.left_u32)) in
      let whole : ltb (2048 * sectors_to_read conf left) conf.sector_sz ≡ false =
        ground (arith, size_bounds) in
      rw (bytes, whole, disk_sectors-eq usable place more)
        (record {
          inside = λ a p q. ground (arith, disk_lba-eq usable place more);
          outside = λ a out. ground arith;
          offset =
              added (bytes_to_read conf left) (2048 * sectors_to_read conf left) (2048 * left)
                io.buffer_offset bytes fits (omega arith);
        })

  -- The loop delivers what is left of the request.
  sector_loop-Delivered :
      (fuel : ℕ) {k r part : ℕ} (lbn left buffer : ℕ) (io : Io)
      → left ≤ fuel
      → InSlice conf k r part lbn left
      → get_elem? conf.part_lba k ≡ some part
      → buffer + 2048 * left < u32_mod
      → Fits (2048 * left) io.buffer_offset
      → (io' : Io) × (sector_loop device conf fuel lbn left buffer io ≡ some io')
        × Delivered device io io' buffer (2048 * left) (part * conf.sector_sz + 2048 * r)
  sector_loop-Delivered zero {k} {r} {part} lbn left buffer io enough place at_part room fits =
      let e : left ≡ 0 = omega arith in
      rw e (io, sector_loop-zero device conf zero lbn buffer io, Delivered-none device io buffer _)
  sector_loop-Delivered (suc fuel) lbn zero buffer io enough place at_part room fits =
      (io, sector_loop-zero device conf (suc fuel) lbn buffer io, Delivered-none device io buffer _)
  sector_loop-Delivered (suc fuel) {k} {r} {part} lbn (suc more) buffer io enough place at_part room
        fits =
      let left : ℕ = suc more in
      let (pos, le, small, bytes) =
        sectors_to_read_bounds usable left (omega arith) (omega (arith, place.left_u32)) in
      let n : ℕ = sectors_to_read conf left in
      let io1 : Io = transfer device conf lbn left buffer part io in
      let first = transfer-Delivered buffer io place (omega arith) fits in
      let (io', run, rest) =
        sector_loop-Delivered fuel {k = k} {r = r + n} {part = part} (lbn + n) (left - n)
          (buffer + 2048 * n) io1 (omega arith)
          (record {
            place = omega (arith, place.place);
            fits = omega (arith, place.fits);
            slice_u8 = place.slice_u8;
            lbn_u32 = omega (arith, place.lbn_u32);
            left_u32 = omega (arith, place.left_u32);
            lba_u32 = omega (arith, place.lba_u32);
          })
          at_part (omega arith)
          (rw first.offset (
            Fits-advance (2048 * n) (2048 * (left - n)) io.buffer_offset
              (subst (λ m. Fits m io.buffer_offset) (omega arith) fits))) in
      (
        io',
        sector_loop-suc device conf fuel lbn left buffer part io (omega arith) size_bounds.0
              (omega (arith, place.fits)) (rw (slice_of-eq usable place (omega arith)) at_part)
              (omega arith) (omega arith) (omega arith)
            ∙ run,
        Delivered-eq device buffer (omega arith) refl (
            Delivered-append device buffer (2048 * n) (2048 * (left - n))
              (part * conf.sector_sz + 2048 * r) first
              (Delivered-eq device (buffer + 2048 * n) refl (omega arith) rest)),
      )

  -- A request that stays inside one slice: read_sector ends, and stores the bytes that the slice holds
  -- for disc sectors `lbn` up to `lbn + sectors` at `buffer`, and nothing else; the offset that it
  -- reports, where it is asked to, grows by as many bytes. The device's sectors have 512, 1024 or 2048
  -- bytes, a transfer is 1 to 31 disc sectors, and neither sector numbers nor addresses wrap.
  pub read_sector-Delivered :
      {k r part : ℕ} (lbn sectors buffer : ℕ) (io : Io)
      → InSlice conf k r part lbn sectors
      → get_elem? conf.part_lba k ≡ some part
      → buffer + 2048 * sectors < u32_mod
      → Fits (2048 * sectors) io.buffer_offset
      → (io' : Io) × (read_sector device conf lbn sectors buffer io ≡ some io')
        × Delivered device io io' buffer (2048 * sectors) (part * conf.sector_sz + 2048 * r)
  unfolding read_sector
  read_sector-Delivered lbn sectors buffer io place at_part room fits =
      sector_loop-Delivered sectors lbn sectors buffer io (omega arith) place at_part room fits
