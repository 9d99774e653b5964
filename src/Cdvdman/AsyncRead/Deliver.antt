-- ===== src/Cdvdman/AsyncRead/Deliver.antt =====
-- The transfer of AsyncRead.antt brings the sectors of a slice to their destination.
use mathlib.Core.Option
use ps2esdl.Prelude.{
  pos→nonzero, ℕ, zero, suc, ◌+◌, ◌-◌, ◌*◌, ◌%◌, ◌≤◌, ◌<◌, ◌≡◌, ◌⊎◌, inl, inr, ◌∙◌, refl, ap, none,
  some, ◌==◌, add32, sub32, mul32, u32_mod, arith, dec_lt, Bool-cases, Option, get_elem?, false,
}
use mathlib.Core.Path.{subst, subst₂}
use ps2esdl.Cdvdman.Drive.{ReadCommand}
use ps2esdl.Cdvdman.SectorIo.{ExtDevConf, Io, store_bytes, read_sector}
use ps2esdl.Cdvdman.SectorIo.Round.{IsUsable}
use ps2esdl.Cdvdman.SectorIo.Read.{advance, Fits, read_sector-Delivered}
use ps2esdl.Cdvdman.AsyncRead.{from_cache, cached_sectors, cached_round, cached_loop, transfer_iop}

store_in :
    (dest n : ℕ) (bytes mem : ℕ → ℕ) (a : ℕ)
    → dest ≤ a
    → a < dest + n
    → store_bytes dest n bytes mem a ≡ bytes (a - dest)
unfolding store_bytes
store_in dest n bytes mem a lo hi = ground arith

store_out :
    (dest n : ℕ) (bytes mem : ℕ → ℕ) (a : ℕ)
    → (a < dest) ⊎ (dest + n ≤ a)
    → store_bytes dest n bytes mem a ≡ mem a
unfolding store_bytes
store_out dest n bytes mem a out = ground arith

-- Slice `k` of the disc is on the device from its sector `part` on, and has `sectors_per_slice` sectors,
-- less than an address space of them, that the device can address.
pub record IsSlice (conf : ExtDevConf) (k part : ℕ) : Type 0 where
  pub at_part : get_elem? conf.part_lba k ≡ some part
  pub slice_u8 : k < 256
  pub last_u32 : (k + 1) * conf.sectors_per_slice < u32_mod
  pub bytes_u32 : part + 2048 * conf.sectors_per_slice < u32_mod

-- A byte of the disc, by its position, where it lies in the slice
abbrev pub slice_image : (ℕ → ℕ) → ExtDevConf → ℕ → ℕ → ℕ → ℕ
slice_image device conf k part pos =
    device (part * conf.sector_sz + (pos - 2048 * (k * conf.sectors_per_slice)))

at_start : (n : ℕ) (o : Option ℕ) → n < u32_mod → (o ≡ none) ⊎ (o ≡ some 0) → Fits n o
at_start n none h e = tt
at_start n (some m) h (inl e) = absurd (cc e)
at_start n (some m) h (inr e) = let zero_offset : m ≡ 0 = cc e in omega arith

module _ (device : ℕ → ℕ) {conf : ExtDevConf} {block k part : ℕ} (usable : IsUsable conf block)
    (slice : IsSlice conf k part) (cache size : ℕ) where
  abbrev image : ℕ → ℕ
  image = slice_image device conf k part

  -- The sectors of the slice
  abbrev InTheSlice : ℕ → ℕ → Type 0
  InTheSlice lsn sectors =
      (k * conf.sectors_per_slice ≤ lsn) × (lsn + sectors ≤ (k + 1) * conf.sectors_per_slice)

  -- `n` bytes of the disc from `pos` arrived at `dest`; nothing else changed but the cache.
  record IsArrived (mem mem' : ℕ → ℕ) (dest n pos : ℕ) : Type 0 where
    inside : (a : ℕ) → dest ≤ a → a < dest + n → mem' a ≡ image (pos + (a - dest))
    outside :
        (a : ℕ)
        → (a < dest) ⊎ (dest + n ≤ a)
        → (a < cache) ⊎ (cache + 2048 * size ≤ a)
        → mem' a ≡ mem a

  -- A read in the slice, straight to its destination, whatever becomes of the cache
  direct :
      (lsn sectors dest : ℕ) (io : Io)
      → InTheSlice lsn sectors
      → dest + 2048 * sectors < u32_mod
      → (io.buffer_offset ≡ none) ⊎ (io.buffer_offset ≡ some 0)
      → (io' : Io) × (read_sector device conf lsn sectors dest io ≡ some io')
        × ((a : ℕ)
            → dest ≤ a
            → a < dest + 2048 * sectors
            → io'.mem a ≡ image (2048 * lsn + (a - dest)))
        × ((a : ℕ) → (a < dest) ⊎ (dest + 2048 * sectors ≤ a) → io'.mem a ≡ io.mem a)
        × (io'.buffer_offset ≡ advance (2048 * sectors) io.buffer_offset)
  direct lsn sectors dest io (above, below) room offset =
      let r : ℕ = lsn - k * conf.sectors_per_slice in
      let (io', run, delivered) =
        read_sector-Delivered device usable {k = k} {r = r} {part = part} lsn sectors dest io
          (record {
            place = omega arith;
            fits = omega arith;
            slice_u8 = slice.slice_u8;
            lbn_u32 = omega (arith, slice.last_u32);
            left_u32 = omega (arith, slice.bytes_u32);
            lba_u32 = omega (arith, slice.bytes_u32);
          })
          slice.at_part room (at_start (2048 * sectors) io.buffer_offset (omega arith) offset) in
      (
        io',
        run,
        λ a lo hi. delivered.inside a lo hi ∙ ap device (omega arith),
        delivered.outside,
        delivered.offset,
      )

  cached_round-IsArrived :
      (lsn n dest : ℕ) (io : Io)
      → InTheSlice lsn n
      → n ≤ size
      → cache + 2048 * size < u32_mod
      → io.buffer_offset ≡ none
      → (io' : Io) × (cached_round device conf cache size lsn n dest io ≡ some io')
        × IsArrived io.mem io'.mem dest (2048 * n) (2048 * lsn)
        × (io'.buffer_offset ≡ none)
  unfolding cached_round from_cache
  cached_round-IsArrived lsn n dest io place fits in_memory no_offset =
      let (filled, run, within, around, offset) =
        direct lsn n cache io place (omega arith) (inl no_offset) in
      (
        from_cache device conf cache size n dest filled,
        ap (Option.map (from_cache device conf cache size n dest)) run,
        record {
          inside = λ a lo hi.
              store_in dest (2048 * n) (λ i. filled.mem (cache + i)) filled.mem a lo hi
              ∙ within (cache + (a - dest)) (omega arith) (omega arith)
              ∙ ap image (omega arith);
          outside = λ a out far.
              store_out dest (2048 * n) (λ i. filled.mem (cache + i)) filled.mem a out
              ∙ around a (beyond a far);
        },
        offset ∙ ap (advance (2048 * n)) no_offset,
      )
    where
      beyond :
          (a : ℕ) → (a < cache) ⊎ (cache + 2048 * size ≤ a) → (a < cache) ⊎ (cache + 2048 * n ≤ a)
      beyond a (inl h) = inl h
      beyond a (inr h) = inr (omega arith)

  -- The destination and the cache do not overlap.
  abbrev pub IsClear : ℕ → ℕ → Type 0
  IsClear dest n = (dest + n ≤ cache) ⊎ (cache + 2048 * size ≤ dest)

  IsArrived-append :
      {mem mem1 mem2 : ℕ → ℕ} (dest n m pos : ℕ)
      → IsClear dest (n + m)
      → IsArrived mem mem1 dest n pos
      → IsArrived mem1 mem2 (dest + n) m (pos + n)
      → IsArrived mem mem2 dest (n + m) pos
  IsArrived-append dest n m pos clear f g = record {
    inside = λ a lo hi. elim (dec_lt a (dest + n)) [
      | yes h ↦ g.outside a (inl h) (kept a lo hi clear) ∙ f.inside a lo h
      | no h ↦ g.inside a (omega arith) (omega arith) ∙ ap image (omega arith)
    ];
    outside = λ a out far. g.outside a (after a out) far ∙ f.outside a (before a out) far;
  }
    where
      kept :
          (a : ℕ)
          → dest ≤ a
          → a < dest + (n + m)
          → (dest + (n + m) ≤ cache) ⊎ (cache + 2048 * size ≤ dest)
          → (a < cache) ⊎ (cache + 2048 * size ≤ a)
      kept a lo hi (inl h) = inl (omega arith)
      kept a lo hi (inr h) = inr (omega arith)

      after : (a : ℕ) → (a < dest) ⊎ (dest + (n + m) ≤ a) → (a < dest + n) ⊎ (dest + n + m ≤ a)
      after a (inl h) = inl (omega arith)
      after a (inr h) = inr (omega arith)

      before : (a : ℕ) → (a < dest) ⊎ (dest + (n + m) ≤ a) → (a < dest) ⊎ (dest + n ≤ a)
      before a (inl h) = inl h
      before a (inr h) = inr (omega arith)

  cached_sectors_bounds :
      (sectors : ℕ)
      → 0 < size
      → 0 < sectors
      → let n = cached_sectors device conf cache size sectors in
        (0 < n) × (n ≤ sectors) × (n ≤ size)
  unfolding cached_sectors
  cached_sectors_bounds sectors some_cache more = ground arith

  cached_loop-zero :
      (fuel lsn destination offset : ℕ) (io : Io)
      → cached_loop device conf cache size fuel lsn 0 destination offset io ≡ some io
  unfolding cached_loop
  cached_loop-zero zero lsn destination offset io = refl
  cached_loop-zero (suc fuel) lsn destination offset io = refl

  cached_loop-suc :
      (fuel lsn sectors destination offset : ℕ) (io : Io) {lsn' sectors' offset' dest : ℕ}
      {io1 : Io}
      → let n = cached_sectors device conf cache size sectors in
        0 < sectors
        → add32 lsn n ≡ lsn'
        → sub32 sectors n ≡ sectors'
        → add32 offset (mul32 n 2048) ≡ offset'
        → add32 destination offset ≡ dest
        → cached_round device conf cache size lsn n dest io ≡ some io1
        → cached_loop device conf cache size (suc fuel) lsn sectors destination offset io
          ≡ cached_loop device conf cache size fuel lsn' sectors' destination offset' io1
  unfolding cached_loop
  cached_loop-suc fuel lsn sectors destination offset io more e1 e2 e3 e4 run =
      rw (pos→nonzero sectors more, e4, run, e1, e2, e3)

  IsArrived-eq :
      {mem mem' : ℕ → ℕ} (dest : ℕ) {n n' pos pos' : ℕ}
      → n ≡ n'
      → pos ≡ pos'
      → IsArrived mem mem' dest n pos
      → IsArrived mem mem' dest n' pos'
  IsArrived-eq {mem} {mem'} dest en ep f = subst₂ (λ m p. IsArrived mem mem' dest m p) en ep f

  cached_loop-IsArrived :
      (fuel lsn sectors destination offset : ℕ) (io : Io)
      → 0 < size
      → cache + 2048 * size < u32_mod
      → io.buffer_offset ≡ none
      → sectors ≤ fuel
      → InTheSlice lsn sectors
      → destination + offset + 2048 * sectors < u32_mod
      → IsClear (destination + offset) (2048 * sectors)
      → (io' : Io) × (cached_loop device conf cache size fuel lsn sectors destination offset io
          ≡ some io')
        × IsArrived io.mem io'.mem (destination + offset) (2048 * sectors) (2048 * lsn)
  cached_loop-IsArrived fuel lsn zero destination offset io some_cache in_memory no_offset enough
        place room clear =
      (
        io,
        cached_loop-zero fuel lsn destination offset io,
        record { inside = λ a lo hi. absurd (omega arith); outside = λ a out far. refl },
      )
  cached_loop-IsArrived zero lsn (suc more) destination offset io some_cache in_memory no_offset
        enough place room clear =
      absurd (omega arith)
  cached_loop-IsArrived (suc fuel) lsn (suc more) destination offset io some_cache in_memory
        no_offset enough (above, below) room clear =
      let sectors : ℕ = suc more in
      let n : ℕ = cached_sectors device conf cache size sectors in
      let (pos, le, fits) = cached_sectors_bounds sectors some_cache (omega arith) in
      let dest : ℕ = destination + offset in
      let (io1, first_run, first, no_offset1) =
        cached_round-IsArrived lsn n dest io (omega arith, omega arith) fits in_memory no_offset in
      let (io', run, rest) =
        cached_loop-IsArrived fuel (lsn + n) (sectors - n) destination (offset + 2048 * n) io1
          some_cache in_memory no_offset1 (omega arith) (omega arith, omega arith) (omega arith)
          (later destination offset n sectors clear le) in
      (
        io',
        cached_loop-suc fuel lsn sectors destination offset io {lsn' = lsn + n}
              {sectors' = sectors - n} {offset' = offset + 2048 * n} {dest = dest} (omega arith)
              (omega (arith, slice.last_u32)) (omega arith) (omega arith) (omega arith) first_run
            ∙ run,
        IsArrived-eq dest {n = 2048 * n + 2048 * (sectors - n)} (omega arith) refl (
            IsArrived-append dest (2048 * n) (2048 * (sectors - n)) (2048 * lsn)
              (whole dest n sectors clear le) first
              (subst₂ (λ b p. IsArrived io1.mem io'.mem b (2048 * (sectors - n)) p)
                {y = dest + 2048 * n} (omega arith) (omega arith) rest)),
      )
    where
      later :
          (d o n s : ℕ)
          → IsClear (d + o) (2048 * s)
          → n ≤ s
          → IsClear (d + (o + 2048 * n)) (2048 * (s - n))
      later d o n s (inl h) le = inl (omega arith)
      later d o n s (inr h) le = inr (omega arith)

      whole : (d n s : ℕ) → IsClear d (2048 * s) → n ≤ s → IsClear d (2048 * n + 2048 * (s - n))
      whole d n s (inl h) le = inl (omega arith)
      whole d n s (inr h) le = inr h

  -- What a transfer leaves in memory
  pub record IsTransferred (r : ReadCommand) (mem mem' : ℕ → ℕ) : Type 0 where
    pub within :
        (a : ℕ)
        → r.buffer ≤ a
        → a < r.buffer + 2048 * r.sectors
        → mem' a ≡ slice_image device conf k part (2048 * r.lsn + (a - r.buffer))
    pub around :
        (a : ℕ)
        → (a < r.buffer) ⊎ (r.buffer + 2048 * r.sectors ≤ a)
        → (r.buffer % 4 ≡ 0) ⊎ ((a < cache) ⊎ (cache + 2048 * size ≤ a))
        → mem' a ≡ mem a

  -- A read of sectors of one slice to a destination in the address space, which is aligned to 4 bytes or
  -- apart from the cache: async_read ends, and the destination holds the bytes of these sectors.
  -- Nothing else in memory changes, but the cache where the destination is not aligned. The cache has
  -- room for a sector.
  pub transfer_iop-IsTransferred :
      (r : ReadCommand) (io : Io)
      → 0 < size
      → cache + 2048 * size < u32_mod
      → k * conf.sectors_per_slice ≤ r.lsn
      → r.lsn + r.sectors ≤ (k + 1) * conf.sectors_per_slice
      → r.buffer + 2048 * r.sectors < u32_mod
      → (r.buffer % 4 ≡ 0)
        ⊎ ((r.buffer + 2048 * r.sectors ≤ cache) ⊎ (cache + 2048 * size ≤ r.buffer))
      → (io' : Io) × (transfer_iop device conf cache size r.lsn r.sectors r.buffer io ≡ some io')
        × IsTransferred r io.mem io'.mem
  unfolding transfer_iop
  transfer_iop-IsTransferred r io some_cache in_memory above below room safe =
      elim (Bool-cases (r.buffer % 4 == 0)) [
        | inl aligned ↦
            let (io', run, within, around, offset) =
              direct r.lsn r.sectors r.buffer (record io { buffer_offset = some 0 }) (above, below)
                room (inr refl) in
            rw aligned (io', run, record { within = within; around = λ a out spared. around a out })
        | inr unaligned ↦
            let (io', run, arrived) =
              cached_loop-IsArrived r.sectors r.lsn r.sectors r.buffer 0
                (record io { buffer_offset = none }) some_cache in_memory refl (omega arith)
                (above, below) (omega arith) (at_zero unaligned safe) in
            let moved : IsArrived io.mem io'.mem r.buffer (2048 * r.sectors) (2048 * r.lsn) =
              subst (λ b. IsArrived io.mem io'.mem b (2048 * r.sectors) (2048 * r.lsn))
                (omega arith) arrived in
            rw unaligned (
              io',
              run,
              record {
                within = moved.inside;
                around = λ a out spared. moved.outside a out (not_aligned a unaligned spared);
              },
            )
      ]
    where
      at_zero :
          (r.buffer % 4 == 0) ≡ false
          → (r.buffer % 4 ≡ 0)
            ⊎ ((r.buffer + 2048 * r.sectors ≤ cache) ⊎ (cache + 2048 * size ≤ r.buffer))
          → IsClear (r.buffer + 0) (2048 * r.sectors)
      at_zero e (inl h) = absurd (ground arith)
      at_zero e (inr (inl h)) = inl (omega arith)
      at_zero e (inr (inr h)) = inr (omega arith)

      not_aligned :
          (a : ℕ)
          → (r.buffer % 4 == 0) ≡ false
          → (r.buffer % 4 ≡ 0) ⊎ ((a < cache) ⊎ (cache + 2048 * size ≤ a))
          → (a < cache) ⊎ (cache + 2048 * size ≤ a)
      not_aligned a e (inl h) = absurd (ground arith)
      not_aligned a e (inr h) = h
