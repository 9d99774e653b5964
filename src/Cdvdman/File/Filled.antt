-- ===== src/Cdvdman/File/Filled.antt =====
-- The parts of a read of File.antt: what memory holds after each, and in sequence.
use ps2esdl.Prelude.{
  ℕ, zero, suc, ◌+◌, ◌-◌, ◌*◌, ◌≤◌, ◌<◌, ◌≡◌, ◌⊎◌, inl, inr, ◌∙◌, refl, ap, none, u32_mod, arith,
  dec_lt,
}
use mathlib.Core.Path.{subst₂}
use ps2esdl.Cdvdman.Drive.{Medium, Drive, complete, cd_sync, read_no_cb}
use ps2esdl.Cdvdman.Drive.Delivery.{settled, sent_in, sent_out}
use ps2esdl.Cdvdman.File.{copy_bytes, read_wait}

-- A destination of `n` bytes does not overlap the static buffer.
abbrev pub IsApart : ℕ → ℕ → ℕ → Type 0
IsApart sectorbuf buffer n = (buffer + n ≤ sectorbuf) ⊎ (sectorbuf + 2048 ≤ buffer)

pub IsApart-le :
    {sectorbuf : ℕ} (m n buffer : ℕ)
    → IsApart sectorbuf buffer n
    → m ≤ n
    → IsApart sectorbuf buffer m
IsApart-le m n buffer (inl h) le = inl (omega arith)
IsApart-le m n buffer (inr h) le = inr h

-- A destination does not overlap the cache.
abbrev pub IsClear : Medium → ℕ → ℕ → Type 0
IsClear medium buffer n = (buffer + n ≤ medium.cache_lo) ⊎ (medium.cache_hi ≤ buffer)

-- The sectors are on the disc, and where a read brings them whole; the destination is in memory.
abbrev pub IsWhole : Medium → ℕ → ℕ → ℕ → ℕ → Type 0
IsWhole medium sector_count lsn sectors buffer =
    (lsn ≤ sector_count)
    × (medium.first ≤ lsn)
    × (lsn + sectors ≤ medium.last)
    × (buffer + 2048 * sectors < u32_mod)

pub IsClear-part :
    (medium : Medium) (buffer n from size : ℕ)
    → IsClear medium buffer n
    → from + size ≤ n
    → IsClear medium (buffer + from) size
IsClear-part medium buffer n from size (inl h) le = inl (omega arith)
IsClear-part medium buffer n from size (inr h) le = inr (omega arith)

module _ (medium : Medium) (sector_count : ℕ) (sectorbuf : ℕ) where
  -- `n` bytes of the disc from position `pos` arrived at `buffer`, nothing else changed but the static
  -- buffer and the cache, and nothing is in flight.
  pub record IsFilled (d d' : Drive) (buffer n pos : ℕ) : Type 0 where
    pub inside :
        (a : ℕ)
        → buffer ≤ a
        → a < buffer + n
        → settled medium sector_count d' a ≡ medium.image (pos + (a - buffer))
    pub outside :
        (a : ℕ)
        → (a < buffer) ⊎ (buffer + n ≤ a)
        → (a < sectorbuf) ⊎ (sectorbuf + 2048 ≤ a)
        → (a < medium.cache_lo) ⊎ (medium.cache_hi ≤ a)
        → settled medium sector_count d' a ≡ settled medium sector_count d a
    pub quiet : 0 < n → d'.pending ≡ none

  idle_complete : (d : Drive) → d.pending ≡ none → complete medium sector_count d ≡ d
  unfolding complete
  idle_complete d e = rw e

  pub settled_idle :
      (d : Drive) (a : ℕ) → d.pending ≡ none → settled medium sector_count d a ≡ d.mem a
  settled_idle d a e = ap (λ (x : Drive). x.mem a) (idle_complete d e)

  pub waited :
      (lsn sectors buffer : ℕ) (d : Drive)
      → (read_wait medium sector_count sectorbuf lsn sectors buffer d).pending ≡ none
  unfolding read_wait cd_sync complete read_no_cb
  waited lsn sectors buffer d = ground arith

  module _ (lsn sectors buffer : ℕ) (d : Drive)
      (whole : IsWhole medium sector_count lsn sectors buffer)
      (clear : IsClear medium buffer (2048 * sectors)) where
    wait_in :
        (a : ℕ)
        → buffer ≤ a
        → a < buffer + 2048 * sectors
        → (read_wait medium sector_count sectorbuf lsn sectors buffer d).mem a
          ≡ medium.image (2048 * lsn + (a - buffer))
    unfolding read_wait cd_sync
    wait_in a lo hi =
        sent_in medium sector_count d lsn sectors buffer a whole.0 (whole.1, whole.2, whole.3)
          (inr clear) lo hi

    wait_out :
        (a : ℕ)
        → (a < buffer) ⊎ (buffer + 2048 * sectors ≤ a)
        → (a < medium.cache_lo) ⊎ (medium.cache_hi ≤ a)
        → (read_wait medium sector_count sectorbuf lsn sectors buffer d).mem a
          ≡ settled medium sector_count d a
    unfolding read_wait cd_sync
    wait_out a out spared =
        sent_out medium sector_count d lsn sectors buffer a (whole.1, whole.2, whole.3) (inr clear)
          out (inr spared)

    -- Whole sectors, straight to the destination.
    pub direct-IsFilled :
        IsFilled d
          (read_wait medium sector_count sectorbuf lsn sectors buffer d)
          buffer
          (2048 * sectors)
          (2048 * lsn)
    direct-IsFilled =
        let d1 : Drive = read_wait medium sector_count sectorbuf lsn sectors buffer d in
        record {
          inside = λ a lo hi. settled_idle d1 a (waited lsn sectors buffer d) ∙ wait_in a lo hi;
          outside = λ a out far spared.
              settled_idle d1 a (waited lsn sectors buffer d) ∙ wait_out a out spared;
          quiet = λ more. waited lsn sectors buffer d;
        }

  copied_in :
      (dest src n : ℕ) (d : Drive) (a : ℕ)
      → dest ≤ a
      → a < dest + n
      → (copy_bytes dest src n d).mem a ≡ d.mem (src + (a - dest))
  unfolding copy_bytes
  copied_in dest src n d a lo hi = ground arith

  copied_out :
      (dest src n : ℕ) (d : Drive) (a : ℕ)
      → (a < dest) ⊎ (dest + n ≤ a)
      → (copy_bytes dest src n d).mem a ≡ d.mem a
  unfolding copy_bytes
  copied_out dest src n d a out = ground arith

  copied_pending : (dest src n : ℕ) (d : Drive) → (copy_bytes dest src n d).pending ≡ d.pending
  unfolding copy_bytes
  copied_pending dest src n d = refl

  -- Part of one sector, through the static buffer.
  pub copied-IsFilled :
      (lsn offset n buffer : ℕ) (d : Drive)
      → IsWhole medium sector_count lsn 1 sectorbuf
      → IsClear medium sectorbuf 2048
      → offset + n ≤ 2048
      → IsFilled d
          (copy_bytes buffer
            (sectorbuf + offset)
            n
            (read_wait medium sector_count sectorbuf lsn 1 sectorbuf d))
          buffer
          n
          (2048 * lsn + offset)
  copied-IsFilled lsn offset n buffer d whole clear fits =
      let d1 : Drive = read_wait medium sector_count sectorbuf lsn 1 sectorbuf d in
      let d2 : Drive = copy_bytes buffer (sectorbuf + offset) n d1 in
      let none2 = copied_pending buffer (sectorbuf + offset) n d1 ∙ waited lsn 1 sectorbuf d in
      record {
        inside = λ a lo hi.
            settled_idle d2 a none2
            ∙ copied_in buffer (sectorbuf + offset) n d1 a lo hi
            ∙ wait_in lsn 1 sectorbuf d whole clear (sectorbuf + offset + (a - buffer))
                (omega arith) (omega arith)
            ∙ ap medium.image (omega arith);
        outside = λ a out far spared.
            settled_idle d2 a none2
            ∙ copied_out buffer (sectorbuf + offset) n d1 a out
            ∙ wait_out lsn 1 sectorbuf d whole clear a far spared;
        quiet = λ more. none2;
      }

  pub IsFilled-none : (d : Drive) (buffer pos : ℕ) → IsFilled d d buffer 0 pos
  IsFilled-none d buffer pos = record {
    inside = λ a lo hi. absurd (omega arith);
    outside = λ a out far spared. refl;
    quiet = λ more. absurd (omega arith);
  }

  -- Where nothing arrived, the place does not matter.
  pub IsFilled-empty :
      {d d' : Drive} {buffer buffer' pos pos' : ℕ}
      → IsFilled d d' buffer 0 pos
      → IsFilled d d' buffer' 0 pos'
  IsFilled-empty {buffer} f = record {
    inside = λ a lo hi. absurd (omega arith);
    outside = λ a out far spared. f.outside a (around a) far spared;
    quiet = λ more. absurd (omega arith);
  }
    where
      around : (a : ℕ) → (a < buffer) ⊎ (buffer + 0 ≤ a)
      around a = elim (dec_lt a buffer) [ yes h ↦ inl h | no h ↦ inr (omega arith) ]

  pub IsFilled-eq :
      {d d' : Drive} (buffer : ℕ) {n n' pos pos' : ℕ}
      → n ≡ n'
      → pos ≡ pos'
      → IsFilled d d' buffer n pos
      → IsFilled d d' buffer n' pos'
  IsFilled-eq {d} {d'} buffer en ep f = subst₂ (λ m p. IsFilled d d' buffer m p) en ep f

  pub IsFilled-append :
      {d d1 d2 : Drive} (buffer n m pos : ℕ)
      → IsApart sectorbuf buffer n
      → IsClear medium buffer n
      → (m ≡ 0 → d2.pending ≡ d1.pending)
      → IsFilled d d1 buffer n pos
      → IsFilled d1 d2 (buffer + n) m (pos + n)
      → IsFilled d d2 buffer (n + m) pos
  IsFilled-append {d} {d1} {d2} buffer n m pos apart clear same f g = record {
    inside = λ a lo hi. elim (dec_lt a (buffer + n)) [
      | yes h ↦ g.outside a (inl h) (kept a lo h apart) (unused a lo h clear) ∙ f.inside a lo h
      | no h ↦ g.inside a (omega arith) (omega arith) ∙ ap medium.image (omega arith)
    ];
    outside = λ a out far spared.
        g.outside a (after a out) far spared ∙ f.outside a (before a out) far spared;
    quiet = λ more. last m same f g more;
  }
    where
      kept :
          (a : ℕ)
          → buffer ≤ a
          → a < buffer + n
          → IsApart sectorbuf buffer n
          → (a < sectorbuf) ⊎ (sectorbuf + 2048 ≤ a)
      kept a lo hi (inl h) = inl (omega arith)
      kept a lo hi (inr h) = inr (omega arith)

      unused :
          (a : ℕ)
          → buffer ≤ a
          → a < buffer + n
          → IsClear medium buffer n
          → (a < medium.cache_lo) ⊎ (medium.cache_hi ≤ a)
      unused a lo hi (inl h) = inl (omega arith)
      unused a lo hi (inr h) = inr (omega arith)

      after :
          (a : ℕ) → (a < buffer) ⊎ (buffer + (n + m) ≤ a) → (a < buffer + n) ⊎ (buffer + n + m ≤ a)
      after a (inl h) = inl (omega arith)
      after a (inr h) = inr (omega arith)

      before : (a : ℕ) → (a < buffer) ⊎ (buffer + (n + m) ≤ a) → (a < buffer) ⊎ (buffer + n ≤ a)
      before a (inl h) = inl h
      before a (inr h) = inr (omega arith)

      last :
          (m : ℕ)
          → (m ≡ 0 → d2.pending ≡ d1.pending)
          → IsFilled d d1 buffer n pos
          → IsFilled d1 d2 (buffer + n) m (pos + n)
          → 0 < n + m
          → d2.pending ≡ none
      last zero same f g more = same refl ∙ f.quiet (omega arith)
      last (suc k) same f g more = g.quiet (omega arith)
