-- ===== src/Cdvdman/Stream/Reads.antt =====
-- sceCdStStart and sceCdStRead as a whole: a stream returns the sectors of the disc in order.
use ps2esdl.Prelude.{
  ℕ, zero, suc, ◌+◌, ◌-◌, ◌*◌, ◌≤◌, ◌<◌, ◌≡◌, ◌∙◌, refl, ap, sym, ◌==◌, arith, Bool, false, List,
  [], ◌++◌, Option, some, table, table-add, sub32,
}
use mathlib.Core.Path.{subst}
use ps2esdl.Cdvdman.Drive.{Medium}
use ps2esdl.Cdvdman.Stream.{
  Stream, round_sectors, round_sync, round_bytes, round_end, read_loop, cd_st_read,
}
use ps2esdl.Cdvdman.Stream.Inv.{IsRing}
use ps2esdl.Cdvdman.Stream.Round.{At, round-At}

module _ (m : Medium) (sector_count : ℕ) where
  read_loop-zero :
      (sched : ℕ → ℕ → Bool) (k : ℕ) (s : Stream)
      → read_loop m sector_count sched k 0 s ≡ some ([], s)
  unfolding read_loop
  read_loop-zero sched zero s = refl
  read_loop-zero sched (suc k) s = refl

  -- A round of the loop, once the rounds after it are known.
  read_loop-suc :
      (sched : ℕ → ℕ → Bool) (k left : ℕ) (s : Stream) {s' : Stream} {rest : List ℕ}
      → 0 < left
      → read_loop m sector_count sched k
          (sub32 left (round_sectors s left))
          (round_end m sector_count (round_sectors s left) (round_sync m sector_count s))
        ≡ some (rest, s')
      → read_loop m sector_count sched (suc k) left s
        ≡ some (
          round_bytes m sector_count (sched k) (round_sectors s left) (round_sync m sector_count s)
              ++ rest,
          s',
        )
  unfolding read_loop
  read_loop-suc sched k left s more run = rw (positive left more, run)
    where
      positive : (n : ℕ) → 0 < n → (n == 0) ≡ false
      positive n h = ground arith

abbrev returned : Stream → List ℕ → Option (List ℕ × Stream)
returned s bytes = some (bytes, s)

joined :
    (image : ℕ → ℕ) (pos left taken : ℕ) {fewer : ℕ} {bytes : List ℕ}
    → fewer ≡ left - taken
    → taken ≤ left
    → bytes ≡ table image (2048 * pos) (2048 * taken)
    → bytes ++ table image (2048 * (pos + taken)) (2048 * fewer)
      ≡ table image (2048 * pos) (2048 * left)
joined image pos left taken {fewer} e le b = rw b (
    ap (λ i. table image (2048 * pos) (2048 * taken) ++ table image i (2048 * fewer)) (omega arith)
    ∙ sym (table-add image (2048 * pos) (2048 * taken) (2048 * fewer))
    ∙ ap (table image (2048 * pos)) (omega arith))

module _ (bank_sectors banks base : ℕ) (m : Medium) (sector_count : ℕ)
    (ring : IsRing bank_sectors banks base) where
  abbrev Reader : Stream → ℕ → Type 0
  Reader = At bank_sectors banks base m sector_count

  -- The loop returns the sectors asked for, and leaves the reader behind them.
  read_loop-At :
      (sched : ℕ → ℕ → Bool) (k left : ℕ) (s : Stream) (pos : ℕ)
      → Reader s pos
      → left ≤ k
      → pos + left ≤ sector_count + 1
      → pos + left + 2 * (banks * bank_sectors) ≤ m.last
      → (s' : Stream) × (read_loop m sector_count sched k left s
          ≡ some (table m.image (2048 * pos) (2048 * left), s'))
        × Reader s' (pos + left)
  read_loop-At sched zero left s pos at enough on_disc room =
      let e : left ≡ 0 = omega arith in
      rw e (s, read_loop-zero m sector_count sched zero s, subst (Reader s) (omega arith) at)
  read_loop-At sched (suc k) zero s pos at enough on_disc room =
      (s, read_loop-zero m sector_count sched (suc k) s, subst (Reader s) (omega arith) at)
  read_loop-At sched (suc k) (suc more) s pos at enough on_disc room =
      let step =
        round-At bank_sectors banks base m sector_count ring (sched k) s pos (suc more) at
          (omega arith) on_disc (omega arith) in
      let taken : ℕ = round_sectors s (suc more) in
      let fewer : sub32 (suc more) taken ≡ suc more - taken = omega arith in
      let (s', run, at') =
        read_loop-At sched k (sub32 (suc more) taken)
          (round_end m sector_count taken (round_sync m sector_count s)) (pos + taken) step.3
          (omega arith) (omega arith) (omega arith) in
      (
        s',
        read_loop-suc m sector_count sched k (suc more) s {s' = s'} (omega arith) run
            ∙ ap (returned s') (joined m.image pos (suc more) taken fewer step.1 step.2),
        subst (Reader s') (omega arith) at',
      )

  -- `sceCdStRead` returns the next sectors of the disc, and leaves the reader behind them.
  pub cd_st_read-At :
      (sched : ℕ → ℕ → Bool) (sectors : ℕ) (s : Stream) (pos : ℕ)
      → Reader s pos
      → pos + sectors ≤ sector_count + 1
      → pos + sectors + 2 * (banks * bank_sectors) ≤ m.last
      → (s' : Stream) × (cd_st_read m sector_count sched sectors s
          ≡ some (s.drive.cd_error, table m.image (2048 * pos) (2048 * sectors), s'))
        × Reader s' (pos + sectors)
  unfolding cd_st_read
  cd_st_read-At sched sectors s pos at on_disc room =
      let (s', run, at') = read_loop-At sched sectors sectors s pos at (omega arith) on_disc room in
      (s', rw (run, cd_st_read), at')
