-- ===== src/Cdvdman/Drive/Delivery.antt =====
-- Drive.antt: what memory holds while a read is in flight, and once it has arrived.
use ps2esdl.Prelude.{
  ℕ, ◌+◌, ◌-◌, ◌*◌, ◌≤◌, ◌<◌, ◌≡◌, refl, ◌⊎◌, inl, inr, Bool, arith, ltb, Bool-cases, le→ltb,
}
use ps2esdl.Cdvdman.Drive.{
  ReadCommand, Medium, IsInside, IsSafe, IsSpared, Drive, is_lsn_valid, complete, cd_sync,
  read_no_cb, view,
}

module _ (m : Medium) (sector_count : ℕ) where
  -- Memory as it is when nothing is in flight any more.
  abbrev pub settled : Drive → ℕ → ℕ
  settled d a = (complete m sector_count d).mem a

  pub view_quiet :
      (arrived : ℕ → Bool) (d : Drive) (a : ℕ)
      → d.mem a ≡ settled d a
      → view m sector_count arrived d a ≡ settled d a
  unfolding view
  view_quiet arrived d a q = ground arith

  pub complete_twice :
      (d : Drive) → complete m sector_count (complete m sector_count d) ≡ complete m sector_count d
  unfolding complete
  complete_twice d = ground arith

  module _ (d : Drive) (lsn sectors buffer a : ℕ) where
    abbrev sent : Drive
    sent = read_no_cb m sector_count lsn sectors buffer d

    pub sent_mem : sent.mem a ≡ settled d a
    unfolding read_no_cb cd_sync
    sent_mem = refl

    -- The command of the read
    abbrev pub sent_command : ReadCommand
    sent_command = record { lsn = lsn; sectors = sectors; buffer = buffer }

    pub sent_in :
        lsn ≤ sector_count
        → IsInside m.first m.last sent_command
        → IsSafe m.cache_lo m.cache_hi sent_command
        → buffer ≤ a
        → a < buffer + 2048 * sectors
        → settled sent a ≡ m.image (2048 * lsn + (a - buffer))
    unfolding read_no_cb cd_sync complete is_lsn_valid
    sent_in v inside safe lo hi =
        rw (settled, le→ltb sector_count lsn v)
          (m.bring_in sent_command (complete m sector_count d).mem inside safe a lo hi)

    pub sent_out :
        IsInside m.first m.last sent_command
        → IsSafe m.cache_lo m.cache_hi sent_command
        → (a < buffer) ⊎ (buffer + 2048 * sectors ≤ a)
        → IsSpared m.cache_lo m.cache_hi sent_command a
        → settled sent a ≡ settled d a
    unfolding read_no_cb cd_sync complete is_lsn_valid
    sent_out inside safe out spared = elim (Bool-cases (ltb sector_count lsn)) [
      | inl invalid ↦ rw (settled, invalid) refl
      | inr valid ↦
          rw (settled, valid)
            (m.bring_out sent_command (complete m sector_count d).mem inside safe a out spared)
    ]
