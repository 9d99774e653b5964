-- ===== src/Cdvdman/Drive.antt =====
-- modules/cdvdman/cdvdman_internal.c: one read command in flight between the callers and the
-- asynchronous thread. A caller sees IOP memory change while a command is pending; it may rely on
-- the bytes only after `sceCdSync(0)`.
pub mod Delivery
use ps2esdl.Prelude.{
  ℕ, ◌+◌, ◌-◌, ◌*◌, ◌%◌, ◌≤◌, ◌<◌, ◌≡◌, ◌⊎◌, Bool, true, false, Option, none, some, ltb,
  if◌then◌else◌, u32_mod,
}

-- SCECdErNO and SCECdErIPI
abbrev pub err_no : ℕ
err_no = 0x00

abbrev pub err_ipi : ℕ
err_ipi = 0x20

-- `struct read_n_command_struct`, with the buffer of `cdvdman_rd_buf`
pub record ReadCommand : Type 0 where
  pub lsn : ℕ
  pub sectors : ℕ
  pub buffer : ℕ

-- IOP memory by address, the command that the thread has not finished, and `cdvdman_cderror`
pub record Drive : Type 0 where
  pub mem : ℕ → ℕ
  pub pending : Option ReadCommand
  pub cd_error : ℕ

-- The sectors lie between two sectors of the disc, the destination inside the address space.
abbrev pub IsInside : ℕ → ℕ → ReadCommand → Type 0
IsInside first last r =
    (first ≤ r.lsn) × (r.lsn + r.sectors ≤ last) × (r.buffer + 2048 * r.sectors < u32_mod)

-- The destination is aligned, or apart from the cache.
abbrev pub IsSafe : ℕ → ℕ → ReadCommand → Type 0
IsSafe lo hi r = (r.buffer % 4 ≡ 0) ⊎ ((r.buffer + 2048 * r.sectors ≤ lo) ⊎ (hi ≤ r.buffer))

-- The address is not in the cache, unless the cache is not used.
abbrev pub IsSpared : ℕ → ℕ → ReadCommand → ℕ → Type 0
IsSpared lo hi r a = (r.buffer % 4 ≡ 0) ⊎ ((a < lo) ⊎ (hi ≤ a))

-- What async_read does to memory, as its clients need it. The sectors from `first` to `last`, where a
-- read is whole, hold the bytes of `image`; the cache lies between two addresses, and is used for a
-- destination that is not aligned. AsyncRead/Usb.antt fills this in.
pub record Medium : Type 0 where
  pub bring : ReadCommand → (ℕ → ℕ) → ℕ → ℕ
  pub image : ℕ → ℕ
  pub first : ℕ
  pub last : ℕ
  pub cache_lo : ℕ
  pub cache_hi : ℕ
  pub last_u32 : last < u32_mod
  pub bring_in :
      (r : ReadCommand) (mem : ℕ → ℕ)
      → IsInside first last r
      → IsSafe cache_lo cache_hi r
      → (a : ℕ) → r.buffer ≤ a
      → a < r.buffer + 2048 * r.sectors
      → bring r mem a ≡ image (2048 * r.lsn + (a - r.buffer))
  pub bring_out :
      (r : ReadCommand) (mem : ℕ → ℕ)
      → IsInside first last r
      → IsSafe cache_lo cache_hi r
      → (a : ℕ) → (a < r.buffer) ⊎ (r.buffer + 2048 * r.sectors ≤ a)
      → IsSpared cache_lo cache_hi r a
      → bring r mem a ≡ mem a

-- `isLSNValid`, with the number of sectors on both layers: the comparison lets `lsn == sector_count`
-- pass.
unfoldable pub is_lsn_valid : ℕ → ℕ → Bool
is_lsn_valid sector_count lsn = if ltb sector_count lsn then false else true

-- The drive, with the number of sectors on both layers
module _ (m : Medium) (sector_count : ℕ) where
  -- What the asynchronous thread leaves behind when it has finished the pending read.
  unfoldable pub complete : Drive → Drive
  unfolding is_lsn_valid
  complete d = elim d.pending [
    | none ↦ d
    | some r ↦
        if is_lsn_valid sector_count r.lsn
        then record { mem = m.bring r d.mem; pending = none; cd_error = err_no }
        else record d { pending = none; cd_error = err_ipi }
  ]

  -- `sceCdSync(0)` waits until the command is finished.
  unfoldable pub cd_sync : Drive → Drive
  cd_sync d = complete d

  -- `cdvdman_read_noCB` with mode 0: waits for the command before, sends a new one, and returns.
  unfoldable pub read_no_cb : ℕ → ℕ → ℕ → Drive → Drive
  read_no_cb lsn sectors buffer d = record (cd_sync d) {
    pending = some (record { lsn = lsn; sectors = sectors; buffer = buffer });
    cd_error = err_no;
  }

  -- A byte as the caller reads it: of a command in flight, any bytes may have arrived.
  unfoldable pub view : (ℕ → Bool) → Drive → ℕ → ℕ
  view arrived d a = if arrived a then (complete d).mem a else d.mem a
