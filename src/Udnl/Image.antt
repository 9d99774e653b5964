-- ===== src/Udnl/Image.antt =====
-- modules/udnl/udnl.c: GetIOPRPStat, which finds the directory of a boot image in memory.
pub mod Find
use mathlib.Core.Option
use ps2esdl.Prelude.{
  ℕ, zero, suc, ◌+◌, ◌-◌, ◌*◌, ◌/◌, ◌%◌, Bool, true, false, ◌&&◌, Option, none, some, ltb, ◌==◌,
  if◌then◌else◌, add32, u32_mod,
}
use ps2esdl.Udnl.Loader.{Mem, half}
use ps2esdl.Udnl.Romdir.{round_16}

-- `struct RomImgData`, as addresses
pub record RomImgStat : Type 0 where
  pub image_start : ℕ
  pub romdir_start : ℕ
  pub romdir_end : ℕ

-- RESET, and the file's size, rounded up, is the offset of the record: the directory begins here.
unfoldable pub is_reset : Mem → ℕ → ℕ → Bool
is_reset m ptr offset =
    m ptr == 0x4553_4552
    && m (add32 ptr 4) == 0x54
    && half m (add32 ptr 8) == 0
    && round_16 (m (add32 ptr 12)) == offset

-- The loop: the address of the record, `some none` when there is none, `none` when the fuel runs out.
unfoldable pub find_reset : ℕ → Mem → ℕ → ℕ → ℕ → Option (Option ℕ)
find_reset zero m end ptr offset = if ltb ptr end then none else some none
find_reset (suc k) m end ptr offset =
    let rest = find_reset k m end (add32 ptr 16) (add32 offset 16) in
    if ltb ptr end then (if is_reset m ptr offset then some (some ptr) else rest) else some none

-- What is stored: the record after RESET is that of the directory, whose size is its fourth word.
unfoldable pub ioprp_stat : Mem → ℕ → RomImgStat → Option ℕ → RomImgStat × Bool
ioprp_stat m start before none = (record before { image_start = 0 }, false)
ioprp_stat m start before (some ptr) = (
  record { image_start = start; romdir_start = ptr; romdir_end = add32 ptr (m (add32 ptr 28)) },
  true,
)

-- `GetIOPRPStat`: the structure as it is left, and whether the result is not NULL.
unfoldable pub get_ioprp_stat : Mem → ℕ → ℕ → RomImgStat → Option (RomImgStat × Bool)
get_ioprp_stat m start end before =
    Option.map (ioprp_stat m start before) (find_reset ((end - start) / 16 + 1) m end start 0)
