-- ===== src/EeCore/Patches.antt =====
-- EE_core/patches.c: patches to the game that was loaded, patch_ELF and scan_pattern. Memory is read by
-- words, and a pointer to words is an index, its address divided by 4.
pub mod Sweep
pub mod Apply
use Prim.Native.Nat.{bit_and}
use ps2esdl.Prelude.{
  ℕ, zero, suc, ◌+◌, ◌-◌, ◌*◌, ◌/◌, ◌%◌, ◌&&◌, ◌||◌, Bool, true, false, not, Option, none, some,
  ltb, leb, ◌==◌, if◌then◌else◌,
}

-- `src`, `mask` and `patchData`
pub record Quad : Type 0 where
  pub at_0 : ℕ
  pub at_1 : ℕ
  pub at_2 : ℕ
  pub at_3 : ℕ

-- `struct EE_ELF_patch_data`
pub record PatchData : Type 0 where
  pub mode : ℕ
  pub src : Quad
  pub mask : Quad
  pub patch_data : Quad

-- 0x02000000, the end of memory, and 0x000D0000, where the built-in patches start, as indices
abbrev pub memory_end : ℕ
memory_end = 0x80_0000

abbrev pub built_in_start : ℕ
built_in_start = 0x3_4000

-- JAL and GETJADDR
unfoldable pub jal : ℕ → ℕ
jal addr = 0x0c00_0000 + addr / 4 % 0x400_0000

unfoldable pub get_jaddr : ℕ → ℕ
get_jaddr word = word % 0x400_0000 * 4

-- The four words at `i` are those of the pattern, in the bits of the mask.
unfoldable pub matches : Quad → Quad → (ℕ → ℕ) → ℕ → Bool
matches pattern mask mem i =
    bit_and (mem i) mask.at_0 == pattern.at_0
    && bit_and (mem (i + 1)) mask.at_1 == pattern.at_1
    && bit_and (mem (i + 2)) mask.at_2 == pattern.at_2
    && bit_and (mem (i + 3)) mask.at_3 == pattern.at_3

-- `memcpy(ptr, patch->patchData, sizeof(patch->patchData))`
unfoldable pub write_quad : Quad → ℕ → (ℕ → ℕ) → ℕ → ℕ
write_quad q i mem j =
    if j == i
    then q.at_0
    else (if j == i + 1
        then q.at_1
        else (if j == i + 2 then q.at_2 else (if j == i + 3 then q.at_3 else mem j)))

unfoldable pub write_word : ℕ → ℕ → (ℕ → ℕ) → ℕ → ℕ
write_word i w mem j = if j == i then w else mem j

-- The loop of `scan_pattern`, with `n` words to go
unfoldable pub scan_words : (ℕ → Bool) → ℕ → ℕ → Option ℕ
scan_words test zero i = none
scan_words test (suc n) i = if test i then some i else scan_words test n (i + 1)

-- `scan_pattern`, up to the end of memory
unfoldable pub scan_pattern : Quad → Quad → (ℕ → ℕ) → ℕ → Option ℕ
scan_pattern pattern mask mem start =
    scan_words (matches pattern mask mem) (memory_end - start) start

-- The loop of SEARCH_SCAN; `none` when the fuel runs out.
unfoldable pub search_loop : PatchData → Bool → ℕ → ℕ → (ℕ → ℕ) → Option (ℕ → ℕ)
search_loop patch terminate zero i mem = none
search_loop patch terminate (suc k) i mem = elim (scan_pattern patch.src patch.mask mem i) [
  | none ↦ some mem
  | some p ↦
      let mem1 = write_quad patch.patch_data p mem in
      let rest = search_loop patch terminate k (p + 1) mem1 in
      if terminate then some mem1 else (if ltb (p + 1) memory_end then rest else some mem1)
]

-- The loop of BLOCKING_MODULE_PATCH: the word after the `n`th place of the pattern
unfoldable pub nth_place : PatchData → (ℕ → ℕ) → ℕ → ℕ → Option ℕ
nth_place patch mem zero i = some i
nth_place patch mem (suc n) i = elim (scan_pattern patch.src patch.mask mem i) [
  | none ↦ none
  | some p ↦ nth_place patch mem n (p + 1)
]

-- Memory, `pCdRead` and `LoadPackedModule`
pub record Game : Type 0 where
  pub mem : ℕ → ℕ
  pub cd_read : ℕ
  pub load_packed_module : ℕ

-- `ptr[n]`, whose address wraps
unfoldable pub index_of : ℕ → ℕ → ℕ
index_of p n = (p + n) % 0x4000_0000

-- The addresses of the two functions of the program that take the place of the game's
module _ (delayed_cd_read patch_packed_module : ℕ) where
  unfoldable pub patch_delayed_read : PatchData → Game → Game
  patch_delayed_read patch g = elim (scan_pattern patch.src patch.mask g.mem built_in_start) [
    | none ↦ g
    | some p ↦
        let i = index_of p patch.patch_data.at_0 in
        record g { mem = write_word i (jal delayed_cd_read) g.mem; cd_read = get_jaddr (g.mem i) }
  ]

  unfoldable pub patch_blocking_module : PatchData → Game → Game
  patch_blocking_module patch g =
      elim (nth_place patch g.mem patch.patch_data.at_1 built_in_start) [
        | none ↦ g
        | some p ↦
            let i = index_of (p - 1) patch.patch_data.at_0 in
            record g {
              mem = write_word i (jal patch_packed_module) g.mem;
              load_packed_module = get_jaddr (g.mem i);
            }
      ]

  -- `patch_ELF`, for the ELF that begins at index `buffer`
  unfoldable pub patch_elf : ℕ → PatchData → Game → Option Game
  patch_elf buffer patch g =
      let mode = patch.mode in
      let searched : Option Game =
        elim (search_loop patch (mode / 4 % 2 == 1) (memory_end - buffer + 1) buffer g.mem) [
          | none ↦ none
          | some mem ↦ some (record g { mem = mem })
        ] in
      if leb 0x8000_0000 mode
      then some (
          if mode % 0x8000_0000 == 0
          then patch_delayed_read patch g
          else (if mode % 0x8000_0000 == 1 then patch_blocking_module patch g else g))
      else (if mode % 2 == 1
          then searched
          else some (
              if mode == 2
              then record g {
                mem = write_word (index_of buffer (patch.src.at_0 / 4)) patch.patch_data.at_0 g.mem;
              }
              else g))
