-- ===== src/EeCore/Patches/Apply.antt =====
-- patch_ELF of Patches.antt as a whole, mode by mode.
use ps2esdl.Prelude.{
  ne→==, ℕ, suc, ◌+◌, ◌-◌, ◌/◌, ◌%◌, ◌≤◌, ◌<◌, ◌≡◌, ◌≢◌, ◌⊎◌, inl, inr, ◌∙◌, refl, ap, Bool, true,
  false, Option, none, some, leb, ◌==◌, arith, Option-cases,
}
use ps2esdl.EeCore.Patches.{
  PatchData, Game, memory_end, built_in_start, jal, get_jaddr, matches, write_quad, write_word,
  scan_pattern, search_loop, index_of, patch_delayed_read, patch_elf,
}
use ps2esdl.EeCore.Patches.Sweep.{
  IsFirst, sweep, scan_pattern-IsFirst, search_loop-none, search_loop-once, search_loop-sweep,
}

-- A call that is written is read back, for the address of an instruction in the region of the call.
get_jaddr-jal : (addr : ℕ) → addr % 4 ≡ 0 → addr < 0x1000_0000 → get_jaddr (jal addr) ≡ addr
unfolding get_jaddr jal
get_jaddr-jal addr aligned region = omega arith

-- It is a JAL.
jal-opcode : (addr : ℕ) → jal addr / 0x400_0000 ≡ 3
unfolding jal
jal-opcode addr = omega arith

-- Memory after the first place, if any, was patched
abbrev pub patched_once : PatchData → Option ℕ → (ℕ → ℕ) → ℕ → ℕ
patched_once patch none mem = mem
patched_once patch (some p) mem = write_quad patch.patch_data p mem

module _ (delayed_cd_read patch_packed_module buffer : ℕ) (patch : PatchData) (g : Game) where
  abbrev pub apply : Option Game
  apply = patch_elf delayed_cd_read patch_packed_module buffer patch g

  abbrev with_mem : (ℕ → ℕ) → Option Game
  with_mem mem = some (record g { mem = mem })

  searched :
      (terminate : Bool) (mem : ℕ → ℕ)
      → patch.mode < 0x8000_0000
      → patch.mode % 2 ≡ 1
      → (patch.mode / 4 % 2 == 1) ≡ terminate
      → search_loop patch terminate (memory_end - buffer + 1) buffer g.mem ≡ some mem
      → apply ≡ with_mem mem
  unfolding patch_elf
  searched terminate mem low search once e =
      rw (patch_elf, not_built_in patch.mode low, is_search (patch.mode % 2) search, once, e)
    where
      not_built_in : (m : ℕ) → m < 0x8000_0000 → leb 0x8000_0000 m ≡ false
      not_built_in m h = ground arith

      is_search : (m : ℕ) → m ≡ 1 → (m == 1) ≡ true
      is_search m h = ground arith

  -- SEARCH_SCAN without TERMINATE_ON_FIND, from a buffer in memory: patch_ELF ends, and does what one pass
  -- over memory does that patches wherever the pattern is at that moment.
  pub patch_elf-sweep :
      patch.mode < 0x8000_0000
      → patch.mode % 2 ≡ 1
      → patch.mode / 4 % 2 ≡ 0
      → buffer ≤ memory_end
      → apply ≡ some (record g { mem = sweep patch (memory_end - buffer) buffer g.mem })
  patch_elf-sweep low search all inside =
      searched false (sweep patch (memory_end - buffer) buffer g.mem) low search (ground arith)
        (search_loop-sweep patch (memory_end - buffer + 1) buffer g.mem inside (omega arith))

  -- SEARCH_SCAN with TERMINATE_ON_FIND: patch_ELF ends, and patches the first place of the pattern from
  -- the buffer on, or nothing where there is none.
  pub patch_elf-once :
      patch.mode < 0x8000_0000
      → patch.mode % 2 ≡ 1
      → patch.mode / 4 % 2 ≡ 1
      → (r : Option ℕ) × IsFirst (matches patch.src patch.mask g.mem) (memory_end - buffer) buffer r
        × (apply ≡ some (record g { mem = patched_once patch r g.mem }))
  patch_elf-once low search one =
      elim (Option-cases (scan_pattern patch.src patch.mask g.mem buffer)) [
        | inl e ↦ (
          none,
          scan_pattern-IsFirst patch buffer g.mem none e,
          searched true g.mem low search (ground arith) (
              ap (λ k. search_loop patch true k buffer g.mem) {y = suc (memory_end - buffer)}
                (omega arith)
              ∙ search_loop-none patch true (memory_end - buffer) buffer g.mem e),
        )
        | inr (p, e) ↦ (
          some p,
          scan_pattern-IsFirst patch buffer g.mem (some p) e,
          searched true (write_quad patch.patch_data p g.mem) low search (ground arith) (
              ap (λ k. search_loop patch true k buffer g.mem) {y = suc (memory_end - buffer)}
                (omega arith)
              ∙ search_loop-once patch (memory_end - buffer) buffer g.mem p e),
        )
      ]

  hooked : (p : ℕ) → Game
  hooked p = record g {
    mem = write_word (index_of p patch.patch_data.at_0) (jal delayed_cd_read) g.mem;
    cd_read = get_jaddr (g.mem (index_of p patch.patch_data.at_0));
  }

  delayed-none :
      patch.mode ≡ 0x8000_0000
      → scan_pattern patch.src patch.mask g.mem built_in_start ≡ none
      → apply ≡ some g
  unfolding patch_elf patch_delayed_read
  delayed-none mode e = rw (patch_elf, mode, patch_delayed_read, e)

  delayed-some :
      (p : ℕ)
      → patch.mode ≡ 0x8000_0000
      → scan_pattern patch.src patch.mask g.mem built_in_start ≡ some p
      → apply ≡ some (hooked p)
  unfolding patch_elf patch_delayed_read hooked
  delayed-some p mode e = rw (patch_elf, mode, patch_delayed_read, e)

  hooked_at :
      (p : ℕ)
      → delayed_cd_read % 4 ≡ 0
      → delayed_cd_read < 0x1000_0000
      → (get_jaddr ((hooked p).mem (index_of p patch.patch_data.at_0)) ≡ delayed_cd_read)
        × ((hooked p).mem (index_of p patch.patch_data.at_0) / 0x400_0000 ≡ 3)
  unfolding hooked write_word
  hooked_at p aligned region =
      rw (same (index_of p patch.patch_data.at_0))
        (get_jaddr-jal delayed_cd_read aligned region, jal-opcode delayed_cd_read)
    where
      same : (n : ℕ) → (n == n) ≡ true
      same n = ground arith

  hooked_elsewhere : (p j : ℕ) → j ≢ index_of p patch.patch_data.at_0 → (hooked p).mem j ≡ g.mem j
  unfolding hooked write_word
  hooked_elsewhere p j other = rw (ne→== j (index_of p patch.patch_data.at_0) other)

  -- The patch of delayed reads, with the address of delayed_cdRead in the lower 256 MB: patch_ELF changes
  -- nothing where the pattern is not in memory from 0x000D0000 on. Otherwise, of the first place of the
  -- pattern, the word at the offset that the patch names becomes a JAL to delayed_cdRead, pCdRead is
  -- the target that the word named before, and no other word changes.
  pub patch_elf-delayed_read :
      patch.mode ≡ 0x8000_0000
      → delayed_cd_read % 4 ≡ 0
      → delayed_cd_read < 0x1000_0000
      → (IsFirst
            (matches patch.src patch.mask g.mem)
            (memory_end - built_in_start)
            built_in_start
            none
          × (apply ≡ some g))
        ⊎ ((p : ℕ) × (g' : Game) × IsFirst
              (matches patch.src patch.mask g.mem)
              (memory_end - built_in_start)
              built_in_start
              (some p)
            × (apply ≡ some g')
            × (get_jaddr (g'.mem (index_of p patch.patch_data.at_0)) ≡ delayed_cd_read)
            × (g'.mem (index_of p patch.patch_data.at_0) / 0x400_0000 ≡ 3)
            × (g'.cd_read ≡ get_jaddr (g.mem (index_of p patch.patch_data.at_0)))
            × ((j : ℕ) → j ≢ index_of p patch.patch_data.at_0 → g'.mem j ≡ g.mem j))
  unfolding hooked
  patch_elf-delayed_read mode aligned region =
      elim (Option-cases (scan_pattern patch.src patch.mask g.mem built_in_start)) [
        | inl e ↦ inl (scan_pattern-IsFirst patch built_in_start g.mem none e, delayed-none mode e)
        | inr (p, e) ↦ inr (
          p,
          hooked p,
          scan_pattern-IsFirst patch built_in_start g.mem (some p) e,
          delayed-some p mode e,
          (hooked_at p aligned region).0,
          (hooked_at p aligned region).1,
          refl,
          hooked_elsewhere p,
        )
      ]
