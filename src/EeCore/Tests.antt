-- ===== src/EeCore/Tests.antt =====
-- Runs of the patches of EeCore.antt.
use ps2esdl.Prelude.{◌/◌, ℕ, ◌-◌, ◌≡◌, ◌≢◌, ◌⊎◌, Option, none, some, refl, arith}
use ps2esdl.EeCore.Patches.{
  Quad, PatchData, Game, memory_end, built_in_start, get_jaddr, index_of, matches, patch_elf,
}
use ps2esdl.EeCore.Patches.Sweep.{IsFirst, sweep}
use ps2esdl.EeCore.Patches.Apply.{
  patched_once, patch_elf-sweep, patch_elf-once, patch_elf-delayed_read,
}

abbrev quad : ℕ → Quad
quad n = record { at_0 = n; at_1 = n; at_2 = n; at_3 = n }

-- A patch that replaces four words 7 by four words 9, in one mode or another
abbrev replace : ℕ → PatchData
replace mode = record { mode = mode; src = quad 7; mask = quad 0xffff_ffff; patch_data = quad 9 }

abbrev game : Game
game = record { mem = λ a. 7; cd_read = 0; load_packed_module = 0 }

patch_elf-sweep_example :
    patch_elf 0x8_0000 0x8_1000 0x7f_fff0 (replace 1) game
    ≡ some (record game { mem = sweep (replace 1) (memory_end - 0x7f_fff0) 0x7f_fff0 game.mem })
patch_elf-sweep_example =
    patch_elf-sweep 0x8_0000 0x8_1000 0x7f_fff0 (replace 1) game (omega arith) refl refl
      (omega arith)

patch_elf-once_example :
    (r : Option ℕ) × IsFirst
      (matches (quad 7) (quad 0xffff_ffff) game.mem)
      (memory_end - 0x7f_fff0)
      0x7f_fff0
      r
    × (patch_elf 0x8_0000 0x8_1000 0x7f_fff0 (replace 5) game
        ≡ some (record game { mem = patched_once (replace 5) r game.mem }))
patch_elf-once_example =
    patch_elf-once 0x8_0000 0x8_1000 0x7f_fff0 (replace 5) game (omega arith) refl refl

patch_elf-delayed_read_example :
    let found =
      IsFirst
        (matches (quad 7) (quad 0xffff_ffff) game.mem)
        (memory_end - built_in_start)
        built_in_start in
    let result = patch_elf 0x8_0000 0x8_1000 0x4_0000 (replace 0x8000_0000) game in
    (found none × (result ≡ some game))
    ⊎ ((p : ℕ) × (g' : Game) × found (some p)
        × (result ≡ some g')
        × (get_jaddr (g'.mem (index_of p 9)) ≡ 0x8_0000)
        × (g'.mem (index_of p 9) / 0x400_0000 ≡ 3)
        × (g'.cd_read ≡ get_jaddr (game.mem (index_of p 9)))
        × ((j : ℕ) → j ≢ index_of p 9 → g'.mem j ≡ game.mem j))
patch_elf-delayed_read_example =
    patch_elf-delayed_read 0x8_0000 0x8_1000 0x4_0000 (replace 0x8000_0000) game refl refl
      (omega arith)
