-- ===== src/Udnl/Boot/Tests.antt =====
-- Runs of the routines of Boot.antt and Image.antt, on a module at 0x1000 and an image at 0x2000.
use ps2esdl.Prelude.{
  ℕ, ◌+◌, ◌*◌, ◌≡◌, ◌⊎◌, refl, false, true, none, some, List, [], ◌∷◌, ◌==◌, if◌then◌else◌, add32,
  arith, ◌<◌,
}
use ps2esdl.Udnl.Loader.{Mem, half, ModuleInfo}
use ps2esdl.Udnl.Boot.{is_coff, is_elf, elf_info, init_module_info}
use ps2esdl.Udnl.Image.{RomImgStat, get_ioprp_stat}
use ps2esdl.Udnl.Image.Find.{IsFirst, starts_at, get_ioprp_stat-IsFirst}

abbrev words : List (ℕ × ℕ) → Mem
words [] b = 0
words ((a, w) ∷ rest) b = if b == a then w else words rest b

-- An IRX module with its IOPMOD section at 0xf0, and an image whose directory begins at its second
-- record.
abbrev boot_mem : Mem
boot_mem = words (
    (0x1000, 0x464c_457f)
    ∷ (0x1004, 0x101)
    ∷ (0x1010, 0x0008_ff80)
    ∷ (0x101c, 52)
    ∷ (0x1028, 0x0020_0000)
    ∷ (0x102c, 2)
    ∷ (0x1034, 0x7000_0080)
    ∷ (0x1038, 0xf0)
    ∷ (0x10f4, 0x10)
    ∷ (0x2010, 0x4553_4552)
    ∷ (0x2014, 0x54)
    ∷ (0x201c, 16)
    ∷ (0x202c, 0x40)
    ∷ [])

abbrev module_info : ModuleInfo
module_info = record {
  module_type = 4;
  entry_point = 0x10;
  gp = 0;
  text_start = 0;
  text_size = 0;
  data_size = 0;
  bss_size = 0;
  mem_size = 0;
  mod_id = 0;
}

recognised : init_module_info boot_mem 0x1000 ≡ some module_info
unfolding init_module_info is_coff is_elf elf_info half
recognised = refl

unknown : init_module_info boot_mem 0x3000 ≡ none
unfolding init_module_info is_coff is_elf half
unknown = refl

abbrev no_image : RomImgStat
no_image = record { image_start = 0; romdir_start = 0; romdir_end = 0 }

get_ioprp_stat_example :
    ((n : ℕ) × IsFirst boot_mem 0x2000 0x2100 0 n
      × (get_ioprp_stat boot_mem 0x2000 0x2100 no_image
          ≡ some (
            record {
              image_start = 0x2000;
              romdir_start = 0x2000 + 16 * n;
              romdir_end = add32 (0x2000 + 16 * n) (boot_mem (add32 (0x2000 + 16 * n) 28));
            },
            true,
          )))
    ⊎ (((j : ℕ) → 0x2000 + 16 * j < 0x2100 → starts_at boot_mem 0x2000 0x2100 j ≡ false)
        × (get_ioprp_stat boot_mem 0x2000 0x2100 no_image
            ≡ some (record no_image { image_start = 0 }, false)))
get_ioprp_stat_example =
    get_ioprp_stat-IsFirst boot_mem 0x2000 0x2100 no_image (omega arith) (omega arith)
