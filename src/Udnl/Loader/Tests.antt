-- ===== src/Udnl/Loader/Tests.antt =====
-- Runs of the routines of Loader.antt on a module at 0x1000 that is loaded at 0x8000.
use ps2esdl.Prelude.{
  ℕ, ◌≡◌, refl, inl, Bool, List, [], ◌∷◌, ◌==◌, ltb, if◌then◌else◌, arith, ltb→lt,
}
use ps2esdl.Udnl.Loader.{
  Mem, ModuleInfo, ElfRel, half, program_header, program_header_1, load_segment, load_elf_module,
  section_loop, rebase, load_irx_module, rel_at, is_word_kind, copy_section, copy_loop,
  zero_section, reloc_loop, relocate_pair, relocate_one, relocate_word,
}
use ps2esdl.Udnl.Relocation.{relocate_hi16, relocate_32}
use ps2esdl.Udnl.Loader.Segment.{IsLoadable, IsLoaded, load_elf_module-IsLoaded}
use ps2esdl.Udnl.Loader.Patch.{Patch, one, pair, relocated}
use ps2esdl.Udnl.Loader.Section.{done, rel, single, both, empty}
use ps2esdl.Udnl.Loader.Irx.{IsRelocatable, load_irx_module-relocated}

abbrev words : List (ℕ × ℕ) → Mem
words [] b = 0
words ((a, w) ∷ rest) b = if b == a then w else words rest b

-- A header with the second program header at 0x54, the text of three words at 0x100, one section
-- header at 0xa8 and three relocations at 0x200: a pair of R_MIPS_HI16 and R_MIPS_LO16, and an
-- R_MIPS_32.
abbrev irx_file : Mem
irx_file = words (
    (0x101c, 52)
    ∷ (0x1020, 0x80)
    ∷ (0x1030, 1)
    ∷ (0x1058, 0x100)
    ∷ (0x105c, 0x8000)
    ∷ (0x1064, 12)
    ∷ (0x1068, 16)
    ∷ (0x10ac, 9)
    ∷ (0x10b8, 0x200)
    ∷ (0x10bc, 24)
    ∷ (0x10cc, 8)
    ∷ (0x1100, 0x3c02_0000)
    ∷ (0x1104, 0x2442_0010)
    ∷ (0x1108, 0x20)
    ∷ (0x1200, 0)
    ∷ (0x1204, 5)
    ∷ (0x1208, 4)
    ∷ (0x120c, 6)
    ∷ (0x1210, 8)
    ∷ (0x1214, 2)
    ∷ (0x800c, 77)
    ∷ [])

abbrev irx_info : ModuleInfo
irx_info = record {
  module_type = 4;
  entry_point = 0;
  gp = 0x9000;
  text_start = 0x8000;
  text_size = 8;
  data_size = 4;
  bss_size = 4;
  mem_size = 16;
  mod_id = 0xffff_ffff;
}

abbrev in_file : ℕ → Bool
in_file b = ltb b 0x2000

abbrev hi_entry : ElfRel
hi_entry = record { offset = 0; info = 5 }

abbrev lo_entry : ElfRel
lo_entry = record { offset = 4; info = 6 }

abbrev word_entry : ElfRel
word_entry = record { offset = 8; info = 2 }

abbrev irx_patches : List Patch
irx_patches = pair hi_entry lo_entry ∷ one word_entry ∷ []

segment_IsLoadable : IsLoadable irx_file 0x1000 (program_header_1 irx_file 0x1000) 0x8000
unfolding program_header program_header_1 half
segment_IsLoadable = record {
  whole_file = refl;
  whole_mem = refl;
  larger = omega arith;
  file_fits = omega arith;
  fits = omega arith;
  apart = inl (omega arith);
  header_below = omega arith;
  header_apart = inl (omega arith);
}

irx_IsRelocatable : IsRelocatable irx_file 0x1000 0x8000 in_file irx_patches
unfolding program_header program_header_1 half rel_at is_word_kind
irx_IsRelocatable = record {
  loadable = segment_IsLoadable;
  outside = λ b f. inl (omega (arith, ltb→lt b 0x2000 f));
  aligned = refl;
  count_in_file = refl;
  sections =
      rel (hi_entry ∷ lo_entry ∷ word_entry ∷ []) (refl, refl, refl, refl) refl refl
        (both hi_entry lo_entry refl (single word_entry refl empty))
        (refl, refl, refl, (refl, refl, refl, (refl, refl, refl, tt))) (done _) refl;
  spares = λ b f. ground arith;
  distinct = (λ b h. ground arith, λ e. omega (arith, e), (λ b h. refl, tt, tt));
}

load_irx_module_example :
    (m1 : Mem) × IsLoaded irx_file m1 0x1100 0x8000 12 16
    × ((b : ℕ) → (load_irx_module irx_file 0x1000 irx_info).0 b ≡ relocated 0x8000 m1 irx_patches b)
    × ((load_irx_module irx_file 0x1000 irx_info).1 ≡ rebase irx_info)
unfolding program_header program_header_1 half
load_irx_module_example =
    load_irx_module-relocated irx_file 0x1000 irx_info in_file irx_patches irx_IsRelocatable

load_elf_module_example : IsLoaded irx_file (load_elf_module irx_file 0x1000) 0x1100 0x8000 12 16
unfolding program_header program_header_1 half
load_elf_module_example = load_elf_module-IsLoaded irx_file 0x1000 segment_IsLoadable

-- The text as it stands when LoadIRXModule is done: the pair addresses 0x8010, the word is moved.
load_irx_module_run :
    let m = (load_irx_module irx_file 0x1000 irx_info).0 in
    ◌≡◌ {A = ℕ × ℕ × ℕ × ℕ}
      (m 0x8000, m 0x8004, m 0x8008, m 0x800c)
      (0x3c02_0001, 0x2442_8010, 0x8020, 0)
unfolding half load_irx_module program_header program_header_1 rel_at is_word_kind load_segment
    section_loop copy_section copy_loop zero_section reloc_loop relocate_pair relocate_one
    relocate_word relocate_hi16 relocate_32
load_irx_module_run = refl
