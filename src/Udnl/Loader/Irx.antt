-- ===== src/Udnl/Loader/Irx.antt =====
-- LoadIRXModule of Loader.antt as a whole.
use ps2esdl.Prelude.{
  ℕ, ◌/◌, ◌%◌, ◌≡◌, ◌∙◌, refl, ap, sym, Bool, true, List, add32, u16_mod, arith, ne→==,
}
use ps2esdl.Udnl.Loader.{
  Mem, ProgramHeader, ModuleInfo, half, program_header, program_header_1, load_segment,
  section_loop, rebase, load_irx_module,
}
use ps2esdl.Udnl.Loader.Copy.{IsOutside}
use ps2esdl.Udnl.Loader.Segment.{IsLoadable, IsLoaded, load_segment-IsLoaded}
use ps2esdl.Udnl.Loader.Patch.{Patch, IsDistinct, relocated}
use ps2esdl.Udnl.Loader.Section.{HasSections, Spares, Agrees, section_loop-relocated}

half-aligned : (m : Mem) (a : ℕ) → a % 4 ≡ 0 → half m a ≡ m a % u16_mod
unfolding half
half-aligned m a h = rw (ne→== (a % 4) 2 (omega arith))

-- A module whose segment can be brought to its text, and whose relocation sections stand in a file
-- that lies outside of it, and name no word twice and none of the file.
pub record IsRelocatable (m : Mem) (module_start base : ℕ) (is_file : ℕ → Bool) (ps : List Patch)
    : Type 0 where
  pub loadable : IsLoadable m module_start (program_header_1 m module_start) base
  pub outside :
      (b : ℕ)
      → is_file b ≡ true
      → IsOutside base ((program_header m (program_header_1 m module_start)).memsz / 4) b
  pub aligned : add32 module_start 48 % 4 ≡ 0
  pub count_in_file : is_file (add32 module_start 48) ≡ true
  pub sections :
      HasSections base module_start is_file m
        (half m (add32 module_start 48))
        (add32 (add32 module_start (m (add32 module_start 32))) 40)
        ps
  pub spares : Spares base module_start is_file ps
  pub distinct : IsDistinct base ps

-- LoadIRXModule of a module whose sections are in order: the segment is brought to its text as in
-- LoadELFModule, every word has the value that the relocation which names it gives it from memory as it
-- is then, the words that none names keep theirs, and the module's addresses are moved by the base.
pub load_irx_module-relocated :
    (m : Mem) (module_start : ℕ) (info : ModuleInfo) (is_file : ℕ → Bool) (ps : List Patch)
    → IsRelocatable m module_start info.text_start is_file ps
    → let phdr = program_header_1 m module_start in
      let ph = program_header m phdr in
      (m1 : Mem) × IsLoaded m m1 (add32 module_start ph.offset) info.text_start ph.filesz ph.memsz
      × ((b : ℕ) → (load_irx_module m module_start info).0 b ≡ relocated info.text_start m1 ps b)
      × ((load_irx_module m module_start info).1 ≡ rebase info)
unfolding load_irx_module
load_irx_module-relocated m module_start info is_file ps ok =
    (m1, loaded, λ b. ap (λ n. walk n b) same ∙ relocate b, refl)
  where
    base : ℕ
    base = info.text_start

    m1 : Mem
    m1 = load_segment m module_start (program_header_1 m module_start) base

    walk : ℕ → Mem
    walk n =
        section_loop base module_start n m1
          (add32 (add32 module_start (m (add32 module_start 32))) 40)

    ph : ProgramHeader
    ph = program_header m (program_header_1 m module_start)

    loaded : IsLoaded m m1 (add32 module_start ph.offset) base ph.filesz ph.memsz
    loaded = load_segment-IsLoaded m module_start (program_header_1 m module_start) base ok.loadable

    agree : Agrees base module_start is_file m m1
    agree b f = loaded.kept b (ok.outside b f)

    same : half m1 (add32 module_start 48) ≡ half m (add32 module_start 48)
    same =
        half-aligned m1 (add32 module_start 48) ok.aligned
        ∙ ap (λ w. w % u16_mod) (agree (add32 module_start 48) ok.count_in_file)
        ∙ sym (half-aligned m (add32 module_start 48) ok.aligned)

    relocate : (b : ℕ) → walk (half m (add32 module_start 48)) b ≡ relocated base m1 ps b
    relocate =
        section_loop-relocated base module_start is_file m m1 agree ok.sections ok.spares
          ok.distinct
