-- ===== src/Udnl/Loader.antt =====
-- modules/udnl/udnl.c: loading a module into memory, CopySection, ZeroSection, LoadELFModule,
-- LoadCOFFModule, LoadIRXModule, InitLoadedModInfo and LoadModule. Memory is a function from the
-- addresses of words, which are multiples of 4, to words; the code reads and writes whole words, and
-- halfwords of them.
pub mod Copy
pub mod Segment
pub mod Patch
pub mod Section
pub mod Irx
mod Tests
use ps2esdl.Prelude.{
  ℕ, zero, suc, ◌+◌, ◌*◌, ◌/◌, ◌%◌, Bool, true, false, not, ◌||◌, Option, none, some, ltb, ◌==◌,
  if◌then◌else◌, add32, sub32, u16_mod, u32_mod,
}
use ps2esdl.Udnl.Relocation.{relocate_16, relocate_32, relocate_26, relocate_hi16, set_low}

abbrev pub Mem : Type 0
Mem = ℕ → ℕ

-- `*(unsigned int *)a = v`
abbrev pub write : Mem → ℕ → ℕ → Mem
write m a v = λ b. if b == a then v else m b

-- `*(unsigned short int *)a`, of a little-endian word
unfoldable pub half : Mem → ℕ → ℕ
half m a = if a % 4 == 2 then m (a / 4 * 4) / u16_mod else m a % u16_mod

-- The loop of `CopySection`, on fuel.
unfoldable pub copy_loop : ℕ → Mem → ℕ → ℕ → ℕ → Mem
copy_loop zero m src dst src_end = m
copy_loop (suc k) m src dst src_end =
    let rest = copy_loop k (write m dst (m src)) (add32 src 4) (add32 dst 4) src_end in
    if ltb src src_end then rest else m

-- `CopySection`; a round for each word is enough.
unfoldable pub copy_section : Mem → ℕ → ℕ → ℕ → Mem
copy_section m module_start buffer file_size =
    copy_loop (file_size / 4) m module_start buffer (add32 module_start (file_size / 4 * 4))

-- `ZeroSection`
unfoldable pub zero_section : Mem → ℕ → ℕ → Mem
zero_section m buffer zero = m
zero_section m buffer (suc num_words) = zero_section (write m buffer 0) (add32 buffer 4) num_words

-- `elf_pheader_t` 1 of a module, less the fields that are not used
pub record ProgramHeader : Type 0 where
  pub offset : ℕ
  pub vaddr : ℕ
  pub filesz : ℕ
  pub memsz : ℕ

-- The header at `phdr`
unfoldable pub program_header : Mem → ℕ → ProgramHeader
program_header m phdr = record {
  offset = m (add32 phdr 4);
  vaddr = m (add32 phdr 8);
  filesz = m (add32 phdr 16);
  memsz = m (add32 phdr 20);
}

-- `&ELF_phdr[1]`
unfoldable pub program_header_1 : Mem → ℕ → ℕ
program_header_1 m module_start = add32 (add32 module_start (m (add32 module_start 28))) 32

-- The two steps that `LoadELFModule` and `LoadIRXModule` share: the segment of the file to `to`, and
-- zeros up to its size in memory. The header is read again after the copy.
unfoldable pub load_segment : Mem → ℕ → ℕ → ℕ → Mem
load_segment m module_start phdr to =
    let ph = program_header m phdr in
    let m1 = copy_section m (add32 module_start ph.offset) to ph.filesz in
    let ph1 = program_header m1 phdr in
    if ltb ph1.filesz ph1.memsz
    then zero_section m1 (add32 to ph1.filesz) (sub32 ph1.memsz ph1.filesz / 4)
    else m1

-- `LoadELFModule`
unfoldable pub load_elf_module : Mem → ℕ → Mem
load_elf_module m module_start =
    let phdr = program_header_1 m module_start in
    load_segment m module_start phdr (program_header m phdr).vaddr

-- `LoadCOFFModule`: the optional header is at 20, the first section header at 76. The header is read
-- again after each copy.
unfoldable pub load_coff_module : Mem → ℕ → Mem
load_coff_module m module_start =
    let hdr = add32 module_start 20 in
    let s_size = m (add32 module_start 92) in
    let m1 = copy_section m (add32 module_start s_size) (m (add32 hdr 20)) (m (add32 hdr 4)) in
    let m2 =
      copy_section m1 (add32 module_start (m1 (add32 hdr 4))) (m1 (add32 hdr 24))
        (m1 (add32 hdr 8)) in
    let bss_start = m2 (add32 hdr 28) in
    let bsize = m2 (add32 hdr 12) in
    if bss_start == 0 || bsize == 0 then m2 else zero_section m2 bss_start (bsize / 4)

-- `elf_rel`
pub record ElfRel : Type 0 where
  pub offset : ℕ
  pub info : ℕ

unfoldable pub rel_at : Mem → ℕ → ElfRel
rel_at m at = record { offset = m at; info = m (add32 at 4) }

-- The relocations of one word; R_MIPS_NONE, R_MIPS_REL32 and R_MIPS_LO16 do nothing.
unfoldable pub relocate_word : ℕ → ℕ → ℕ → ℕ → ℕ
relocate_word base kind addr w =
    if kind == 1
    then relocate_16 base w
    else (if kind == 2 then relocate_32 base w else relocate_26 base addr w)

unfoldable pub is_word_kind : ℕ → Bool
is_word_kind kind = kind == 1 || kind == 2 || kind == 4

unfoldable pub relocate_one : Mem → ℕ → ElfRel → Mem
relocate_one m base r =
    let addr = add32 base r.offset in
    if is_word_kind (r.info % 0x100)
    then write m addr (relocate_word base (r.info % 0x100) addr (m addr))
    else m

-- R_MIPS_HI16, with the entry after it: the upper word is written before the lower one is read.
unfoldable pub relocate_pair : Mem → ℕ → ElfRel → ElfRel → Mem
relocate_pair m base hi lo =
    let pair = relocate_hi16 base (m (add32 base hi.offset)) (m (add32 base lo.offset)) in
    let m1 = write m (add32 base hi.offset) pair.0 in
    write m1 (add32 base lo.offset) (set_low (m1 (add32 base lo.offset)) (pair.1 % u16_mod))

-- The loop over the entries of a section: `k` are left, the next one at `at`. An R_MIPS_HI16 takes two,
-- also when it is the last one.
unfoldable pub reloc_loop : ℕ → ℕ → Mem → ℕ → Mem
reloc_loop base zero m at = m
reloc_loop base (suc zero) m at =
    let r = rel_at m at in
    if r.info % 0x100 == 5
    then relocate_pair m base r (rel_at m (add32 at 8))
    else relocate_one m base r
reloc_loop base (suc (suc k)) m at =
    let r = rel_at m at in
    let pair =
      reloc_loop base k (relocate_pair m base r (rel_at m (add32 at 8))) (add32 (add32 at 8) 8) in
    let single = reloc_loop base (suc k) (relocate_one m base r) (add32 at 8) in
    if r.info % 0x100 == 5 then pair else single

-- The loop over the section headers, `k` of them from the one at `shdr` on, as many as the header said
-- when it began.
unfoldable pub section_loop : ℕ → ℕ → ℕ → Mem → ℕ → Mem
section_loop base module_start zero m shdr = m
section_loop base module_start (suc k) m shdr =
    section_loop base module_start k
      (if m (add32 shdr 4) == 9
        then reloc_loop base (m (add32 shdr 20) / m (add32 shdr 36)) m
            (add32 module_start (m (add32 shdr 16)))
        else m)
      (add32 shdr 40)

-- `struct ModuleInfo`, less the field that is not used
pub record ModuleInfo : Type 0 where
  pub module_type : ℕ
  pub entry_point : ℕ
  pub gp : ℕ
  pub text_start : ℕ
  pub text_size : ℕ
  pub data_size : ℕ
  pub bss_size : ℕ
  pub mem_size : ℕ
  pub mod_id : ℕ

-- `mod_id+1!=0`, where a step of the pointer is the eight bytes of a `struct iopmod_id`.
abbrev pub has_id : ℕ → Bool
has_id mod_id = not (add32 mod_id 8 == 0)

-- The addresses in the information on an IRX module are relative to its text until it is loaded.
unfoldable pub rebase : ModuleInfo → ModuleInfo
rebase info = record info {
  gp = add32 info.gp info.text_start;
  entry_point = add32 info.entry_point info.text_start;
  mod_id = if has_id info.mod_id then add32 info.mod_id info.text_start else info.mod_id;
}

-- `LoadIRXModule`
unfoldable pub load_irx_module : Mem → ℕ → ModuleInfo → Mem × ModuleInfo
load_irx_module m module_start info =
    let m1 = load_segment m module_start (program_header_1 m module_start) info.text_start in
    (
      section_loop info.text_start module_start (half m1 (add32 module_start 48)) m1
          (add32 (add32 module_start (m (add32 module_start 32))) 40),
      rebase info,
    )

-- `InitLoadedModInfo`: the structure has the fields next, name, version and newflags, id and flags,
-- EntryPoint, gp, text_start and the sizes.
unfoldable pub init_loaded_mod_info : Mem → ModuleInfo → ℕ → Mem
init_loaded_mod_info m info at =
    let m1 = write (write (write m at 0) (add32 at 4) 0) (add32 at 8) 0 in
    let m2 = write m1 (add32 at 12) (set_low (m1 (add32 at 12)) 0) in
    let m3 =
      if has_id info.mod_id
      then (let m21 = write m2 (add32 at 4) (m2 info.mod_id) in
          write m21 (add32 at 8) (set_low (m21 (add32 at 8)) (half m21 (add32 info.mod_id 4))))
      else m2 in
    let m4 = write (write m3 (add32 at 16) info.entry_point) (add32 at 20) info.gp in
    let m5 = write (write m4 (add32 at 24) info.text_start) (add32 at 28) info.text_size in
    write (write m5 (add32 at 32) info.data_size) (add32 at 36) info.bss_size

-- The switch of `LoadModule`; `none` is -1.
unfoldable pub load_by_type : Mem → ℕ → ModuleInfo → Option (Mem × ModuleInfo)
load_by_type m module_start info =
    if info.module_type == 3
    then some (load_elf_module m module_start, info)
    else (if info.module_type == 1
        then some (load_coff_module m module_start, info)
        else (if info.module_type == 4 then some (load_irx_module m module_start info) else none))

unfoldable pub with_mod_info : Option (Mem × ModuleInfo) → Option (Mem × ModuleInfo)
with_mod_info none = none
with_mod_info (some (m, info)) =
    some (init_loaded_mod_info m info (sub32 info.text_start 0x30), info)

-- `LoadModule`
unfoldable pub load_module : Mem → ℕ → ModuleInfo → Option (Mem × ModuleInfo)
load_module m module_start info = with_mod_info (load_by_type m module_start info)
