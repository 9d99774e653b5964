-- ===== src/Udnl/Boot.antt =====
-- modules/udnl/udnl.c: InitModuleInfo, which tells the formats of modules apart, and
-- BeginBootupSequence, which loads the first two modules and starts them. The flush of the caches
-- (func_00001440) changes no memory.
mod Tests
use ps2esdl.Prelude.{
  ℕ, ◌+◌, ◌*◌, ◌/◌, ◌%◌, Bool, true, false, not, ◌&&◌, ◌||◌, Option, none, some, ltb, ◌==◌,
  if◌then◌else◌, add32, mul32, sub32,
}
use ps2esdl.Udnl.Loader.{Mem, half, ModuleInfo, load_module}

-- The tests for a COFF file, before that of its version stamp
unfoldable pub is_coff : Mem → ℕ → Bool
is_coff m start =
    half m start == 0x162
    && half m (add32 start 20) == 0x107
    && ltb (half m (add32 start 2)) 0x20
    && m (add32 start 16) % 0x1_0000 == 0x38
    && m (add32 start 16) / 0x2_0000 % 2 == 1
    && m (add32 start 84) == m (add32 start 40)

unfoldable pub coff_info : Mem → ℕ → ModuleInfo
coff_info m start = record {
  module_type = 1;
  entry_point = m (add32 start 36);
  gp = m (add32 start 72);
  text_start = m (add32 start 40);
  text_size = m (add32 start 24);
  data_size = m (add32 start 28);
  bss_size = m (add32 start 32);
  mem_size = sub32 (add32 (m (add32 start 48)) (m (add32 start 32))) (m (add32 start 40));
  mod_id = m (add32 start 68);
}

-- The first program header of an ELF file
abbrev pub elf_phdr : Mem → ℕ → ℕ
elf_phdr m start = add32 start (m (add32 start 28))

unfoldable pub is_elf : Mem → ℕ → Bool
is_elf m start =
    half m (add32 start 4) == 0x101
    && half m (add32 start 18) == 8
    && half m (add32 start 42) == 32
    && half m (add32 start 44) == 2
    && m (elf_phdr m start) == 0x7000_0080
    && (half m (add32 start 16) == 0xff80 || half m (add32 start 16) == 2)

unfoldable pub elf_info : Mem → ℕ → ModuleInfo
elf_info m start =
    let phdr = elf_phdr m start in
    let iopmod = add32 start (m (add32 phdr 4)) in
    record {
      module_type = if half m (add32 start 16) == 0xff80 then 4 else 3;
      entry_point = m (add32 iopmod 4);
      gp = m (add32 iopmod 8);
      text_start = m (add32 phdr 40);
      text_size = m (add32 iopmod 12);
      data_size = m (add32 iopmod 16);
      bss_size = m (add32 iopmod 20);
      mem_size = m (add32 phdr 52);
      mod_id = m iopmod;
    }

-- `InitModuleInfo`: `none` is -1, which leaves the structure as it was.
unfoldable pub init_module_info : Mem → ℕ → Option ModuleInfo
init_module_info m start =
    if is_coff m start
    then (if half m (add32 start 22) == 0x7001 then none else some (coff_info m start))
    else (if is_elf m start then some (elf_info m start) else none)

-- The address that the switch gives a module that it knows, with the memory that is free: an IRX
-- module goes 0x30 bytes into it, the others to their own addresses.
unfoldable pub placed : ModuleInfo → ℕ → ModuleInfo
placed info free =
    if info.module_type == 2 || info.module_type == 4
    then record info { text_start = add32 free 0x30 }
    else info

abbrev pub is_known : ℕ → Bool
is_known kind = kind == 1 || kind == 2 || kind == 3 || kind == 4

-- A module that could not be loaded leaves memory as it was.
unfoldable pub loaded_or : Mem × ModuleInfo → Option (Mem × ModuleInfo) → Mem × ModuleInfo
loaded_or kept none = kept
loaded_or kept (some loaded) = loaded

-- The switch on the result of `InitModuleInfo`: what is no module leaves memory and the information
-- alone.
unfoldable pub place : Mem → ℕ → ModuleInfo → ℕ → Option ModuleInfo → Mem × ModuleInfo
place m start before free none = (m, before)
place m start before free (some info) =
    if is_known info.module_type
    then loaded_or (m, placed info free) (load_module m start (placed info free))
    else (m, info)

unfoldable pub init_and_place : Mem → ℕ → ModuleInfo → ℕ → Mem × ModuleInfo
init_and_place m start before free = place m start before free (init_module_info m start)

-- `struct ResetData`, less the fields that are not used here
pub record ResetData : Type 0 where
  pub mem_size : ℕ
  pub start_address : ℕ
  pub mod_0 : ℕ
  pub mod_1 : ℕ

-- What is handed to LOADCORE: the memory, its entry point and the reset data.
pub record Handover : Type 0 where
  pub mem : Mem
  pub entry : ℕ
  pub reset : ResetData

-- `BeginBootupSequence` up to the call of LOADCORE, which does not return. `sysmem` is the run of the
-- first module's entry point, with the size of memory: the memory that it leaves, and the start of what
-- is free. `stack` is what the structures on the stack hold at first.
unfoldable pub begin_bootup_sequence :
    (Mem → ℕ → ℕ → Mem × ℕ) → ModuleInfo × ModuleInfo → Mem → ResetData → Handover
begin_bootup_sequence sysmem stack m reset =
    let bytes = mul32 reset.mem_size 0x10_0000 in
    let (m1, info0) = init_and_place m reset.mod_0 stack.0 reset.start_address in
    let (m2, free) = sysmem m1 info0.entry_point bytes in
    let (m3, info1) = init_and_place m2 reset.mod_1 stack.1 free in
    record {
      mem = m3;
      entry = info1.entry_point;
      reset = record reset { start_address = info0.text_start };
    }
