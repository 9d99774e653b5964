-- ===== src/Udnl/Loader/Segment.antt =====
-- The segment of a module, as LoadELFModule and LoadIRXModule of Loader.antt bring it into memory.
use ps2esdl.Prelude.{
  ℕ, ◌+◌, ◌-◌, ◌*◌, ◌/◌, ◌%◌, ◌≤◌, ◌<◌, ◌≡◌, ◌∙◌, ap, subst, ◌⊎◌, inl, inr, add32, sub32, u32_mod,
  arith, lt→ltb, le→ltb, dec_lt,
}
use ps2esdl.Udnl.Loader.{
  Mem, ProgramHeader, copy_section, program_header, program_header_1, load_segment, load_elf_module,
}
use ps2esdl.Udnl.Loader.Copy.{
  IsOutside, AreApart, IsCopied, IsZeroed, copy_section-IsCopied, zero_section-IsZeroed,
}

-- A segment whose sizes are whole words, that fits below the end of memory at `to`, apart from the
-- file and from the header.
pub record IsLoadable (m : Mem) (module_start phdr to : ℕ) : Type 0 where
  pub whole_file : (program_header m phdr).filesz % 4 ≡ 0
  pub whole_mem : (program_header m phdr).memsz % 4 ≡ 0
  pub larger : (program_header m phdr).filesz ≤ (program_header m phdr).memsz
  pub file_fits :
      add32 module_start (program_header m phdr).offset + (program_header m phdr).filesz < u32_mod
  pub fits : to + (program_header m phdr).memsz < u32_mod
  pub apart :
      AreApart
        (add32 module_start (program_header m phdr).offset)
        to
        ((program_header m phdr).memsz / 4)
  pub header_below : phdr + 20 < u32_mod
  pub header_apart : (phdr + 24 ≤ to) ⊎ (to + (program_header m phdr).memsz ≤ phdr)

-- The words of the file stand at `to`, zeros behind them up to the size in memory, and nothing else
-- was changed.
pub record IsLoaded (m m' : Mem) (src to filesz memsz : ℕ) : Type 0 where
  pub loaded : (k : ℕ) → k < filesz / 4 → m' (to + 4 * k) ≡ m (src + 4 * k)
  pub cleared : (k : ℕ) → filesz / 4 ≤ k → k < memsz / 4 → m' (to + 4 * k) ≡ 0
  pub kept : (b : ℕ) → IsOutside to (memsz / 4) b → m' b ≡ m b

copied-IsLoaded :
    (m m' : Mem) (src to filesz : ℕ)
    → IsCopied m m' src to (filesz / 4)
    → IsLoaded m m' src to filesz filesz
copied-IsLoaded m m' src to filesz c = record {
  loaded = c.copied;
  cleared = λ k h l. absurd (omega arith);
  kept = c.kept;
}

zeroed-IsLoaded :
    (m m1 m' : Mem) (src to filesz memsz : ℕ)
    → filesz % 4 ≡ 0
    → filesz ≤ memsz
    → IsCopied m m1 src to (filesz / 4)
    → IsZeroed m1 m' (to + filesz) ((memsz - filesz) / 4)
    → IsLoaded m m' src to filesz memsz
zeroed-IsLoaded m m1 m' src to filesz memsz whole le c z = record {
  loaded = λ k h. z.kept (to + 4 * k) (inl (omega arith)) ∙ c.copied k h;
  cleared = cleared;
  kept = λ b o. z.kept b (behind b o) ∙ c.kept b (around b o);
}
  where
    cleared : (k : ℕ) → filesz / 4 ≤ k → k < memsz / 4 → m' (to + 4 * k) ≡ 0
    cleared k h l = ap m' (omega arith) ∙ z.zeroed (k - filesz / 4) (omega arith)

    behind : (b : ℕ) → IsOutside to (memsz / 4) b → IsOutside (to + filesz) ((memsz - filesz) / 4) b
    behind b (inl h) = inl (omega arith)
    behind b (inr h) = inr (omega arith)

    around : (b : ℕ) → IsOutside to (memsz / 4) b → IsOutside to (filesz / 4) b
    around b (inl h) = inl (omega arith)
    around b (inr h) = inr (omega arith)

-- What is kept of a header that a copy did not reach
header_kept :
    (m m1 : Mem) (src to phdr n : ℕ)
    → IsCopied m m1 src to n
    → phdr + 20 < u32_mod
    → (phdr + 24 ≤ to) ⊎ (to + 4 * n ≤ phdr)
    → ((program_header m1 phdr).filesz ≡ (program_header m phdr).filesz)
      × ((program_header m1 phdr).memsz ≡ (program_header m phdr).memsz)
unfolding program_header
header_kept m m1 src to phdr n c small apart = (
  c.kept (add32 phdr 16) (elim apart [ inl h ↦ inl (omega arith) | inr h ↦ inr (omega arith) ]),
  c.kept (add32 phdr 20) (elim apart [ inl h ↦ inl (omega arith) | inr h ↦ inr (omega arith) ]),
)

module _ (m : Mem) (module_start phdr to : ℕ) (ok : IsLoadable m module_start phdr to) where
  abbrev ph : ProgramHeader
  ph = program_header m phdr

  abbrev src : ℕ
  src = add32 module_start ph.offset

  abbrev m1 : Mem
  m1 = copy_section m src to ph.filesz

  copy : IsCopied m m1 src to (ph.filesz / 4)
  copy =
      copy_section-IsCopied m src to ph.filesz (omega (arith, ok.file_fits))
        (omega (arith, ok.fits, ok.larger))
        (elim ok.apart [
          | inl h ↦ inl (omega (arith, ok.larger))
          | inr h ↦ inr (omega (arith, ok.larger))
        ])

  same : ((program_header m1 phdr).filesz ≡ ph.filesz) × ((program_header m1 phdr).memsz ≡ ph.memsz)
  same =
      header_kept m m1 src to phdr (ph.filesz / 4) copy ok.header_below
        (elim ok.header_apart [ inl h ↦ inl h | inr h ↦ inr (omega (arith, ok.larger)) ])

  -- LoadELFModule and LoadIRXModule begin with this.
  pub load_segment-IsLoaded :
      IsLoaded m (load_segment m module_start phdr to) src to ph.filesz ph.memsz
  unfolding load_segment
  load_segment-IsLoaded =
      rw (same.0, same.1)
        (elim (dec_lt ph.filesz ph.memsz) [
          | yes lt ↦
              rw (lt→ltb ph.filesz ph.memsz lt, start, words)
                (zeroed-IsLoaded m m1 _ src to ph.filesz ph.memsz ok.whole_file ok.larger copy (
                  zero_section-IsZeroed m1 (to + ph.filesz) ((ph.memsz - ph.filesz) / 4)
                    (omega (arith, ok.fits, ok.larger))))
          | no ge ↦ rw (le→ltb ph.filesz ph.memsz (omega arith)) (
              subst (λ n. IsLoaded m m1 src to ph.filesz n) (equal ge)
                (copied-IsLoaded m m1 src to ph.filesz copy))
        ])
    where
      start : add32 to ph.filesz ≡ to + ph.filesz
      start = omega (arith, ok.fits, ok.larger)

      words : sub32 ph.memsz ph.filesz / 4 ≡ (ph.memsz - ph.filesz) / 4
      words = omega (arith, ok.fits, ok.larger)

      equal : ¬ (ph.filesz < ph.memsz) → ph.filesz ≡ ph.memsz
      equal h = omega (arith, ok.larger)

-- LoadELFModule of a segment whose sizes are whole words, which fits below the end of memory at its
-- address, apart from the file and from the header: the words of the file stand at the address, zeros
-- behind them up to the size in memory, and nothing else is changed.
pub load_elf_module-IsLoaded :
    (m : Mem) (module_start : ℕ)
    → let phdr = program_header_1 m module_start in
      let ph = program_header m phdr in
      IsLoadable m module_start phdr ph.vaddr
      → IsLoaded m
          (load_elf_module m module_start)
          (add32 module_start ph.offset)
          ph.vaddr
          ph.filesz
          ph.memsz
unfolding load_elf_module
load_elf_module-IsLoaded m module_start ok =
    load_segment-IsLoaded m module_start (program_header_1 m module_start)
      (program_header m (program_header_1 m module_start)).vaddr ok
