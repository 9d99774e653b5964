-- ===== src/Udnl/Loader/Section.antt =====
-- The relocation sections of an IRX module: the loops of LoadIRXModule of Loader.antt apply the patches
-- that the entries of the sections stand for.
use ps2esdl.Prelude.{
  ℕ, zero, suc, ◌/◌, ◌%◌, ◌≡◌, ◌∙◌, refl, sym, ap, Bool, true, false, List, [], ◌∷◌, ◌++◌, ◌==◌,
  length, add32, arith,
}
use ps2esdl.Udnl.Loader.{Mem, ElfRel, rel_at, relocate_one, relocate_pair, reloc_loop, section_loop}
use ps2esdl.Udnl.Loader.Patch.{
  Patch, one, pair, IsDistinct, named, relocated, apply, run, run-relocated, run-other, run-append,
  named-append,
}

-- The entries of a section in groups: an R_MIPS_HI16 takes the entry after it, and there is one.
pub data Groups : List ElfRel → List Patch → Type 0 where
  empty : Groups [] []
  single :
      {rs : List ElfRel} {ps : List Patch} (r : ElfRel)
      → (r.info % 0x100 == 5) ≡ false
      → Groups rs ps
      → Groups (r ∷ rs) (one r ∷ ps)
  both :
      {rs : List ElfRel} {ps : List Patch} (r s : ElfRel)
      → (r.info % 0x100 == 5) ≡ true
      → Groups rs ps
      → Groups (r ∷ s ∷ rs) (pair r s ∷ ps)

-- `is_file` tells the words of the file from the others.
module _ (base module_start : ℕ) (is_file : ℕ → Bool) where
  -- The entries stand in the file at `at`.
  abbrev pub Stands : Mem → ℕ → List ElfRel → Type 0
  Stands m at [] = Unit {0}
  Stands m at (r ∷ rs) =
      (rel_at m at ≡ r)
      × (is_file at ≡ true)
      × (is_file (add32 at 4) ≡ true)
      × Stands m (add32 at 8) rs

  abbrev pub Agrees : Mem → Mem → Type 0
  Agrees m m1 = (b : ℕ) → is_file b ≡ true → m1 b ≡ m b

  -- The patches change no word of the file.
  abbrev pub Spares : List Patch → Type 0
  Spares ps = (b : ℕ) → is_file b ≡ true → named base ps b ≡ false

  Stands-Agrees :
      (m m1 : Mem) (at : ℕ) (rs : List ElfRel) → Agrees m m1 → Stands m at rs → Stands m1 at rs
  unfolding rel_at
  Stands-Agrees m m1 at [] agree st = tt
  Stands-Agrees m m1 at (r ∷ rs) agree (e, f, f1, st) = (
    cc (agree at f, agree (add32 at 4) f1, e),
    f,
    f1,
    Stands-Agrees m m1 (add32 at 8) rs agree st,
  )

  run-Agrees : (m : Mem) (ps : List Patch) → Spares ps → Agrees m (run base m ps)
  run-Agrees m ps spares b f = run-other base m ps b (spares b f)

  reloc_loop-single :
      (k : ℕ) (m : Mem) (at : ℕ) (r : ElfRel)
      → rel_at m at ≡ r
      → (r.info % 0x100 == 5) ≡ false
      → reloc_loop base (suc k) m at ≡ reloc_loop base k (relocate_one m base r) (add32 at 8)
  unfolding reloc_loop
  reloc_loop-single zero m at r e h = rw (e, h)
  reloc_loop-single (suc k) m at r e h = rw (e, h)

  reloc_loop-zero : (m : Mem) (at : ℕ) → reloc_loop base zero m at ≡ m
  unfolding reloc_loop
  reloc_loop-zero m at = refl

  reloc_loop-both :
      (k : ℕ) (m : Mem) (at : ℕ) (r s : ElfRel)
      → rel_at m at ≡ r
      → rel_at m (add32 at 8) ≡ s
      → (r.info % 0x100 == 5) ≡ true
      → reloc_loop base (suc (suc k)) m at
        ≡ reloc_loop base k (relocate_pair m base r s) (add32 (add32 at 8) 8)
  unfolding reloc_loop
  reloc_loop-both k m at r s e e1 h = rw (e, e1, h)

  Spares-tail : (p : Patch) (ps : List Patch) → Spares (p ∷ ps) → Spares (p ∷ []) × Spares ps
  Spares-tail p ps spares = (λ b f. ground (arith, spares b f), λ b f. ground (arith, spares b f))

  -- The loop over the entries of one section.
  reloc_loop-run :
      {rs : List ElfRel} {ps : List Patch} (m : Mem) (at : ℕ)
      → Groups rs ps
      → Stands m at rs
      → Spares ps
      → reloc_loop base (length rs) m at ≡ run base m ps
  reloc_loop-run m at empty st spares = reloc_loop-zero m at
  reloc_loop-run m at (single {rs = rs} {ps = ps} r h g) (e, f, f1, st) spares =
      let (now, later) = Spares-tail (one r) ps spares in
      reloc_loop-single (length rs) m at r e h
      ∙ reloc_loop-run (apply base m (one r)) (add32 at 8) g
          (Stands-Agrees m (apply base m (one r)) (add32 at 8) rs (run-Agrees m (one r ∷ []) now)
            st)
          later
  reloc_loop-run m at (both {rs = rs} {ps = ps} r s h g) (e, f, f1, (e1, f2, f3, st)) spares =
      let (now, later) = Spares-tail (pair r s) ps spares in
      reloc_loop-both (length rs) m at r s e e1 h
      ∙ reloc_loop-run (apply base m (pair r s)) (add32 (add32 at 8) 8) g
          (Stands-Agrees m (apply base m (pair r s)) (add32 (add32 at 8) 8) rs
            (run-Agrees m (pair r s ∷ []) now) st)
          later

  -- The file has `k` section headers from `shdr` on, and the relocation sections among them hold the
  -- entries that the patches come from, in order.
  pub data HasSections (m : Mem) : ℕ → ℕ → List Patch → Type 0 where
    done : (shdr : ℕ) → HasSections m zero shdr []
    other :
        {k shdr : ℕ} {ps : List Patch}
        → is_file (add32 shdr 4) ≡ true
        → (m (add32 shdr 4) == 9) ≡ false
        → HasSections m k (add32 shdr 40) ps
        → HasSections m (suc k) shdr ps
    rel :
        {k shdr : ℕ} {ps qs all : List Patch} (rs : List ElfRel)
        → (is_file (add32 shdr 4) ≡ true)
          × (is_file (add32 shdr 16) ≡ true)
          × (is_file (add32 shdr 20) ≡ true)
          × (is_file (add32 shdr 36) ≡ true)
        → (m (add32 shdr 4) == 9) ≡ true
        → m (add32 shdr 20) / m (add32 shdr 36) ≡ length rs
        → Groups rs qs
        → Stands m (add32 module_start (m (add32 shdr 16))) rs
        → HasSections m k (add32 shdr 40) ps
        → all ≡ qs ++ ps
        → HasSections m (suc k) shdr all

  Spares-append : (qs ps : List Patch) → Spares (qs ++ ps) → Spares qs × Spares ps
  Spares-append qs ps spares = (
    λ b f. ground (arith, spares b f, named-append base qs ps b),
    λ b f. ground (arith, spares b f, named-append base qs ps b),
  )

  section_loop-rel :
      (k : ℕ) (m : Mem) (shdr n : ℕ)
      → (m (add32 shdr 4) == 9) ≡ true
      → m (add32 shdr 20) / m (add32 shdr 36) ≡ n
      → section_loop base module_start (suc k) m shdr
        ≡ section_loop base module_start k
            (reloc_loop base n m (add32 module_start (m (add32 shdr 16))))
            (add32 shdr 40)
  unfolding section_loop
  section_loop-rel k m shdr n t e = rw (t, e)

  section_loop-other :
      (k : ℕ) (m : Mem) (shdr : ℕ)
      → (m (add32 shdr 4) == 9) ≡ false
      → section_loop base module_start (suc k) m shdr
        ≡ section_loop base module_start k m (add32 shdr 40)
  unfolding section_loop
  section_loop-other k m shdr t = rw t

  section_loop-zero : (m : Mem) (shdr : ℕ) → section_loop base module_start zero m shdr ≡ m
  unfolding section_loop
  section_loop-zero m shdr = refl

  -- The loop over the section headers, in a memory `m1` that has the same file.
  section_loop-run :
      (m m1 : Mem) {k shdr : ℕ} {ps : List Patch}
      → Agrees m m1
      → HasSections m k shdr ps
      → Spares ps
      → section_loop base module_start k m1 shdr ≡ run base m1 ps
  section_loop-run m m1 agree (done shdr) spares = section_loop-zero m1 shdr
  section_loop-run m m1 agree (other {k = k} {shdr = shdr} f t rest) spares =
      section_loop-other k m1 shdr (rw (agree _ f) t) ∙ section_loop-run m m1 agree rest spares
  section_loop-run m m1 agree
        (rel {k = k} {shdr = shdr} {ps = ps} {qs = qs} rs (f, f1, f2, f3) t e g st rest eq) spares =
      let (now, later) = Spares-append qs ps (rw (← eq) spares) in
      section_loop-rel k m1 shdr (length rs) (rw (agree _ f) t) (rw (agree _ f2, agree _ f3) e)
      ∙ ap (λ m2. section_loop base module_start k m2 (add32 shdr 40))
          (reloc_loop-run m1 (add32 module_start (m1 (add32 shdr 16))) g
            (rw (agree _ f1) (Stands-Agrees m m1 _ rs agree st)) now)
      ∙ section_loop-run m (run base m1 qs) (λ b h. run-Agrees m1 qs now b h ∙ agree b h) rest later
      ∙ sym (run-append base m1 qs ps)
      ∙ ap (run base m1) (sym eq)

  -- Every word has the value that the entry which names it gives it from memory as it was before the
  -- first relocation, and a word that none names has kept its value.
  pub section_loop-relocated :
      (m m1 : Mem) {k shdr : ℕ} {ps : List Patch}
      → Agrees m m1
      → HasSections m k shdr ps
      → Spares ps
      → IsDistinct base ps
      → (b : ℕ) → section_loop base module_start k m1 shdr b ≡ relocated base m1 ps b
  section_loop-relocated m m1 {ps = ps} agree has spares distinct b =
      ap (λ (m2 : Mem). m2 b) (section_loop-run m m1 agree has spares)
      ∙ run-relocated base m1 ps b distinct
