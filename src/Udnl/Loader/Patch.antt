-- ===== src/Udnl/Loader/Patch.antt =====
-- What relocations do to memory: done one after the other, in place, they give every word the value
-- that it has when all of them read the memory of the beginning.
use ps2esdl.Prelude.{
  ℕ, ◌%◌, ◌≡◌, ◌≢◌, ◌∙◌, refl, ap, inl, inr, Bool, true, false, ◌&&◌, ◌||◌, List, [], ◌∷◌, ◌++◌,
  ◌==◌, if◌then◌else◌, add32, arith, Bool-cases,
}
use ps2esdl.Udnl.Relocation.{relocate_hi16, relocate_hi16-set_low}
use ps2esdl.Udnl.Loader.{Mem, ElfRel, relocate_word, is_word_kind, relocate_one, relocate_pair}

-- An entry by itself, or an R_MIPS_HI16 with the entry after it
pub data Patch : Type 0 where
  one : ElfRel → Patch
  pair : ElfRel → ElfRel → Patch

module _ (base : ℕ) where
  abbrev pub target : ElfRel → ℕ
  target r = add32 base r.offset

  -- The patch changes the word.
  abbrev pub names : Patch → ℕ → Bool
  names (one r) b = is_word_kind (r.info % 0x100) && b == target r
  names (pair r s) b = b == target r || b == target s

  abbrev pub named : List Patch → ℕ → Bool
  named [] b = false
  named (p ∷ ps) b = names p b || named ps b

  -- A pair changes two words.
  abbrev pub IsSplit : Patch → Type 0
  IsSplit (one r) = Unit {0}
  IsSplit (pair r s) = target s ≢ target r

  -- No two patches change the same word.
  abbrev pub IsDistinct : List Patch → Type 0
  IsDistinct [] = Unit {0}
  IsDistinct (p ∷ ps) =
      ((b : ℕ) → names p b ≡ true → named ps b ≡ false) × IsSplit p × IsDistinct ps

  -- The value that the patch gives to a word that it names, from the memory `m`
  abbrev pub new_word : Mem → Patch → ℕ → ℕ
  new_word m (one r) b = relocate_word base (r.info % 0x100) b (m b)
  new_word m (pair r s) b =
      let words = relocate_hi16 base (m (target r)) (m (target s)) in
      if b == target r then words.0 else words.1

  -- The values that patches give to a word, each from the memory `m`
  abbrev pub relocated : Mem → List Patch → ℕ → ℕ
  relocated m [] b = m b
  relocated m (p ∷ ps) b = if names p b then new_word m p b else relocated m ps b

  abbrev pub apply : Mem → Patch → Mem
  apply m (one r) = relocate_one m base r
  apply m (pair r s) = relocate_pair m base r s

  -- One after the other
  abbrev pub run : Mem → List Patch → Mem
  run m [] = m
  run m (p ∷ ps) = run (apply m p) ps

  apply-named :
      (m : Mem) (p : Patch) (b : ℕ) → IsSplit p → names p b ≡ true → apply m p b ≡ new_word m p b
  unfolding relocate_one relocate_pair
  apply-named m (one r) b split h = ground arith
  apply-named m (pair r s) b split h =
      ground (arith, relocate_hi16-set_low base (m (target r)) (m (target s)))

  apply-other : (m : Mem) (p : Patch) (b : ℕ) → names p b ≡ false → apply m p b ≡ m b
  unfolding relocate_one relocate_pair
  apply-other m (one r) b h = ground arith
  apply-other m (pair r s) b h = ground arith

  -- A word that no patch names keeps its value.
  pub relocated-other :
      (m : Mem) (ps : List Patch) (b : ℕ) → named ps b ≡ false → relocated m ps b ≡ m b
  relocated-other m [] b h = refl
  relocated-other m (p ∷ ps) b h = elim (Bool-cases (names p b)) [
    | inl e ↦ absurd (ground arith)
    | inr e ↦ rw e (relocated-other m ps b (ground arith))
  ]

  new_word_congr :
      (m m1 : Mem) (p : Patch) (b : ℕ)
      → ((c : ℕ) → names p c ≡ true → m1 c ≡ m c)
      → names p b ≡ true
      → new_word m1 p b ≡ new_word m p b
  new_word_congr m m1 (one r) b agree h = ap (relocate_word base (r.info % 0x100) b) (agree b h)
  new_word_congr m m1 (pair r s) b agree h =
      rw (agree (target r) (ground arith), agree (target s) (ground arith))

  relocated_congr :
      (m m1 : Mem) (ps : List Patch) (b : ℕ)
      → ((c : ℕ) → named ps c ≡ true → m1 c ≡ m c)
      → m1 b ≡ m b
      → relocated m1 ps b ≡ relocated m ps b
  relocated_congr m m1 [] b agree h = h
  relocated_congr m m1 (p ∷ ps) b agree h = elim (Bool-cases (names p b)) [
    | inl e ↦ rw e (new_word_congr m m1 p b (λ c n. agree c (rw n)) e)
    | inr e ↦ rw e (relocated_congr m m1 ps b (λ c n. agree c (ground (arith, n))) h)
  ]

  -- Patches that are applied one after the other, no two of them to the same word, give every word what
  -- they give it from the memory of the beginning.
  pub run-relocated :
      (m : Mem) (ps : List Patch) (b : ℕ) → IsDistinct ps → run m ps b ≡ relocated m ps b
  run-relocated m [] b d = refl
  run-relocated m (p ∷ ps) b (apart, split, d) = elim (Bool-cases (names p b)) [
    | inl e ↦ rw e (
        run-relocated (apply m p) ps b d
        ∙ relocated-other (apply m p) ps b (apart b e)
        ∙ apply-named m p b split e)
    | inr e ↦ rw e (
        run-relocated (apply m p) ps b d
        ∙ relocated_congr m (apply m p) ps b (λ c n. apply-other m p c (unnamed c n))
            (apply-other m p b e))
  ]
    where
      unnamed : (c : ℕ) → named ps c ≡ true → names p c ≡ false
      unnamed c n = elim (Bool-cases (names p c)) [ inl e ↦ cc (apart c e) | inr e ↦ e ]

  pub run-other : (m : Mem) (ps : List Patch) (b : ℕ) → named ps b ≡ false → run m ps b ≡ m b
  run-other m [] b h = refl
  run-other m (p ∷ ps) b h =
      run-other (apply m p) ps b (ground arith) ∙ apply-other m p b (ground arith)

  pub named-append : (ps qs : List Patch) (b : ℕ) → named (ps ++ qs) b ≡ (named ps b || named qs b)
  named-append [] qs b = refl
  named-append (p ∷ ps) qs b = rw (named-append ps qs b) (ground arith)

  pub run-append : (m : Mem) (ps qs : List Patch) → run m (ps ++ qs) ≡ run (run m ps) qs
  run-append m [] qs = refl
  run-append m (p ∷ ps) qs = run-append (apply m p) ps qs
