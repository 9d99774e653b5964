-- ===== src/EeCore/Patches/Sweep.antt =====
-- scan_pattern and the search of patch_ELF of Patches.antt, against one pass over all of memory.
use ps2esdl.Prelude.{
  ℕ, zero, suc, ◌+◌, ◌-◌, ◌≤◌, ◌<◌, ◌≡◌, inl, inr, ◌∙◌, refl, sym, ap, Bool, true, false, Option,
  none, some, if◌then◌else◌, arith, Bool-cases, Option-cases, dec_lt, lt→ltb, le→ltb,
}
use mathlib.Core.Path.{subst}
use ps2esdl.EeCore.Patches.{
  PatchData, memory_end, matches, write_quad, scan_words, scan_pattern, search_loop,
}

-- The first of the `n` indices from `i` on that passes the test, or none does.
pub IsFirst : (ℕ → Bool) → ℕ → ℕ → Option ℕ → Type 0
IsFirst test n i none = (j : ℕ) → i ≤ j → j < i + n → test j ≡ false
IsFirst test n i (some p) =
    (i ≤ p) × (p < i + n) × (test p ≡ true) × ((j : ℕ) → i ≤ j → j < p → test j ≡ false)

module _ (test : ℕ → Bool) where
  same_index : (i j : ℕ) {b : Bool} → i ≤ j → ¬ (i < j) → test i ≡ b → test j ≡ b
  same_index i j le last e = let eq : j ≡ i = omega arith in ap test eq ∙ e

  IsFirst-skip :
      (n i : ℕ) (r : Option ℕ)
      → test i ≡ false
      → IsFirst test n (i + 1) r
      → IsFirst test (suc n) i r
  unfolding IsFirst
  IsFirst-skip n i none miss all = λ j le lt. elim (dec_lt i j) [
    | yes h ↦ all j (omega arith) (omega arith)
    | no h ↦ same_index i j le h miss
  ]
  IsFirst-skip n i (some p) miss (le, lt, hit, before) = (
    omega arith,
    omega arith,
    hit,
    λ j above below. elim (dec_lt i j) [
      | yes h ↦ before j (omega arith) below
      | no h ↦ same_index i j above h miss
    ],
  )

  pub scan_words-IsFirst : (n i : ℕ) → IsFirst test n i (scan_words test n i)
  unfolding IsFirst scan_words
  scan_words-IsFirst zero i = λ j le lt. absurd (omega arith)
  scan_words-IsFirst (suc n) i = elim (Bool-cases (test i)) [
    | inl hit ↦ rw hit (omega arith, omega arith, hit, λ j above below. absurd (omega arith))
    | inr miss ↦
        rw miss (IsFirst-skip n i (scan_words test n (i + 1)) miss (scan_words-IsFirst n (i + 1)))
  ]

-- One pass over the `n` words from `i` on, which patches wherever the pattern is.
unfoldable pub sweep : PatchData → ℕ → ℕ → (ℕ → ℕ) → ℕ → ℕ
sweep patch zero i mem = mem
sweep patch (suc n) i mem =
    sweep patch n (i + 1)
      (if matches patch.src patch.mask mem i then write_quad patch.patch_data i mem else mem)

module _ (patch : PatchData) where
  sweep-none :
      (n i : ℕ) (mem : ℕ → ℕ)
      → IsFirst (matches patch.src patch.mask mem) n i none
      → sweep patch n i mem ≡ mem
  unfolding sweep IsFirst
  sweep-none zero i mem all = refl
  sweep-none (suc n) i mem all =
      rw (all i (omega arith) (omega arith))
        (sweep-none n (i + 1) mem (λ j le lt. all j (omega arith) (omega arith)))

  sweep-zero : (i : ℕ) (mem : ℕ → ℕ) → sweep patch 0 i mem ≡ mem
  unfolding sweep
  sweep-zero i mem = refl

  sweep-miss :
      (n i : ℕ) (mem : ℕ → ℕ)
      → matches patch.src patch.mask mem i ≡ false
      → sweep patch (suc n) i mem ≡ sweep patch n (i + 1) mem
  unfolding sweep
  sweep-miss n i mem miss = rw miss

  sweep-hit :
      (n i : ℕ) (mem : ℕ → ℕ)
      → matches patch.src patch.mask mem i ≡ true
      → sweep patch (suc n) i mem ≡ sweep patch n (i + 1) (write_quad patch.patch_data i mem)
  unfolding sweep
  sweep-hit n i mem hit = rw hit

  -- The pass up to the first place, and the rest of it
  sweep-first :
      (n i : ℕ) (mem : ℕ → ℕ) (p : ℕ)
      → IsFirst (matches patch.src patch.mask mem) n i (some p)
      → sweep patch n i mem
        ≡ sweep patch (n - (p + 1 - i)) (p + 1) (write_quad patch.patch_data p mem)
  unfolding IsFirst
  sweep-first zero i mem p (le, lt, hit, before) = absurd (omega arith)
  sweep-first (suc n) i mem p (le, lt, hit, before) = elim (dec_lt i p) [
    | yes h ↦
        sweep-miss n i mem (before i (omega arith) h)
        ∙ sweep-first n (i + 1) mem p
            (omega arith, omega arith, hit, λ j above below. before j (omega arith) below)
        ∙ ap (λ m. sweep patch m (p + 1) (write_quad patch.patch_data p mem)) (omega arith)
    | no h ↦
        let eq : p ≡ i = omega arith in
        sweep-hit n i mem (ap (matches patch.src patch.mask mem) (sym eq) ∙ hit)
        ∙ ap (λ q. sweep patch n (q + 1) (write_quad patch.patch_data q mem)) (sym eq)
        ∙ ap (λ m. sweep patch m (p + 1) (write_quad patch.patch_data p mem)) (omega arith)
  ]

  pub scan_pattern-IsFirst :
      (i : ℕ) (mem : ℕ → ℕ) (r : Option ℕ)
      → scan_pattern patch.src patch.mask mem i ≡ r
      → IsFirst (matches patch.src patch.mask mem) (memory_end - i) i r
  unfolding scan_pattern
  scan_pattern-IsFirst i mem r e =
      subst (IsFirst (matches patch.src patch.mask mem) (memory_end - i) i) e
        (scan_words-IsFirst (matches patch.src patch.mask mem) (memory_end - i) i)

  pub search_loop-none :
      (terminate : Bool) (k i : ℕ) (mem : ℕ → ℕ)
      → scan_pattern patch.src patch.mask mem i ≡ none
      → search_loop patch terminate (suc k) i mem ≡ some mem
  unfolding search_loop
  search_loop-none terminate k i mem e = rw (search_loop, e)

  pub search_loop-once :
      (k i : ℕ) (mem : ℕ → ℕ) (p : ℕ)
      → scan_pattern patch.src patch.mask mem i ≡ some p
      → search_loop patch true (suc k) i mem ≡ some (write_quad patch.patch_data p mem)
  unfolding search_loop
  search_loop-once k i mem p e = rw (search_loop, e)

  search_loop-next :
      (k i : ℕ) (mem : ℕ → ℕ) (p : ℕ)
      → scan_pattern patch.src patch.mask mem i ≡ some p
      → p + 1 < memory_end
      → search_loop patch false (suc k) i mem
        ≡ search_loop patch false k (p + 1) (write_quad patch.patch_data p mem)
  unfolding search_loop
  search_loop-next k i mem p e h = rw (search_loop, e, lt→ltb (p + 1) memory_end h)

  search_loop-last :
      (k i : ℕ) (mem : ℕ → ℕ) (p : ℕ)
      → scan_pattern patch.src patch.mask mem i ≡ some p
      → memory_end ≤ p + 1
      → search_loop patch false (suc k) i mem ≡ some (write_quad patch.patch_data p mem)
  unfolding search_loop
  search_loop-last k i mem p e h = rw (search_loop, e, le→ltb (p + 1) memory_end h)

  -- The search of every place does what one pass does.
  pub search_loop-sweep :
      (fuel i : ℕ) (mem : ℕ → ℕ)
      → i ≤ memory_end
      → memory_end - i < fuel
      → search_loop patch false fuel i mem ≡ some (sweep patch (memory_end - i) i mem)
  unfolding IsFirst
  search_loop-sweep zero i mem le enough = absurd (omega arith)
  search_loop-sweep (suc k) i mem le enough =
      elim (Option-cases (scan_pattern patch.src patch.mask mem i)) [
        | inl e ↦
            search_loop-none false k i mem e
            ∙ ap some (sym (sweep-none (memory_end - i) i mem (scan_pattern-IsFirst i mem none e)))
        | inr (p, e) ↦
            let mem1 = write_quad patch.patch_data p mem in
            let first = scan_pattern-IsFirst i mem (some p) e in
            let (above, below, hit, before) = first in
            elim (dec_lt (p + 1) memory_end) [
              | yes h ↦
                  search_loop-next k i mem p e h
                  ∙ search_loop-sweep k (p + 1) mem1 (omega arith) (omega arith)
                  ∙ ap some (
                      ap (λ m. sweep patch m (p + 1) mem1) (omega arith)
                      ∙ sym (sweep-first (memory_end - i) i mem p first))
              | no h ↦
                  search_loop-last k i mem p e (omega arith)
                  ∙ ap some (
                      sym (
                        sweep-first (memory_end - i) i mem p first
                        ∙ ap (λ m. sweep patch m (p + 1) mem1) {y = 0} (omega arith)
                        ∙ sweep-zero (p + 1) mem1))
            ]
      ]
