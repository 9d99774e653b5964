-- ===== src/Udnl/Modules/Scan.antt =====
-- ScanImagesForFile of Modules.antt: the last image that has the file.
use ps2esdl.Prelude.{
  ℕ, zero, suc, ◌<◌, ◌≡◌, ◌⊎◌, inl, inr, ◌∙◌, refl, ap, Option, none, some, List, arith, dec_lt,
  Option-cases,
}
use ps2esdl.Udnl.Romdir.{RomdirFileStat}
use ps2esdl.Udnl.Modules.{ImageData, lookup_in, scan_from, scan_images_for_file}

module _ (look : ℕ → Option (Option RomdirFileStat)) where
  scan_from-skip : (i : ℕ) → look i ≡ some none → scan_from look (suc i) ≡ scan_from look i
  unfolding scan_from
  scan_from-skip i e = rw (scan_from, e)

  scan_from-stop :
      (i : ℕ) (stat : RomdirFileStat)
      → look i ≡ some (some stat)
      → scan_from look (suc i) ≡ some (some stat)
  unfolding scan_from
  scan_from-stop i stat e = rw (scan_from, e)

  -- The file is in none of the first `n` images, or `i` is the last of them that has it.
  pub Scanned : ℕ → Option (Option RomdirFileStat) → Type 0
  Scanned n result =
      ((result ≡ some none) × ((j : ℕ) → j < n → look j ≡ some none))
      ⊎ ((i : ℕ) × (stat : RomdirFileStat) × (i < n)
          × (look i ≡ some (some stat))
          × ((j : ℕ) → i < j → j < n → look j ≡ some none)
          × (result ≡ some (some stat)))

  extend :
      (n : ℕ)
      → look n ≡ some none
      → Scanned n (scan_from look n)
      → Scanned (suc n) (scan_from look (suc n))
  unfolding Scanned
  extend n e (inl (stop, all)) = inl (
    scan_from-skip n e ∙ stop,
    λ j lt. elim (dec_lt j n) [
      | yes h ↦ all j h
      | no h ↦ let eq : j ≡ n = omega arith in ap look eq ∙ e
    ],
  )
  extend n e (inr (i, stat, lt, has, later, stop)) = inr (
    i,
    stat,
    omega arith,
    has,
    (λ j above below. elim (dec_lt j n) [
      | yes h ↦ later j above h
      | no h ↦ let eq : j ≡ n = omega arith in ap look eq ∙ e
    ]),
    scan_from-skip n e ∙ stop,
  )

  scan_from-Scanned :
      (n : ℕ)
      → ((i : ℕ) → i < n → (r : Option RomdirFileStat) × (look i ≡ some r))
      → Scanned n (scan_from look n)
  unfolding Scanned scan_from
  scan_from-Scanned zero known = inl (refl, λ j lt. absurd (omega arith))
  scan_from-Scanned (suc n) known =
      let (r, e) = known n (omega arith) in
      let before = scan_from-Scanned n (λ i lt. known i (omega arith)) in
      elim (Option-cases r) [
        | inl q ↦ extend n (e ∙ ap some q) before
        | inr (stat, q) ↦ inr (
          n,
          stat,
          omega arith,
          e ∙ ap some q,
          (λ j above below. absurd (omega arith)),
          scan_from-stop n stat (e ∙ ap some q),
        )
      ]

-- Where each of the first `n` images can be looked at, ScanImagesForFile panics when none of them has
-- the file, and otherwise finds it in the last of these images that has it.
pub scan_images_for_file-last :
    (images : List ImageData) (n : ℕ) (filename : List ℕ)
    → ((i : ℕ) → i < n → (r : Option RomdirFileStat) × (lookup_in images filename i ≡ some r))
    → Scanned (lookup_in images filename) n (scan_images_for_file images n filename)
unfolding scan_images_for_file
scan_images_for_file-last images n filename known =
    scan_from-Scanned (lookup_in images filename) n known
