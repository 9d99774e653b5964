-- ===== src/Udnl/Modules/Select.antt =====
-- SelectModuleFromImages of Modules.antt: the newest version is selected.
use ps2esdl.Prelude.{
  ℕ, ◌≤◌, ◌<◌, ◌≡◌, ◌⊎◌, inl, inr, ◌∙◌, refl, ap, sym, Option, none, some, List, get_elem?, arith,
  Option-cases,
}
use mathlib.Core.Option.{some-injective, none-ne-some}
use ps2esdl.Udnl.Romdir.{RomdirFileStat, get_file_stat_from_image}
use ps2esdl.Udnl.Modules.Newest.{IsNewest, Newest, Known, select_from-Newest}
use ps2esdl.Udnl.Modules.{
  ImageData, lookup_in, module_name, version_in, select_from, select_module_from_images,
}

module _ (word : ℕ → ℕ) (images : List ImageData) (name : List ℕ) (i : ℕ) where
  -- A module that has a version was found in an image.
  record IsFound : Type 0 where
    image : ImageData
    stat : RomdirFileStat
    at : get_elem? images i ≡ some image
    looked : lookup_in images name i ≡ some (some stat)
    found : get_file_stat_from_image image.stat name ≡ some (some stat)

  lookup_in-none : get_elem? images i ≡ none → lookup_in images name i ≡ none
  unfolding lookup_in
  lookup_in-none q = rw (lookup_in, q) refl

  lookup_in-skip :
      (image : ImageData)
      → get_elem? images i ≡ some image
      → image.filename ≡ none
      → lookup_in images name i ≡ some none
  unfolding lookup_in
  lookup_in-skip image q q1 = rw (lookup_in, q, q1) refl

  lookup_in-has :
      (image : ImageData) (file : List ℕ)
      → get_elem? images i ≡ some image
      → image.filename ≡ some file
      → lookup_in images name i ≡ get_file_stat_from_image image.stat name
  unfolding lookup_in
  lookup_in-has image file q q1 = rw (lookup_in, q, q1) refl

  lookup_in-found : (stat : RomdirFileStat) → lookup_in images name i ≡ some (some stat) → IsFound
  lookup_in-found stat e = elim (Option-cases (get_elem? images i)) [
    | inl q ↦ absurd (none-ne-some (some stat) (sym (lookup_in-none q) ∙ e))
    | inr (image, q) ↦ elim (Option-cases image.filename) [
      | inl q1 ↦ absurd (
          none-ne-some stat (some-injective none (some stat) (sym (lookup_in-skip image q q1) ∙ e)))
      | inr (file, q1) ↦ record {
        image = image;
        stat = stat;
        at = q;
        looked = e;
        found = sym (lookup_in-has image file q q1) ∙ e;
      }
    ]
  ]

  version_in-none : lookup_in images name i ≡ none → version_in word images name i ≡ none
  unfolding version_in
  version_in-none q = rw (version_in, q) refl

  version_in-skip : lookup_in images name i ≡ some none → version_in word images name i ≡ some none
  unfolding version_in
  version_in-skip q = rw (version_in, q) refl

  version_in-found : (v : ℕ) → version_in word images name i ≡ some (some v) → IsFound
  version_in-found v e = elim (Option-cases (lookup_in images name i)) [
    | inl q ↦ absurd (none-ne-some (some v) (sym (version_in-none q) ∙ e))
    | inr (r, q) ↦ elim (Option-cases r) [
      | inl q1 ↦ absurd (
          none-ne-some v
            (some-injective none (some v) (sym (version_in-skip (q ∙ ap some q1)) ∙ e)))
      | inr (stat, q1) ↦ lookup_in-found stat (q ∙ ap some q1)
    ]
  ]

module _ (word : ℕ → ℕ) (images : List ImageData) (n : ℕ) (line : List ℕ) where
  -- The version of the module that the line names, in each image.
  abbrev pub versions : ℕ → Option (Option ℕ)
  versions = version_in word images (module_name 10 line)

  select-none :
      select_from versions n none ≡ some none
      → select_module_from_images word images n line ≡ some none
  unfolding select_module_from_images
  select-none q = rw (select_module_from_images, q) refl

  select-some :
      (i v : ℕ) (image : ImageData)
      → select_from versions n none ≡ some (some (i, v))
      → get_elem? images i ≡ some image
      → select_module_from_images word images n line
        ≡ get_file_stat_from_image image.stat (module_name 10 line)
  unfolding select_module_from_images
  select-some i v image q q1 = rw (select_module_from_images, q, q1) refl

  -- No image has the module and NULL is returned, or the file of the newest one is.
  abbrev pub Selection : Type 0
  Selection =
      (((j : ℕ) → 0 ≤ j → j < n → versions j ≡ some none)
        × (select_module_from_images word images n line ≡ some none))
      ⊎ ((i : ℕ) × (v : ℕ) × (stat : RomdirFileStat) × IsNewest versions 0 n i v
          × (lookup_in images (module_name 10 line) i ≡ some (some stat))
          × (select_module_from_images word images n line ≡ some (some stat)))

  select-Selection :
      (r : Option (ℕ × ℕ))
      → select_from versions n none ≡ some r
      → Newest versions 0 n r
      → Selection
  select-Selection none run all = inl (all, select-none run)
  select-Selection (some (i, v)) run b =
      let found = version_in-found word images (module_name 10 line) i v b.has in
      inr
        (i, v, found.stat, b, found.looked, select-some i v found.image run found.at ∙ found.found)

  -- Where each of the first `n` images can be looked at, SelectModuleFromImages returns NULL when none
  -- of them has the module that the line names; otherwise the module's file in the image whose version
  -- of it is the newest, the last of these images when several have that version.
  pub select_module_from_images-newest : Known versions n → Selection
  select_module_from_images-newest known =
      let (r, run, newest) =
        select_from-Newest versions n n none (omega arith) known
          (λ j le lt. absurd (omega arith)) in
      select-Selection r run newest
