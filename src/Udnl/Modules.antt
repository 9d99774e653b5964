-- ===== src/Udnl/Modules.antt =====
-- modules/udnl/udnl.c: finding a file, and the newest version of a module, among the images that were
-- loaded, ScanImagesForFile and SelectModuleFromImages.
pub mod Scan
pub mod Newest
pub mod Select
use ps2esdl.Prelude.{
  ℕ, zero, suc, ◌+◌, ◌-◌, ◌*◌, ◌/◌, ◌%◌, Bool, true, false, Option, none, some, List, [], ◌∷◌, ltb,
  if◌then◌else◌, get_elem?, length, u16_mod,
}
use ps2esdl.Udnl.Romdir.{
  RomImgData, RomdirFileStat, is_visible, get_file_stat_from_image, get_file_info,
}

-- `struct ImageData`; the name is NULL for an image that was not loaded.
pub record ImageData : Type 0 where
  pub filename : Option (List ℕ)
  pub fd : ℕ
  pub size : ℕ
  pub stat : RomImgData

-- The file in the image, when the image was loaded; `none` when the directory has no end, or past the
-- end of the array.
unfoldable pub lookup_in : List ImageData → List ℕ → ℕ → Option (Option RomdirFileStat)
lookup_in images filename i = elim (get_elem? images i) [
  | none ↦ none
  | some image ↦ elim image.filename [
    | none ↦ some none
    | some _ ↦ get_file_stat_from_image image.stat filename
  ]
]

-- The loop of `ScanImagesForFile`, from image `i - 1` down.
unfoldable pub scan_from : (ℕ → Option (Option RomdirFileStat)) → ℕ → Option (Option RomdirFileStat)
scan_from look zero = some none
scan_from look (suc i) = elim (look i) [
  | none ↦ none
  | some none ↦ scan_from look i
  | some (some stat) ↦ some (some stat)
]

-- `ScanImagesForFile`: `some none` is the panic.
unfoldable pub scan_images_for_file : List ImageData → ℕ → List ℕ → Option (Option RomdirFileStat)
scan_images_for_file images num_files filename = scan_from (lookup_in images filename) num_files

-- The first visible characters of the line, `n` at most
unfoldable pub module_name : ℕ → List ℕ → List ℕ
module_name zero line = []
module_name (suc n) [] = []
module_name (suc n) (c ∷ line) = if is_visible c then c ∷ module_name n line else []

module _ (word : ℕ → ℕ) where
  -- `FileVersionNum` of a file that was found
  unfoldable pub version_of : RomdirFileStat → Option ℕ
  version_of stat = elim (get_file_info word stat 2) [
    | none ↦ none
    | some none ↦ some 0
    | some (some field) ↦ some (word field % u16_mod)
  ]

  -- The version of the file in image `i`, `some none` when it is not there.
  unfoldable pub version_in : List ImageData → List ℕ → ℕ → Option (Option ℕ)
  version_in images filename i = elim (lookup_in images filename i) [
    | none ↦ none
    | some none ↦ some none
    | some (some stat) ↦ elim (version_of stat) [ none ↦ none | some v ↦ some (some v) ]
  ]

-- `ImageFileIndexNumber<0 || HighestFileVersionNum<FileVersionNum`, with the pair of both
unfoldable pub is_newer : Option (ℕ × ℕ) → ℕ → Bool
is_newer none version = true
is_newer (some (_, highest)) version = ltb highest version

-- The loop of `SelectModuleFromImages`, from image `i - 1` down: the image and its version.
unfoldable pub select_from : (ℕ → Option (Option ℕ)) → ℕ → Option (ℕ × ℕ) → Option (Option (ℕ × ℕ))
select_from version zero best = some best
select_from version (suc i) best = elim (version i) [
  | none ↦ none
  | some none ↦ select_from version i best
  | some (some v) ↦ select_from version i (if is_newer best v then some (i, v) else best)
]

module _ (word : ℕ → ℕ) where
  -- `SelectModuleFromImages`: `some none` is NULL.
  unfoldable pub select_module_from_images :
      List ImageData → ℕ → List ℕ → Option (Option RomdirFileStat)
  select_module_from_images images num_files line =
      let filename = module_name 10 line in
      elim (select_from (version_in word images filename) num_files none) [
        | none ↦ none
        | some none ↦ some none
        | some (some (i, _)) ↦ elim (get_elem? images i) [
          | none ↦ none
          | some image ↦ get_file_stat_from_image image.stat filename
        ]
      ]
