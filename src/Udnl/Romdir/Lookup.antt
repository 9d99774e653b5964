-- ===== src/Udnl/Romdir/Lookup.antt =====
-- GetFileStatFromImage of Romdir.antt: the file that is found, and its place.
use ps2esdl.Prelude.{
  ℕ, ◌+◌, ◌≡◌, ◌∙◌, ap, ap₂, Bool, true, false, none, some, List, [], ◌∷◌, ◌++◌, add32, arith,
}
use ps2esdl.Udnl.Romdir.{
  RomDirEntry, RomImgData, RomdirFileStat, filename_bytes, is_blank, is_hit, round_16, scan_romdir,
  scan_start, get_file_stat_from_image,
}

-- The bytes that the files of these entries take, and those of their extended information.
abbrev pub data_extent : List RomDirEntry → ℕ
data_extent [] = 0
data_extent (e ∷ es) = round_16 e.size + data_extent es

abbrev pub ext_extent : List RomDirEntry → ℕ
ext_extent [] = 0
ext_extent (e ∷ es) = e.ext_info_entry_size + ext_extent es

-- Every entry fails the test.
abbrev pub NoneOf : (RomDirEntry → Bool) → List RomDirEntry → Type 0
NoneOf test [] = Unit {0}
NoneOf test (e ∷ es) = (test e ≡ false) × NoneOf test es

abbrev stat_at : RomDirEntry → ℕ → ℕ → RomdirFileStat
stat_at e d x = record { romdirent = e; data_start = d; extinfo = x }

abbrev placed : RomImgData → RomDirEntry → ℕ → ℕ → RomdirFileStat
placed image e d x = stat_at e (add32 image.image_start d) (add32 image.romdir_end x)

placed_eq :
    (image : RomImgData) (e : RomDirEntry) (d d' x x' : ℕ)
    → add32 image.image_start d ≡ add32 image.image_start d'
    → add32 image.romdir_end x ≡ add32 image.romdir_end x'
    → some (some (placed image e d x)) ≡ some (some (placed image e d' x'))
placed_eq image e d d' x x' p q = ap₂ (λ a b. some (some (stat_at e a b))) p q

module _ (name : List ℕ) (image : RomImgData) where
  scan_romdir-hit :
      (e : RomDirEntry) (after : List RomDirEntry) (offset ext : ℕ)
      → is_hit name e ≡ true
      → scan_romdir name image offset ext e after ≡ some (some (placed image e offset ext))
  unfolding scan_romdir
  scan_romdir-hit e [] offset ext hit = rw hit
  scan_romdir-hit e (e' ∷ after) offset ext hit = rw hit

  scan_romdir-next :
      (e e' : RomDirEntry) (rest : List RomDirEntry) (offset ext : ℕ)
      → is_hit name e ≡ false
      → is_blank e' ≡ false
      → scan_romdir name image offset ext e (e' ∷ rest)
        ≡ scan_romdir name image
            (add32 offset (round_16 e.size))
            (add32 ext e.ext_info_entry_size)
            e'
            rest
  unfolding scan_romdir
  scan_romdir-next e e' rest offset ext miss more = rw (miss, more)

  scan_romdir-last :
      (e e' : RomDirEntry) (rest : List RomDirEntry) (offset ext : ℕ)
      → is_hit name e ≡ false
      → is_blank e' ≡ true
      → scan_romdir name image offset ext e (e' ∷ rest) ≡ some none
  unfolding scan_romdir
  scan_romdir-last e e' rest offset ext miss stop = rw (miss, stop)

  -- The scan goes past the entries that are no hit, up to one that is.
  scan_romdir-found :
      (first : RomDirEntry) (before : List RomDirEntry) (e : RomDirEntry) (after : List RomDirEntry)
      (offset ext : ℕ)
      → NoneOf (is_hit name) (first ∷ before)
      → NoneOf is_blank before
      → is_blank e ≡ false
      → is_hit name e ≡ true
      → scan_romdir name image offset ext first (before ++ (e ∷ after))
        ≡ some (
            some (
              placed image e
                (offset + data_extent (first ∷ before))
                (ext + ext_extent (first ∷ before))))
  scan_romdir-found first [] e after offset ext (miss, _) stops present hit =
      scan_romdir-next first e after offset ext miss present
      ∙ scan_romdir-hit e after _ _ hit
      ∙ placed_eq image e _ _ _ _ (omega arith) (omega arith)
  scan_romdir-found first (b ∷ before) e after offset ext (miss, misses) (go, goes) present hit =
      scan_romdir-next first b (before ++ (e ∷ after)) offset ext miss go
      ∙ scan_romdir-found b before e after _ _ misses goes present hit
      ∙ placed_eq image e _ _ _ _ (omega arith) (omega arith)

  -- The scan ends at a blank entry.
  scan_romdir-none :
      (first : RomDirEntry) (before : List RomDirEntry) (e : RomDirEntry) (after : List RomDirEntry)
      (offset ext : ℕ)
      → NoneOf (is_hit name) (first ∷ before)
      → NoneOf is_blank before
      → is_blank e ≡ true
      → scan_romdir name image offset ext first (before ++ (e ∷ after)) ≡ some none
  scan_romdir-none first [] e after offset ext (miss, _) stops blank =
      scan_romdir-last first e after offset ext miss blank
  scan_romdir-none first (b ∷ before) e after offset ext (miss, misses) (go, goes) blank =
      scan_romdir-next first b (before ++ (e ∷ after)) offset ext miss go
      ∙ scan_romdir-none b before e after _ _ misses goes blank

module _ (image : RomImgData) (filename : List ℕ) (first : RomDirEntry) (before : List RomDirEntry)
    (e : RomDirEntry) (after : List RomDirEntry)
    (stands : image.romdir ≡ some (first ∷ (before ++ (e ∷ after))))
    (misses : NoneOf (is_hit (filename_bytes 12 filename)) (first ∷ before))
    (goes : NoneOf is_blank before) where
  -- A directory whose entry `e` has the file's name and extended information, and no entry before it,
  -- of which none but the first is blank: GetFileStatFromImage finds that entry, the file at the start of
  -- the image plus the rounded sizes of the files before it, and its extended information at the end of
  -- the directory plus that of the entries before it.
  pub get_file_stat_from_image-found :
      is_blank e ≡ false
      → is_hit (filename_bytes 12 filename) e ≡ true
      → get_file_stat_from_image image filename
        ≡ some (
            some (record {
              romdirent = e;
              data_start = add32 image.image_start (data_extent (first ∷ before));
              extinfo = add32 image.romdir_end (ext_extent (first ∷ before));
            }))
  unfolding get_file_stat_from_image scan_start
  get_file_stat_from_image-found present hit =
      ap (scan_start (filename_bytes 12 filename) image) stands
      ∙ scan_romdir-found (filename_bytes 12 filename) image first before e after 0 0 misses goes
          present hit
      ∙ placed_eq image e _ _ _ _ (omega arith) (omega arith)

  -- A directory that ends with the blank entry `e`, where no entry before it has both the file's name and
  -- extended information: GetFileStatFromImage returns NULL.
  pub get_file_stat_from_image-none :
      is_blank e ≡ true → get_file_stat_from_image image filename ≡ some none
  unfolding get_file_stat_from_image scan_start
  get_file_stat_from_image-none blank =
      ap (scan_start (filename_bytes 12 filename) image) stands
      ∙ scan_romdir-none (filename_bytes 12 filename) image first before e after 0 0 misses goes
          blank
