-- ===== src/Udnl/Romdir.antt =====
-- modules/udnl/udnl.c: the directory of a boot image, GetFileStatFromImage and GetFileInfo. A `char`
-- is a byte, and a comparison with it is signed, so bytes from 0x80 on are below every character.
pub mod Lookup
pub mod Info
use ps2esdl.Prelude.{
  ℕ, zero, suc, ◌+◌, ◌-◌, ◌*◌, ◌/◌, ◌%◌, Bool, true, false, ◌&&◌, Option, none, some, List, [], ◌∷◌,
  ltb, leb, ◌==◌, if◌then◌else◌, take, add32, u32_mod,
}

-- `struct RomDirEntry`, the name as its ten bytes
pub record RomDirEntry : Type 0 where
  pub name : List ℕ
  pub ext_info_entry_size : ℕ
  pub size : ℕ

-- `struct RomImgData`. `romdir` is what stands in memory from RomdirStart on, if that is not NULL.
pub record RomImgData : Type 0 where
  pub image_start : ℕ
  pub romdir : Option (List RomDirEntry)
  pub romdir_end : ℕ

-- `struct RomdirFileStat`
pub record RomdirFileStat : Type 0 where
  pub romdirent : RomDirEntry
  pub data_start : ℕ
  pub extinfo : ℕ

-- `c >= 0x21` for a `char`
abbrev pub is_visible : ℕ → Bool
is_visible c = leb 0x21 c && ltb c 0x80

-- `filename_temp`, an array of bytes that begins with the visible characters of the string
unfoldable pub filename_bytes : ℕ → List ℕ → List ℕ
filename_bytes zero cs = []
filename_bytes (suc n) [] = 0 ∷ filename_bytes n []
filename_bytes (suc n) (c ∷ cs) =
    if is_visible c then c ∷ filename_bytes n cs else 0 ∷ filename_bytes n []

unfoldable pub same_bytes : List ℕ → List ℕ → Bool
same_bytes [] [] = true
same_bytes [] (y ∷ ys) = false
same_bytes (x ∷ xs) [] = false
same_bytes (x ∷ xs) (y ∷ ys) = x == y && same_bytes xs ys

-- The first word of the name is zero.
unfoldable pub is_blank : RomDirEntry → Bool
is_blank e = same_bytes (take 4 e.name) (0 ∷ 0 ∷ 0 ∷ 0 ∷ [])

-- `(n+0xF)&0xFFFFFFF0`
abbrev pub round_16 : ℕ → ℕ
round_16 n = add32 n 0xf / 16 * 16

-- The entry has the name, ten bytes of the array, and extended information.
unfoldable pub is_hit : List ℕ → RomDirEntry → Bool
is_hit name e = same_bytes (take 10 name) e.name && ltb 0 e.ext_info_entry_size

-- The loop: `e` is the entry that it stands on, `rest` what follows in memory. `none` when the end of
-- `rest` is reached without an entry that is blank.
unfoldable pub scan_romdir :
    List ℕ → RomImgData → ℕ → ℕ → RomDirEntry → List RomDirEntry → Option (Option RomdirFileStat)
scan_romdir name image offset ext e [] =
    if is_hit name e
    then some (
        some (record {
          romdirent = e;
          data_start = add32 image.image_start offset;
          extinfo = add32 image.romdir_end ext;
        }))
    else none
scan_romdir name image offset ext e (e' ∷ rest) =
    let more =
      scan_romdir name image (add32 offset (round_16 e.size)) (add32 ext e.ext_info_entry_size) e'
        rest in
    if is_hit name e
    then some (
        some (record {
          romdirent = e;
          data_start = add32 image.image_start offset;
          extinfo = add32 image.romdir_end ext;
        }))
    else (if is_blank e' then some none else more)

-- The start of the scan, which looks at the first entry in any case.
unfoldable pub scan_start :
    List ℕ → RomImgData → Option (List RomDirEntry) → Option (Option RomdirFileStat)
scan_start name image none = some none
scan_start name image (some []) = none
scan_start name image (some (e ∷ rest)) = scan_romdir name image 0 0 e rest

-- `GetFileStatFromImage`: `some none` is NULL.
unfoldable pub get_file_stat_from_image : RomImgData → List ℕ → Option (Option RomdirFileStat)
get_file_stat_from_image image filename = scan_start (filename_bytes 12 filename) image image.romdir

-- The words of memory, by address.
module _ (word : ℕ → ℕ) where
  -- The loop of `GetFileInfo`: the address of the field, `some none` for NULL, and `none` when the
  -- fuel runs out.
  unfoldable pub scan_info : ℕ → ℕ → ℕ → ℕ → Option (Option ℕ)
  scan_info zero field end mode = if ltb field end then none else some none
  scan_info (suc k) field end mode =
      let header = word field in
      let more = scan_info k (add32 field (header / 0x1_0000 % 0x100 / 4 * 4 + 4)) end mode in
      if ltb field end
      then (if header / 0x100_0000 == mode then some (some field) else more)
      else some none

  -- `GetFileInfo`: every field takes a word or more.
  unfoldable pub get_file_info : RomdirFileStat → ℕ → Option (Option ℕ)
  get_file_info stat mode =
      let words = stat.romdirent.ext_info_entry_size / 4 in
      scan_info words stat.extinfo (add32 stat.extinfo (words * 4)) mode
