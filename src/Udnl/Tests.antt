-- ===== src/Udnl/Tests.antt =====
-- Runs of the routines of Udnl.antt.
use ps2esdl.Prelude.{
  ℕ, zero, suc, ◌+◌, ◌/◌, ◌%◌, ◌<◌, ◌≡◌, u16_mod, add32, refl, arith, Option, none, some, List, [],
  ◌++◌, map, u32_mod, ◌∷◌, ◌==◌, if◌then◌else◌,
}
use ps2esdl.Udnl.Address.{
  parse_start_address, upper, lower, taken_for, hex_value, parse_start_address_lem,
}
use ps2esdl.Udnl.Romdir.{
  RomDirEntry, RomImgData, RomdirFileStat, is_hit, filename_bytes, same_bytes, is_blank,
  scan_romdir, scan_start, get_file_stat_from_image, scan_info, get_file_info,
}
use ps2esdl.Udnl.Romdir.Lookup.{get_file_stat_from_image-found, get_file_stat_from_image-none}
use ps2esdl.Udnl.Romdir.Info.{IsLaid, find_field, get_file_info-finds}
use ps2esdl.Udnl.Modules.{
  ImageData, lookup_in, scan_images_for_file, version_of, version_in, module_name,
}
use ps2esdl.Udnl.Modules.Scan.{Scanned, scan_images_for_file-last}
use ps2esdl.Udnl.Modules.Newest.{Known}
use ps2esdl.Udnl.Modules.Select.{Selection, versions, select_module_from_images-newest}
use ps2esdl.Udnl.Relocation.{relocate_hi16, address_of, relocate_hi16_lem}

-- lui $2, 1 and addiu $2, $2, -0x8000 address 0x8000; the module is loaded at 0x1234_8000.
relocate_hi16_example :
    let (hi, lo) = relocate_hi16 0x1234_8000 0x3c02_0001 0x2442_8000 in
    (address_of hi lo ≡ add32 (address_of 0x3c02_0001 0x2442_8000) 0x1234_8000)
    × (hi / u16_mod ≡ 0x3c02_0001 / u16_mod)
    × (lo / u16_mod ≡ 0x2442_8000 / u16_mod)
relocate_hi16_example = relocate_hi16_lem 0x1234_8000 0x3c02_0001 0x2442_8000

-- Two images with RESET and a module LOADER, in version 1 and in version 2.
abbrev reset_entry : RomDirEntry
reset_entry = record {
  name = 0x52 ∷ 0x45 ∷ 0x53 ∷ 0x45 ∷ 0x54 ∷ 0 ∷ 0 ∷ 0 ∷ 0 ∷ 0 ∷ [];
  ext_info_entry_size = 8;
  size = 100;
}

abbrev loader_entry : RomDirEntry
loader_entry = record {
  name = 0x4c ∷ 0x4f ∷ 0x41 ∷ 0x44 ∷ 0x45 ∷ 0x52 ∷ 0 ∷ 0 ∷ 0 ∷ 0 ∷ [];
  ext_info_entry_size = 4;
  size = 5000;
}

abbrev blank_entry : RomDirEntry
blank_entry = record {
  name = 0 ∷ 0 ∷ 0 ∷ 0 ∷ 0 ∷ 0 ∷ 0 ∷ 0 ∷ 0 ∷ 0 ∷ [];
  ext_info_entry_size = 0;
  size = 0;
}

abbrev loader : List ℕ
loader = 0x4c ∷ 0x4f ∷ 0x41 ∷ 0x44 ∷ 0x45 ∷ 0x52 ∷ []

abbrev img : ℕ → RomImgData
img start = record {
  image_start = start;
  romdir = some (reset_entry ∷ loader_entry ∷ blank_entry ∷ []);
  romdir_end = start + 160;
}

abbrev loaded : ℕ → ImageData
loaded start = record { filename = some loader; fd = 3; size = 6000; stat = img start }

abbrev images : List ImageData
images = loaded 0x1_0000 ∷ loaded 0x2_0000 ∷ []

-- The version is in a field of type 2.
abbrev memory : ℕ → ℕ
memory a = if a == 0x1_0000 + 168 then 0x0200_0001 else 0x0200_0002

get_file_stat_from_image_example :
    get_file_stat_from_image (img 0x1_0000) loader
    ≡ some (
        some (record {
          romdirent = loader_entry;
          data_start = add32 0x1_0000 112;
          extinfo = add32 (0x1_0000 + 160) 8;
        }))
unfolding is_hit filename_bytes same_bytes is_blank
get_file_stat_from_image_example =
    get_file_stat_from_image-found (img 0x1_0000) loader reset_entry [] loader_entry
      (blank_entry ∷ []) refl (refl, tt) tt refl refl

get_file_stat_from_image_null : get_file_stat_from_image (img 0x1_0000) [] ≡ some none
unfolding is_hit filename_bytes same_bytes is_blank
get_file_stat_from_image_null =
    get_file_stat_from_image-none (img 0x1_0000) [] reset_entry (loader_entry ∷ []) blank_entry []
      refl (refl, (refl, tt)) (refl, tt) refl

abbrev loader_stat : RomdirFileStat
loader_stat = record { romdirent = loader_entry; data_start = 0x1_0070; extinfo = 0x1_00a8 }

get_file_info_found :
    get_file_info memory loader_stat 2
    ≡ some (find_field 0x1_00a8 (record { kind = 2; payload = 0 } ∷ []) 2)
unfolding IsLaid
get_file_info_found =
    get_file_info-finds memory loader_stat 2 (record { kind = 2; payload = 0 } ∷ [])
      (refl, refl, tt) refl (omega arith)

scan_known : (i : ℕ) → i < 2 → (r : Option RomdirFileStat) × (lookup_in images loader i ≡ some r)
unfolding lookup_in get_file_stat_from_image scan_start scan_romdir is_hit filename_bytes same_bytes
    is_blank
scan_known zero lt = (_, refl)
scan_known (suc zero) lt = (_, refl)
scan_known (suc (suc i)) lt = absurd (omega arith)

scan_images_for_file_example :
    Scanned (lookup_in images loader) 2 (scan_images_for_file images 2 loader)
scan_images_for_file_example = scan_images_for_file-last images 2 loader scan_known

images-Known : Known (versions memory images 2 loader) 2
unfolding version_in version_of get_file_info scan_info lookup_in get_file_stat_from_image
    scan_start scan_romdir is_hit filename_bytes same_bytes is_blank module_name
images-Known zero lt = (_, refl)
images-Known (suc zero) lt = (_, refl)
images-Known (suc (suc i)) lt = absurd (omega arith)

select_module_from_images_example : Selection memory images 2 loader
select_module_from_images_example =
    select_module_from_images-newest memory images 2 loader images-Known

-- The line "00A0" and the line "80010", each ended by a line feed
parse_start_address_example :
    (parse_start_address (map upper (0 ∷ 0 ∷ 10 ∷ 0 ∷ []) ++ (0x0a ∷ []))
      ≡ (hex_value 0 (map taken_for (0 ∷ 0 ∷ 10 ∷ 0 ∷ [])) % u32_mod, 0x0a ∷ []))
    × (parse_start_address (map lower (0 ∷ 0 ∷ 10 ∷ 0 ∷ []) ++ (0x0a ∷ []))
        ≡ (hex_value 0 (map taken_for (0 ∷ 0 ∷ 10 ∷ 0 ∷ [])) % u32_mod, 0x0a ∷ []))
parse_start_address_example =
    parse_start_address_lem (0 ∷ 0 ∷ 10 ∷ 0 ∷ []) (0x0a ∷ [])
      (omega arith, (omega arith, (omega arith, (omega arith, tt)))) refl
