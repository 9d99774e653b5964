-- ===== src/Udnl/Config/Tests.antt =====
-- Runs of ParseIOPBTCONF of Config.antt.
use ps2esdl.Prelude.{
  ℕ, zero, suc, ◌≡◌, ◌≢◌, ◌≤◌, ◌⊎◌, inl, inr, Bool-cases, refl, Option, none, some, List, [], ◌∷◌,
  get_or, arith,
}
use ps2esdl.Udnl.Romdir.{
  RomDirEntry, RomImgData, RomdirFileStat, filename_bytes, is_hit, is_blank, same_bytes,
  scan_romdir, scan_start, get_file_stat_from_image, scan_info, get_file_info,
}
use ps2esdl.Udnl.Modules.{
  ImageData, lookup_in, scan_from, scan_images_for_file, module_name, version_of, version_in,
  is_newer, select_from, select_module_from_images,
}
use ps2esdl.Udnl.Address.{parse_start_address, parse_digits, digit_value}
use ps2esdl.Udnl.Config.{
  ok, directive, skip_text, skip_control, next_line, starts_with, text_of_line, ResetData, Images,
  boot_images, parse_iopbtconf,
}
use ps2esdl.Udnl.Config.Listing.{list_config, Matches}
use ps2esdl.Udnl.Config.Order.{parse_iopbtconf-Matches}
use ps2esdl.Udnl.Config.Ends.{IsEnded, AreWhole, parse_iopbtconf_ends}

abbrev file_at : ℕ → RomdirFileStat
file_at a = record {
  romdirent = record { name = []; ext_info_entry_size = 0; size = 0 };
  data_start = a;
  extinfo = 0;
}

-- Every file among one image or more is the line B, and a module is placed at its first character.
abbrev scan_one : ℕ → List ℕ → Option (Option RomdirFileStat)
scan_one zero name = some none
scan_one (suc n) name = some (some (file_at 0x100))

abbrev one_file : Images
one_file = record {
  scan = scan_one;
  text = λ stat. 0x42 ∷ 0x0a ∷ [];
  select = λ n line. some (some (file_at (get_or line 0 0)));
}

-- @8, A, !include X and C, on lines of their own
abbrev config_text : List ℕ
config_text =
    0x40 ∷ 0x38 ∷ 0x0a ∷ 0x41 ∷ 0x0a ∷ 0x21 ∷ 0x69 ∷ 0x6e ∷ 0x63 ∷ 0x6c ∷ 0x75 ∷ 0x64 ∷ 0x65 ∷ 0x20
    ∷ 0x58 ∷ 0x0a ∷ 0x43 ∷ []

abbrev no_modules : ResetData
no_modules = record { start_address = 0; num_modules = 0; mod_data = λ k. 0 }

parse_iopbtconf_example :
    Matches 0
      (λ k. 0)
      (parse_iopbtconf one_file 2 2 config_text no_modules)
      (list_config one_file 2 2 config_text (record { start_address = 0; modules = [] }))
parse_iopbtconf_example = parse_iopbtconf-Matches one_file 2 2 config_text no_modules

-- The module B of the included file stands between A and C.
parse_iopbtconf_run :
    list_config one_file 2 2 config_text (record { start_address = 0; modules = [] })
    ≡ ok (record { start_address = 8; modules = 0x41 ∷ 0x42 ∷ 0x43 ∷ [] })
unfolding directive parse_start_address parse_digits digit_value skip_text skip_control next_line
    starts_with text_of_line
parse_iopbtconf_run = refl

-- One image that was loaded, with the module A, whose version is in its extended information
abbrev module_a : RomDirEntry
module_a = record {
  name = 0x41 ∷ 0 ∷ 0 ∷ 0 ∷ 0 ∷ 0 ∷ 0 ∷ 0 ∷ 0 ∷ 0 ∷ [];
  ext_info_entry_size = 4;
  size = 16;
}

abbrev last_entry : RomDirEntry
last_entry = record {
  name = 0 ∷ 0 ∷ 0 ∷ 0 ∷ 0 ∷ 0 ∷ 0 ∷ 0 ∷ 0 ∷ 0 ∷ [];
  ext_info_entry_size = 0;
  size = 0;
}

abbrev rom : RomImgData
rom = record {
  image_start = 0x1_0000;
  romdir = some (module_a ∷ last_entry ∷ []);
  romdir_end = 0x1_0100;
}

abbrev loaded : List ImageData
loaded = record { filename = some (0x52 ∷ []); fd = 3; size = 0x200; stat = rom } ∷ []

abbrev stat_a : RomdirFileStat
stat_a = record { romdirent = module_a; data_start = 0x1_0000; extinfo = 0x1_0100 }

-- Version 0x102
abbrev version_word : ℕ → ℕ
version_word a = 0x0200_0102

abbrev booted : Images
booted = boot_images version_word (λ stat. 0x41 ∷ 0x0a ∷ []) loaded

rom_lookup :
    (name : List ℕ)
    → (get_file_stat_from_image rom name ≡ some none)
      ⊎ (get_file_stat_from_image rom name ≡ some (some stat_a))
unfolding get_file_stat_from_image scan_start scan_romdir is_blank same_bytes
rom_lookup name = elim (Bool-cases (is_hit (filename_bytes 12 name) module_a)) [
  | inl hit ↦ inr (rw hit refl)
  | inr other ↦ inl (rw other refl)
]

has_result : {A : Type 0} (o : Option A) (a : A) → o ≡ some a → o ≢ none
has_result o a e none_here = cc (e, none_here)

booted-scan : (n : ℕ) (name : List ℕ) → n ≤ 1 → booted.scan n name ≢ none
unfolding boot_images scan_images_for_file scan_from lookup_in
booted-scan zero name h = λ e. cc e
booted-scan (suc zero) name h = elim (rom_lookup name) [
  | inl absent ↦ has_result _ none (rw (scan_from, lookup_in, absent) refl)
  | inr present ↦ has_result _ (some stat_a) (rw (scan_from, lookup_in, present) refl)
]
booted-scan (suc (suc n)) name h = absurd (omega arith)

version-absent :
    (name : List ℕ)
    → get_file_stat_from_image rom name ≡ some none
    → version_in version_word loaded name 0 ≡ some none
unfolding version_in lookup_in
version-absent name e = rw (version_in, lookup_in, e) refl

version-present :
    (name : List ℕ)
    → get_file_stat_from_image rom name ≡ some (some stat_a)
    → version_in version_word loaded name 0 ≡ some (some 0x102)
unfolding version_in lookup_in version_of get_file_info scan_info
version-present name e = rw (version_in, lookup_in, e) refl

booted-select : (n : ℕ) (line : List ℕ) → n ≤ 1 → booted.select n line ≢ none
unfolding boot_images select_module_from_images select_from is_newer
booted-select zero line h = λ e. cc e
booted-select (suc zero) line h = elim (rom_lookup (module_name 10 line)) [
  | inl absent ↦ has_result _ none (
      rw (select_module_from_images, select_from, version-absent (module_name 10 line) absent) refl)
  | inr present ↦ has_result _ (some stat_a) (
      rw
        (
          select_module_from_images,
          select_from,
          version-present (module_name 10 line) present,
          present,
        )
        refl)
]
booted-select (suc (suc n)) line h = absurd (omega arith)

booted-AreWhole : AreWhole booted 1
unfolding boot_images scan_images_for_file scan_from
booted-AreWhole = record { scan = booted-scan; select = booted-select; empty = λ name. refl }

-- @8, A, and an !include of A, whose line is A again
abbrev boot_text : List ℕ
boot_text =
    0x40 ∷ 0x38 ∷ 0x0a ∷ 0x41 ∷ 0x0a ∷ 0x21 ∷ 0x69 ∷ 0x6e ∷ 0x63 ∷ 0x6c ∷ 0x75 ∷ 0x64 ∷ 0x65 ∷ 0x20
    ∷ 0x41 ∷ 0x0a ∷ []

parse_iopbtconf_ends_example : IsEnded (parse_iopbtconf booted 1 1 boot_text no_modules)
parse_iopbtconf_ends_example =
    parse_iopbtconf_ends booted 1 booted-AreWhole 1 1 boot_text no_modules (omega arith)
      (omega arith) (omega arith) (omega arith)
