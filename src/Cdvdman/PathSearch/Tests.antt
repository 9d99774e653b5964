-- ===== src/Cdvdman/PathSearch/Tests.antt =====
-- Concrete runs of the path search.
use ps2esdl.Prelude.{ℕ, ◌≡◌, refl, true, false, some, List, [], ◌∷◌}
use ps2esdl.Cdvdman.PathSearch.{
  DiscInfo, blocked, failed, strip_dir_filename, skip_backslashes, from_backslash, is_filename,
  cd_search_file,
}
use ps2esdl.Cdvdman.PathSearch.Semaphore.{cd_search_file-then}
use ps2esdl.Cdvdman.Directory.{before_char}

abbrev zeros : ℕ → ℕ
zeros address = 0

abbrev single_layer : DiscInfo
single_layer = record { ptable_lsn = 257; ptable_sz = 10; rdirdsc = 261; layer_start = 0 }

-- `A\\B.C`
abbrev in_folder : List ℕ
in_folder = 0x41 ∷ 0x5c ∷ 0x42 ∷ 0x2e ∷ 0x43 ∷ []

strip-in_folder : strip_dir_filename in_folder ≡ (0x41 ∷ [], 0x42 ∷ 0x2e ∷ 0x43 ∷ [])
unfolding strip_dir_filename skip_backslashes from_backslash before_char
strip-in_folder = refl

is_filename-in_folder : is_filename in_folder ≡ false
unfolding is_filename
is_filename-in_folder = refl

wrong_layer : cd_search_file zeros zeros single_layer 10 true false in_folder ≡ some (failed, false)
unfolding cd_search_file
wrong_layer = refl

cd_search_file-then_example :
    cd_search_file zeros zeros single_layer 10 false true in_folder ≡ some (blocked, false)
cd_search_file-then_example =
    cd_search_file-then zeros zeros single_layer 10 true false in_folder in_folder failed false true
      wrong_layer
