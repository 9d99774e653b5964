-- ===== src/Cdvdman/Directory/Tests.antt =====
-- Searches of Directory.antt in a directory with two files, A and B.
use ps2esdl.Prelude.{
  ℕ, suc, ◌+◌, ◌-◌, ◌*◌, ◌≡◌, refl, false, none, some, List, [], ◌∷◌, ◌++◌, get_or, add32, arith,
}
use ps2esdl.Cdvdman.Directory.{
  DirRec, databuf, word_at, rec_at, info_of, before_char, has_char, target_fname, same_name,
  is_named, search_loop, return_file_info,
}
use ps2esdl.Cdvdman.Directory.Search.{
  return_file_info-found, return_file_info-missing, return_file_info-overruns,
}

-- A record of 34 bytes: its sector, its size by two bytes, and its name, one character
abbrev record_bytes : ℕ → ℕ → ℕ → ℕ → List ℕ
record_bytes lsn low high name =
    34 ∷ 0 ∷ lsn ∷ 0 ∷ 0 ∷ 0 ∷ 0 ∷ 0 ∷ 0 ∷ 0 ∷ low ∷ high ∷ 0 ∷ 0 ∷ 0 ∷ 0 ∷ 0 ∷ 0 ∷ 113 ∷ 8 ∷ 4 ∷ 12
    ∷ 30 ∷ 0 ∷ 0 ∷ 0 ∷ 0 ∷ 0 ∷ 0 ∷ 0 ∷ 0 ∷ 0 ∷ 1 ∷ name ∷ []

-- The directory at sector 20, whose own size is that of its first record
abbrev sectors : ℕ → ℕ → ℕ → ℕ
sectors low high a =
    get_or (record_bytes 21 low high 0x41 ++ record_bytes 30 5 0 0x42) (a - 2048 * 20) 0

abbrev nothing : ℕ → ℕ
nothing a = 0

abbrev record_at : ℕ → ℕ → ℕ → DirRec
record_at low high i = rec_at (sectors low high) nothing 0 20 i

return_file_info_example :
    return_file_info (sectors 68 0) nothing 0 5 (some (0x42 ∷ [])) 20 0
    ≡ some (some (info_of (sectors 68 0) nothing 0 (record_at 68 0 34)))
unfolding databuf word_at rec_at target_fname has_char before_char is_named same_name
return_file_info_example =
    return_file_info-found (sectors 68 0) nothing 0 20 5 (0x42 ∷ []) (record_at 68 0 0 ∷ [])
      (record_at 68 0 34) (refl, (refl, tt))
      (record { has_length = omega arith; has_name = omega arith }, refl, tt) refl (omega arith)
      (omega arith) (omega arith)

return_file_info_absent :
    return_file_info (sectors 68 0) nothing 0 5 (some (0x43 ∷ [])) 20 0 ≡ some none
unfolding databuf word_at rec_at target_fname has_char before_char is_named same_name
return_file_info_absent =
    return_file_info-missing (sectors 68 0) nothing 0 20 5 (0x43 ∷ [])
      (record_at 68 0 0 ∷ record_at 68 0 34 ∷ []) (refl, (refl, tt))
      (
        record { has_length = omega arith; has_name = omega arith },
        refl,
        (record { has_length = omega arith; has_name = omega arith }, refl, tt),
      )
      refl (omega arith) (omega arith)

-- The directory is filled up to a sector.
return_file_info_onwards :
    return_file_info (sectors 0 8) nothing 0 (suc (2 + 3)) (some (0x43 ∷ [])) 20 0
    ≡ search_loop
        (sectors 0 8)
        nothing
        0
        (some (target_fname (0x43 ∷ [])))
        false
        2048
        3
        (add32 20 1)
        0
        68
        0
unfolding databuf word_at rec_at target_fname has_char before_char is_named same_name
return_file_info_onwards =
    return_file_info-overruns (sectors 0 8) nothing 0 20 3 (0x43 ∷ [])
      (record_at 0 8 0 ∷ record_at 0 8 34 ∷ []) (record_at 0 8 68) (refl, (refl, (refl, tt)))
      (
        record { has_length = omega arith; has_name = omega arith },
        refl,
        (record { has_length = omega arith; has_name = omega arith }, refl, tt),
      )
      refl refl (omega arith) (omega arith)
