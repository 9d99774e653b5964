-- ===== src/Cdvdman/Directory.antt =====
-- modules/cdvdman/cdvdman_internal.c: cdvdman_CdReturnFileInfo, the search of a directory of the disc.
-- Strings are lists of their bytes, without the NUL.
pub mod Layout
pub mod Search
mod Tests
use ps2esdl.Prelude.{
  ℕ, zero, suc, ◌+◌, ◌-◌, ◌*◌, ◌/◌, ◌%◌, ◌&&◌, ◌||◌, Bool, true, false, not, Option, none, some,
  List, [], ◌∷◌, ◌++◌, ltb, leb, ◌==◌, if◌then◌else◌, table, take, length, add32, sub32, u32_mod,
}

-- `struct iso9660_dirRec`, its fields that are read
pub record DirRec : Type 0 where
  pub len_dr : ℕ
  pub extent_loc : ℕ
  pub data_len : ℕ
  pub rec_date_time : List ℕ
  pub file_flags : ℕ
  pub file_identifier : List ℕ

-- `cd_file_t` as it is filled, with `*fileFlags`. Of `date` the bytes 1 to 7.
pub record FileInfo : Type 0 where
  pub lsn : ℕ
  pub size : ℕ
  pub date : List ℕ
  pub name : List ℕ
  pub file_flags : ℕ

-- The string up to a character
unfoldable pub before_char : ℕ → List ℕ → List ℕ
before_char c [] = []
before_char c (x ∷ xs) = if x == c then [] else x ∷ before_char c xs

unfoldable pub has_char : ℕ → List ℕ → Bool
has_char c [] = false
has_char c (x ∷ xs) = x == c || has_char c xs

-- `target_fname`: a name with a '.' keeps three characters behind it, up to a ';', and gets ";1".
unfoldable pub target_fname : List ℕ → List ℕ
target_fname fname =
    if has_char 0x2e fname
    then before_char 0x3b (take (length (before_char 0x2e fname) + 4) fname) ++ (0x3b ∷ 0x31 ∷ [])
    else fname

-- The bytes as a string are compared, up to the longer one's end. A string is over at its NUL.
unfoldable pub same_name : List ℕ → List ℕ → Bool
same_name [] [] = true
same_name [] (y ∷ ys) = y == 0 && same_name [] ys
same_name (x ∷ xs) [] = x == 0 && same_name xs []
same_name (x ∷ xs) (y ∷ ys) = x == y && same_name xs ys

-- The disc by bytes, what lies in memory behind `databuf`, and what is added to the sectors of a file,
-- the start of layer 1 for a file there and else 0
module _ (image beyond : ℕ → ℕ) (layer_start : ℕ) where
  -- Byte `i` of `databuf`, after sector `lsn` was read
  unfoldable pub databuf : ℕ → ℕ → ℕ
  databuf lsn i = if ltb i 2048 then image (2048 * lsn + i) else beyond (i - 2048)

  -- `memcpy` of four bytes into a word
  unfoldable pub word_at : ℕ → ℕ → ℕ
  word_at lsn i =
      databuf lsn i
      + 0x100 * databuf lsn (i + 1)
      + 0x1_0000 * databuf lsn (i + 2)
      + 0x100_0000 * databuf lsn (i + 3)

  unfoldable pub rec_at : ℕ → ℕ → DirRec
  rec_at lsn i = record {
    len_dr = databuf lsn i;
    extent_loc = word_at lsn (i + 2);
    data_len = word_at lsn (i + 10);
    rec_date_time = table (databuf lsn) (i + 18) 7;
    file_flags = databuf lsn (i + 25);
    file_identifier = table (databuf lsn) (i + 33) (databuf lsn (i + 32));
  }

  -- The year, from 1900 on, in two bytes behind second, minute, hour, day and month
  unfoldable pub date_of : List ℕ → List ℕ
  date_of (year ∷ month ∷ day ∷ hour ∷ minute ∷ second ∷ zone) =
      second ∷ minute ∷ hour ∷ day ∷ month ∷ (1900 + year) % 0x100 ∷ (1900 + year) / 0x100 ∷ []
  date_of _ = []

  unfoldable pub info_of : DirRec → FileInfo
  info_of r = record {
    lsn = add32 layer_start r.extent_loc;
    size = r.data_len;
    date = date_of r.rec_date_time;
    name = r.file_identifier;
    file_flags = r.file_flags;
  }

  -- The comparison; a record without a length is compared up to the end of its own name.
  unfoldable pub is_named : DirRec → List ℕ → Bool
  is_named r name =
      not (length r.file_identifier == 0)
      && same_name r.file_identifier
          (if r.len_dr == 0 then take (length r.file_identifier) name else name)

  -- The condition of the loop, for the file's name or the number of a file that is left to count
  unfoldable pub goes_on : Option (List ℕ) → Bool → ℕ → DirRec → Bool
  goes_on target nth fileid r =
      (elim target [ none ↦ false | some name ↦ not (is_named r name) ])
      || (nth && not (fileid == 0))

  -- The loop: sector, offset in the buffer, `dirRecGrp_offset`, `dirRecGrpSz` and `fileid`; `some none`
  -- is -1, and `none` when the fuel runs out.
  unfoldable pub search_loop :
      Option (List ℕ) → Bool → ℕ → ℕ → ℕ → ℕ → ℕ → ℕ → Option (Option FileInfo)
  search_loop target nth size zero lsn i grp fileid = none
  search_loop target nth size (suc k) lsn i grp fileid =
      let r = rec_at lsn i in
      let left = if nth then sub32 fileid 1 else fileid in
      let in_sector = search_loop target nth size k lsn (i + r.len_dr) (add32 grp r.len_dr) left in
      let in_next = search_loop target nth size k (add32 lsn 1) 0 grp left in
      if leb size grp
      then some none
      else (if goes_on target nth left r
          then (if ltb 0 (length r.file_identifier) && ltb 0 r.len_dr then in_sector else in_next)
          else some (some (info_of r)))

  -- `cdvdman_CdReturnFileInfo`: `mode` with its top bit asks for a file by number.
  unfoldable pub return_file_info : ℕ → Option (List ℕ) → ℕ → ℕ → Option (Option FileInfo)
  return_file_info fuel fname dir_rec_lsn mode =
      let nth = leb 0x8000_0000 mode in
      let target : Option (List ℕ) = elim fname [
        | none ↦ none
        | some name ↦ some (target_fname name)
      ] in
      search_loop target nth (rec_at dir_rec_lsn 0).data_len fuel dir_rec_lsn 0 0
        (if nth then mode % 0x8000_0000 + 3 else 0)
