-- ===== src/Cdvdman/PathSearch.antt =====
-- modules/cdvdman/cdvdman_internal.c: cdvdman_CdSearchFile, which follows a path through the directories
-- of the disc, with the semaphore that it shares with cdvdman_CdReturnFileInfo, and cdvdman_open and
-- cdrom_dread (device.c), which stand on them.
pub mod Semaphore
mod Tests
use mathlib.Core.Option
use ps2esdl.Prelude.{
  ℕ, zero, suc, ◌+◌, ◌*◌, ◌/◌, ◌%◌, ◌&&◌, ◌||◌, Bool, true, false, not, Option, none, some, List,
  [], ◌∷◌, ltb, leb, ◌==◌, if◌then◌else◌, table, length, add32, u8_mod,
}
use ps2esdl.Cdvdman.File.{FileHandle}
use ps2esdl.Cdvdman.Directory.{
  FileInfo, before_char, has_char, same_name, databuf, word_at, rec_at, return_file_info,
}

-- `isfilename`: a '.' or the end comes before the next `\\`.
unfoldable pub is_filename : List ℕ → Bool
is_filename [] = true
is_filename (c ∷ cs) = if c == 0x5c then false else (if c == 0x2e then true else is_filename cs)

unfoldable pub skip_backslashes : List ℕ → List ℕ
skip_backslashes [] = []
skip_backslashes (c ∷ cs) = if c == 0x5c then skip_backslashes cs else c ∷ cs

-- What stands from the first `\\` on
unfoldable pub from_backslash : List ℕ → List ℕ
from_backslash [] = []
from_backslash (c ∷ cs) = if c == 0x5c then c ∷ cs else from_backslash cs

-- `stripdirfilename`: the first name of the path, and the path behind it
unfoldable pub strip_dir_filename : List ℕ → List ℕ × List ℕ
strip_dir_filename path = (before_char 0x5c path, skip_backslashes (from_backslash path))

-- `struct discInfo` of the layer, with the start of layer 1 for that layer and 0 for layer 0
pub record DiscInfo : Type 0 where
  pub ptable_lsn : ℕ
  pub ptable_sz : ℕ
  pub rdirdsc : ℕ
  pub layer_start : ℕ

-- The disc by bytes and what lies behind `databuf`, as in Directory.antt
module _ (image beyond : ℕ → ℕ) (info : DiscInfo) where
  -- The search of the path table: sector, offset in the buffer and `recGrp_offset`. The location of the
  -- directory's extent, `some none` for the error, `none` when the fuel runs out.
  unfoldable pub table_loop : List ℕ → ℕ → ℕ → ℕ → ℕ → Option (Option ℕ)
  table_loop target zero lsn i grp = none
  table_loop target (suc k) lsn i grp =
      let len = databuf image beyond info.layer_start lsn i in
      let name = table (databuf image beyond info.layer_start lsn) (i + 8) len in
      let padded = if len % 2 == 0 then len else (len + 1) % u8_mod in
      let in_next = table_loop target k (add32 lsn 1) 0 grp in
      let further = table_loop target k lsn (i + 8 + padded) (add32 grp (8 + padded)) in
      if ltb info.ptable_sz grp
      then some none
      else (if len == 0
          then in_next
          else (if same_name name target
              then some (
                  some (add32 info.layer_start (word_at image beyond info.layer_start lsn (i + 2))))
              else further))

  -- The search of the records of a directory of `size` bytes for a directory in it
  unfoldable pub records_loop : List ℕ → ℕ → ℕ → ℕ → ℕ → ℕ → Option (Option ℕ)
  records_loop target size zero lsn i grp = none
  records_loop target size (suc k) lsn i grp =
      let r = rec_at image beyond info.layer_start lsn i in
      let in_next = records_loop target size k (add32 lsn 1) 0 grp in
      let further = records_loop target size k lsn (i + r.len_dr) (add32 grp r.len_dr) in
      if ltb size grp
      then some none
      else (if ltb 0 (length r.file_identifier) && ltb 0 r.len_dr
          then (if same_name r.file_identifier target
              then some (some (add32 info.layer_start r.extent_loc))
              else further)
          else in_next)

  -- The directories that are left of the path, one after the other: the sector of the last one and the
  -- file's name; `fuel` is for each search, and one level is taken for each name.
  unfoldable pub follow : ℕ → ℕ → List ℕ → ℕ → Option (Option (ℕ × List ℕ))
  follow fuel zero path lsn = if is_filename path then some (some (lsn, path)) else none
  follow fuel (suc levels) path lsn =
      let (target, rest) = strip_dir_filename path in
      let size = (rec_at image beyond info.layer_start lsn 0).data_len in
      let next : Option (Option (ℕ × List ℕ)) = elim (records_loop target size fuel lsn 0 0) [
        | none ↦ none
        | some none ↦ some none
        | some (some lsn1) ↦ follow fuel levels rest lsn1
      ] in
      if is_filename path then some (some (lsn, path)) else next

  -- Up to the directory of the file: from the root directory, or through the path table.
  unfoldable pub find_directory : ℕ → List ℕ → Option (Option (ℕ × List ℕ))
  find_directory fuel path =
      let start = skip_backslashes path in
      let (target, rest) = strip_dir_filename start in
      if is_filename start
      then some (some (info.rdirdsc, start))
      else elim (table_loop target fuel info.ptable_lsn 0 0) [
        | none ↦ none
        | some none ↦ some none
        | some (some lsn) ↦ follow fuel (length rest) rest lsn
      ]

-- What a call comes to: it waits for a semaphore that nobody will signal, or it returns.
pub data Outcome : Type 0 where
  blocked : Outcome
  failed : Outcome
  found : FileInfo → Outcome

-- The end of `cdvdman_CdReturnFileInfo`: the error returns without a signal.
unfoldable pub release : Option FileInfo → Outcome × Bool
release none = (failed, false)
release (some info) = (found info, true)

-- `cdvdman_CdReturnFileInfo` with its semaphore, `free` when it can be taken: the outcome, and the
-- semaphore after it; `none` when the fuel runs out.
unfoldable pub locked_file_info :
    (ℕ → ℕ) → (ℕ → ℕ) → DiscInfo → ℕ → Bool → Option (List ℕ) → ℕ → ℕ → Option (Outcome × Bool)
locked_file_info image beyond info fuel false fname lsn mode = some (blocked, false)
locked_file_info image beyond info fuel true fname lsn mode =
    Option.map release (return_file_info image beyond info.layer_start fuel fname lsn mode)

-- The file's search in the directory that was found; an error of the search for that leaves the
-- semaphore taken, else it is signalled, and taken again.
unfoldable pub search_in :
    (ℕ → ℕ) → (ℕ → ℕ) → DiscInfo → ℕ → Option (Option (ℕ × List ℕ)) → Option (Outcome × Bool)
search_in image beyond info fuel none = none
search_in image beyond info fuel (some none) = some (failed, false)
search_in image beyond info fuel (some (some (lsn, name))) =
    locked_file_info image beyond info fuel true (some (strip_dir_filename name).0) lsn 0

-- `cdvdman_CdSearchFile`; `valid_layer` is the test of the layer.
unfoldable pub cd_search_file :
    (ℕ → ℕ) → (ℕ → ℕ) → DiscInfo → ℕ → Bool → Bool → List ℕ → Option (Outcome × Bool)
cd_search_file image beyond info fuel false valid_layer path = some (blocked, false)
cd_search_file image beyond info fuel true false path = some (failed, false)
cd_search_file image beyond info fuel true true path =
    search_in image beyond info fuel (find_directory image beyond info fuel path)

-- `FIO_S_IFDIR` for a directory and `FIO_S_IFREG` for a file, added to the mode by `|`
abbrev pub with_type : ℕ → ℕ → ℕ
with_type mode file_flags =
    let type : ℕ = if file_flags / 2 % 2 == 1 then 0x1000 else 0x2000 in
    if mode / type % 2 == 1 then mode else mode + type

unfoldable pub handle_of : ℕ → Outcome → Option FileHandle
handle_of mode blocked = none
handle_of mode failed = none
handle_of mode (found file) = some (record {
  lsn = file.lsn;
  size = file.size;
  offset = 0;
  flags = with_type mode file.file_flags;
})

-- `cdvdman_open`: the handle, `none` for -ENOENT or when the call is blocked, and the semaphore
unfoldable pub cdvdman_open :
    (ℕ → ℕ) → (ℕ → ℕ) → DiscInfo → ℕ → Bool → Bool → List ℕ → ℕ → Option (Option FileHandle × Bool)
cdvdman_open image beyond info fuel free valid_layer name mode =
    Option.map (λ r. (handle_of mode r.0, r.1))
      (cd_search_file image beyond info fuel free valid_layer name)

-- The entry that `cdrom_dread` returns, if there is one, and the handle
unfoldable pub entry_of : FileHandle → Outcome → Option FileInfo × FileHandle
entry_of h blocked = (none, h)
entry_of h failed = (none, h)
entry_of h (found file) = (some file, record h { offset = add32 h.offset 1 })

-- `cdrom_dread`: the file of the number that the offset is
unfoldable pub cdrom_dread :
    (ℕ → ℕ)
    → (ℕ → ℕ)
    → DiscInfo
    → ℕ
    → Bool
    → FileHandle
    → Option ((Option FileInfo × FileHandle) × Bool)
cdrom_dread image beyond info fuel free h =
    Option.map (λ r. (entry_of h r.0, r.1))
      (locked_file_info image beyond info fuel free none h.lsn
        (h.offset % 0x8000_0000 + 0x8000_0000))
