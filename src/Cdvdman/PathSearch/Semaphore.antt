-- ===== src/Cdvdman/PathSearch/Semaphore.antt =====
-- The semaphore of the searches of PathSearch.antt: an error leaves it taken.
use mathlib.Core.Option
use ps2esdl.Prelude.{
  ℕ, ◌+◌, ◌%◌, ◌≡◌, ◌∙◌, refl, ap, subst, Bool, true, false, Option, none, some, List,
  if◌then◌else◌,
}
use ps2esdl.Cdvdman.File.{FileHandle}
use ps2esdl.Cdvdman.Directory.{FileInfo}
use ps2esdl.Cdvdman.PathSearch.{
  DiscInfo, Outcome, blocked, failed, found, release, locked_file_info, find_directory, search_in,
  cd_search_file, cdrom_dread, entry_of,
}

abbrev pub is_found : Outcome → Bool
is_found blocked = false
is_found failed = false
is_found (found info) = true

-- The call did not end within the fuel, or the semaphore is free exactly when the file was found.
abbrev pub IsReleased : Option (Outcome × Bool) → Type 0
IsReleased none = Unit {0}
IsReleased (some (o, free)) = free ≡ is_found o

release-IsReleased : (r : Option FileInfo) → IsReleased (some (release r))
unfolding release
release-IsReleased none = refl
release-IsReleased (some info) = refl

map-IsReleased : (r : Option (Option FileInfo)) → IsReleased (Option.map release r)
map-IsReleased none = tt
map-IsReleased (some result) = release-IsReleased result

search_in-IsReleased :
    (image beyond : ℕ → ℕ) (info : DiscInfo) (fuel : ℕ) (o : Option (Option (ℕ × List ℕ)))
    → IsReleased (search_in image beyond info fuel o)
unfolding search_in locked_file_info
search_in-IsReleased image beyond info fuel none = tt
search_in-IsReleased image beyond info fuel (some none) = refl
search_in-IsReleased image beyond info fuel (some (some (lsn, name))) = map-IsReleased _

cd_search_file-IsReleased :
    (image beyond : ℕ → ℕ) (info : DiscInfo) (fuel : ℕ) (free valid_layer : Bool) (path : List ℕ)
    → IsReleased (cd_search_file image beyond info fuel free valid_layer path)
unfolding cd_search_file
cd_search_file-IsReleased image beyond info fuel false valid_layer path = refl
cd_search_file-IsReleased image beyond info fuel true false path = refl
cd_search_file-IsReleased image beyond info fuel true true path =
    search_in-IsReleased image beyond info fuel (find_directory image beyond info fuel path)

cd_search_file-blocked :
    (image beyond : ℕ → ℕ) (info : DiscInfo) (fuel : ℕ) (valid_layer : Bool) (path : List ℕ)
    → cd_search_file image beyond info fuel false valid_layer path ≡ some (blocked, false)
unfolding cd_search_file
cd_search_file-blocked image beyond info fuel valid_layer path = refl

-- A search by cdvdman_CdSearchFile that does not find its file blocks every later search, and one that
-- finds it does not: the next search runs as it does when nothing was searched before.
pub cd_search_file-then :
    (image beyond : ℕ → ℕ) (info : DiscInfo) (fuel : ℕ) (free valid_layer : Bool)
    (path next_path : List ℕ) (o : Outcome) (after next_layer : Bool)
    → cd_search_file image beyond info fuel free valid_layer path ≡ some (o, after)
    → cd_search_file image beyond info fuel after next_layer next_path ≡ (
        if is_found o
        then cd_search_file image beyond info fuel true next_layer next_path
        else some (blocked, false))
cd_search_file-then image beyond info fuel free valid_layer path next_path o after next_layer e =
    ap (λ b. cd_search_file image beyond info fuel b next_layer next_path) released ∙ next o
  where
    released : after ≡ is_found o
    released =
        subst (λ r. IsReleased r) e
          (cd_search_file-IsReleased image beyond info fuel free valid_layer path)

    next :
        (p : Outcome)
        → cd_search_file image beyond info fuel (is_found p) next_layer next_path ≡ (
            if is_found p
            then cd_search_file image beyond info fuel true next_layer next_path
            else some (blocked, false))
    next blocked = cd_search_file-blocked image beyond info fuel next_layer next_path
    next failed = cd_search_file-blocked image beyond info fuel next_layer next_path
    next (found file) = refl

locked_file_info-IsReleased :
    (image beyond : ℕ → ℕ) (info : DiscInfo) (fuel : ℕ) (free : Bool) (fname : Option (List ℕ))
    (lsn mode : ℕ)
    → IsReleased (locked_file_info image beyond info fuel free fname lsn mode)
unfolding locked_file_info
locked_file_info-IsReleased image beyond info fuel false fname lsn mode = refl
locked_file_info-IsReleased image beyond info fuel true fname lsn mode = map-IsReleased _

no_entry-taken :
    (h h' : FileHandle) (r : Option (Outcome × Bool)) (after : Bool)
    → IsReleased r
    → Option.map {B = (Option FileInfo × FileHandle) × Bool} (λ x. (entry_of h x.0, x.1)) r
      ≡ some ((none, h'), after)
    → after ≡ false
unfolding entry_of
no_entry-taken h h' none after released e = cc e
no_entry-taken h h' (some (blocked, free)) after released e = cc (e, released)
no_entry-taken h h' (some (failed, free)) after released e = cc (e, released)
no_entry-taken h h' (some (found file, free)) after released e = cc e

opened_dread :
    (image beyond : ℕ → ℕ) (info : DiscInfo) (fuel : ℕ) (free : Bool) (h : FileHandle)
    → Option.map {B = (Option FileInfo × FileHandle) × Bool}
        (λ x. (entry_of h x.0, x.1))
        (locked_file_info image beyond info fuel free none h.lsn
          (h.offset % 0x8000_0000 + 0x8000_0000))
      ≡ cdrom_dread image beyond info fuel free h
unfolding cdrom_dread
opened_dread image beyond info fuel free h = refl

-- When cdrom_dread comes to the end of a directory, no file can be searched for afterwards.
pub cdrom_dread-ends :
    (image beyond : ℕ → ℕ) (info : DiscInfo) (fuel : ℕ) (free after : Bool) (h h' : FileHandle)
    (valid_layer : Bool) (path : List ℕ)
    → cdrom_dread image beyond info fuel free h ≡ some ((none, h'), after)
    → cd_search_file image beyond info fuel after valid_layer path ≡ some (blocked, false)
cdrom_dread-ends image beyond info fuel free after h h' valid_layer path e =
    ap (λ b. cd_search_file image beyond info fuel b valid_layer path) taken
    ∙ cd_search_file-blocked image beyond info fuel valid_layer path
  where
    number : ℕ
    number = h.offset % 0x8000_0000 + 0x8000_0000

    taken : after ≡ false
    taken =
        no_entry-taken h h' (locked_file_info image beyond info fuel free none h.lsn number) after
          (locked_file_info-IsReleased image beyond info fuel free none h.lsn number)
          (opened_dread image beyond info fuel free h ∙ e)
