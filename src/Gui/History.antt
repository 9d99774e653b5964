-- ===== src/Gui/History.antt =====
-- gui/OSDHistory.c: the play history on a memory card, AddHistoryRecord and GetBootFilename. A name is
-- the characters of a C string without the NUL; `rand k` is the k-th result of rand().
pub mod Touch
pub mod Loop
pub mod Fresh
pub mod Slot
pub mod Valid
mod Tests
pub mod Filename
pub mod Version
pub mod Card
use mathlib.Core.Option
use ps2esdl.Prelude.{
  ℕ, zero, suc, ◌+◌, ◌-◌, ◌*◌, ◌/◌, ◌%◌, ◌^◌, Bool, true, false, not, ◌&&◌, ◌||◌, Option, none,
  some, List, [], ◌∷◌, ◌++◌, ltb, leb, ◌==◌, if◌then◌else◌, length, get_or, set, take, drop, u8_mod,
  u16_mod,
}

-- `struct HistoryEntry`, the name as its sixteen bytes
pub record HistoryEntry : Type 0 where
  pub name : List ℕ
  pub launch_count : ℕ
  pub bitmask : ℕ
  pub shift_amount : ℕ
  pub padding : ℕ
  pub date_stamp : ℕ

-- The bytes from the name to the end of the record
abbrev pub bytes_of : HistoryEntry → List ℕ
bytes_of e =
    e.name
    ++ e.launch_count
      ∷ e.bitmask
      ∷ e.shift_amount
      ∷ e.padding
      ∷ (e.date_stamp % u8_mod)
      ∷ (e.date_stamp / u8_mod)
      ∷ []

-- `!strcmp(entry.name, name)`, which goes on behind a name of sixteen characters; it does not come to
-- the end of the record with a name of up to 21.
unfoldable pub same_string : List ℕ → List ℕ → Bool
same_string [] name = false
same_string (b ∷ bs) [] = b == 0
same_string (b ∷ bs) (c ∷ cs) = b == c && same_string bs cs

unfoldable pub is_record_of : List ℕ → HistoryEntry → Bool
is_record_of name e = same_string (bytes_of e) name

-- `(mask>>i)&1`
abbrev pub bit : ℕ → ℕ → Bool
bit mask i = mask / 2 ^ i % 2 == 1

-- The bit is not set, so that `|=` adds it.
unfoldable pub mark : HistoryEntry → ℕ → HistoryEntry
mark e value = record e { shift_amount = value; bitmask = e.bitmask + 2 ^ value }

-- The counter after a launch, as long as not all six bits are set
abbrev pub counted : ℕ → ℕ
counted n = if leb 0x80 ((n + 1) % u8_mod) then 0x7f else (n + 1) % u8_mod

-- The variables of the loop over the entries
pub record Pass : Type 0 where
  pub least : ℕ
  pub least_count : ℕ
  pub least_stamp : ℕ
  pub is_new : Bool
  pub next_rand : ℕ

-- The two tests for the entry that was used least, with entry `i`
unfoldable pub compare_counts : HistoryEntry → ℕ → Pass → Pass
compare_counts e i p =
    if ltb e.launch_count p.least_count
    then record p { least = i; least_count = e.launch_count }
    else p

unfoldable pub compare_stamps : HistoryEntry → ℕ → Pass → Pass
compare_stamps e i p =
    if p.least == i && ltb e.date_stamp p.least_stamp
    then record p { least_stamp = e.date_stamp; least = i }
    else p

abbrev pub first_pass : Pass
first_pass = record {
  least = 0;
  least_count = 0x7fff_ffff;
  least_stamp = 0x7fff_ffff;
  is_new = true;
  next_rand = 0;
}

-- What the entries after the first one become
abbrev pub and_then :
    Option (HistoryEntry × Pass)
    → (Pass → Option (List HistoryEntry × Pass))
    → Option (List HistoryEntry × Pass)
and_then none f = none
and_then (some (e, p)) f = Option.map (λ r. (e ∷ r.0, r.1)) (f p)

module _ (rand : ℕ → ℕ) where
  -- `while((bitmask>>(value=rand()%6))&1);` on fuel, from the k-th result on: the value, and the number
  -- of the next result.
  unfoldable pub draw : ℕ → ℕ → ℕ → Option (ℕ × ℕ)
  draw zero mask k = none
  draw (suc fuel) mask k =
      let again = draw fuel mask (k + 1) in
      if bit mask (rand k % 6) then again else some (rand k % 6, k + 1)

  -- The update of the record of the game
  unfoldable pub touch : ℕ → HistoryEntry → ℕ → Option (HistoryEntry × ℕ)
  touch fuel e k =
      if e.bitmask % 64 == 63
      then (if ltb e.launch_count 0x40
          then some (record e { launch_count = (e.launch_count + 1) % u8_mod }, k)
          else some (record e { launch_count = e.bitmask % 64; shift_amount = 7 }, k))
      else (let e1 = record e { launch_count = counted e.launch_count } in
          if leb 14 e1.launch_count && not ((e1.launch_count - 14) % 10 == 0)
          then Option.map (λ d. (mark e1 d.0, d.1)) (draw fuel e1.bitmask k)
          else some (e1, k))

  -- A round of the loop
  unfoldable pub visit : ℕ → List ℕ → HistoryEntry → ℕ → Pass → Option (HistoryEntry × Pass)
  visit fuel name e i p =
      let p1 = compare_stamps e i (compare_counts e i p) in
      if is_record_of name e
      then Option.map (λ t. (t.0, record p1 { is_new = false; next_rand = t.1 }))
          (touch fuel e p1.next_rand)
      else some (e, p1)

  -- The loop, from entry `i` on
  unfoldable pub pass_loop :
      ℕ → List ℕ → List HistoryEntry → ℕ → Pass → Option (List HistoryEntry × Pass)
  pass_loop fuel name [] i p = some ([], p)
  pass_loop fuel name (e ∷ es) i p =
      and_then (visit fuel name e i p) (pass_loop fuel name es (i + 1))

-- `BlankSlotList`, from slot `i` on
unfoldable pub blank_slots : List HistoryEntry → ℕ → List ℕ
blank_slots [] i = []
blank_slots (e ∷ es) i =
    let rest = blank_slots es (i + 1) in if e.launch_count == 0 then i ∷ rest else rest

-- `OSD_HISTORY_SET_DATE`, in the sixteen bits that keep it; its parts do not overlap.
abbrev pub date_stamp_of : ℕ → ℕ → ℕ → ℕ
date_stamp_of year month date = (year * 512 + month % 16 * 32 + date % 32) % u16_mod

-- `strncpy` into an array of `n` bytes
unfoldable pub padded : ℕ → List ℕ → List ℕ
padded zero name = []
padded (suc n) [] = 0 ∷ padded n []
padded (suc n) (c ∷ cs) = c ∷ padded n cs

unfoldable pub new_entry : List ℕ → ℕ → HistoryEntry → HistoryEntry
new_entry name stamp e = record e {
  name = padded 16 name;
  launch_count = 1;
  bitmask = 1;
  shift_amount = 0;
  date_stamp = stamp;
}

-- What is written to the files: the history, and the record that goes to the old ones.
pub record Saved : Type 0 where
  pub entries : List HistoryEntry
  pub old : Option HistoryEntry

abbrev pub blank_entry : HistoryEntry
blank_entry = record {
  name = padded 16 [];
  launch_count = 0;
  bitmask = 0;
  shift_amount = 0;
  padding = 0;
  date_stamp = 0;
}

-- The slot of a new record: a blank one by chance, or else the one that was used least.
unfoldable pub add_new : List ℕ → ℕ → ℕ → List HistoryEntry → ℕ → List ℕ → Saved
add_new name stamp chance entries least [] =
    let e = get_or entries least blank_entry in
    record { entries = set entries least (new_entry name stamp e); old = some e }
add_new name stamp chance entries least (b ∷ bs) =
    let slot = get_or (b ∷ bs) (chance % length (b ∷ bs)) 0 in
    record {
      entries = set entries slot (new_entry name stamp (get_or entries slot blank_entry));
      old = none;
    }

-- What the loop's result becomes
unfoldable pub finish : (ℕ → ℕ) → List ℕ → ℕ → List HistoryEntry × Pass → Saved
finish rand name stamp (entries, p) =
    if p.is_new
    then add_new name stamp (rand p.next_rand) entries p.least (blank_slots entries 0)
    else record { entries = entries; old = none }

-- `AddHistoryRecord` from the entries on, which are the loaded ones or zeros; `stamp` is the date of
-- the clock.
unfoldable pub add_history_record : (ℕ → ℕ) → ℕ → List ℕ → ℕ → List HistoryEntry → Option Saved
add_history_record rand fuel name stamp entries =
    Option.map (finish rand name stamp) (pass_loop rand fuel name entries 0 first_pass)

-- `\\`, `:` and `/`
abbrev pub is_separator : ℕ → Bool
is_separator c = c == 0x5c || c == 0x3a || c == 0x2f

-- The loop of `GetBootFilename`: the index of the last separator, and 0 when there is none behind the
-- first character.
unfoldable pub last_separator : List ℕ → ℕ → ℕ
last_separator path zero = 0
last_separator path (suc i) =
    let before = last_separator path i in
    if is_separator (get_or path (suc i) 0) then suc i else before

-- The length without the version, `;1`
unfoldable pub name_end : List ℕ → ℕ
name_end path =
    let n = length path in
    if ltb 2 n && get_or path (n - 1) 0 == 0x31 && get_or path (n - 2) 0 == 0x3b then n - 2 else n

-- `GetBootFilename`; `none` when the length of the name is computed to be negative.
unfoldable pub get_boot_filename : List ℕ → Option (List ℕ)
get_boot_filename path =
    let i = last_separator path (length path) in
    if i == 0
    then some path
    else (if ltb (name_end path) (i + 1)
        then none
        else some (take (name_end path - (i + 1)) (drop (i + 1) path)))

abbrev pub fits_in : ℕ → List ℕ → Option (List ℕ)
fits_in room name = if ltb (length name) room then some name else none

-- `AddHistoryRecordUsingFullPath`; `none` also when the name does not fit the array of 17 characters.
unfoldable pub add_history_record_using_full_path :
    (ℕ → ℕ) → ℕ → List ℕ → ℕ → List HistoryEntry → Option Saved
add_history_record_using_full_path rand fuel path stamp entries = elim (get_boot_filename path) [
  | none ↦ none
  | some filename ↦ elim (fits_in 17 filename) [
    | none ↦ none
    | some name ↦ add_history_record rand fuel name stamp entries
  ]
]
