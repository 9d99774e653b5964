-- ===== src/Gui/History/Card.antt =====
-- gui/OSDHistory.c: the files of the history on the memory cards of the two slots, LoadHistoryFile,
-- CreateSystemDataFolder and the beginning of AddHistoryRecord.
use mathlib.Core.Option
use ps2esdl.Prelude.{
  ℕ, zero, suc, ◌≤◌, ◌≡◌, ◌∙◌, refl, ap, inl, inr, Bool, ◌&&◌, ◌||◌, Option, none, some, List, [],
  ◌∷◌, leb, if◌then◌else◌, length, take, arith, Bool-cases,
}
use ps2esdl.Gui.History.{HistoryEntry, Saved, blank_entry, add_history_record}
use ps2esdl.Gui.History.Touch.{IsFair}
use ps2esdl.Gui.History.Valid.{AllValid, add_history_record-AllValid, length-padded}

-- What the calls of the file system find: the whole records of `history`, if it can be opened,
-- whether `icon.sys` is there, and if not, whether it can be created and written.
pub record Card : Type 0 where
  pub history : Option (List HistoryEntry)
  pub has_icon : Bool
  pub creates_icon : Bool
  pub writes_icon : Bool

-- The read of MAX_HISTORY_ENTRIES records, which fails when the file is shorter
unfoldable pub read_entries : List HistoryEntry → Option (List HistoryEntry)
read_entries es = if leb 21 (length es) then some (take 21 es) else none

-- `LoadHistoryFile`; `none` is an error.
unfoldable pub load_history_file : Option (List HistoryEntry) → Option (List HistoryEntry)
load_history_file none = none
load_history_file (some es) = read_entries es

-- `CreateSystemDataFolder(...)==0`
unfoldable pub create_system_data_folder : Card → Bool
create_system_data_folder card = card.has_icon || (card.creates_icon && card.writes_icon)

abbrev pub blanks : ℕ → List HistoryEntry
blanks zero = []
blanks (suc n) = blank_entry ∷ blanks n

-- The folders that are tried when no history was loaded
unfoldable pub create_history : Card → Card → Option (ℕ × List HistoryEntry)
create_history card_0 card_1 =
    if create_system_data_folder card_0
    then some (0, blanks 21)
    else (if create_system_data_folder card_1 then some (1, blanks 21) else none)

unfoldable pub or_second :
    Option (List HistoryEntry)
    → Option (List HistoryEntry)
    → Option (ℕ × List HistoryEntry)
    → Option (ℕ × List HistoryEntry)
or_second (some es) second created = some (0, es)
or_second none (some es) created = some (1, es)
or_second none none created = created

-- The slot and the entries that `AddHistoryRecord` goes on with; `none` is an error.
unfoldable pub open_history : Card → Card → Option (ℕ × List HistoryEntry)
open_history card_0 card_1 =
    or_second (load_history_file card_0.history) (load_history_file card_1.history)
      (create_history card_0 card_1)

-- `AddHistoryRecord`, up to what is saved in which slot. The outer `none` is that the fuel ran out, the
-- inner one an error.
unfoldable pub record_on_cards :
    (ℕ → ℕ) → ℕ → List ℕ → ℕ → Option (ℕ × List HistoryEntry) → Option (Option (ℕ × Saved))
record_on_cards rand fuel name stamp none = some none
record_on_cards rand fuel name stamp (some (slot, entries)) =
    Option.map (λ saved. some (slot, saved)) (add_history_record rand fuel name stamp entries)

-- A file, if there is one, with valid records
abbrev pub IsSound : Option (List HistoryEntry) → Type 0
IsSound none = Unit {0}
IsSound (some es) = AllValid es

-- What `AddHistoryRecord` goes on with has 21 valid records.
abbrev pub IsFull : Option (ℕ × List HistoryEntry) → Type 0
IsFull none = Unit {0}
IsFull (some (slot, es)) = AllValid es × (length es ≡ 21)

take-AllValid :
    (n : ℕ) (es : List HistoryEntry)
    → AllValid es
    → n ≤ length es
    → AllValid (take n es) × (length (take n es) ≡ n)
take-AllValid zero es v h = (tt, refl)
take-AllValid (suc n) [] v h = absurd (omega arith)
take-AllValid (suc n) (e ∷ es) (v, vs) h =
    let (all, len) = take-AllValid n es vs (omega arith) in ((v, all), ap suc len)

pub blanks-AllValid : (n : ℕ) → AllValid (blanks n) × (length (blanks n) ≡ n)
blanks-AllValid zero = (tt, refl)
blanks-AllValid (suc n) =
    let (all, len) = blanks-AllValid n in
    (
      (
        record { name = length-padded 16 []; launch_count = omega arith; bitmask = omega arith },
        all,
      ),
      ap suc len,
    )

create_history-IsFull : (card_0 card_1 : Card) → IsFull (create_history card_0 card_1)
unfolding create_history
create_history-IsFull card_0 card_1 = elim (Bool-cases (create_system_data_folder card_0)) [
  | inl e ↦ rw e (blanks-AllValid 21)
  | inr e ↦ elim (Bool-cases (create_system_data_folder card_1)) [
    | inl e1 ↦ rw (e, e1) (blanks-AllValid 21)
    | inr e1 ↦ rw (e, e1) tt
  ]
]

-- A file that can be loaded has 21 records.
abbrev IsLoaded : Option (List HistoryEntry) → Type 0
IsLoaded none = Unit {0}
IsLoaded (some es) = AllValid es × (length es ≡ 21)

load_history_file-IsLoaded :
    (file : Option (List HistoryEntry)) → IsSound file → IsLoaded (load_history_file file)
unfolding load_history_file read_entries
load_history_file-IsLoaded none sound = tt
load_history_file-IsLoaded (some es) sound = elim (Bool-cases (leb 21 (length es))) [
  | inl e ↦ rw e (take-AllValid 21 es sound (ground arith))
  | inr e ↦ rw e tt
]

or_second-IsFull :
    (first second : Option (List HistoryEntry)) (created : Option (ℕ × List HistoryEntry))
    → IsLoaded first
    → IsLoaded second
    → IsFull created
    → IsFull (or_second first second created)
unfolding or_second
or_second-IsFull (some es) second created a b c = a
or_second-IsFull none (some es) created a b c = b
or_second-IsFull none none created a b c = c

-- The result is an error, or 21 valid records are saved.
abbrev pub IsKept : Option (Option (ℕ × Saved)) → Type 0
IsKept none = ⊥
IsKept (some none) = Unit {0}
IsKept (some (some (slot, saved))) = AllValid saved.entries × (length saved.entries ≡ 21)

record_on_cards-IsKept :
    (rand : ℕ → ℕ) (wait : ℕ) (name : List ℕ) (stamp : ℕ) (opened : Option (ℕ × List HistoryEntry))
    → IsFair rand wait
    → IsFull opened
    → IsKept (record_on_cards rand wait name stamp opened)
unfolding record_on_cards
record_on_cards-IsKept rand wait name stamp none fair full = tt
record_on_cards-IsKept rand wait name stamp (some (slot, entries)) fair (valid, len) =
    let (saved, e, all, same) =
      add_history_record-AllValid rand wait name stamp entries fair (omega (arith, len)) valid in
    rw e (all, same ∙ len)

-- AddHistoryRecord on two memory cards, whose histories, if they have one, have records with names of
-- sixteen bytes, less than 128 launches and masks of six bits, with a rand() that gives every value
-- sooner or later: it ends, with an error or with 21 such records to save.
pub open_history-IsKept :
    (rand : ℕ → ℕ) (wait : ℕ) (name : List ℕ) (stamp : ℕ) (card_0 card_1 : Card)
    → IsFair rand wait
    → IsSound card_0.history
    → IsSound card_1.history
    → IsKept (record_on_cards rand wait name stamp (open_history card_0 card_1))
unfolding open_history
open_history-IsKept rand wait name stamp card_0 card_1 fair sound_0 sound_1 =
    record_on_cards-IsKept rand wait name stamp _ fair (
      or_second-IsFull _ _ _ (load_history_file-IsLoaded card_0.history sound_0)
        (load_history_file-IsLoaded card_1.history sound_1) (create_history-IsFull card_0 card_1))
