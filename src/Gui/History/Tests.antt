-- ===== src/Gui/History/Tests.antt =====
-- Runs of the routines of History.antt.
use ps2esdl.Prelude.{
  ℕ, zero, suc, ◌+◌, ◌-◌, ◌%◌, ◌<◌, ◌≡◌, ◌≢◌, refl, ap, inr, length-append, true, false, Option,
  none, some, List, [], ◌∷◌, ◌++◌, arith, length, get_or, set,
}
use ps2esdl.Gui.History.{
  HistoryEntry, Saved, same_string, is_record_of, padded, new_entry, blank_entry, get_boot_filename,
  add_history_record, pass_loop, visit, touch, finish, compare_counts, compare_stamps, draw, mark,
}
use ps2esdl.Gui.History.Touch.{IsFair}
use ps2esdl.Gui.History.Loop.{Updated, add_history_record-Updated}
use ps2esdl.Gui.History.Slot.{IsChosen, add_history_record-IsChosen}
use ps2esdl.Gui.History.Fresh.{count}
use ps2esdl.Gui.History.Valid.{AllValid}
use ps2esdl.Gui.History.Card.{
  Card, blanks, IsKept, record_on_cards, open_history, blanks-AllValid, open_history-IsKept,
}
use ps2esdl.Gui.History.Version.{version, get_boot_filename-name}

-- A rand() that counts
abbrev counter : ℕ → ℕ
counter k = k

counter-IsFair : IsFair counter 6
counter-IsFair k v h = ((v + 6 - k % 6) % 6, omega arith, omega arith)

-- The name AB, and a record of it after 14 launches
abbrev game : List ℕ
game = 0x41 ∷ 0x42 ∷ []

abbrev played_entry : HistoryEntry
played_entry = record {
  name = padded 16 game;
  launch_count = 14;
  bitmask = 1;
  shift_amount = 0;
  padding = 0;
  date_stamp = 0x1a75;
}

abbrev two_entries : List HistoryEntry
two_entries = blank_entry ∷ played_entry ∷ []

add_history_record_example :
    (saved : Saved) × (add_history_record counter 6 game 0 two_entries ≡ some saved)
    × Updated game two_entries saved.entries
    × (saved.old ≡ none)
unfolding is_record_of same_string padded
add_history_record_example =
    add_history_record-Updated counter 6 game 0 two_entries counter-IsFair
      (omega arith, (omega arith, tt)) refl

-- The fifteenth launch sets the next bit that is free.
add_history_record_run :
    add_history_record counter 6 game 0 two_entries
    ≡ some (record {
      entries =
          blank_entry
          ∷ record played_entry { launch_count = 15; bitmask = 3; shift_amount = 1 }
          ∷ [];
      old = none;
    })
unfolding add_history_record pass_loop visit is_record_of same_string padded touch finish
    compare_counts compare_stamps draw mark
add_history_record_run = refl

abbrev other_game : List ℕ
other_game = 0x43 ∷ []

add_history_record_new :
    (slot : ℕ) × (old : Option HistoryEntry) × IsChosen two_entries slot old
    × (add_history_record counter 6 other_game 0 two_entries
        ≡ some (record {
          entries =
              set two_entries slot (new_entry other_game 0 (get_or two_entries slot blank_entry));
          old = old;
        }))
unfolding is_record_of same_string padded
add_history_record_new =
    add_history_record-IsChosen counter 6 other_game 0 two_entries refl (omega arith) below
  where
    below : (j : ℕ) → j < 2 → count two_entries j < 0x7fff_ffff
    below zero h = omega arith
    below (suc zero) h = omega arith
    below (suc (suc j)) h = absurd (omega arith)

no_version : (front : List ℕ) → game ≢ front ++ version
no_version [] e = absurd (omega (arith, ap (λ l. get_or l 0 0) e))
no_version (x ∷ front) e = absurd (omega (arith, ap length e, length-append front version))

-- cdrom0:\AB;1
get_boot_filename_example :
    get_boot_filename ((0x30 ∷ 0x3a ∷ []) ++ 0x5c ∷ (game ++ version)) ≡ some game
get_boot_filename_example =
    get_boot_filename-name (0x30 ∷ 0x3a ∷ []) 0x5c game version (omega arith) refl
      (refl, (refl, tt)) no_version (inr refl)

-- A card with a history in slot 1 (of 20 blank records and one that was played), and none in slot 0.
abbrev no_card : Card
no_card = record { history = none; has_icon = false; creates_icon = false; writes_icon = false }

abbrev full_card : Card
full_card = record {
  history = some (played_entry ∷ blanks 20);
  has_icon = true;
  creates_icon = false;
  writes_icon = false;
}

full_card-IsSound : AllValid (played_entry ∷ blanks 20)
unfolding padded
full_card-IsSound = (
  record { name = refl; launch_count = omega arith; bitmask = omega arith },
  (blanks-AllValid 20).0,
)

open_history_example : IsKept (record_on_cards counter 6 game 0 (open_history no_card full_card))
open_history_example =
    open_history-IsKept counter 6 game 0 no_card full_card counter-IsFair tt full_card-IsSound
