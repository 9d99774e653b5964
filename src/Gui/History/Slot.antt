-- ===== src/Gui/History/Slot.antt =====
-- AddHistoryRecord for a game that has no record: what is saved.
use ps2esdl.Prelude.{
  ℕ, ◌%◌, ◌<◌, ◌≡◌, refl, subst, ◌⊎◌, inl, inr, false, Option, none, some, List, [], ◌∷◌, arith,
  length, get_or, set,
}
use ps2esdl.Gui.History.{
  HistoryEntry, Pass, first_pass, blank_entry, blank_slots, new_entry, add_new, finish,
  add_history_record,
}
use ps2esdl.Gui.History.Loop.{has_record}
use ps2esdl.Gui.History.Fresh.{
  count, IsLeast, LeastFrom, pass_loop-least, AreBlank, blank_slots-AreBlank,
}

-- The slot for a new record: a blank one, or when there is none the first of those with the fewest
-- launches, whose record goes to the old ones.
abbrev pub IsChosen : List HistoryEntry → ℕ → Option HistoryEntry → Type 0
IsChosen es slot old =
    (slot < length es)
    × (((count es slot ≡ 0) × (old ≡ none))
        ⊎ (((j : ℕ) → j < length es → 0 < count es j)
            × IsLeast es slot
            × (old ≡ some (get_or es slot blank_entry))))

add_new-IsChosen :
    (name : List ℕ) (stamp chance : ℕ) (es : List HistoryEntry) (least : ℕ) (slots : List ℕ)
    → AreBlank es 0 slots
    → IsLeast es least
    → (slot : ℕ) × (old : Option HistoryEntry) × IsChosen es slot old
      × (add_new name stamp chance es least slots ≡ record {
        entries = set es slot (new_entry name stamp (get_or es slot blank_entry));
        old = old;
      })
unfolding add_new
add_new-IsChosen name stamp chance es least [] blank is_least = (
  least,
  some (get_or es least blank_entry),
  (is_least.inside, inr (blank.complete refl, is_least, refl)),
  refl,
)
add_new-IsChosen name stamp chance es least (b ∷ bs) blank is_least =
    let (j, inside, at, unused) = blank.blank (chance % length (b ∷ bs)) (omega arith) in
    let e : get_or (b ∷ bs) (chance % length (b ∷ bs)) 0 ≡ j = omega (arith, at) in
    (j, none, (inside, inl (unused, refl)), rw e)

least_entry :
    (es : List HistoryEntry) (p : Pass)
    → 0 < length es
    → ((j : ℕ) → j < length es → count es j < 0x7fff_ffff)
    → LeastFrom es 0 0 0x7fff_ffff p
    → IsLeast es p.least
least_entry es p some_slot small (inl (le, lc, all)) =
    absurd (omega (arith, all 0 some_slot, small 0 some_slot))
least_entry es p some_slot small (inr (n, is_least, lower, le, lc)) =
    subst (λ k. IsLeast es k) (omega (arith, le)) is_least

-- AddHistoryRecord for a game that has no record, in a history with a slot or more, whose counters are
-- in range: it ends, whatever rand() gives; one slot takes the new record, a blank one if there is any,
-- else the first of those with the fewest launches, whatever their dates, and then its record goes to
-- the old ones; and the other slots are as they were.
pub add_history_record-IsChosen :
    (rand : ℕ → ℕ) (fuel : ℕ) (name : List ℕ) (stamp : ℕ) (entries : List HistoryEntry)
    → has_record name entries ≡ false
    → 0 < length entries
    → ((j : ℕ) → j < length entries → count entries j < 0x7fff_ffff)
    → (slot : ℕ) × (old : Option HistoryEntry) × IsChosen entries slot old
      × (add_history_record rand fuel name stamp entries
          ≡ some (record {
            entries = set entries slot (new_entry name stamp (get_or entries slot blank_entry));
            old = old;
          }))
unfolding add_history_record finish
add_history_record-IsChosen rand fuel name stamp entries unknown some_slot small =
    let (p, l, new, from) = pass_loop-least rand fuel name entries 0 first_pass unknown in
    let (slot, old, chosen, e) =
      add_new-IsChosen name stamp (rand p.next_rand) entries p.least (blank_slots entries 0)
        (blank_slots-AreBlank entries 0) (least_entry entries p some_slot small from) in
    (slot, old, chosen, rw (l, new, e))
