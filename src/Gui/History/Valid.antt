-- ===== src/Gui/History/Valid.antt =====
-- AddHistoryRecord keeps the records of the history in their bounds.
use ps2esdl.Prelude.{
  ℕ, zero, suc, ◌+◌, ◌/◌, ◌%◌, ◌^◌, ◌<◌, ◌≡◌, ◌∙◌, refl, ap, sym, subst, inl, inr, false, some,
  List, [], ◌∷◌, arith, length, set, Bool-cases, length-set,
}
use ps2esdl.Gui.History.{
  HistoryEntry, Saved, bit, is_record_of, padded, new_entry, add_history_record,
}
use ps2esdl.Gui.History.Touch.{IsFair, IsPlayed, IsValid}
use ps2esdl.Gui.History.Loop.{has_record, Updated, AllBelow, add_history_record-Updated}
use ps2esdl.Gui.History.Fresh.{count}
use ps2esdl.Gui.History.Slot.{add_history_record-IsChosen}

clear : (mask v : ℕ) → bit mask v ≡ false → mask / 2 ^ v % 2 ≡ 0
clear mask v h = ground arith

-- A free bit adds to a mask of six bits without leaving them.
room : (mask v : ℕ) → mask < 64 → v < 6 → bit mask v ≡ false → mask + 2 ^ v < 64
room mask zero h l free = omega (arith, clear mask 0 free)
room mask (suc zero) h l free = omega (arith, clear mask 1 free)
room mask (suc (suc zero)) h l free = omega (arith, clear mask 2 free)
room mask (suc (suc (suc zero))) h l free = omega (arith, clear mask 3 free)
room mask (suc (suc (suc (suc zero)))) h l free = omega (arith, clear mask 4 free)
room mask (suc (suc (suc (suc (suc zero))))) h l free = omega (arith, clear mask 5 free)
room mask (suc (suc (suc (suc (suc (suc n)))))) h l free = absurd (omega arith)

played_bitmask : (e e' : HistoryEntry) → IsPlayed e e' → e.bitmask < 64 → e'.bitmask < 64
played_bitmask e e' p h = elim p.bitmask [
  | inl same ↦ omega (arith, same)
  | inr (v, free, added, shift, later) ↦ omega (arith, added, room e.bitmask v h free.0 free.1)
]

IsPlayed-IsValid : (e e' : HistoryEntry) → IsPlayed e e' → IsValid e → IsValid e'
IsPlayed-IsValid e e' p valid = record {
  name = ap length p.name ∙ valid.name;
  launch_count = ground (arith, p.launch_count, valid.launch_count);
  bitmask = played_bitmask e e' p valid.bitmask;
}

abbrev pub AllValid : List HistoryEntry → Type 0
AllValid [] = Unit {0}
AllValid (e ∷ es) = IsValid e × AllValid es

Updated-AllValid :
    (name : List ℕ) (es es' : List HistoryEntry)
    → Updated name es es'
    → AllValid es
    → AllValid es' × (length es' ≡ length es)
Updated-AllValid name [] [] u v = (tt, refl)
Updated-AllValid name [] (e' ∷ es') u v = absurd u
Updated-AllValid name (e ∷ es) [] u v = absurd u
Updated-AllValid name (e ∷ es) (e' ∷ es') (played, kept, u) (v, vs) =
    let (all, len) = Updated-AllValid name es es' u vs in
    elim (Bool-cases (is_record_of name e)) [
      | inl known ↦ ((IsPlayed-IsValid e e' (played known) v, all), ap suc len)
      | inr other ↦ ((subst (λ x. IsValid x) (sym (kept other)) v, all), ap suc len)
    ]

pub length-padded : (n : ℕ) (name : List ℕ) → length (padded n name) ≡ n
unfolding padded
length-padded zero name = refl
length-padded (suc n) [] = ap suc (length-padded n [])
length-padded (suc n) (c ∷ cs) = ap suc (length-padded n cs)

new_entry-IsValid :
    (name : List ℕ) (stamp : ℕ) (e : HistoryEntry) → IsValid (new_entry name stamp e)
unfolding new_entry
new_entry-IsValid name stamp e = record {
  name = length-padded 16 name;
  launch_count = omega arith;
  bitmask = omega arith;
}

set-AllValid :
    (es : List HistoryEntry) (i : ℕ) (e : HistoryEntry)
    → AllValid es
    → IsValid e
    → AllValid (set es i e)
set-AllValid [] i e all v = tt
set-AllValid (x ∷ es) zero e (h, all) v = (v, all)
set-AllValid (x ∷ es) (suc i) e (h, all) v = (h, set-AllValid es i e all v)

AllValid-AllBelow : (es : List HistoryEntry) → AllValid es → AllBelow 255 es
AllValid-AllBelow [] all = tt
AllValid-AllBelow (e ∷ es) (v, all) = (omega (arith, v.launch_count), AllValid-AllBelow es all)

AllBelow-count :
    (es : List HistoryEntry) (j : ℕ) → AllBelow 255 es → j < length es → count es j < 0x7fff_ffff
AllBelow-count [] j all h = absurd (omega arith)
AllBelow-count (e ∷ es) zero (l, all) h = omega arith
AllBelow-count (e ∷ es) (suc j) (l, all) h = AllBelow-count es j all (omega arith)

-- AddHistoryRecord of a history with a slot or more, with a rand() that gives every value sooner or
-- later, ends with as many records, and when every record has a name of sixteen bytes, less than 128
-- launches and a mask of six bits, every record of the result has, too.
pub add_history_record-AllValid :
    (rand : ℕ → ℕ) (wait : ℕ) (name : List ℕ) (stamp : ℕ) (entries : List HistoryEntry)
    → IsFair rand wait
    → 0 < length entries
    → AllValid entries
    → (saved : Saved) × (add_history_record rand wait name stamp entries ≡ some saved)
      × AllValid saved.entries
      × (length saved.entries ≡ length entries)
add_history_record-AllValid rand wait name stamp entries fair some_slot valid =
    let below = AllValid-AllBelow entries valid in
    elim (Bool-cases (has_record name entries)) [
      | inl known ↦
          let (saved, e, updated, old) =
            add_history_record-Updated rand wait name stamp entries fair below known in
          let (all, len) = Updated-AllValid name entries saved.entries updated valid in
          (saved, e, all, len)
      | inr unknown ↦
          let (slot, old, chosen, e) =
            add_history_record-IsChosen rand wait name stamp entries unknown some_slot
              (λ j h. AllBelow-count entries j below h) in
          (
            _,
            e,
            set-AllValid entries slot _ valid (new_entry-IsValid name stamp _),
            length-set entries slot _,
          )
    ]
