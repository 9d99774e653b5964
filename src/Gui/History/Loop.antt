-- ===== src/Gui/History/Loop.antt =====
-- AddHistoryRecord for a game that has a record: the loop over the entries of History.antt.
use ps2esdl.Prelude.{
  ℕ, ◌+◌, ◌<◌, ◌≡◌, refl, inl, inr, Bool, true, false, not, ◌&&◌, ◌||◌, none, some, List, [], ◌∷◌,
  arith, Bool-cases,
}
use ps2esdl.Gui.History.{
  HistoryEntry, Pass, Saved, is_record_of, compare_counts, compare_stamps, touch, visit, pass_loop,
  first_pass, finish, add_history_record,
}
use ps2esdl.Gui.History.Touch.{IsFair, IsPlayed, touch-IsPlayed}

-- One of the entries is the record of the game.
abbrev pub has_record : List ℕ → List HistoryEntry → Bool
has_record name [] = false
has_record name (e ∷ es) = is_record_of name e || has_record name es

-- The records of the game are updated, the others are as they were.
abbrev pub Updated : List ℕ → List HistoryEntry → List HistoryEntry → Type 0
Updated name [] [] = Unit {0}
Updated name [] (e' ∷ es') = ⊥
Updated name (e ∷ es) [] = ⊥
Updated name (e ∷ es) (e' ∷ es') =
    (is_record_of name e ≡ true → IsPlayed e e')
    × (is_record_of name e ≡ false → e' ≡ e)
    × Updated name es es'

abbrev pub AllBelow : ℕ → List HistoryEntry → Type 0
AllBelow n [] = Unit {0}
AllBelow n (e ∷ es) = (e.launch_count < n) × AllBelow n es

module _ (rand : ℕ → ℕ) (wait : ℕ) (name : List ℕ) where
  -- What a round does to the entry and to the mark that the record is new
  record Round (e : HistoryEntry) (i : ℕ) (p : Pass) : Type 0 where
    entry : HistoryEntry
    pass : Pass
    runs : visit rand wait name e i p ≡ some (entry, pass)
    played : is_record_of name e ≡ true → IsPlayed e entry
    kept : is_record_of name e ≡ false → entry ≡ e
    is_new : pass.is_new ≡ (p.is_new && not (is_record_of name e))

  compare-is_new :
      (e : HistoryEntry) (i : ℕ) (p : Pass)
      → (compare_stamps e i (compare_counts e i p)).is_new ≡ p.is_new
  unfolding compare_stamps compare_counts
  compare-is_new e i p = ground arith

  visit-known :
      (e e' : HistoryEntry) (i k : ℕ) (p : Pass)
      → is_record_of name e ≡ true
      → touch rand wait e (compare_stamps e i (compare_counts e i p)).next_rand ≡ some (e', k)
      → visit rand wait name e i p
        ≡ some (
          e',
          record (compare_stamps e i (compare_counts e i p)) { is_new = false; next_rand = k },
        )
  unfolding visit
  visit-known e e' i k p h t = rw (h, t)

  visit-other :
      (e : HistoryEntry) (i : ℕ) (p : Pass)
      → is_record_of name e ≡ false
      → visit rand wait name e i p ≡ some (e, compare_stamps e i (compare_counts e i p))
  unfolding visit
  visit-other e i p h = rw h

  round :
      IsFair rand wait → (e : HistoryEntry) (i : ℕ) (p : Pass) → e.launch_count < 255 → Round e i p
  round fair e i p small = elim (Bool-cases (is_record_of name e)) [
    | inl known ↦
        let (e', k, t, played) =
          touch-IsPlayed rand wait fair e (compare_stamps e i (compare_counts e i p)).next_rand
            small in
        record {
          entry = e';
          pass = record (compare_stamps e i (compare_counts e i p)) {
            is_new = false;
            next_rand = k;
          };
          runs = visit-known e e' i k p known t;
          played = λ h. played;
          kept = λ h. absurd (cc (h, known));
          is_new = rw known (ground arith);
        }
    | inr other ↦ record {
      entry = e;
      pass = compare_stamps e i (compare_counts e i p);
      runs = visit-other e i p other;
      played = λ h. absurd (cc (h, other));
      kept = λ h. refl;
      is_new = rw (other, compare-is_new e i p) (ground arith);
    }
  ]

  pass_loop-cons :
      (e e' : HistoryEntry) (es es' : List HistoryEntry) (i : ℕ) (p p' p'' : Pass)
      → visit rand wait name e i p ≡ some (e', p')
      → pass_loop rand wait name es (i + 1) p' ≡ some (es', p'')
      → pass_loop rand wait name (e ∷ es) i p ≡ some (e' ∷ es', p'')
  unfolding pass_loop
  pass_loop-cons e e' es es' i p p' p'' v l = rw (v, l)

  pass_loop-nil : (i : ℕ) (p : Pass) → pass_loop rand wait name [] i p ≡ some ([], p)
  unfolding pass_loop
  pass_loop-nil i p = refl

  -- The loop ends and updates the records of the game.
  pass_loop-Updated :
      IsFair rand wait
      → (es : List HistoryEntry) (i : ℕ) (p : Pass) → AllBelow 255 es
      → (es' : List HistoryEntry) × (p' : Pass) × (pass_loop rand wait name es i p ≡ some (es', p'))
        × Updated name es es'
        × (p'.is_new ≡ (p.is_new && not (has_record name es)))
  pass_loop-Updated fair [] i p small = ([], p, pass_loop-nil i p, tt, ground arith)
  pass_loop-Updated fair (e ∷ es) i p (h, small) =
      let r = round fair e i p h in
      let (es', p', l, updated, is_new) = pass_loop-Updated fair es (i + 1) r.pass small in
      (
        r.entry ∷ es',
        p',
        pass_loop-cons e r.entry es es' i p r.pass p' r.runs l,
        (r.played, r.kept, updated),
        ground (arith, is_new, r.is_new),
      )

-- AddHistoryRecord for a game that has a record, with a rand() that gives every value sooner or later
-- and counters below 255: it ends, every record of the game is updated as IsPlayed says, its counter,
-- bits and shift, all other records are as they were, and no record goes to the old ones.
pub add_history_record-Updated :
    (rand : ℕ → ℕ) (wait : ℕ) (name : List ℕ) (stamp : ℕ) (entries : List HistoryEntry)
    → IsFair rand wait
    → AllBelow 255 entries
    → has_record name entries ≡ true
    → (saved : Saved) × (add_history_record rand wait name stamp entries ≡ some saved)
      × Updated name entries saved.entries
      × (saved.old ≡ none)
unfolding add_history_record finish
add_history_record-Updated rand wait name stamp entries fair small known =
    let (es', p', l, updated, is_new) =
      pass_loop-Updated rand wait name fair entries 0 first_pass small in
    let new : p'.is_new ≡ false = ground arith in
    (record { entries = es'; old = none }, rw (l, new), updated, refl)
