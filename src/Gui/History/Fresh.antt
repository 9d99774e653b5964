-- ===== src/Gui/History/Fresh.antt =====
-- AddHistoryRecord for a game that has no record: the slot that History.antt takes for it.
use ps2esdl.Prelude.{
  ℕ, zero, suc, ◌+◌, ◌≤◌, ◌<◌, ◌≡◌, ◌∙◌, refl, subst, ◌⊎◌, inl, inr, false, some, List, [], ◌∷◌,
  arith, dec_lt, length, get_or, pos→nonzero,
}
use ps2esdl.Gui.History.{
  HistoryEntry, Pass, is_record_of, compare_counts, compare_stamps, visit, pass_loop, blank_entry,
  blank_slots,
}
use ps2esdl.Gui.History.Loop.{has_record}

-- The launches of entry `j`
abbrev pub count : List HistoryEntry → ℕ → ℕ
count es j = (get_or es j blank_entry).launch_count

-- The first of the entries with the fewest launches
pub record IsLeast (es : List HistoryEntry) (n : ℕ) : Type 0 where
  pub inside : n < length es
  pub least : (j : ℕ) → j < length es → count es n ≤ count es j
  pub first : (j : ℕ) → j < n → count es n < count es j

-- The least of the entries from `i` on and of an entry `l` before them with `c` launches
abbrev pub LeastFrom : List HistoryEntry → ℕ → ℕ → ℕ → Pass → Type 0
LeastFrom es i l c p =
    ((p.least ≡ l) × (p.least_count ≡ c) × ((j : ℕ) → j < length es → c ≤ count es j))
    ⊎ ((n : ℕ) × IsLeast es n × (count es n < c) × (p.least ≡ i + n) × (p.least_count ≡ count es n))

abbrev compared : HistoryEntry → ℕ → Pass → Pass
compared e i p = compare_stamps e i (compare_counts e i p)

compared-below :
    (e : HistoryEntry) (i : ℕ) (p : Pass)
    → e.launch_count < p.least_count
    → ((compared e i p).least ≡ i)
      × ((compared e i p).least_count ≡ e.launch_count)
      × ((compared e i p).is_new ≡ p.is_new)
unfolding compare_stamps compare_counts
compared-below e i p h = ground arith

compared-above :
    (e : HistoryEntry) (i : ℕ) (p : Pass)
    → p.least_count ≤ e.launch_count
    → ((compared e i p).least ≡ p.least)
      × ((compared e i p).least_count ≡ p.least_count)
      × ((compared e i p).is_new ≡ p.is_new)
unfolding compare_stamps compare_counts
compared-above e i p h = ground arith

-- The first entry has fewer launches than `c`, and the least of the others was looked for below it.
LeastFrom-below :
    (e : HistoryEntry) (es : List HistoryEntry) (i l c : ℕ) (p : Pass)
    → e.launch_count < c
    → LeastFrom es (i + 1) i e.launch_count p
    → LeastFrom (e ∷ es) i l c p
LeastFrom-below e es i l c p h (inl (le, lc, all)) = inr (
  0,
  record { inside = omega arith; least = least; first = λ j b. absurd (omega arith) },
  h,
  omega (arith, le),
  lc,
)
  where
    least : (j : ℕ) → j < suc (length es) → e.launch_count ≤ count (e ∷ es) j
    least zero b = omega arith
    least (suc j) b = all j (omega arith)
LeastFrom-below e es i l c p h (inr (n, least_n, lower, le, lc)) = inr (
  suc n,
  record { inside = omega (arith, least_n.inside); least = least; first = first },
  omega arith,
  omega (arith, le),
  lc,
)
  where
    least : (j : ℕ) → j < suc (length es) → count es n ≤ count (e ∷ es) j
    least zero b = omega arith
    least (suc j) b = least_n.least j (omega arith)

    first : (j : ℕ) → j < suc n → count es n < count (e ∷ es) j
    first zero b = lower
    first (suc j) b = least_n.first j (omega arith)

LeastFrom-above :
    (e : HistoryEntry) (es : List HistoryEntry) (i l c : ℕ) (p : Pass)
    → c ≤ e.launch_count
    → LeastFrom es (i + 1) l c p
    → LeastFrom (e ∷ es) i l c p
LeastFrom-above e es i l c p h (inl (le, lc, all)) = inl (le, lc, least)
  where
    least : (j : ℕ) → j < suc (length es) → c ≤ count (e ∷ es) j
    least zero b = h
    least (suc j) b = all j (omega arith)
LeastFrom-above e es i l c p h (inr (n, least_n, lower, le, lc)) = inr (
  suc n,
  record { inside = omega (arith, least_n.inside); least = least; first = first },
  lower,
  omega (arith, le),
  lc,
)
  where
    least : (j : ℕ) → j < suc (length es) → count es n ≤ count (e ∷ es) j
    least zero b = omega arith
    least (suc j) b = least_n.least j (omega arith)

    first : (j : ℕ) → j < suc n → count es n < count (e ∷ es) j
    first zero b = omega arith
    first (suc j) b = least_n.first j (omega arith)

LeastFrom-eq :
    (es : List HistoryEntry) (i : ℕ) (p : Pass) {l l' c c' : ℕ}
    → l ≡ l'
    → c ≡ c'
    → LeastFrom es i l c p
    → LeastFrom es i l' c' p
LeastFrom-eq es i p {l' = l'} {c = c} e e1 from =
    subst (λ x. LeastFrom es i l' x p) e1 (subst (λ x. LeastFrom es i x c p) e from)

module _ (rand : ℕ → ℕ) (fuel : ℕ) (name : List ℕ) where
  pass_loop-other :
      (e : HistoryEntry) (es es' : List HistoryEntry) (i : ℕ) (p p' : Pass)
      → is_record_of name e ≡ false
      → pass_loop rand fuel name es (i + 1) (compared e i p) ≡ some (es', p')
      → pass_loop rand fuel name (e ∷ es) i p ≡ some (e ∷ es', p')
  unfolding pass_loop visit
  pass_loop-other e es es' i p p' h l = rw (h, l)

  pass_loop-end : (i : ℕ) (p : Pass) → pass_loop rand fuel name [] i p ≡ some ([], p)
  unfolding pass_loop
  pass_loop-end i p = refl

  -- Without a record of the game the loop changes no entry and finds the one that was used least.
  pub pass_loop-least :
      (es : List HistoryEntry) (i : ℕ) (p : Pass)
      → has_record name es ≡ false
      → (p' : Pass) × (pass_loop rand fuel name es i p ≡ some (es, p'))
        × (p'.is_new ≡ p.is_new)
        × LeastFrom es i p.least p.least_count p'
  pass_loop-least [] i p h =
      (p, pass_loop-end i p, refl, inl (refl, refl, λ j b. absurd (omega arith)))
  pass_loop-least (e ∷ es) i p h =
      let (p', l, new, from) = pass_loop-least es (i + 1) (compared e i p) (ground arith) in
      let run = pass_loop-other e es es i p p' (ground arith) l in
      elim (dec_lt e.launch_count p.least_count) [
        | yes below ↦
            let (a, b, c) = compared-below e i p below in
            (
              p',
              run,
              new ∙ c,
              LeastFrom-below e es i _ _ p' below (LeastFrom-eq es (i + 1) p' a b from),
            )
        | no above ↦
            let (a, b, c) = compared-above e i p (omega arith) in
            (
              p',
              run,
              new ∙ c,
              LeastFrom-above e es i _ _ p' (omega arith) (LeastFrom-eq es (i + 1) p' a b from),
            )
      ]

-- The blank slots are slots, and blank.
pub record AreBlank (es : List HistoryEntry) (i : ℕ) (slots : List ℕ) : Type 0 where
  pub blank :
      (k : ℕ)
      → k < length slots
      → (j : ℕ) × (j < length es) × (get_or slots k 0 ≡ i + j) × (count es j ≡ 0)
  pub complete : slots ≡ [] → (j : ℕ) → j < length es → 0 < count es j

blank_slots-blank :
    (e : HistoryEntry) (es : List HistoryEntry) (i : ℕ)
    → e.launch_count ≡ 0
    → blank_slots (e ∷ es) i ≡ i ∷ blank_slots es (i + 1)
unfolding blank_slots
blank_slots-blank e es i h = rw h

blank_slots-used :
    (e : HistoryEntry) (es : List HistoryEntry) (i : ℕ)
    → 0 < e.launch_count
    → blank_slots (e ∷ es) i ≡ blank_slots es (i + 1)
unfolding blank_slots
blank_slots-used e es i h = rw (pos→nonzero e.launch_count h)

AreBlank-used :
    (e : HistoryEntry) (es : List HistoryEntry) (i : ℕ) (slots : List ℕ)
    → 0 < e.launch_count
    → AreBlank es (i + 1) slots
    → AreBlank (e ∷ es) i slots
AreBlank-used e es i slots h rest = record {
  blank = λ k l. let (j, a, b, c) = rest.blank k l in (suc j, omega arith, omega arith, c);
  complete = complete;
}
  where
    complete : slots ≡ [] → (j : ℕ) → j < suc (length es) → 0 < count (e ∷ es) j
    complete none_left zero b = h
    complete none_left (suc j) b = rest.complete none_left j (omega arith)

AreBlank-blank :
    (e : HistoryEntry) (es : List HistoryEntry) (i : ℕ) (slots : List ℕ)
    → e.launch_count ≡ 0
    → AreBlank es (i + 1) slots
    → AreBlank (e ∷ es) i (i ∷ slots)
AreBlank-blank e es i slots h rest = record { blank = blank; complete = λ e j b. absurd (cc e) }
  where
    blank :
        (k : ℕ)
        → k < suc (length slots)
        → (j : ℕ) × (j < suc (length es))
          × (get_or (i ∷ slots) k 0 ≡ i + j)
          × (count (e ∷ es) j ≡ 0)
    blank zero l = (0, omega arith, omega arith, h)
    blank (suc k) l =
        let (j, a, b, c) = rest.blank k (omega arith) in (suc j, omega arith, omega arith, c)

pub blank_slots-AreBlank : (es : List HistoryEntry) (i : ℕ) → AreBlank es i (blank_slots es i)
unfolding blank_slots
blank_slots-AreBlank [] i = record {
  blank = λ k h. absurd (omega arith);
  complete = λ e j h. absurd (omega arith);
}
blank_slots-AreBlank (e ∷ es) i =
    let rest = blank_slots-AreBlank es (i + 1) in
    elim (dec_lt 0 e.launch_count) [
      | yes used ↦ rw (blank_slots-used e es i used) (AreBlank-used e es i _ used rest)
      | no unused ↦
          rw (blank_slots-blank e es i (omega arith)) (AreBlank-blank e es i _ (omega arith) rest)
    ]
