-- ===== src/Udnl/Modules/Newest.antt =====
-- The loop of SelectModuleFromImages of Modules.antt: what it has selected so far.
use ps2esdl.Prelude.{
  ℕ, zero, suc, ◌≤◌, ◌<◌, ◌≡◌, inl, inr, ◌∙◌, refl, ap, sym, Option, none, some, if◌then◌else◌,
  arith, dec_lt, lt→ltb, le→ltb, Option-cases,
}
use mathlib.Core.Option.{some-injective, none-ne-some}
use ps2esdl.Udnl.Modules.{is_newer, select_from}

module _ (version : ℕ → Option (Option ℕ)) where
  -- Of the images from `lo` up to `n`, none has the file, or `i` has the newest, in version `v`: the
  -- last one of those with that version.
  pub record IsNewest (lo n i v : ℕ) : Type 0 where
    pub above : lo ≤ i
    pub below : i < n
    pub has : version i ≡ some (some v)
    pub newest : (j w : ℕ) → lo ≤ j → j < n → version j ≡ some (some w) → (w ≤ v) × (i < j → w < v)

  abbrev pub Newest : ℕ → ℕ → Option (ℕ × ℕ) → Type 0
  Newest lo n none = (j : ℕ) → lo ≤ j → j < n → version j ≡ some none
  Newest lo n (some (i, v)) = IsNewest lo n i v

  at_lowest : (i j : ℕ) {r : Option (Option ℕ)} → i ≤ j → ¬ (i < j) → version i ≡ r → version j ≡ r
  at_lowest i j le last e = let eq : j ≡ i = omega arith in ap version eq ∙ e

  absent : {v : ℕ} {r : Option (Option ℕ)} → r ≡ some none → r ≡ some (some v) → ⊥
  absent {v} e f = none-ne-some v (some-injective none (some v) (sym e ∙ f))

  same_version : {v w : ℕ} {r : Option (Option ℕ)} → r ≡ some (some v) → r ≡ some (some w) → v ≡ w
  same_version {v} {w} e f = some-injective v w (some-injective (some v) (some w) (sym e ∙ f))

  Newest-skip :
      (i n : ℕ) (best : Option (ℕ × ℕ))
      → version i ≡ some none
      → Newest (suc i) n best
      → Newest i n best
  Newest-skip i n none e all =
      λ j le lt. elim (dec_lt i j) [ yes h ↦ all j (omega arith) lt | no h ↦ at_lowest i j le h e ]
  Newest-skip i n (some (k, v)) e b = record {
    above = omega (arith, b.above);
    below = b.below;
    has = b.has;
    newest = λ j w le lt has. elim (dec_lt i j) [
      | yes h ↦ b.newest j w (omega arith) lt has
      | no h ↦ absurd (absent (at_lowest i j le h e) has)
    ];
  }

  Newest-first :
      (i n v : ℕ)
      → i < n
      → version i ≡ some (some v)
      → Newest (suc i) n none
      → Newest i n (some (i, v))
  Newest-first i n v lt e all = record {
    above = omega arith;
    below = lt;
    has = e;
    newest = λ j w le below has. elim (dec_lt i j) [
      | yes h ↦ absurd (absent (all j (omega arith) below) has)
      | no h ↦
          let eq : v ≡ w = same_version (at_lowest i j le h e) has in
          (omega arith, λ more. absurd (h more))
    ];
  }

  Newest-newer :
      (i n k u v : ℕ)
      → i < n
      → version i ≡ some (some v)
      → u < v
      → IsNewest (suc i) n k u
      → IsNewest i n i v
  Newest-newer i n k u v lt e newer b = record {
    above = omega arith;
    below = lt;
    has = e;
    newest = λ j w le below has. elim (dec_lt i j) [
      | yes h ↦
          let (old, _) = b.newest j w (omega arith) below has in (omega arith, λ more. omega arith)
      | no h ↦
          let eq : v ≡ w = same_version (at_lowest i j le h e) has in
          (omega arith, λ more. absurd (h more))
    ];
  }

  Newest-older :
      (i n k u v : ℕ)
      → version i ≡ some (some v)
      → v ≤ u
      → IsNewest (suc i) n k u
      → IsNewest i n k u
  Newest-older i n k u v e older b = record {
    above = omega (arith, b.above);
    below = b.below;
    has = b.has;
    newest = λ j w le below has. elim (dec_lt i j) [
      | yes h ↦ b.newest j w (omega arith) below has
      | no h ↦
          let eq : v ≡ w = same_version (at_lowest i j le h e) has in
          (omega arith, λ more. absurd (omega (arith, b.above)))
    ];
  }

  Newest-has :
      (i n v : ℕ) (best : Option (ℕ × ℕ))
      → i < n
      → version i ≡ some (some v)
      → Newest (suc i) n best
      → Newest i n (if is_newer best v then some (i, v) else best)
  unfolding is_newer
  Newest-has i n v none lt e all = Newest-first i n v lt e all
  Newest-has i n v (some (k, u)) lt e b = elim (dec_lt u v) [
    | yes h ↦ rw (lt→ltb u v h) (Newest-newer i n k u v lt e h b)
    | no h ↦ rw (le→ltb u v (omega arith)) (Newest-older i n k u v e (omega arith) b)
  ]

  -- Every image can be looked at.
  abbrev pub Known : ℕ → Type 0
  Known n = (i : ℕ) → i < n → (r : Option ℕ) × (version i ≡ some r)

  pub select_from-Newest :
      (i n : ℕ) (best : Option (ℕ × ℕ))
      → i ≤ n
      → Known n
      → Newest i n best
      → (r : Option (ℕ × ℕ)) × (select_from version i best ≡ some r) × Newest 0 n r
  unfolding select_from
  select_from-Newest zero n best le known b = (best, refl, b)
  select_from-Newest (suc i) n best le known b =
      let (r, e) = known i (omega arith) in
      elim (Option-cases r) [
        | inl q ↦
            let e0 : version i ≡ some none = e ∙ ap some q in
            rw (select_from, e0)
              (select_from-Newest i n best (omega arith) known (Newest-skip i n best e0 b))
        | inr (v, q) ↦
            let e1 : version i ≡ some (some v) = e ∙ ap some q in
            let next : Option (ℕ × ℕ) = if is_newer best v then some (i, v) else best in
            rw (select_from, e1)
              (select_from-Newest i n next (omega arith) known
                (Newest-has i n v best (omega arith) e1 b))
      ]
