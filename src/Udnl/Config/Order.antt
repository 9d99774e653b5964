-- ===== src/Udnl/Config/Order.antt =====
-- ParseIOPBTCONF of Config.antt as a whole stores the listing of the configuration.
use ps2esdl.Prelude.{ℕ, zero, suc, ◌+◌, ◌≡◌, refl, List, [], ◌∷◌, length, arith}
use ps2esdl.Udnl.Loader.{Mem}
use ps2esdl.Udnl.Config.{
  Result, ok, panic, lost, ◌>>=◌, next_line, directive, ResetData, Cursor, Images, Parser,
  parse_lines, parse_iopbtconf,
}
use ps2esdl.Udnl.Config.Listing.{
  Listing, Lister, list_lines, list_config, Holds, Matches, Steps, Tracks, carry_out-Steps,
}

module _ (n : ℕ) (m : Mem) (images : Images) where
  next-Matches :
      (parser : Parser images) (lister : Lister images) (num_files fuel : ℕ) (rest : List ℕ)
      (p : Result (Cursor × ResetData)) (q : Result Listing)
      → ((c : Cursor) (r : ResetData) (l : Listing)
          → Holds n m r l
          → c.mod_list + c.num_modules ≡ r.num_modules
          → Matches n m
              (parse_lines images parser num_files fuel rest c r)
              (list_lines images lister num_files fuel rest l))
      → Steps n m p q
      → Matches n m
          (p >>= λ s. parse_lines images parser num_files fuel rest s.0 s.1)
          (q >>= list_lines images lister num_files fuel rest)
  next-Matches parser lister num_files fuel rest (ok (c, r)) (ok l) later (h, at) = later c r l h at
  next-Matches parser lister num_files fuel rest panic panic later h = tt
  next-Matches parser lister num_files fuel rest lost lost later h = tt
  next-Matches parser lister num_files fuel rest (ok s) panic later h = absurd h
  next-Matches parser lister num_files fuel rest (ok s) lost later h = absurd h
  next-Matches parser lister num_files fuel rest panic (ok l) later h = absurd h
  next-Matches parser lister num_files fuel rest panic lost later h = absurd h
  next-Matches parser lister num_files fuel rest lost (ok l) later h = absurd h
  next-Matches parser lister num_files fuel rest lost panic later h = absurd h

  parse_lines-Matches :
      (parser : Parser images) (lister : Lister images)
      → Tracks n m images parser lister
      → (num_files fuel : ℕ) (text : List ℕ) (c : Cursor) (r : ResetData) (l : Listing)
      → Holds n m r l
      → c.mod_list + c.num_modules ≡ r.num_modules
      → Matches n m
          (parse_lines images parser num_files fuel text c r)
          (list_lines images lister num_files fuel text l)
  unfolding parse_lines
  parse_lines-Matches parser lister tracks num_files zero [] c r l h at = h
  parse_lines-Matches parser lister tracks num_files (suc fuel) [] c r l h at = h
  parse_lines-Matches parser lister tracks num_files zero (x ∷ xs) c r l h at = tt
  parse_lines-Matches parser lister tracks num_files (suc fuel) (x ∷ xs) c r l h at =
      next-Matches parser lister num_files fuel (next_line (directive (x ∷ xs)).1) _ _
        (λ c1 r1 l1 h1 at1.
          parse_lines-Matches parser lister tracks num_files fuel (next_line (directive (x ∷ xs)).1)
            c1 r1 l1 h1 at1)
        (carry_out-Steps n m images parser lister num_files (directive (x ∷ xs)).0 c r l tracks h
          at)

  parse_iopbtconf-Tracks :
      (depth : ℕ) → Tracks n m images (parse_iopbtconf images depth) (list_config images depth)
  unfolding parse_iopbtconf
  parse_iopbtconf-Tracks zero num_files text r l h = tt
  parse_iopbtconf-Tracks (suc depth) num_files text r l h =
      parse_lines-Matches (parse_iopbtconf images depth) (list_config images depth)
        (parse_iopbtconf-Tracks depth) num_files (length text) text
        (record { mod_list = r.num_modules; num_modules = 0 }) r l h (omega arith)

-- ParseIOPBTCONF stores the modules that its lines list, and in the place of an `!include` those of the
-- included file, one behind the other without a gap after the modules that the array held before,
-- which stay, with NULL behind the last one; it keeps the last start address, and panics where the
-- listing does.
pub parse_iopbtconf-Matches :
    (images : Images) (depth num_files : ℕ) (text : List ℕ) (r : ResetData)
    → Matches r.num_modules r.mod_data (parse_iopbtconf images depth num_files text r) (
        list_config images depth num_files text
          (record { start_address = r.start_address; modules = [] }))
parse_iopbtconf-Matches images depth num_files text r =
    parse_iopbtconf-Tracks r.num_modules r.mod_data images depth num_files text r _ (record {
      start_address = refl;
      num_modules = omega arith;
      stored = λ k h. absurd (omega arith);
      below = λ k h. refl;
      ended = λ h. absurd (omega arith);
    })
