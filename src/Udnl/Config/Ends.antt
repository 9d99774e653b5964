-- ===== src/Udnl/Config/Ends.antt =====
-- ParseIOPBTCONF of Config.antt ends: each file that is included is looked for among fewer images.
use ps2esdl.Prelude.{
  ℕ, zero, suc, ◌≤◌, ◌<◌, ◌≡◌, ◌≢◌, ◌∙◌, refl, ap, inl, inr, false, Option, none, some, List, [],
  ◌∷◌, ◌==◌, length, drop, sub32, add32, mul32, u32_mod, arith, dec_lt, Bool-cases,
}
use ps2esdl.Udnl.Address.{continues, parse_digits, parse_start_address, digit_value}
use ps2esdl.Udnl.Romdir.{RomdirFileStat}
use ps2esdl.Udnl.Config.{
  Result, ok, panic, lost, ◌>>=◌, or_panic, is_text, skip_text, skip_control, next_line,
  starts_with, addr_command, include_command, Directive, start, address, include, nothing, load,
  directive, ResetData, Cursor, Images, Parser, carry_out, parse_lines, parse_iopbtconf,
}

abbrev pub IsEnded {ℓ} : {A : Type ℓ} → Result A → Type 0
IsEnded (ok a) = Unit {0}
IsEnded panic = Unit {0}
IsEnded lost = ⊥

length-drop : (n : ℕ) (xs : List ℕ) → length (drop n xs) ≤ length xs
length-drop zero xs = omega arith
length-drop (suc n) [] = omega arith
length-drop (suc n) (x ∷ xs) = omega (arith, length-drop n xs)

length-skip_text : (xs : List ℕ) → length (skip_text xs) ≤ length xs
unfolding skip_text
length-skip_text [] = omega arith
length-skip_text (x ∷ xs) = ground (arith, length-skip_text xs)

length-skip_control : (xs : List ℕ) → length (skip_control xs) ≤ length xs
unfolding skip_control
length-skip_control [] = omega arith
length-skip_control (x ∷ xs) = ground (arith, length-skip_control xs)

length-next_line : (xs : List ℕ) → length (next_line xs) ≤ length xs
unfolding next_line
length-next_line xs = omega (arith, length-skip_control (skip_text xs), length-skip_text xs)

-- A character is skipped, whatever it is.
length-next_line-cons : (x : ℕ) (xs : List ℕ) → length (next_line (x ∷ xs)) ≤ length xs
unfolding next_line skip_text
length-next_line-cons x xs = elim (Bool-cases (is_text x)) [
  | inl e ↦ rw e (omega (arith, length-skip_control (skip_text xs), length-skip_text xs))
  | inr e ↦ rw e (control-first e)
]
  where
    control-first : is_text x ≡ false → length (skip_control (x ∷ xs)) ≤ length xs
    control-first e = unfold skip_control in rw e (length-skip_control xs)

length-parse_digits : (a : ℕ) (xs : List ℕ) → length (parse_digits a xs).1 ≤ length xs
unfolding parse_digits
length-parse_digits a [] = omega arith
length-parse_digits a (x ∷ xs) = elim (Bool-cases (continues x)) [
  | inl e ↦ rw e (omega (arith, length-parse_digits (add32 (mul32 a 16) (digit_value x)) xs))
  | inr e ↦ rw e (omega arith)
]

length-parse_start_address : (xs : List ℕ) → length (parse_start_address xs).1 ≤ length xs
unfolding parse_start_address
length-parse_start_address xs = length-parse_digits 0 xs

-- What is left after a line and its end is shorter.
length-rest : (x : ℕ) (xs : List ℕ) → length (next_line (directive (x ∷ xs)).1) ≤ length xs
unfolding directive
length-rest x xs = elim (Bool-cases (x == 0x40)) [
  | inl e ↦
      rw e
        (omega (arith, length-next_line (parse_start_address xs).1, length-parse_start_address xs))
  | inr e ↦ elim (Bool-cases (x == 0x21)) [
    | inr e1 ↦ elim (Bool-cases (x == 0x23)) [
      | inl e2 ↦ rw (e, e1, e2) (length-next_line-cons x xs)
      | inr e2 ↦ rw (e, e1, e2) (length-next_line-cons x xs)
    ]
    | inl e1 ↦ elim (Bool-cases (starts_with addr_command (x ∷ xs))) [
      | inl e2 ↦
          rw (e, e1, e2)
            (omega (
              arith,
              length-next_line (parse_start_address (drop 5 xs)).1,
              length-parse_start_address (drop 5 xs),
              length-drop 5 xs,
            ))
      | inr e2 ↦ elim (Bool-cases (starts_with include_command (x ∷ xs))) [
        | inl e3 ↦
            rw (e, e1, e2, e3)
              (omega (
                arith,
                length-next_line (skip_text (drop 8 xs)),
                length-skip_text (drop 8 xs),
                length-drop 8 xs,
              ))
        | inr e3 ↦ rw (e, e1, e2, e3) (length-next_line-cons x xs)
      ]
    ]
  ]
]

-- The first images, `total` of them: each search among them or fewer has a result, so that each has a
-- directory with an end, and there is no file in no image.
pub record AreWhole (images : Images) (total : ℕ) : Type 0 where
  pub scan : (n : ℕ) (name : List ℕ) → n ≤ total → images.scan n name ≢ none
  pub select : (n : ℕ) (line : List ℕ) → n ≤ total → images.select n line ≢ none
  pub empty : (name : List ℕ) → images.scan 0 name ≡ some none

module _ (images : Images) (total : ℕ) (whole : AreWhole images total) where
  included_ends :
      (p : Result ResetData)
      → IsEnded p
      → IsEnded {A = Cursor × ResetData}
          (p >>= λ r1. ok (record { mod_list = r1.num_modules; num_modules = 0 }, r1))
  included_ends (ok r) h = tt
  included_ends panic h = tt
  included_ends lost h = h

  found_ends :
      (found : Option (Option RomdirFileStat)) (next : RomdirFileStat → Result (Cursor × ResetData))
      → found ≢ none
      → ((stat : RomdirFileStat) → found ≡ some (some stat) → IsEnded (next stat))
      → IsEnded (or_panic found >>= next)
  found_ends none next some_result ends = absurd (some_result refl)
  found_ends (some none) next some_result ends = tt
  found_ends (some (some stat)) next some_result ends = ends stat refl

  -- The parser ends for the files that are found among `num_files` images.
  abbrev CanEnd : Parser images → ℕ → Type 0
  CanEnd parser num_files =
      (name text : List ℕ) (stat : RomdirFileStat) (r : ResetData)
      → images.scan num_files name ≡ some (some stat)
      → IsEnded (parser num_files text r)

  carry_out_ends :
      (parser : Parser images) (num_files : ℕ) (d : Directive) (c : Cursor) (r : ResetData)
      → CanEnd parser (sub32 num_files 1)
      → 0 < num_files
      → num_files ≤ total
      → num_files < u32_mod
      → IsEnded (carry_out images parser num_files d c r)
  unfolding carry_out
  carry_out_ends parser num_files (start a) c r ends pos among small = tt
  carry_out_ends parser num_files (address a) c r ends pos among small = tt
  carry_out_ends parser num_files (include name) c r ends pos among small =
      found_ends (images.scan (sub32 num_files 1) name) _
        (whole.scan (sub32 num_files 1) name (omega arith))
        (λ stat e. included_ends _ (ends name (images.text stat) stat r e))
  carry_out_ends parser num_files nothing c r ends pos among small = tt
  carry_out_ends parser num_files (load line) c r ends pos among small =
      found_ends (images.select num_files line) _ (whole.select num_files line among) (λ stat e. tt)

  next_ends :
      (p : Result (Cursor × ResetData)) (next : Cursor × ResetData → Result ResetData)
      → IsEnded p
      → ((s : Cursor × ResetData) → IsEnded (next s))
      → IsEnded (p >>= next)
  next_ends (ok s) next h ends = ends s
  next_ends panic next h ends = tt
  next_ends lost next h ends = h

  parse_lines_ends :
      (parser : Parser images) (num_files fuel : ℕ) (text : List ℕ) (c : Cursor) (r : ResetData)
      → CanEnd parser (sub32 num_files 1)
      → 0 < num_files
      → num_files ≤ total
      → num_files < u32_mod
      → length text ≤ fuel
      → IsEnded (parse_lines images parser num_files fuel text c r)
  unfolding parse_lines
  parse_lines_ends parser num_files zero [] c r ends pos among small h = tt
  parse_lines_ends parser num_files (suc fuel) [] c r ends pos among small h = tt
  parse_lines_ends parser num_files zero (x ∷ xs) c r ends pos among small h = absurd (omega arith)
  parse_lines_ends parser num_files (suc fuel) (x ∷ xs) c r ends pos among small h =
      next_ends (carry_out images parser num_files (directive (x ∷ xs)).0 c r) _
        (carry_out_ends parser num_files (directive (x ∷ xs)).0 c r ends pos among small)
        (λ s.
          parse_lines_ends parser num_files fuel (next_line (directive (x ∷ xs)).1) s.0 s.1 ends pos
            among small (omega (arith, length-rest x xs)))

  no_file : (name : List ℕ) (stat : RomdirFileStat) → images.scan 0 name ≡ some (some stat) → ⊥
  no_file name stat e = cc (whole.empty name, e)

  -- ParseIOPBTCONF with one image or more, as many levels of included files as images, and images whose
  -- directories have an end, ends: it does not run out of fuel, also with files that include one another.
  pub parse_iopbtconf_ends :
      (depth num_files : ℕ) (text : List ℕ) (r : ResetData)
      → 0 < num_files
      → num_files ≤ depth
      → num_files ≤ total
      → num_files < u32_mod
      → IsEnded (parse_iopbtconf images depth num_files text r)
  unfolding parse_iopbtconf
  parse_iopbtconf_ends zero num_files text r pos enough among small = absurd (omega arith)
  parse_iopbtconf_ends (suc depth) num_files text r pos enough among small =
      parse_lines_ends (parse_iopbtconf images depth) num_files (length text) text _ r
        (λ name text1 stat r1 e. elim (dec_lt 1 num_files) [
          | yes more ↦
              parse_iopbtconf_ends depth (sub32 num_files 1) text1 r1 (omega arith) (omega arith)
                (omega arith) (omega arith)
          | no last ↦ absurd (no_file name stat (ap (λ n. images.scan n name) (omega arith) ∙ e))
        ])
        pos among small (omega arith)
