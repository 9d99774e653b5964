-- ===== src/Gui/History/Filename.antt =====
-- GetBootFilename of History.antt takes the name of the file out of a path.
use ps2esdl.Prelude.{
  ℕ, zero, suc, ◌+◌, ◌-◌, ◌≤◌, ◌<◌, ◌≡◌, ◌∙◌, refl, ap, sym, true, false, some, List, [], ◌∷◌, ◌++◌,
  ltb, length, get_or, take, drop, arith, le→ltb, pos→nonzero, length-append, append_assoc,
}
use ps2esdl.Gui.History.{is_separator, last_separator, name_end, get_boot_filename}

-- No character separates directories.
abbrev pub IsPlain : List ℕ → Type 0
IsPlain [] = Unit {0}
IsPlain (c ∷ cs) = (is_separator c ≡ false) × IsPlain cs

get_or-IsPlain : (cs : List ℕ) (k : ℕ) → IsPlain cs → is_separator (get_or cs k 0) ≡ false
get_or-IsPlain [] k h = refl
get_or-IsPlain (c ∷ cs) zero (h, rest) = h
get_or-IsPlain (c ∷ cs) (suc k) (h, rest) = get_or-IsPlain cs k rest

pub get_or-append : (xs ys : List ℕ) (k : ℕ) → get_or (xs ++ ys) (length xs + k) 0 ≡ get_or ys k 0
get_or-append [] ys k = ap (λ i. get_or ys i 0) (omega arith)
get_or-append (x ∷ xs) ys k =
    ap (λ i. get_or (x ∷ (xs ++ ys)) i 0) (shift (length xs)) ∙ get_or-append xs ys k
  where
    shift : (n : ℕ) → suc n + k ≡ suc (n + k)
    shift n = omega arith

drop-append : (xs ys : List ℕ) → drop (length xs) (xs ++ ys) ≡ ys
drop-append [] ys = refl
drop-append (x ∷ xs) ys = drop-append xs ys

pub take-append : (xs ys : List ℕ) → take (length xs) (xs ++ ys) ≡ xs
take-append [] ys = refl
take-append (x ∷ xs) ys = ap (λ zs. x ∷ zs) (take-append xs ys)

pub take-all : (xs : List ℕ) → take (length xs) xs ≡ xs
take-all [] = refl
take-all (x ∷ xs) = ap (λ zs. x ∷ zs) (take-all xs)

-- A list whose last two elements are known
pub ends_in :
    (xs : List ℕ) (a b : ℕ)
    → 2 ≤ length xs
    → get_or xs (length xs - 2) 0 ≡ a
    → get_or xs (length xs - 1) 0 ≡ b
    → (front : List ℕ) × (xs ≡ front ++ a ∷ b ∷ [])
ends_in [] a b h e e1 = absurd (omega arith)
ends_in (x ∷ []) a b h e e1 = absurd (omega arith)
ends_in (x ∷ y ∷ []) a b h e e1 = ([], rw (← e, ← e1))
ends_in (x ∷ y ∷ z ∷ zs) a b h e e1 =
    let (front, eq) =
      ends_in (y ∷ z ∷ zs) a b (omega arith)
        (ap (λ i. get_or (x ∷ y ∷ z ∷ zs) i 0) (two (length zs)) ∙ e)
        (ap (λ i. get_or (x ∷ y ∷ z ∷ zs) i 0) (one (length zs)) ∙ e1) in
    (x ∷ front, ap (λ r. x ∷ r) eq)
  where
    two : (n : ℕ) → suc (suc (suc n) - 2) ≡ suc (suc (suc n)) - 2
    two n = omega arith

    one : (n : ℕ) → suc (suc (suc n) - 1) ≡ suc (suc (suc n)) - 1
    one n = omega arith

module _ (dir : List ℕ) (s : ℕ) (rest : List ℕ) where
  abbrev pub path : List ℕ
  path = dir ++ s ∷ rest

  pub length-path : length path ≡ length dir + suc (length rest)
  length-path = length-append dir (s ∷ rest)

  pub at_separator : get_or path (length dir) 0 ≡ s
  at_separator = ap (λ i. get_or path i 0) (omega arith) ∙ get_or-append dir (s ∷ rest) 0

  pub behind : (k : ℕ) → get_or path (length dir + suc k) 0 ≡ get_or rest k 0
  behind k = get_or-append dir (s ∷ rest) (suc k)

  last_separator-suc :
      (i : ℕ)
      → is_separator (get_or path (suc i) 0) ≡ false
      → last_separator path (suc i) ≡ last_separator path i
  unfolding last_separator
  last_separator-suc i h = rw h

  last_separator-hit :
      (i : ℕ) → 0 < i → is_separator (get_or path i 0) ≡ true → last_separator path i ≡ i
  unfolding last_separator
  last_separator-hit zero pos h = absurd (omega arith)
  last_separator-hit (suc i) pos h = rw h

  last_separator-dir :
      (k : ℕ)
      → 0 < length dir
      → is_separator s ≡ true
      → IsPlain rest
      → last_separator path (length dir + k) ≡ length dir
  last_separator-dir zero pos sep plain =
      ap (last_separator path) (omega arith)
      ∙ last_separator-hit (length dir) pos (ap (λ c. is_separator c) at_separator ∙ sep)
  last_separator-dir (suc k) pos sep plain =
      ap (last_separator path) (next (length dir))
      ∙ last_separator-suc (length dir + k) (
          ap (λ i. is_separator (get_or path i 0)) (sym (next (length dir)))
          ∙ ap (λ c. is_separator c) (behind k)
          ∙ get_or-IsPlain rest k plain)
      ∙ last_separator-dir k pos sep plain
    where
      next : (n : ℕ) → n + suc k ≡ suc (n + k)
      next n = omega arith

  found :
      0 < length dir
      → is_separator s ≡ true
      → IsPlain rest
      → last_separator path (length path) ≡ length dir
  found pos sep plain =
      ap (last_separator path) length-path ∙ last_separator-dir (suc (length rest)) pos sep plain

  tail : drop (length dir + 1) path ≡ rest
  tail =
      ap (drop (length dir + 1)) (sym (append_assoc dir (s ∷ []) rest))
      ∙ ap (λ n. drop n ((dir ++ s ∷ []) ++ rest)) (sym (length-append dir (s ∷ [])))
      ∙ drop-append (dir ++ s ∷ []) rest

  -- The name, when the length of the path without its version is known.
  pub get_boot_filename-take :
      (n : ℕ)
      → 0 < length dir
      → is_separator s ≡ true
      → IsPlain rest
      → name_end path ≡ length dir + 1 + n
      → get_boot_filename path ≡ some (take n rest)
  unfolding get_boot_filename
  get_boot_filename-take n pos sep plain e =
      rw (found pos sep plain, pos→nonzero (length dir) pos, e, in_range, count, tail)
    where
      in_range : ltb (length dir + 1 + n) (length dir + 1) ≡ false
      in_range = le→ltb (length dir + 1 + n) (length dir + 1) (omega arith)

      count : length dir + 1 + n - (length dir + 1) ≡ n
      count = omega arith
