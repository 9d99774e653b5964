-- ===== src/Gui/History/Version.antt =====
-- GetBootFilename of History.antt, with and without a version behind the name.
use ps2esdl.Prelude.{
  ℕ, suc, ◌+◌, ◌-◌, ◌<◌, ◌≡◌, ◌≢◌, ◌∙◌, refl, ap, sym, inl, inr, Bool, true, false, ◌&&◌, some,
  List, [], ◌∷◌, ◌++◌, ◌==◌, ltb, length, get_or, arith, Bool-cases, length-append, append-nil, ◌⊎◌,
}
use ps2esdl.Gui.History.{is_separator, name_end, get_boot_filename}
use ps2esdl.Gui.History.Filename.{
  IsPlain, get_or-append, ends_in, take-append, take-all, path, length-path, at_separator, behind,
  get_boot_filename-take,
}

-- `;1`
abbrev pub version : List ℕ
version = 0x3b ∷ 0x31 ∷ []

-- The path ends in the version, as the code tests it.
abbrev tests : List ℕ → Bool
tests p = ltb 2 (length p) && get_or p (length p - 1) 0 == 0x31 && get_or p (length p - 2) 0 == 0x3b

name_end-tests : (p : List ℕ) → tests p ≡ true → name_end p ≡ length p - 2
unfolding name_end
name_end-tests p h = rw h

name_end-plain : (p : List ℕ) → tests p ≡ false → name_end p ≡ length p
unfolding name_end
name_end-plain p h = rw h

tests-last :
    (p : List ℕ)
    → tests p ≡ true
    → (get_or p (length p - 1) 0 ≡ 0x31) × (get_or p (length p - 2) 0 ≡ 0x3b)
tests-last p h = ground arith

tests-true :
    (p : List ℕ)
    → 2 < length p
    → get_or p (length p - 1) 0 ≡ 0x31
    → get_or p (length p - 2) 0 ≡ 0x3b
    → tests p ≡ true
tests-true p h e e1 = ground arith

separator-other : (s : ℕ) → is_separator s ≡ true → (s ≢ 0x31) × (s ≢ 0x3b)
separator-other s h = (λ e. ground arith, λ e. ground arith)

-- A path whose name has no version does not pass the tests.
tests-no_version :
    (dir : List ℕ) (s : ℕ) (rest : List ℕ)
    → is_separator s ≡ true
    → ((front : List ℕ) → rest ≢ front ++ version)
    → tests (path dir s rest) ≡ true
    → ⊥
tests-no_version dir s [] sep plain h = (separator-other s sep).0 (
    sym (at_separator dir s [])
    ∙ ap (λ i. get_or (path dir s []) i 0) (omega (arith, length-path dir s []))
    ∙ (tests-last (path dir s []) h).0)
tests-no_version dir s (c ∷ []) sep plain h = (separator-other s sep).1 (
    sym (at_separator dir s (c ∷ []))
    ∙ ap (λ i. get_or (path dir s (c ∷ [])) i 0) (omega (arith, length-path dir s (c ∷ [])))
    ∙ (tests-last (path dir s (c ∷ [])) h).1)
tests-no_version dir s (c ∷ d ∷ rest) sep plain h =
    let all = c ∷ d ∷ rest in
    let (front, e) =
      ends_in all 0x3b 0x31 (omega arith)
        (sym (behind dir s all (length all - 2))
          ∙ ap (λ i. get_or (path dir s all) i 0) (omega (arith, length-path dir s all))
          ∙ (tests-last (path dir s all) h).1)
        (sym (behind dir s all (length all - 1))
          ∙ ap (λ i. get_or (path dir s all) i 0) (omega (arith, length-path dir s all))
          ∙ (tests-last (path dir s all) h).0) in
    plain front e

get_boot_filename-version :
    (dir : List ℕ) (s : ℕ) (name : List ℕ)
    → 0 < length dir
    → is_separator s ≡ true
    → IsPlain name
    → get_boot_filename (dir ++ s ∷ (name ++ version)) ≡ some name
get_boot_filename-version dir s name pos sep plain =
    get_boot_filename-take dir s rest (length name) pos sep (plain_rest name plain) end
    ∙ ap (λ n. some n) (take-append name version)
  where
    rest : List ℕ
    rest = name ++ version

    plain_rest : (cs : List ℕ) → IsPlain cs → IsPlain (cs ++ version)
    plain_rest [] h = (refl, (refl, tt))
    plain_rest (c ∷ cs) (h, hs) = (h, plain_rest cs hs)

    len : length (path dir s rest) ≡ length dir + suc (length name + 2)
    len = length-path dir s rest ∙ ap (λ n. length dir + suc n) (length-append name version)

    end : name_end (path dir s rest) ≡ length dir + 1 + length name
    end =
        name_end-tests (path dir s rest) (
          tests-true (path dir s rest) (omega (arith, len))
            (ap (λ i. get_or (path dir s rest) i 0) (omega (arith, len))
              ∙ behind dir s rest (length name + 1)
              ∙ get_or-append name version 1)
            (ap (λ i. get_or (path dir s rest) i 0) (omega (arith, len))
              ∙ behind dir s rest (length name + 0)
              ∙ get_or-append name version 0))
        ∙ omega (arith, len)

get_boot_filename-plain :
    (dir : List ℕ) (s : ℕ) (name : List ℕ)
    → 0 < length dir
    → is_separator s ≡ true
    → IsPlain name
    → ((front : List ℕ) → name ≢ front ++ version)
    → get_boot_filename (dir ++ s ∷ name) ≡ some name
get_boot_filename-plain dir s name pos sep plain no_version =
    elim (Bool-cases (tests (path dir s name))) [
      | inl h ↦ absurd (tests-no_version dir s name sep no_version h)
      | inr h ↦
          get_boot_filename-take dir s name (length name) pos sep plain
            (name_end-plain (path dir s name) h ∙ omega (arith, length-path dir s name))
          ∙ ap (λ n. some n) (take-all name)
    ]

-- GetBootFilename of a directory that is not empty, a separator, a name without one that does not end
-- in `;1`, and `;1` or nothing behind it: the name.
pub get_boot_filename-name :
    (dir : List ℕ) (s : ℕ) (name tail : List ℕ)
    → 0 < length dir
    → is_separator s ≡ true
    → IsPlain name
    → ((front : List ℕ) → name ≢ front ++ version)
    → (tail ≡ []) ⊎ (tail ≡ version)
    → get_boot_filename (dir ++ s ∷ (name ++ tail)) ≡ some name
get_boot_filename-name dir s name tail pos sep plain no_version (inl e) =
    rw (e, append-nil name) (get_boot_filename-plain dir s name pos sep plain no_version)
get_boot_filename-name dir s name tail pos sep plain no_version (inr e) =
    rw e (get_boot_filename-version dir s name pos sep plain)
