-- ===== src/Prelude/Lists.antt =====
-- Lists measured and indexed by native numbers, under the library's names, and the table of a
-- function over a run of indices.
use Prim.Native.Nat.{ℕ, zero, suc, ◌+◌, ◌<◌}
use mathlib.Core.Path.{◌≡◌, refl, ap, sym, ◌∙◌}
use mathlib.Core.Logic.{◌≢◌}
use mathlib.Core.List.{List, [], ◌∷◌, ◌++◌}
use mathlib.Core.Option.{Option, none, some}
use native.Mathlib.Omega.{arith}

module _ {ℓ} {A : Type ℓ} where
  abbrev pub length : List A → ℕ
  length [] = 0
  length (x ∷ xs) = suc (length xs)

  abbrev pub get_elem? : List A → ℕ → Option A
  get_elem? [] i = none
  get_elem? (x ∷ xs) zero = some x
  get_elem? (x ∷ xs) (suc i) = get_elem? xs i

  abbrev pub get_or : List A → ℕ → A → A
  get_or [] i d = d
  get_or (x ∷ xs) zero d = x
  get_or (x ∷ xs) (suc i) d = get_or xs i d

  -- A write out of bounds changes nothing.
  abbrev pub set : List A → ℕ → A → List A
  set [] i v = []
  set (x ∷ xs) zero v = v ∷ xs
  set (x ∷ xs) (suc i) v = x ∷ set xs i v

  abbrev pub take : ℕ → List A → List A
  take zero xs = []
  take (suc n) [] = []
  take (suc n) (x ∷ xs) = x ∷ take n xs

  abbrev pub drop : ℕ → List A → List A
  drop zero xs = xs
  drop (suc n) [] = []
  drop (suc n) (x ∷ xs) = drop n xs

  -- The values of `f` at `i`, `i + 1`, …, `i + n - 1`.
  abbrev pub table : (ℕ → A) → ℕ → ℕ → List A
  table f i zero = []
  table f i (suc n) = f i ∷ table f (suc i) n

abbrev pub sum : List ℕ → ℕ
sum [] = 0
sum (x ∷ xs) = x + sum xs

module _ {ℓ} {A : Type ℓ} where
  pub length-append : (xs ys : List A) → length (xs ++ ys) ≡ length xs + length ys
  length-append [] ys = omega arith
  length-append (x ∷ xs) ys = omega (arith, length-append xs ys)

  pub length-set : (xs : List A) (i : ℕ) (v : A) → length (set xs i v) ≡ length xs
  length-set [] i v = refl
  length-set (x ∷ xs) zero v = refl
  length-set (x ∷ xs) (suc i) v = ap suc (length-set xs i v)

  pub get_or-set_self :
      (xs : List A) (i : ℕ) (v d : A) → i < length xs → get_or (set xs i v) i d ≡ v
  get_or-set_self [] i v d h = absurd (omega arith)
  get_or-set_self (x ∷ xs) zero v d h = refl
  get_or-set_self (x ∷ xs) (suc i) v d h = get_or-set_self xs i v d (omega arith)

  pub get_or-set_ne :
      (xs : List A) {i j : ℕ} (v d : A) → i ≢ j → get_or (set xs i v) j d ≡ get_or xs j d
  get_or-set_ne [] v d h = refl
  get_or-set_ne (x ∷ xs) {i = zero} {j = zero} v d h = absurd (h refl)
  get_or-set_ne (x ∷ xs) {i = zero} {j = suc j} v d h = refl
  get_or-set_ne (x ∷ xs) {i = suc i} {j = zero} v d h = refl
  get_or-set_ne (x ∷ xs) {i = suc i} {j = suc j} v d h = get_or-set_ne xs v d (λ e. h (ap suc e))

  pub length-table : (f : ℕ → A) (i n : ℕ) → length (table f i n) ≡ n
  length-table f i zero = refl
  length-table f i (suc n) = ap suc (length-table f (suc i) n)

  pub table-add : (f : ℕ → A) (i m n : ℕ) → table f i (m + n) ≡ table f i m ++ table f (i + m) n
  table-add f i zero n = rw (zero_add n, add_zero i)
    where
      zero_add : (k : ℕ) → 0 + k ≡ k
      zero_add k = omega arith

      add_zero : (k : ℕ) → k + 0 ≡ k
      add_zero k = omega arith
  table-add f i (suc m) n =
      ap (table f i) (suc_add m n)
      ∙ ap (λ r. f i ∷ r)
          (table-add f (suc i) m n ∙ ap (λ k. table f (suc i) m ++ table f k n) (shift i m))
    where
      suc_add : (a b : ℕ) → suc a + b ≡ suc (a + b)
      suc_add a b = omega arith

      shift : (a b : ℕ) → suc a + b ≡ a + suc b
      shift a b = omega arith

  -- Two functions that agree on the indices of a table have the same table.
  pub table_congr :
      (f g : ℕ → A) (i j n : ℕ)
      → ((k : ℕ) → k < n → f (i + k) ≡ g (j + k))
      → table f i n ≡ table g j n
  table_congr f g i j zero h = refl
  table_congr f g i j (suc n) h =
      ap (λ x. x ∷ table f (suc i) n) head
      ∙ ap (λ r. g j ∷ r) (table_congr f g (suc i) (suc j) n λ k b. at_suc k b)
    where
      add_zero : (k : ℕ) → k + 0 ≡ k
      add_zero k = omega arith

      head : f i ≡ g j
      head = ap f (sym (add_zero i)) ∙ h 0 (omega arith) ∙ ap g (add_zero j)

      at_suc : (k : ℕ) → k < n → f (suc i + k) ≡ g (suc j + k)
      at_suc k b = ap f (omega arith) ∙ h (suc k) (omega arith) ∙ ap g (omega arith)
