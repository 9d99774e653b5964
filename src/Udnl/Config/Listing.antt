-- ===== src/Udnl/Config/Listing.antt =====
-- ParseIOPBTCONF of Config.antt stores the modules of a configuration one behind the other, those of an
-- included file in its place.
use ps2esdl.Prelude.{
  ℕ, zero, suc, ◌+◌, ◌<◌, ◌≡◌, ◌∙◌, refl, ap, sym, List, [], ◌∷◌, ◌++◌, length, get_or, add32,
  sub32, mul32, arith, dec_lt, length-append,
}
use ps2esdl.Udnl.Loader.{Mem, write}
use ps2esdl.Udnl.Loader.Copy.{write-same, write-ne}
use ps2esdl.Udnl.Romdir.{RomdirFileStat}
use ps2esdl.Udnl.Config.{
  Result, ok, panic, lost, ◌>>=◌, or_panic, next_line, Directive, start, address, include, nothing,
  load, directive, ResetData, Cursor, append, Images, Parser, carry_out,
}

-- The start address and the modules of a configuration, in order
pub record Listing : Type 0 where
  pub start_address : ℕ
  pub modules : List ℕ

abbrev pub add : ℕ → Listing → Listing
add v l = record l { modules = l.modules ++ v ∷ [] }

module _ (images : Images) where
  abbrev pub Lister : Type 0
  Lister = ℕ → List ℕ → Listing → Result Listing

  -- A line adds its module, or those of the file that it includes.
  abbrev pub list_line : Lister → ℕ → Directive → Listing → Result Listing
  list_line lister num_files (start a) l = ok (record l { start_address = a })
  list_line lister num_files (address a) l = ok (add (add32 (mul32 a 4) 1) l)
  list_line lister num_files (include name) l =
      or_panic (images.scan (sub32 num_files 1) name) >>= λ stat.
      lister (sub32 num_files 1) (images.text stat) l
  list_line lister num_files nothing l = ok l
  list_line lister num_files (load line) l =
      or_panic (images.select num_files line) >>= λ stat. ok (add stat.data_start l)

  abbrev pub list_lines : Lister → ℕ → ℕ → List ℕ → Listing → Result Listing
  list_lines lister num_files fuel [] l = ok l
  list_lines lister num_files zero (x ∷ xs) l = lost
  list_lines lister num_files (suc fuel) (x ∷ xs) l =
      list_line lister num_files (directive (x ∷ xs)).0 l
      >>= list_lines lister num_files fuel (next_line (directive (x ∷ xs)).1)

  -- The listing of a configuration, behind what was listed before
  abbrev pub list_config : ℕ → Lister
  list_config zero num_files text l = lost
  list_config (suc depth) num_files text l =
      list_lines (list_config depth) num_files (length text) text l

-- The array holds the listing from index `n` on, NULL behind it, and below what `m` holds.
pub record Holds (n : ℕ) (m : Mem) (r : ResetData) (l : Listing) : Type 0 where
  pub start_address : r.start_address ≡ l.start_address
  pub num_modules : r.num_modules ≡ n + length l.modules
  pub stored : (k : ℕ) → k < length l.modules → r.mod_data (n + k) ≡ get_or l.modules k 0
  pub below : (k : ℕ) → k < n → r.mod_data k ≡ m k
  pub ended : 0 < length l.modules → r.mod_data r.num_modules ≡ 0

-- Both panic, or both end so.
abbrev pub Matches : ℕ → Mem → Result ResetData → Result Listing → Type 0
Matches n m (ok r) (ok l) = Holds n m r l
Matches n m panic panic = Unit {0}
Matches n m lost lost = Unit {0}
Matches n m (ok r) panic = ⊥
Matches n m (ok r) lost = ⊥
Matches n m panic (ok l) = ⊥
Matches n m panic lost = ⊥
Matches n m lost (ok l) = ⊥
Matches n m lost panic = ⊥

-- The same between two lines, where the cursor is at the end of the list.
abbrev pub Steps : ℕ → Mem → Result (Cursor × ResetData) → Result Listing → Type 0
Steps n m (ok (c, r)) (ok l) = Holds n m r l × (c.mod_list + c.num_modules ≡ r.num_modules)
Steps n m panic panic = Unit {0}
Steps n m lost lost = Unit {0}
Steps n m (ok s) panic = ⊥
Steps n m (ok s) lost = ⊥
Steps n m panic (ok l) = ⊥
Steps n m panic lost = ⊥
Steps n m lost (ok l) = ⊥
Steps n m lost panic = ⊥

get_or-last : (xs : List ℕ) (v : ℕ) → get_or (xs ++ v ∷ []) (length xs) 0 ≡ v
get_or-last [] v = refl
get_or-last (x ∷ xs) v = get_or-last xs v

get_or-before : (xs : List ℕ) (v k : ℕ) → k < length xs → get_or (xs ++ v ∷ []) k 0 ≡ get_or xs k 0
get_or-before [] v k h = absurd (omega arith)
get_or-before (x ∷ xs) v zero h = refl
get_or-before (x ∷ xs) v (suc k) h = get_or-before xs v k (omega arith)

module _ (n : ℕ) (m : Mem) where
  -- A pointer is appended where the list ends.
  append-Holds :
      (v : ℕ) (c : Cursor) (r : ResetData) (l : Listing)
      → Holds n m r l
      → c.mod_list + c.num_modules ≡ r.num_modules
      → Holds n m (append v c r).1 (add v l)
        × ((append v c r).0.mod_list + (append v c r).0.num_modules ≡ (append v c r).1.num_modules)
  unfolding append
  append-Holds v c r l h at = (
    record {
      start_address = h.start_address;
      num_modules = omega (arith, h.num_modules, len);
      stored = stored;
      below = λ k b. outside k (omega (arith, h.num_modules)) ∙ h.below k b;
      ended = λ some_module.
          ap after (omega arith) ∙ write-same (write r.mod_data e v) (e + 1) (e + 1) 0 refl;
    },
    omega arith,
  )
    where
      e : ℕ
      e = c.mod_list + c.num_modules

      after : Mem
      after = write (write r.mod_data e v) (e + 1) 0

      len : length (l.modules ++ v ∷ []) ≡ length l.modules + 1
      len = length-append l.modules (v ∷ [])

      outside : (k : ℕ) → k < e → after k ≡ r.mod_data k
      outside k b =
          write-ne (write r.mod_data e v) (e + 1) k 0 (λ q. omega arith)
          ∙ write-ne r.mod_data e k v (λ q. omega arith)

      at_end : after e ≡ v
      at_end =
          write-ne (write r.mod_data e v) (e + 1) e 0 (λ q. omega arith)
          ∙ write-same r.mod_data e e v refl

      stored :
          (k : ℕ)
          → k < length (l.modules ++ v ∷ [])
          → after (n + k) ≡ get_or (l.modules ++ v ∷ []) k 0
      stored k b = elim (dec_lt k (length l.modules)) [
        | yes inside ↦
            outside (n + k) (omega (arith, h.num_modules))
            ∙ h.stored k inside
            ∙ sym (get_or-before l.modules v k inside)
        | no last ↦
            ap after (omega (arith, h.num_modules, len))
            ∙ at_end
            ∙ sym (get_or-last l.modules v)
            ∙ ap (λ i. get_or (l.modules ++ v ∷ []) i 0) (omega (arith, len))
      ]

  start-Holds :
      (a : ℕ) (r : ResetData) (l : Listing)
      → Holds n m r l
      → Holds n m (record r { start_address = a }) (record l { start_address = a })
  start-Holds a r l h = record {
    start_address = refl;
    num_modules = h.num_modules;
    stored = h.stored;
    below = h.below;
    ended = h.ended;
  }

  -- After an included file the list is taken up at its end.
  included-Steps :
      (p : Result ResetData) (q : Result Listing)
      → Matches n m p q
      → Steps n m (p >>= λ r1. ok (record { mod_list = r1.num_modules; num_modules = 0 }, r1)) q
  included-Steps (ok r) (ok l) h = (h, omega arith)
  included-Steps panic panic h = tt
  included-Steps lost lost h = tt
  included-Steps (ok r) panic h = absurd h
  included-Steps (ok r) lost h = absurd h
  included-Steps panic (ok l) h = absurd h
  included-Steps panic lost h = absurd h
  included-Steps lost (ok l) h = absurd h
  included-Steps lost panic h = absurd h

  module _ (images : Images) where
    abbrev pub Tracks : Parser images → Lister images → Type 0
    Tracks parser lister =
        (num_files : ℕ) (text : List ℕ) (r : ResetData) (l : Listing)
        → Holds n m r l
        → Matches n m (parser num_files text r) (lister num_files text l)

    found-Steps :
        (parser : Parser images) (lister : Lister images) (num_files : ℕ) (r : ResetData)
        (l : Listing) (found : Result RomdirFileStat)
        → Tracks parser lister
        → Holds n m r l
        → Steps n m
            (found >>= λ stat. parser num_files (images.text stat) r >>= λ r1.
              ok (record { mod_list = r1.num_modules; num_modules = 0 }, r1))
            (found >>= λ stat. lister num_files (images.text stat) l)
    found-Steps parser lister num_files r l (ok stat) tracks h =
        included-Steps _ _ (tracks num_files (images.text stat) r l h)
    found-Steps parser lister num_files r l panic tracks h = tt
    found-Steps parser lister num_files r l lost tracks h = tt

    selected-Steps :
        (c : Cursor) (r : ResetData) (l : Listing) (found : Result RomdirFileStat)
        → Holds n m r l
        → c.mod_list + c.num_modules ≡ r.num_modules
        → Steps n m
            (found >>= λ stat. ok (append stat.data_start c r))
            (found >>= λ stat. ok (add stat.data_start l))
    selected-Steps c r l (ok stat) h at = append-Holds stat.data_start c r l h at
    selected-Steps c r l panic h at = tt
    selected-Steps c r l lost h at = tt

    pub carry_out-Steps :
        (parser : Parser images) (lister : Lister images) (num_files : ℕ) (d : Directive)
        (c : Cursor) (r : ResetData) (l : Listing)
        → Tracks parser lister
        → Holds n m r l
        → c.mod_list + c.num_modules ≡ r.num_modules
        → Steps n m
            (carry_out images parser num_files d c r)
            (list_line images lister num_files d l)
    unfolding carry_out
    carry_out-Steps parser lister num_files (start a) c r l tracks h at = (start-Holds a r l h, at)
    carry_out-Steps parser lister num_files (address a) c r l tracks h at =
        append-Holds (add32 (mul32 a 4) 1) c r l h at
    carry_out-Steps parser lister num_files (include name) c r l tracks h at =
        found-Steps parser lister (sub32 num_files 1) r l _ tracks h
    carry_out-Steps parser lister num_files nothing c r l tracks h at = (h, at)
    carry_out-Steps parser lister num_files (load line) c r l tracks h at =
        selected-Steps c r l _ h at
