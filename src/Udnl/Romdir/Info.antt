-- ===== src/Udnl/Romdir/Info.antt =====
-- GetFileInfo of Romdir.antt: it ends on any memory, and finds the first field of a type.
use ps2esdl.Prelude.{
  ℕ, zero, suc, ◌+◌, ◌*◌, ◌/◌, ◌%◌, ◌≤◌, ◌<◌, ◌≡◌, ◌∙◌, refl, ap, true, false, Option, none, some,
  List, [], ◌∷◌, ◌==◌, if◌then◌else◌, add32, u32_mod, arith, dec_lt, lt→ltb, le→ltb, Bool-cases,
  inl, inr,
}
use ps2esdl.Udnl.Romdir.{RomdirFileStat, scan_info, get_file_info}

-- A field of type `kind`, with `payload` words after its header
pub record InfoField : Type 0 where
  pub kind : ℕ
  pub payload : ℕ

abbrev pub info_words : List InfoField → ℕ
info_words [] = 0
info_words (f ∷ fs) = 1 + f.payload + info_words fs

-- The address of the first field of a type, of fields that begin at `a`
abbrev pub find_field : ℕ → List InfoField → ℕ → Option ℕ
find_field a [] mode = none
find_field a (f ∷ fs) mode =
    if f.kind == mode then some a else find_field (a + 4 * (1 + f.payload)) fs mode

module _ (word : ℕ → ℕ) where
  -- These fields stand in memory from `a` on.
  unfoldable pub IsLaid : ℕ → List InfoField → Type 0
  IsLaid a [] = Unit {0}
  IsLaid a (f ∷ fs) =
      (word a / 0x100_0000 ≡ f.kind)
      × (word a / 0x1_0000 % 0x100 / 4 ≡ f.payload)
      × IsLaid (a + 4 * (1 + f.payload)) fs

  scan_info-end :
      (fuel field end mode : ℕ) → end ≤ field → scan_info word fuel field end mode ≡ some none
  unfolding scan_info
  scan_info-end zero field end mode h = rw (le→ltb field end h)
  scan_info-end (suc k) field end mode h = rw (le→ltb field end h)

  scan_info-hit :
      (k field end mode : ℕ)
      → field < end
      → (word field / 0x100_0000 == mode) ≡ true
      → scan_info word (suc k) field end mode ≡ some (some field)
  unfolding scan_info
  scan_info-hit k field end mode h hit = rw (lt→ltb field end h, hit)

  scan_info-next :
      (k field end mode : ℕ) {next : ℕ}
      → field < end
      → (word field / 0x100_0000 == mode) ≡ false
      → add32 field (word field / 0x1_0000 % 0x100 / 4 * 4 + 4) ≡ next
      → scan_info word (suc k) field end mode ≡ scan_info word k next end mode
  unfolding scan_info
  scan_info-next k field end mode h miss e = rw (lt→ltb field end h, miss, e)

  scan_info-ends :
      (fuel field end mode : ℕ)
      → end ≤ field + 4 * fuel
      → end + 256 < u32_mod
      → (r : Option ℕ) × (scan_info word fuel field end mode ≡ some r)
  scan_info-ends zero field end mode enough small =
      (none, scan_info-end zero field end mode (omega arith))
  scan_info-ends (suc k) field end mode enough small = elim (dec_lt field end) [
    | no h ↦ (none, scan_info-end (suc k) field end mode (omega arith))
    | yes h ↦ elim (Bool-cases (word field / 0x100_0000 == mode)) [
      | inl hit ↦ (some field, scan_info-hit k field end mode h hit)
      | inr miss ↦
          let step : ℕ = word field / 0x1_0000 % 0x100 / 4 * 4 + 4 in
          let (r, run) = scan_info-ends k (field + step) end mode (omega arith) small in
          (r, scan_info-next k field end mode {next = field + step} h miss (omega arith) ∙ run)
    ]
  ]

  scan_info-finds :
      (fields : List InfoField) (fuel field end mode : ℕ)
      → IsLaid field fields
      → end ≡ field + 4 * info_words fields
      → info_words fields ≤ fuel
      → end + 256 < u32_mod
      → scan_info word fuel field end mode ≡ some (find_field field fields mode)
  unfolding IsLaid
  scan_info-finds [] fuel field end mode laid e enough small =
      scan_info-end fuel field end mode (omega arith)
  scan_info-finds (f ∷ fs) zero field end mode laid e enough small = absurd (omega arith)
  scan_info-finds (f ∷ fs) (suc k) field end mode (kind, payload, laid) e enough small =
      elim (Bool-cases (f.kind == mode)) [
        | inl hit ↦
            scan_info-hit k field end mode (omega arith) (ap (λ n. n == mode) kind ∙ hit)
            ∙ rw hit refl
        | inr miss ↦
            scan_info-next k field end mode {next = field + 4 * (1 + f.payload)} (omega arith)
              (ap (λ n. n == mode) kind ∙ miss) (omega arith)
            ∙ scan_info-finds fs k (field + 4 * (1 + f.payload)) end mode laid (omega arith)
                (omega arith) small
            ∙ rw miss refl
      ]

  -- GetFileInfo ends, whatever memory holds, when the extended information is 256 bytes or more below
  -- the end of the address space.
  get_file_info-ends :
      (stat : RomdirFileStat) (mode : ℕ)
      → stat.extinfo + stat.romdirent.ext_info_entry_size + 256 < u32_mod
      → (r : Option ℕ) × (get_file_info word stat mode ≡ some r)
  unfolding get_file_info
  get_file_info-ends stat mode small =
      scan_info-ends (stat.romdirent.ext_info_entry_size / 4) stat.extinfo _ mode (omega arith)
        (omega arith)

  -- Where the words of the extended information are a sequence of fields, GetFileInfo returns the
  -- address of the first one of the type asked for, and NULL when there is none.
  pub get_file_info-finds :
      (stat : RomdirFileStat) (mode : ℕ) (fields : List InfoField)
      → IsLaid stat.extinfo fields
      → info_words fields ≡ stat.romdirent.ext_info_entry_size / 4
      → stat.extinfo + stat.romdirent.ext_info_entry_size + 256 < u32_mod
      → get_file_info word stat mode ≡ some (find_field stat.extinfo fields mode)
  unfolding get_file_info
  get_file_info-finds stat mode fields laid size small =
      scan_info-finds fields (stat.romdirent.ext_info_entry_size / 4) stat.extinfo _ mode laid
        (omega arith) (omega arith) (omega arith)
