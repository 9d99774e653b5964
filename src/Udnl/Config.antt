-- ===== src/Udnl/Config.antt =====
-- modules/udnl/udnl.c: ParseIOPBTCONF, which reads the boot configuration and lists the modules to load.
-- The text is the bytes of the file; what stands behind it in memory is no character of a name or a
-- number.
pub mod Listing
pub mod Order
mod Tests
pub mod Ends
use ps2esdl.Prelude.{
  ℕ, zero, suc, ◌+◌, Bool, true, false, not, ◌&&◌, Option, none, some, List, [], ◌∷◌, ltb, leb,
  ◌==◌, if◌then◌else◌, length, drop, add32, sub32, mul32,
}
use ps2esdl.Udnl.Address.{parse_start_address}
use ps2esdl.Udnl.Romdir.{RomdirFileStat}
use ps2esdl.Udnl.Modules.{ImageData, scan_images_for_file, select_module_from_images}
use ps2esdl.Udnl.Loader.{Mem, write}

-- `panic` is a `break` of the code, `lost` that the model knows no more.
pub data Result {ℓ} (A : Type ℓ) : Type ℓ where
  ok : A → Result A
  panic : Result A
  lost : Result A

infixl 5 ◌>>=◌
abbrev pub ◌>>=◌ {ℓ κ} : {A : Type ℓ} {B : Type κ} → Result A → (A → Result B) → Result B
ok a >>= f = f a
panic >>= f = panic
lost >>= f = lost

-- The result of a search that may be NULL, which is answered by a `break`
abbrev pub or_panic {ℓ} : {A : Type ℓ} → Option (Option A) → Result A
or_panic none = lost
or_panic (some none) = panic
or_panic (some (some a)) = ok a

-- `c >= 0x20` for a `char`
abbrev pub is_text : ℕ → Bool
is_text c = leb 0x20 c && ltb c 0x80

-- The two loops that go on to the next line
unfoldable pub skip_text : List ℕ → List ℕ
skip_text [] = []
skip_text (c ∷ cs) = if is_text c then skip_text cs else c ∷ cs

unfoldable pub skip_control : List ℕ → List ℕ
skip_control [] = []
skip_control (c ∷ cs) = if is_text c then c ∷ cs else skip_control cs

unfoldable pub next_line : List ℕ → List ℕ
next_line text = skip_control (skip_text text)

-- `strncmp(ptr, prefix, n)==0`
unfoldable pub starts_with : List ℕ → List ℕ → Bool
starts_with [] text = true
starts_with (p ∷ ps) [] = false
starts_with (p ∷ ps) (c ∷ cs) = p == c && starts_with ps cs

-- `filename_temp`
unfoldable pub text_of_line : List ℕ → List ℕ
text_of_line [] = []
text_of_line (c ∷ cs) = let rest = text_of_line cs in if is_text c then c ∷ rest else []

-- `!addr ` and `!include `
abbrev pub addr_command : List ℕ
addr_command = 0x21 ∷ 0x61 ∷ 0x64 ∷ 0x64 ∷ 0x72 ∷ 0x20 ∷ []

abbrev pub include_command : List ℕ
include_command = 0x21 ∷ 0x69 ∷ 0x6e ∷ 0x63 ∷ 0x6c ∷ 0x75 ∷ 0x64 ∷ 0x65 ∷ 0x20 ∷ []

-- What a line asks for
pub data Directive : Type 0 where
  start : ℕ → Directive
  address : ℕ → Directive
  include : List ℕ → Directive
  nothing : Directive
  load : List ℕ → Directive

-- The switch: what the line asks for, and where the pointer is left.
unfoldable pub directive : List ℕ → Directive × List ℕ
directive [] = (nothing, [])
directive (c ∷ cs) =
    let text = c ∷ cs in
    let started = parse_start_address cs in
    let addressed = parse_start_address (drop 6 text) in
    let included = drop 9 text in
    if c == 0x40
    then (start started.0, started.1)
    else (if c == 0x21
        then (if starts_with addr_command text
            then (address addressed.0, addressed.1)
            else (if starts_with include_command text
                then (include (text_of_line included), skip_text included)
                else (nothing, text)))
        else (if c == 0x23 then (nothing, text) else (load text, text)))

-- The fields of `struct ResetData` that are written; `mod_data` is the array of the modules.
pub record ResetData : Type 0 where
  pub start_address : ℕ
  pub num_modules : ℕ
  pub mod_data : Mem

-- `ModList`, as the index that it points to, and `NumModules`
pub record Cursor : Type 0 where
  pub mod_list : ℕ
  pub num_modules : ℕ

-- A pointer is put into the list, and NULL behind it.
unfoldable pub append : ℕ → Cursor → ResetData → Cursor × ResetData
append v c r =
    let at = c.mod_list + c.num_modules in
    (
      record c { num_modules = c.num_modules + 1 },
      record r {
        num_modules = r.num_modules + 1;
        mod_data = write (write r.mod_data at v) (at + 1) 0;
      },
    )

-- Looking a file up among the first images, the bytes of a file, and the choice of a module among the
-- first images by the line that it is named in
pub record Images : Type 0 where
  pub scan : ℕ → List ℕ → Option (Option RomdirFileStat)
  pub text : RomdirFileStat → List ℕ
  pub select : ℕ → List ℕ → Option (Option RomdirFileStat)

-- The images that were loaded; `word` is memory and `text` the bytes of a file in it.
unfoldable pub boot_images : Mem → (RomdirFileStat → List ℕ) → List ImageData → Images
boot_images word text list = record {
  scan = scan_images_for_file list;
  text = text;
  select = select_module_from_images word list;
}

module _ (images : Images) where
  abbrev pub Parser : Type 0
  Parser = ℕ → List ℕ → ResetData → Result ResetData

  -- The branches of the switch, with the parser for the file of an `!include`
  unfoldable pub carry_out :
      Parser → ℕ → Directive → Cursor → ResetData → Result (Cursor × ResetData)
  carry_out parser num_files (start a) c r = ok (c, record r { start_address = a })
  carry_out parser num_files (address a) c r = ok (append (add32 (mul32 a 4) 1) c r)
  carry_out parser num_files (include name) c r =
      or_panic (images.scan (sub32 num_files 1) name) >>= λ stat.
      parser (sub32 num_files 1) (images.text stat) r >>= λ r1.
      ok (record { mod_list = r1.num_modules; num_modules = 0 }, r1)
  carry_out parser num_files nothing c r = ok (c, r)
  carry_out parser num_files (load line) c r =
      or_panic (images.select num_files line) >>= λ stat. ok (append stat.data_start c r)

  -- The loop over the lines, on fuel; it ends where the text does.
  unfoldable pub parse_lines : Parser → ℕ → ℕ → List ℕ → Cursor → ResetData → Result ResetData
  parse_lines parser num_files fuel [] c r = ok r
  parse_lines parser num_files zero (x ∷ xs) c r = lost
  parse_lines parser num_files (suc fuel) (x ∷ xs) c r =
      carry_out parser num_files (directive (x ∷ xs)).0 c r >>= λ s.
      parse_lines parser num_files fuel (next_line (directive (x ∷ xs)).1) s.0 s.1

  -- `ParseIOPBTCONF`, on fuel for the depth of its recursion
  unfoldable pub parse_iopbtconf : ℕ → Parser
  parse_iopbtconf zero num_files text r = lost
  parse_iopbtconf (suc depth) num_files text r =
      parse_lines (parse_iopbtconf depth) num_files (length text) text
        (record { mod_list = r.num_modules; num_modules = 0 }) r
